-- ===== src/Reassembly/Writes.antt =====
-- Push of internal/reassembly/reassembly.go, whole: when it accepts a fragment, what it writes, and
-- that its invariant holds after any pushes.
use gov_pass.Prelude.{
  ℕ, ◌+◌, ◌^◌, ◌≤◌, ◌<◌, ◌≡◌, ◌↔◌, refl, ap, sym, ◌∙◌, ◌⊎◌, inl, inr, true, false, Option, none,
  some, List, [], ◌∷◌, arith, length, get_or, ltb, leb, if◌then◌else◌, Bool-cases,
}
use gov_pass.Reassembly.{Buffer, PushError, sub32, push, new_buffer}
use gov_pass.Reassembly.Laws.{Kept, push-Kept}
use gov_pass.Reassembly.Chain.{seg_byte-below}
use gov_pass.Reassembly.Merged.{spread}
use gov_pass.Reassembly.View.{view, IsWellFormed}
use gov_pass.Reassembly.Refinement.{remarked}
use gov_pass.Reassembly.Branches.{accepted-Written, refused-error}

-- Push as an operation on the stream: what it is to do with a fragment at `off`.
pub record Refines (b : Buffer) (off : ℕ) (payload : List ℕ) (o : Buffer × Option PushError)
    : Type 0 where
  pub valid : IsWellFormed o.0
  pub accepts : (o.1 ≡ none) ↔ ((payload ≡ []) ⊎ (off + length payload ≤ b.max_bytes))
  pub writes :
      o.1 ≡ none
      → (k : ℕ)
      → view o.0 k ≡ (if ltb k b.contig_len then view b k else spread off payload k (view b k))
  pub refuses : (e : PushError) → o.1 ≡ some e → (k : ℕ) → view o.0 k ≡ view b k

-- An error leaves a buffer that holds the same.
refused-Refines :
    (b : Buffer) (off : ℕ) (payload : List ℕ) (o : Buffer × Option PushError) (e : PushError)
    → IsWellFormed b
    → Kept b o
    → o.1 ≡ some e
    → 1 ≤ length payload
    → b.max_bytes < off + length payload
    → Refines b off payload o
refused-Refines b off payload o e v kept failed some_bytes beyond =
    let same = kept.refused e failed in
    record {
      valid = rw same (remarked b _ _ v);
      accepts = (
        λ ok. cc,
        λ fits. absurd (elim fits [
          | inl nothing ↦ omega (arith, some_bytes, ap length nothing)
          | inr small ↦ omega (arith, small, beyond)
        ]),
      );
      writes = λ ok. cc;
      refuses = λ _ _ k. ap (λ (x : Buffer). view x k) same;
    }

-- Push, in a buffer that is well-formed, of a fragment shorter than 2 ^ 32, is the write of its bytes
-- to the stream: it accepts the fragment exactly when it is empty or ends within the limit; then the
-- prefix keeps its bytes, behind it the fragment's bytes stand wherever it has some, also in place of
-- bytes that waited there before, and all else is as it was; and when it refuses the fragment, no byte
-- changes. The buffer is well-formed in every case.
pub push-Refines :
    (b : Buffer) (seq : ℕ) (payload : List ℕ)
    → IsWellFormed b
    → length payload < 2 ^ 32
    → Refines b (sub32 seq b.base_seq) payload (push b seq payload)
unfolding push
push-Refines b seq [] v short = record {
  valid = v;
  accepts = (λ _. inl refl, λ _. refl);
  writes = λ _ k. ground arith;
  refuses = λ e failed. cc;
}
push-Refines b seq (x ∷ xs) v short =
    let payload = x ∷ xs in
    let off = sub32 seq b.base_seq in
    let some_bytes : 1 ≤ length payload = omega arith in
    elim (Bool-cases (leb (off + length payload) b.max_bytes)) [
      | inl small ↦
          let fits : off + length payload ≤ b.max_bytes = ground arith in
          let w = accepted-Written b v off payload some_bytes seq refl fits in
          record {
            valid = w.valid;
            accepts = (λ _. inr fits, λ _. w.done);
            writes = λ _. w.bytes;
            refuses = λ e failed. cc (w.done, failed);
          }
      | inr large ↦
          let beyond : b.max_bytes < off + length payload = ground arith in
          let failed =
            refused-error b v off payload some_bytes seq refl short (omega arith) beyond in
          refused-Refines b off payload (push b seq payload) failed.0 v (push-Kept b seq payload)
            failed.1 some_bytes beyond
    ]

-- The prefix of a well-formed buffer is the longest run of bytes from the start of the stream that
-- it holds.
prefix-Longest :
    (b : Buffer)
    → IsWellFormed b
    → ((k : ℕ) → k < length b.contig → view b k ≡ some (get_or b.contig k 0))
      × (view b (length b.contig) ≡ none)
prefix-Longest b v = (
  (λ k h. let inside : ltb k b.contig_len ≡ true = ground (arith, v.counted, h) in rw inside refl),
  (let beyond : ltb (length b.contig) b.contig_len ≡ false = ground (arith, v.counted) in
      rw beyond (
        seg_byte-below (b.contig_len + 1) b.max_bytes (length b.contig) b.segments v.chain
          (omega (arith, v.counted)))),
)

-- After a Push that is accepted, the prefix is the longest run of bytes that there now is from the
-- start of the stream: in a buffer that is well-formed, with a fragment shorter than 2 ^ 32, each byte
-- of the new prefix is the one that the old prefix had at its place, and behind the old prefix the
-- fragment's or else the one that waited there; and at the new prefix's end there was no byte in the
-- old buffer and none in the fragment, so that nothing that can be given out is held back.
pub push-prefix :
    (b : Buffer) (seq : ℕ) (payload : List ℕ)
    → IsWellFormed b
    → length payload < 2 ^ 32
    → (push b seq payload).1 ≡ none
    → let prefix = (push b seq payload).0.contig in
      let after : ℕ → Option ℕ = λ k.
        if ltb k b.contig_len
        then some (get_or b.contig k 0)
        else spread (sub32 seq b.base_seq) payload k (view b k) in
      ((k : ℕ) → k < length prefix → after k ≡ some (get_or prefix k 0))
      × (after (length prefix) ≡ none)
push-prefix b seq payload v short accepted =
    let done = push-Refines b seq payload v short in
    let end = prefix-Longest (push b seq payload).0 done.valid in
    (
      (λ k inside. written b seq payload k ∙ sym (done.writes accepted k) ∙ end.0 k inside),
      written b seq payload (length (push b seq payload).0.contig)
          ∙ sym (done.writes accepted (length (push b seq payload).0.contig))
          ∙ end.1,
    )
  where
    written :
        (b : Buffer) (seq : ℕ) (payload : List ℕ) (k : ℕ)
        → (if ltb k b.contig_len
            then some (get_or b.contig k 0)
            else spread (sub32 seq b.base_seq) payload k (view b k))
          ≡ (if ltb k b.contig_len
              then view b k
              else spread (sub32 seq b.base_seq) payload k (view b k))
    written b seq payload k = ground arith

-- Pushes at any sequence numbers, one behind the other, whatever they return.
pub push_each : Buffer → List (ℕ × List ℕ) → Buffer
push_each b [] = b
push_each b ((seq, payload) ∷ rest) = push_each (push b seq payload).0 rest

abbrev pub AllShort : List (ℕ × List ℕ) → Type 0
AllShort [] = Unit {0}
AllShort ((seq, payload) ∷ rest) = (length payload < 2 ^ 32) × AllShort rest

-- After any pushes of fragments shorter than 2 ^ 32 into a well-formed buffer it is well-formed.
pub push_each-IsWellFormed :
    (pushes : List (ℕ × List ℕ)) (b : Buffer)
    → IsWellFormed b
    → AllShort pushes
    → IsWellFormed (push_each b pushes)
unfolding push_each
push_each-IsWellFormed [] b v short = v
push_each-IsWellFormed ((seq, payload) ∷ rest) b v short =
    push_each-IsWellFormed rest (push b seq payload).0 (push-Refines b seq payload v short.0).valid
      short.1

-- A fresh buffer with a limit below 2 ^ 32 is well-formed.
pub new_buffer-IsWellFormed : (base max : ℕ) → max < 2 ^ 32 → IsWellFormed (new_buffer base max)
unfolding new_buffer
new_buffer-IsWellFormed base max m = record {
  counted = refl;
  chain = tt;
  total = refl;
  within = omega arith;
  small = m;
}
