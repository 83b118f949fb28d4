-- ===== src/Reassembly/Stream.antt =====
-- A stream that comes in order, through Push of internal/reassembly/reassembly.go.
use mathlib.Core.List.{append-nil, append_assoc}
use gov_pass.Prelude.{
  ℕ, ◌+◌, ◌^◌, ◌≤◌, ◌<◌, ◌≡◌, refl, sym, ap, ◌∙◌, true, false, Option, none, List, [], ◌∷◌, ◌++◌,
  arith, length, ltb, leb, ◌==◌, is_empty, concat, length-append,
}
use gov_pass.Reassembly.{PushError, Buffer, u32, add32, sub32, push, place, place_at, new_buffer}

-- A buffer in which nothing waits.
pub record InOrder (b : Buffer) : Type 0 where
  pub nothing_waits : b.segments ≡ []
  pub counted : b.contig_len ≡ length b.contig
  pub all_counted : b.total_bytes ≡ b.contig_len
  pub small : b.max_bytes < 2 ^ 32
  pub base : b.base_seq < 2 ^ 32

-- The buffer with a payload behind its prefix.
abbrev pub with_next : Buffer → List ℕ → Buffer
with_next b payload = record b {
  contig = b.contig ++ payload;
  contig_len = b.contig_len + length payload;
  total_bytes = b.total_bytes + length payload;
}

-- The place where the prefix ends.
place_at-next :
    (b : Buffer) (payload : List ℕ)
    → InOrder b
    → b.contig_len + length payload ≤ b.max_bytes
    → place_at b b.contig_len payload ≡ (with_next b payload, none)
unfolding place_at
place_at-next b payload v h =
    let n = length payload in
    let grown : add32 b.contig_len (u32 n) ≡ b.contig_len + n = omega (arith, h, v.small) in
    let total : add32 b.total_bytes (u32 n) ≡ b.total_bytes + n =
      omega (arith, h, v.small, v.all_counted) in
    let here : (b.contig_len == b.contig_len) ≡ true = ground arith in
    let fits : ltb b.max_bytes (b.total_bytes + n) ≡ false = ground (arith, h, v.all_counted) in
    rw v.nothing_waits (rw here (rw total (rw fits (rw grown refl))))

-- The next fragment of the stream.
push-next :
    (b : Buffer) (payload : List ℕ)
    → InOrder b
    → 1 ≤ length payload
    → b.contig_len + length payload ≤ b.max_bytes
    → push b (add32 b.base_seq b.contig_len) payload ≡ (with_next b payload, none)
unfolding push place
push-next b payload v some_bytes h =
    let n = length payload in
    let offset : sub32 (add32 b.base_seq b.contig_len) b.base_seq ≡ b.contig_len =
      omega (arith, h, v.small, v.base) in
    let end : add32 b.contig_len (u32 n) ≡ b.contig_len + n = omega (arith, h, v.small) in
    let whole : is_empty payload ≡ false = not_empty payload some_bytes in
    let room : (b.max_bytes == 0) ≡ false = ground arith in
    let inside : leb b.max_bytes b.contig_len ≡ false = ground arith in
    let forward : ltb (b.contig_len + n) b.contig_len ≡ false = ground arith in
    let fresh : leb (b.contig_len + n) b.contig_len ≡ false = ground arith in
    let behind : ltb b.contig_len b.contig_len ≡ false = ground arith in
    let fits : ltb b.max_bytes (b.contig_len + n) ≡ false = ground arith in
    let here : (b.contig_len == b.contig_len) ≡ true = ground arith in
    rw whole (
      rw room (
        rw offset (
          rw inside (
            rw end (
              rw forward
                (rw fresh (rw behind (rw fits (rw here (place_at-next b payload v h))))))))))
  where
    not_empty : (xs : List ℕ) → 1 ≤ length xs → is_empty xs ≡ false
    not_empty [] h = ground arith
    not_empty (x ∷ xs) h = refl

with_next-InOrder : (b : Buffer) (payload : List ℕ) → InOrder b → InOrder (with_next b payload)
with_next-InOrder b payload v = record {
  nothing_waits = v.nothing_waits;
  counted = omega (arith, v.counted, length-append b.contig payload);
  all_counted = omega (arith, v.all_counted);
  small = v.small;
  base = v.base;
}

-- Each payload is pushed where the one before it ends.
pub push_all : Buffer → ℕ → List (List ℕ) → Buffer
push_all b seq [] = b
push_all b seq (payload ∷ rest) =
    push_all (push b seq payload).0 (add32 seq (u32 (length payload))) rest

push_all-contig :
    (payloads : List (List ℕ)) (b : Buffer) (seq : ℕ)
    → InOrder b
    → seq ≡ add32 b.base_seq b.contig_len
    → b.contig_len + length (concat payloads) ≤ b.max_bytes
    → (push_all b seq payloads).contig ≡ b.contig ++ concat payloads
unfolding push_all push
push_all-contig [] b seq v e h = sym (append-nil b.contig)
push_all-contig ([] ∷ rest) b seq v e h =
    push_all-contig rest b (add32 seq (u32 0)) v (omega (arith, e)) h
push_all-contig ((x ∷ xs) ∷ rest) b seq v e h =
    let p = x ∷ xs in
    let fits = length-append p (concat rest) in
    let next : push b seq p ≡ (with_next b p, none) =
      ap (λ s. push b s p) e ∙ push-next b p v (omega arith) (omega (arith, h, fits)) in
    ap (λ (o : Buffer × Option PushError). (push_all o.0 (add32 seq (u32 (length p))) rest).contig)
      next
    ∙ push_all-contig rest (with_next b p) _ (with_next-InOrder b p v)
        (omega (arith, e, h, fits, v.small)) (omega (arith, h, fits))
    ∙ append_assoc b.contig p (concat rest)

-- Payloads that are pushed in order into a fresh buffer, from any first sequence number on, across
-- the wrap-around too, put the stream together, as long as it fits in the buffer's limit, which is
-- below 2 ^ 32.
pub push_all-new :
    (base max : ℕ) (payloads : List (List ℕ))
    → base < 2 ^ 32
    → max < 2 ^ 32
    → length (concat payloads) ≤ max
    → (push_all (new_buffer base max) base payloads).contig ≡ concat payloads
unfolding new_buffer
push_all-new base max payloads b m h =
    push_all-contig payloads (new_buffer base max) base
      (record { nothing_waits = refl; counted = refl; all_counted = refl; small = m; base = b })
      (omega (arith, b)) (omega (arith, h))
