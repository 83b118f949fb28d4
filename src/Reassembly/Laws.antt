-- ===== src/Reassembly/Laws.antt =====
-- What Push of internal/reassembly/reassembly.go keeps, and how an in-order stream is put together.
use mathlib.Core.List.{append-nil, append_assoc}
use gov_pass.Prelude.{
  ℕ, ◌≡◌, refl, sym, ◌∙◌, Bool, true, false, ◌&&◌, Option, some, List, [], ◌∷◌, ◌++◌, length, ltb,
  leb, ◌==◌, drop, if◌then◌else◌, if_cases, is_empty,
}
use gov_pass.Reassembly.{
  PushError, insert, place_at, Segment, Buffer, u32, add32, sub32, compact_loop, compact, merge,
  place, trim_prefix, push,
}

-- After a push, whatever came of it: the start of the stream and the limit are as they were, the
-- prefix that was put together is there with more behind it, and an error leaves all but the two
-- marks of disorder alone.
pub record Kept (b : Buffer) (o : Buffer × Option PushError) : Type 0 where
  pub base : o.0.base_seq ≡ b.base_seq
  pub limit : o.0.max_bytes ≡ b.max_bytes
  pub more : List ℕ
  pub grows : o.0.contig ≡ b.contig ++ more
  pub refused :
      (e : PushError)
      → o.1 ≡ some e
      → o.0 ≡ record b { had_out_of_order = o.0.had_out_of_order; had_overlap = o.0.had_overlap }

-- Only the marks differ.
marked-Kept :
    (b : Buffer) (x y : Bool) (r : Option PushError)
    → Kept b (record b { had_out_of_order = x; had_overlap = y }, r)
marked-Kept b x y r = record {
  base = refl;
  limit = refl;
  more = [];
  grows = sym (append-nil b.contig);
  refused = λ e h. refl;
}

-- A push into a buffer with other marks.
remarked-Kept :
    (b : Buffer) (x y : Bool) {o : Buffer × Option PushError}
    → Kept (record b { had_out_of_order = x; had_overlap = y }) o
    → Kept b o
remarked-Kept b x y k = record {
  base = k.base;
  limit = k.limit;
  more = k.more;
  grows = k.grows;
  refused = k.refused;
}

compact_loop-grows :
    (contig : List ℕ) (contig_len : ℕ) (segs : List Segment)
    → (more : List ℕ) × ((compact_loop contig contig_len segs).0 ≡ contig ++ more)
unfolding compact_loop
compact_loop-grows contig contig_len [] = ([], sym (append-nil contig))
compact_loop-grows contig contig_len (s ∷ segs) =
    let ih =
      compact_loop-grows (contig ++ s.bytes) (add32 contig_len (u32 (length s.bytes))) segs in
    if_cases (λ (r : List ℕ × ℕ × List Segment). (more : List ℕ) × (r.0 ≡ contig ++ more))
      (s.offset == contig_len) (λ _. (s.bytes ++ ih.0, ih.1 ∙ append_assoc contig s.bytes ih.0))
      (λ _. ([], sym (append-nil contig)))

insert-Kept :
    (b : Buffer) (offset : ℕ) (payload : List ℕ) (left right start end : ℕ)
    → Kept b (insert b offset payload left right start end)
unfolding insert compact
insert-Kept b offset payload left right start end =
    if_cases (Kept b) (ltb b.max_bytes _) (λ _. marked-Kept b _ _ _)
      λ _.
        let moved = compact_loop-grows b.contig b.contig_len _ in
        record { base = refl; limit = refl; more = moved.0; grows = moved.1; refused = λ e h. cc }

-- With or without a mark.
insert_marked-Kept :
    (b : Buffer) (test : Bool) (offset : ℕ) (payload : List ℕ) (left right start end : ℕ)
    → Kept b (
        insert
          (if test then record b { had_overlap = true } else b)
          offset
          payload
          left
          right
          start
          end)
insert_marked-Kept b true offset payload left right start end =
    remarked-Kept b b.had_out_of_order true (insert-Kept _ offset payload left right start end)
insert_marked-Kept b false offset payload left right start end =
    insert-Kept b offset payload left right start end

merge-Kept : (b : Buffer) (offset : ℕ) (payload : List ℕ) → Kept b (merge b offset payload)
unfolding merge
merge-Kept b offset payload = insert_marked-Kept b _ offset payload _ _ _ _

place_at-Kept : (b : Buffer) (offset : ℕ) (payload : List ℕ) → Kept b (place_at b offset payload)
unfolding place_at
place_at-Kept b offset payload =
    if_cases (Kept b) (offset == b.contig_len && is_empty b.segments)
      (λ _.
        if_cases (Kept b) (ltb b.max_bytes _) (λ _. marked-Kept b _ _ _)
          λ _. record {
            base = refl;
            limit = refl;
            more = payload;
            grows = refl;
            refused = λ e h. cc;
          })
      (λ _. merge-Kept b offset payload)

place_marked-Kept :
    (b : Buffer) (test : Bool) (offset : ℕ) (payload : List ℕ)
    → Kept b (place_at (if test then b else record b { had_out_of_order = true }) offset payload)
place_marked-Kept b true offset payload = place_at-Kept b offset payload
place_marked-Kept b false offset payload =
    remarked-Kept b true b.had_overlap (place_at-Kept _ offset payload)

place-Kept :
    (b : Buffer) (offset : ℕ) (payload : List ℕ) (end : ℕ) → Kept b (place b offset payload end)
unfolding place
place-Kept b offset payload end =
    if_cases (Kept b) (ltb b.max_bytes end) (λ _. marked-Kept b _ _ _)
      λ _. place_marked-Kept b _ offset payload

trim_prefix-Kept :
    (b : Buffer) (offset : ℕ) (payload : List ℕ) → Kept b (trim_prefix b offset payload)
unfolding trim_prefix
trim_prefix-Kept b offset payload =
    let rest = drop (sub32 b.contig_len offset) payload in
    let end = add32 b.contig_len (u32 (length rest)) in
    let same : (r : Option PushError) → Kept b (record b { had_overlap = true }, r) =
      λ r. marked-Kept b b.had_out_of_order true r in
    if_cases (Kept b) (ltb end b.contig_len) (λ _. same _)
      λ _.
        if_cases (Kept b) (is_empty rest) (λ _. same _)
          λ _. remarked-Kept b b.had_out_of_order true (place-Kept _ b.contig_len rest end)

-- Push, of any bytes at any sequence number into any buffer, keeps the start of the stream and the
-- limit, and all that the prefix has, behind which it may put more; and when it returns an error,
-- the prefix, the segments and the counters are as they were.
pub push-Kept : (b : Buffer) (seq : ℕ) (payload : List ℕ) → Kept b (push b seq payload)
unfolding push
push-Kept b seq payload =
    let same : (r : Option PushError) → Kept b (b, r) = λ r. marked-Kept b _ _ r in
    let offset = sub32 seq b.base_seq in
    let end = add32 offset (u32 (length payload)) in
    if_cases (Kept b) (is_empty payload) (λ _. same _)
      λ _.
        if_cases (Kept b) (b.max_bytes == 0) (λ _. same _)
          λ _.
            if_cases (Kept b) (leb b.max_bytes offset) (λ _. same _)
              λ _.
                if_cases (Kept b) (ltb end offset) (λ _. same _)
                  λ _.
                    if_cases (Kept b) (leb end b.contig_len) (λ _. same _)
                      λ _.
                        if_cases (Kept b) (ltb offset b.contig_len)
                          (λ _. trim_prefix-Kept b offset payload)
                          (λ _. place-Kept b offset payload end)
