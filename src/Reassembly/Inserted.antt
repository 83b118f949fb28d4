-- ===== src/Reassembly/Inserted.antt =====
-- The segments after Push of internal/reassembly/reassembly.go has put a new one among them: still a
-- chain, with the new bytes over the old.
use gov_pass.Prelude.{
  ℕ, ◌+◌, ◌-◌, ◌^◌, ◌≤◌, ◌<◌, ◌≡◌, refl, sym, ap, ◌∙◌, ◌⊎◌, inl, inr, false, ◌&&◌, Option, none,
  some, List, ◌∷◌, ◌++◌, arith, length, get_or, ltb, leb, Bool-cases, drop, take, copy_at,
  length-copy_at, replicate, length-replicate, drop-length, take-length, drop-drop,
}
use gov_pass.Reassembly.{Segment, copy_segments}
use gov_pass.Reassembly.Chain.{
  over, Chain, holds, seg_byte, or_else, seg_byte-append, seg_byte-below, seg_byte-above,
  Chain-append,
}
use gov_pass.Reassembly.Split.{Split}
use gov_pass.Reassembly.Merged.{
  value_or, spread, length-copy_segments, get_or-copy_at_in, get_or-copy_at_out,
  get_or-copy_segments,
}

module _ {lo max off e : ℕ} {segs : List Segment} {left right start end : ℕ}
    (s : Split lo max off e segs left right start end) where
  -- The slices that the code takes.
  pub cut_before : take left segs ≡ s.before
  cut_before = rw s.left_index (rw s.whole (take-length s.before (s.inside ++ s.behind)))

  cut_rest : drop left segs ≡ s.inside ++ s.behind
  cut_rest = rw s.left_index (rw s.whole (drop-length s.before (s.inside ++ s.behind)))

  pub cut_inside : take (right - left) (drop left segs) ≡ s.inside
  cut_inside =
      let n : right - left ≡ length s.inside = omega (arith, s.left_index, s.right_index) in
      rw cut_rest (rw n (take-length s.inside s.behind))

  pub cut_behind : drop right segs ≡ s.behind
  cut_behind =
      let n : right ≡ left + length s.inside = omega (arith, s.left_index, s.right_index) in
      rw n (
        sym (drop-drop left (length s.inside) segs)
        ∙ ap (drop (length s.inside)) cut_rest
        ∙ drop-length s.inside s.behind)

  module _ (payload : List ℕ) (some_bytes : 1 ≤ length payload) (fits : e ≡ off + length payload)
      (m : max < 2 ^ 32) where
    -- The segment that takes their place.
    abbrev pub merged_bytes : List ℕ
    merged_bytes =
        copy_at (copy_segments (replicate (end - start) 0) start s.inside) (off - start) payload

    abbrev pub merged_segment : Segment
    merged_segment = record { offset = start; bytes = merged_bytes }

    abbrev pub new_segments : List Segment
    new_segments = s.before ++ merged_segment ∷ s.behind

    length-copied : length (copy_segments (replicate (end - start) 0) start s.inside) ≡ end - start
    length-copied =
        length-copy_segments s.inside (replicate (end - start) 0) start
        ∙ length-replicate (end - start) 0

    pub length-merged : length merged_bytes ≡ end - start
    length-merged = length-copy_at _ (off - start) payload ∙ length-copied

    over-merged : over merged_segment ≡ end
    over-merged = omega (arith, length-merged, s.from_start, s.to_end, fits)

    pub new_segments-Chain : Chain lo max new_segments
    new_segments-Chain = Chain-append lo max s.before (merged_segment ∷ s.behind) s.before_chain (
      s.before_start,
      omega (arith, length-merged, s.from_start, s.to_end, fits, some_bytes),
      omega (arith, over-merged, s.limit),
      rw over-merged s.behind_chain,
    )

    -- Inside the merged segment.
    merged-byte :
        (k : ℕ)
        → start ≤ k
        → k < end
        → some (get_or merged_bytes (k - start) 0) ≡ spread off payload k (seg_byte s.inside k)
    merged-byte k a b =
        let j : k - start < length (copy_segments (replicate (end - start) 0) start s.inside) =
          omega (arith, length-copied, a, b) in
        let copied = copy_segments (replicate (end - start) 0) start s.inside in
        elim (Bool-cases (leb off k && ltb k (off + length payload))) [
          | inl new ↦ rw new (
              ap some (
                get_or-copy_at_in copied payload (off - start) (k - start) j
                  (ground (arith, s.from_start)) (ground (arith, s.from_start))
                ∙ ap (λ n. get_or payload n 0) (ground (arith, s.from_start))))
          | inr old ↦
              let out : (k < off) ⊎ (e ≤ k) = ground (arith, fits) in
              let byte = s.covers k a b out in
              let place : start + (k - start) ≡ k = omega (arith, a) in
              rw old (
                ap some (
                  get_or-copy_at_out copied payload (off - start) (k - start) j
                    (ground (arith, s.from_start, a))
                  ∙ get_or-copy_segments s.inside (replicate (end - start) 0) start start max
                      (k - start) s.inside_chain (omega arith) m
                      (omega (arith, length-replicate {A = ℕ} (end - start) 0, a, b))
                  ∙ ap
                      (λ n.
                        value_or (seg_byte s.inside n)
                          (get_or (replicate (end - start) 0) (k - start) 0))
                      place
                  ∙ ap (λ o. value_or o (get_or (replicate (end - start) 0) (k - start) 0)) byte.1)
                ∙ sym byte.1)
        ]

    before-byte : (k : ℕ) → start ≤ k → seg_byte s.before k ≡ none
    before-byte k a =
        seg_byte-above lo max k s.before s.before_chain (omega (arith, a, s.before_start))

    behind-byte : (k : ℕ) → k < end → seg_byte s.behind k ≡ none
    behind-byte k b = seg_byte-below (end + 1) max k s.behind s.behind_chain (omega (arith, b))

    inside-byte : (k : ℕ) → (k < start) ⊎ (end ≤ k) → seg_byte s.inside k ≡ none
    inside-byte k (inl a) = seg_byte-below start max k s.inside s.inside_chain a
    inside-byte k (inr b) =
        seg_byte-above start max k s.inside s.inside_chain (omega (arith, b, s.inside_end))

    old-byte :
        (k : ℕ)
        → seg_byte segs k
          ≡ or_else (seg_byte s.before k) (or_else (seg_byte s.inside k) (seg_byte s.behind k))
    old-byte k =
        ap (λ l. seg_byte l k) s.whole
        ∙ seg_byte-append s.before (s.inside ++ s.behind) k
        ∙ ap (or_else (seg_byte s.before k)) (seg_byte-append s.inside s.behind k)

    -- Outside the merged segment nothing has changed.
    outside-byte :
        (k : ℕ)
        → (k < start) ⊎ (end ≤ k)
        → seg_byte new_segments k ≡ spread off payload k (seg_byte segs k)
    unfolding seg_byte
    outside-byte k out =
        let miss : holds merged_segment k ≡ false = elim out [
          | inl a ↦ ground (arith, a)
          | inr b ↦ ground (arith, over-merged, b)
        ] in
        let old : (leb off k && ltb k (off + length payload)) ≡ false = elim out [
          | inl a ↦ ground (arith, a, s.from_start)
          | inr b ↦ ground (arith, b, s.to_end, fits)
        ] in
        seg_byte-append s.before (merged_segment ∷ s.behind) k
        ∙ rw miss (
            rw old (
              sym (
                old-byte k
                ∙ ap (λ o. or_else (seg_byte s.before k) (or_else o (seg_byte s.behind k)))
                    (inside-byte k out))))

    -- The bytes of the stream after it: the new ones where they are, the old ones elsewhere.
    pub new_segments-byte :
        (k : ℕ) → seg_byte new_segments k ≡ spread off payload k (seg_byte segs k)
    unfolding seg_byte
    new_segments-byte k = elim (Bool-cases (holds merged_segment k)) [
      | inl hit ↦
          let a : start ≤ k = ground arith in
          let b : k < end = ground (arith, over-merged) in
          seg_byte-append s.before (merged_segment ∷ s.behind) k
          ∙ rw (before-byte k a) (
              rw hit (
                merged-byte k a b
                ∙ ap (spread off payload k) (
                    sym (
                      old-byte k
                      ∙ rw (before-byte k a)
                          (rw (behind-byte k b) (or_else-none (seg_byte s.inside k)))))))
      | inr miss ↦ outside-byte k (ground (arith, over-merged))
    ]
      where
        or_else-none : (o : Option ℕ) → or_else o none ≡ o
        or_else-none none = refl
        or_else-none (some v) = refl
