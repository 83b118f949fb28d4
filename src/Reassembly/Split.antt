-- ===== src/Reassembly/Split.antt =====
-- What the indices of Push in internal/reassembly/reassembly.go cut the segments into: those before
-- the new one, those that touch it, and those behind.
use mathlib.Core.Path.{subst}
use mathlib.Core.List.{append_assoc}
use gov_pass.Prelude.{
  ℕ, ◌+◌, ◌-◌, ◌^◌, ◌≤◌, ◌<◌, ◌≡◌, refl, sym, ap, ◌∙◌, ◌⊎◌, inl, inr, true, false, some, List, [],
  ◌∷◌, ◌++◌, arith, length, get_or, ltb, leb, if◌then◌else◌, Bool-cases, drop, drop-length,
  length-append,
}
use gov_pass.Reassembly.{Segment, seg_end, search, scan_right, left_of, span_left, empty_segment}
use gov_pass.Reassembly.Chain.{
  over, Chain, past, holds, seg_byte, Chain-front, Chain-back, past-snoc, Chain-lower, seg_end_lem,
}
use gov_pass.Reassembly.Span.{search-Found, scan_right-Swallowed}

-- A chain cut into three: `span` is the stretch from the start to the end of what is to stand in
-- the place of `inside`, of which all but the new bytes, from `off` to `e`, is there.
pub record Split (lo max off e : ℕ) (segs : List Segment) (left right start end : ℕ) : Type 0 where
  pub before : List Segment
  pub inside : List Segment
  pub behind : List Segment
  pub whole : segs ≡ before ++ (inside ++ behind)
  pub left_index : left ≡ length before
  pub right_index : right ≡ length before + length inside
  pub before_chain : Chain lo max before
  pub before_start : past lo before ≤ start
  pub inside_chain : Chain start max inside
  pub inside_end : past start inside ≤ end + 1
  pub behind_chain : Chain (end + 1) max behind
  pub from_start : start ≤ off
  pub to_end : e ≤ end
  pub limit : end ≤ max
  pub covers :
      (k : ℕ) → start ≤ k → k < end → (k < off) ⊎ (e ≤ k) → (v : ℕ) × (seg_byte inside k ≡ some v)

get_or-middle :
    (xs zs : List Segment) (y d : Segment) → get_or ((xs ++ y ∷ []) ++ zs) (length xs) d ≡ y
get_or-middle [] zs y d = refl
get_or-middle (x ∷ xs) zs y d = get_or-middle xs zs y d

module _ (lo max off e : ℕ) (m : max < 2 ^ 32) (he : e ≤ max) (order : off < e) where
  -- No segment on the left takes part.
  Split-apart :
      (front back : List Segment)
      → Chain lo max (front ++ back)
      → past lo front ≤ off
      → Chain off max back
      → Split lo max off e
          (front ++ back)
          (length front)
          (length front + (scan_right back e).0)
          off
          (scan_right back e).1
  Split-apart front back ch near ordered =
      let w = scan_right-Swallowed max back off e m ordered (omega (arith, order)) he in
      record {
        before = front;
        inside = w.taken;
        behind = w.left;
        whole = ap (λ t. front ++ t) w.whole;
        left_index = refl;
        right_index = omega (arith, w.count);
        before_chain = Chain-front lo max front back ch;
        before_start = near;
        inside_chain = Chain-front off max w.taken w.left (rw (sym w.whole) ordered);
        inside_end = w.reach;
        behind_chain = w.beyond;
        from_start = omega arith;
        to_end = w.grows;
        limit = w.within;
        covers = λ k a b out. elim out [
          | inl under ↦ absurd (omega (arith, a, under))
          | inr above ↦ w.covers k above b
        ];
      }

  -- The last segment before the new one reaches it.
  Split-touching :
      (init back : List Segment) (t : Segment) (e' : ℕ)
      → Chain lo max ((init ++ t ∷ []) ++ back)
      → t.offset < off
      → off ≤ over t
      → Chain (over t + 1) max back
      → e ≤ e'
      → over t ≤ e'
      → (e' ≡ e) ⊎ (e' ≡ over t)
      → Split lo max off e
          ((init ++ t ∷ []) ++ back)
          (length init)
          (length (init ++ t ∷ []) + (scan_right back e').0)
          t.offset
          (scan_right back e').1
  unfolding seg_byte
  Split-touching init back t e' ch under reaches ordered g g' ends =
      let front = Chain-front lo max (init ++ t ∷ []) back ch in
      let own = Chain-back lo max init (t ∷ []) front in
      let fits : e' ≤ max = elim ends [
        | inl same ↦ omega (arith, same, he)
        | inr up ↦ omega (arith, up, own.2)
      ] in
      let w = scan_right-Swallowed max back (over t + 1) e' m ordered (omega (arith, g')) fits in
      record {
        before = init;
        inside = t ∷ w.taken;
        behind = w.left;
        whole = append_assoc init (t ∷ []) back ∙ ap (λ l. init ++ t ∷ l) w.whole;
        left_index = refl;
        right_index = omega (arith, w.count, length-append init (t ∷ []));
        before_chain = Chain-front lo max init (t ∷ []) front;
        before_start = own.0;
        inside_chain = (
          omega arith,
          own.1,
          own.2,
          Chain-front (over t + 1) max w.taken w.left (rw (sym w.whole) ordered),
        );
        inside_end = w.reach;
        behind_chain = w.beyond;
        from_start = omega (arith, under);
        to_end = omega (arith, g, w.grows);
        limit = w.within;
        covers = λ k a b out. elim (Bool-cases (holds t k)) [
          | inl yes' ↦ (get_or t.bytes (k - t.offset) 0, rw yes' refl)
          | inr no' ↦ rw no' (
              w.covers k
                (elim ends [
                  | inl same ↦ ground (arith, same, reaches)
                  | inr up ↦ ground (arith, up)
                ])
                b)
        ];
      }

-- What the indices cut out of `segs`, when sort.Search gives `i`.
abbrev pub Cut : ℕ → ℕ → ℕ → ℕ → List Segment → ℕ → Type 0
Cut lo max off e segs i =
    let left = left_of segs i off in
    let span = span_left segs left i off e in
    let swallowed = scan_right (drop i segs) span.1 in
    Split lo max off e segs left (i + swallowed.0) span.0 swallowed.1

module _ (lo max off e : ℕ) (m : max < 2 ^ 32) (he : e ≤ max) (order : off < e) where
  -- The index is the number of the segments before.
  stays-Cut :
      (front back : List Segment)
      → Chain lo max (front ++ back)
      → past lo front ≤ off
      → Chain off max back
      → left_of (front ++ back) (length front) off ≡ length front
      → Cut lo max off e (front ++ back) (length front)
  unfolding span_left
  stays-Cut front back ch near ordered stays =
      let same : ltb (length front) (length front) ≡ false = ground arith in
      rw stays (
        rw same (
          rw (drop-length front back)
            (Split-apart lo max off e m he order front back ch near ordered)))

  touches-Cut :
      (init back : List Segment) (t : Segment)
      → Chain lo max ((init ++ t ∷ []) ++ back)
      → t.offset < off
      → off ≤ over t
      → seg_end t ≡ over t
      → Chain (over t + 1) max back
      → left_of ((init ++ t ∷ []) ++ back) (length (init ++ t ∷ [])) off ≡ length init
      → Cut lo max off e ((init ++ t ∷ []) ++ back) (length (init ++ t ∷ []))
  unfolding span_left
  touches-Cut init back t ch under reaches ends ordered steps =
      let less : ltb (length init) (length (init ++ t ∷ [])) ≡ true =
        ground (arith, length-append init (t ∷ [])) in
      let lower : ltb t.offset off ≡ true = ground (arith, under) in
      rw steps (
        rw less (
          rw (get_or-middle init back t empty_segment) (
            rw lower (
              rw (drop-length (init ++ t ∷ []) back) (elim (Bool-cases (ltb e (seg_end t))) [
                | inl longer ↦ rw longer (
                    Split-touching lo max off e m he order init back t (seg_end t) ch under reaches
                      ordered (ground arith) (omega (arith, ends)) (inr ends))
                | inr shorter ↦ rw shorter (
                    Split-touching lo max off e m he order init back t e ch under reaches ordered
                      (omega arith) (ground (arith, ends)) (inl refl))
              ])))))

  first-Cut : (back : List Segment) → lo ≤ off → Chain off max back → Cut lo max off e back 0
  unfolding left_of
  first-Cut back low ordered =
      stays-Cut [] back (Chain-lower off lo max back low ordered) low ordered refl

  left_of-snoc :
      (init back : List Segment) (t : Segment)
      → left_of ((init ++ t ∷ []) ++ back) (length (init ++ t ∷ [])) off
        ≡ (if leb off (seg_end t) then length init else length (init ++ t ∷ []))
  unfolding left_of
  left_of-snoc init back t =
      let len = length-append init (t ∷ []) in
      let prev : length (init ++ t ∷ []) - 1 ≡ length init = omega (arith, len) in
      let more : ltb 0 (length (init ++ t ∷ [])) ≡ true = ground (arith, len) in
      rw more (rw prev (rw (get_or-middle init back t empty_segment) refl))

  last-Cut :
      (init back : List Segment) (t : Segment)
      → Chain lo max ((init ++ t ∷ []) ++ back)
      → t.offset < off
      → Chain off max back
      → Cut lo max off e ((init ++ t ∷ []) ++ back) (length (init ++ t ∷ []))
  last-Cut init back t ch under ordered =
      let front = Chain-front lo max (init ++ t ∷ []) back ch in
      let own = Chain-back lo max init (t ∷ []) front in
      let ends = seg_end_lem t max own.2 m in
      let after : Chain (over t + 1) max back =
        subst (λ p. Chain p max back) (past-snoc lo init t)
          (Chain-back lo max (init ++ t ∷ []) back ch) in
      elim (Bool-cases (leb off (seg_end t))) [
        | inl reaches ↦
            touches-Cut init back t ch under (ground (arith, ends)) ends after
              (left_of-snoc init back t ∙ rw reaches refl)
        | inr apart ↦
            stays-Cut (init ++ t ∷ []) back ch (rw (past-snoc lo init t) (ground (arith, ends)))
              ordered (left_of-snoc init back t ∙ rw apart refl)
      ]

  -- The indices of Push cut any chain into what is before, touched and behind.
  pub search-Cut :
      (segs : List Segment) → Chain lo max segs → lo ≤ off → Cut lo max off e segs (search segs off)
  search-Cut segs ch low =
      let f = search-Found lo max off segs ch in
      rw f.index (elim f.last [
        | inl none' ↦
            subst (λ s. Cut lo max off e s (length f.front))
              (sym (f.whole ∙ ap (λ l. l ++ f.back) none'))
              (rw none' (first-Cut f.back low f.ordered))
        | inr (init, t, same, under) ↦
            subst (λ s. Cut lo max off e s (length f.front))
              (sym (f.whole ∙ ap (λ l. l ++ f.back) same))
              (rw same (
                last-Cut init f.back t
                  (subst (Chain lo max) (f.whole ∙ ap (λ l. l ++ f.back) same) ch) under f.ordered))
      ])
