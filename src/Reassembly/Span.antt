-- ===== src/Reassembly/Span.antt =====
-- The segments that Push of internal/reassembly/reassembly.go swallows: what its indices cut out.
use gov_pass.Prelude.{
  ℕ, suc, ◌+◌, ◌-◌, ◌^◌, ◌≤◌, ◌<◌, ◌≡◌, refl, ap, ◌⊎◌, inl, inr, some, List, [], ◌∷◌, ◌++◌, arith,
  length, get_or, ltb, leb, if_cases, Bool-cases,
}
use gov_pass.Reassembly.{Segment, seg_end, search, scan_right}
use gov_pass.Reassembly.Chain.{over, Chain, past, holds, seg_byte, seg_end_lem}

-- sort.Search cuts the chain before the first segment from `off` on.
pub record Found (lo max off : ℕ) (segs : List Segment) : Type 0 where
  pub front : List Segment
  pub back : List Segment
  pub whole : segs ≡ front ++ back
  pub index : search segs off ≡ length front
  pub ordered : Chain off max back
  pub last :
      (front ≡ [])
      ⊎ ((init : List Segment) × (t : Segment) × (front ≡ init ++ t ∷ []) × (t.offset < off))

pub search-Found :
    (lo max off : ℕ) (segs : List Segment) → Chain lo max segs → Found lo max off segs
unfolding search
search-Found lo max off [] c = record {
  front = [];
  back = [];
  whole = refl;
  index = refl;
  ordered = tt;
  last = inl refl;
}
search-Found lo max off (s ∷ ss) c = elim (Bool-cases (leb off s.offset)) [
  | inl here ↦ record {
    front = [];
    back = s ∷ ss;
    whole = refl;
    index = rw here refl;
    ordered = (ground arith, c.1, c.2, c.3);
    last = inl refl;
  }
  | inr later ↦
      let f = search-Found (over s + 1) max off ss c.3 in
      record {
        front = s ∷ f.front;
        back = f.back;
        whole = ap (λ t. s ∷ t) f.whole;
        index = rw later (ap suc f.index);
        ordered = f.ordered;
        last = elim f.last [
          | inl e ↦ inr ([], s, ap (λ t. s ∷ t) e, ground arith)
          | inr (init, t, e, h) ↦ inr (s ∷ init, t, ap (λ l. s ∷ l) e, h)
        ];
      }
]

-- The loop over `right`: from an end `e` on it takes every segment that begins by then, and the end
-- grows with them; between the two ends there is a byte everywhere.
pub record Swallowed (c max e : ℕ) (segs : List Segment) (r : ℕ × ℕ) : Type 0 where
  pub taken : List Segment
  pub left : List Segment
  pub whole : segs ≡ taken ++ left
  pub count : r.0 ≡ length taken
  pub grows : e ≤ r.1
  pub within : r.1 ≤ max
  pub beyond : Chain (r.1 + 1) max left
  pub reach : past c taken ≤ r.1 + 1
  pub covers : (k : ℕ) → e ≤ k → k < r.1 → (v : ℕ) × (seg_byte taken k ≡ some v)

-- One more segment, which begins by `e`.
Swallowed-cons :
    (c max e : ℕ) (s : Segment) (ss : List Segment) (e' : ℕ) (r : ℕ × ℕ)
    → s.offset ≤ e
    → e ≤ e'
    → (e' ≡ e) ⊎ (e' ≡ over s)
    → Swallowed (over s + 1) max e' ss r
    → Swallowed c max e (s ∷ ss) (suc r.0, r.1)
unfolding seg_byte
Swallowed-cons c max e s ss e' r h g ends w = record {
  taken = s ∷ w.taken;
  left = w.left;
  whole = ap (λ t. s ∷ t) w.whole;
  count = ap suc w.count;
  grows = omega (arith, g, w.grows);
  within = w.within;
  beyond = w.beyond;
  reach = w.reach;
  covers = λ k a b. elim (Bool-cases (holds s k)) [
    | inl yes' ↦ (get_or s.bytes (k - s.offset) 0, rw yes' refl)
    | inr no' ↦
        rw no' (
          w.covers k (elim ends [ inl same ↦ omega (arith, same) | inr up ↦ ground (arith, up) ]) b)
  ];
}

pub scan_right-Swallowed :
    (max : ℕ) (segs : List Segment) (c e : ℕ)
    → max < 2 ^ 32
    → Chain c max segs
    → c ≤ e + 1
    → e ≤ max
    → Swallowed c max e segs (scan_right segs e)
unfolding scan_right seg_byte
scan_right-Swallowed max [] c e m ch h he = record {
  taken = [];
  left = [];
  whole = refl;
  count = refl;
  grows = omega arith;
  within = he;
  beyond = tt;
  reach = h;
  covers = λ k a b. absurd (omega arith);
}
scan_right-Swallowed max (s ∷ ss) c e m ch h he =
    let ends = seg_end_lem s max ch.2 m in
    if_cases (Swallowed c max e (s ∷ ss)) (ltb e s.offset)
      (λ apart. record {
        taken = [];
        left = s ∷ ss;
        whole = refl;
        count = refl;
        grows = omega arith;
        within = he;
        beyond = (ground arith, ch.1, ch.2, ch.3);
        reach = h;
        covers = λ k a b. absurd (omega arith);
      })
      λ near. elim (Bool-cases (ltb e (seg_end s))) [
        | inl longer ↦ rw longer (
            Swallowed-cons c max e s ss (seg_end s) _ (ground arith) (ground arith) (inr ends) (
              scan_right-Swallowed max ss (over s + 1) (seg_end s) m ch.3 (omega (arith, ends))
                (omega (arith, ends, ch.2))))
        | inr shorter ↦ rw shorter (
            Swallowed-cons c max e s ss e _ (ground arith) (omega arith) (inl refl)
              (scan_right-Swallowed max ss (over s + 1) e m ch.3 (ground (arith, ends)) he))
      ]
