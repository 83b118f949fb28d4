-- ===== src/Reassembly/Merged.antt =====
-- The bytes of the segment that Push of internal/reassembly/reassembly.go puts in the place of those
-- that it swallows.
use gov_pass.Prelude.{
  ℕ, ◌+◌, ◌-◌, ◌^◌, ◌≤◌, ◌<◌, ◌≡◌, refl, ap, ◌∙◌, ◌⊎◌, inl, inr, true, false, ◌&&◌, Option, none,
  some, List, [], ◌∷◌, arith, length, get_or, ltb, leb, if◌then◌else◌, Bool-cases, copy_at,
  length-copy_at, get_or-copy_at, sum_of,
}
use gov_pass.Reassembly.{Segment, copy_segments, sub32}
use gov_pass.Reassembly.Chain.{over, Chain, holds, seg_byte, seg_byte-below}

abbrev pub value_or : Option ℕ → ℕ → ℕ
value_or none d = d
value_or (some v) d = v

-- New bytes over old ones.
abbrev pub spread : ℕ → List ℕ → ℕ → Option ℕ → Option ℕ
spread off payload k old =
    if leb off k && ltb k (off + length payload) then some (get_or payload (k - off) 0) else old

abbrev pub bytes_of : List Segment → ℕ
bytes_of = sum_of λ s. length s.bytes

-- A copy reads as its source inside, and as before elsewhere.
pub get_or-copy_at_in :
    (dst src : List ℕ) (at j : ℕ)
    → j < length dst
    → at ≤ j
    → j < at + length src
    → get_or (copy_at dst at src) j 0 ≡ get_or src (j - at) 0
get_or-copy_at_in dst src at j h a b =
    get_or-copy_at dst at src j 0 h
    ∙ rw (leb_true at j a) (rw (ltb_true (j - at) (length src) (omega (arith, a, b))) refl)
  where
    leb_true : (x y : ℕ) → x ≤ y → leb x y ≡ true
    leb_true x y l = ground arith

    ltb_true : (x y : ℕ) → x < y → ltb x y ≡ true
    ltb_true x y l = ground arith

pub get_or-copy_at_out :
    (dst src : List ℕ) (at j : ℕ)
    → j < length dst
    → (j < at) ⊎ (at + length src ≤ j)
    → get_or (copy_at dst at src) j 0 ≡ get_or dst j 0
get_or-copy_at_out dst src at j h out =
    get_or-copy_at dst at src j 0 h
    ∙ elim out [ inl a ↦ ground (arith, a) | inr b ↦ ground (arith, b) ]

pub length-copy_segments :
    (ss : List Segment) (dst : List ℕ) (start : ℕ)
    → length (copy_segments dst start ss) ≡ length dst
unfolding copy_segments
length-copy_segments [] dst start = refl
length-copy_segments (s ∷ ss) dst start =
    length-copy_segments ss _ start ∙ length-copy_at dst (sub32 s.offset start) s.bytes

pub get_or-copy_segments :
    (ss : List Segment) (dst : List ℕ) (start lo max j : ℕ)
    → Chain lo max ss
    → start ≤ lo
    → max < 2 ^ 32
    → j < length dst
    → get_or (copy_segments dst start ss) j 0 ≡ value_or (seg_byte ss (start + j)) (get_or dst j 0)
unfolding copy_segments seg_byte
get_or-copy_segments [] dst start lo max j c low m h = refl
get_or-copy_segments (s ∷ ss) dst start lo max j c low m h =
    let at : sub32 s.offset start ≡ s.offset - start = omega (arith, low, c.0, c.1, c.2, m) in
    let copied = copy_at dst (s.offset - start) s.bytes in
    let kept = length-copy_at dst (s.offset - start) s.bytes in
    let rest =
      get_or-copy_segments ss copied start (over s + 1) max j c.3 (omega (arith, low, c.0)) m
        (omega (arith, h, kept)) in
    rw at (
      rest ∙ elim (Bool-cases (holds s (start + j))) [
        | inl yes' ↦ rw yes' (
            rw (seg_byte-below (over s + 1) max (start + j) ss c.3 (ground arith)) (
              get_or-copy_at_in dst s.bytes (s.offset - start) j h (ground (arith, low, c.0))
                (ground (arith, low, c.0))
              ∙ ap (λ n. get_or s.bytes n 0) (omega (arith, low, c.0))))
        | inr no' ↦ rw no' (
            ap (value_or (seg_byte ss (start + j))) (
              get_or-copy_at_out dst s.bytes (s.offset - start) j h
                (outside s start j low c.0 no')))
      ])
  where
    outside :
        (s : Segment) (start j : ℕ)
        → start ≤ lo
        → lo ≤ s.offset
        → holds s (start + j) ≡ false
        → (j < s.offset - start) ⊎ (s.offset - start + length s.bytes ≤ j)
    outside s start j a b no' = ground arith
