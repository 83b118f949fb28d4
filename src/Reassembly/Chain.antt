-- ===== src/Reassembly/Chain.antt =====
-- The waiting segments of internal/reassembly/reassembly.go as a chain, and the bytes that they hold.
use gov_pass.Prelude.{
  ℕ, ◌+◌, ◌-◌, ◌^◌, ◌≤◌, ◌<◌, ◌≡◌, refl, inl, inr, Bool, ◌&&◌, Option, none, some, List, [], ◌∷◌,
  ◌++◌, arith, length, get_or, ltb, leb, if◌then◌else◌, Bool-cases,
}
use gov_pass.Reassembly.{Segment, seg_end}

abbrev pub over : Segment → ℕ
over s = s.offset + length s.bytes

-- Segments with bytes, from `lo` on and within `max`, with a gap between each two.
abbrev pub Chain : ℕ → ℕ → List Segment → Type 0
Chain lo max [] = Unit {0}
Chain lo max (s ∷ ss) =
    (lo ≤ s.offset) × (1 ≤ length s.bytes) × (over s ≤ max) × Chain (over s + 1) max ss

-- Where a segment behind a chain may begin.
abbrev pub past : ℕ → List Segment → ℕ
past lo [] = lo
past lo (s ∷ ss) = past (over s + 1) ss

abbrev pub holds : Segment → ℕ → Bool
holds s k = leb s.offset k && ltb k (over s)

-- The byte at an offset of the stream, if a segment has it.
unfoldable pub seg_byte : List Segment → ℕ → Option ℕ
seg_byte [] k = none
seg_byte (s ∷ ss) k = if holds s k then some (get_or s.bytes (k - s.offset) 0) else seg_byte ss k

abbrev pub or_else : Option ℕ → Option ℕ → Option ℕ
or_else none o = o
or_else (some v) o = some v

pub past-ge : (lo max : ℕ) (ss : List Segment) → Chain lo max ss → lo ≤ past lo ss
past-ge lo max [] c = omega arith
past-ge lo max (s ∷ ss) c = omega (arith, c.0, past-ge (over s + 1) max ss c.3)

pub seg_byte-append :
    (xs ys : List Segment) (k : ℕ) → seg_byte (xs ++ ys) k ≡ or_else (seg_byte xs k) (seg_byte ys k)
unfolding seg_byte
seg_byte-append [] ys k = refl
seg_byte-append (s ∷ ss) ys k = elim (Bool-cases (holds s k)) [
  | inl yes' ↦ rw yes' refl
  | inr no' ↦ rw no' (seg_byte-append ss ys k)
]

pub seg_byte-below :
    (lo max k : ℕ) (ss : List Segment) → Chain lo max ss → k < lo → seg_byte ss k ≡ none
unfolding seg_byte
seg_byte-below lo max k [] c h = refl
seg_byte-below lo max k (s ∷ ss) c h = ground (arith, seg_byte-below (over s + 1) max k ss c.3)

pub seg_byte-above :
    (lo max k : ℕ) (ss : List Segment) → Chain lo max ss → past lo ss ≤ k + 1 → seg_byte ss k ≡ none
unfolding seg_byte
seg_byte-above lo max k [] c h = refl
seg_byte-above lo max k (s ∷ ss) c h =
    ground (arith, past-ge (over s + 1) max ss c.3, seg_byte-above (over s + 1) max k ss c.3 h)

pub Chain-append :
    (lo max : ℕ) (xs ys : List Segment)
    → Chain lo max xs
    → Chain (past lo xs) max ys
    → Chain lo max (xs ++ ys)
Chain-append lo max [] ys c d = d
Chain-append lo max (s ∷ ss) ys c d = (c.0, c.1, c.2, Chain-append (over s + 1) max ss ys c.3 d)

pub Chain-front : (lo max : ℕ) (xs ys : List Segment) → Chain lo max (xs ++ ys) → Chain lo max xs
Chain-front lo max [] ys c = tt
Chain-front lo max (s ∷ ss) ys c = (c.0, c.1, c.2, Chain-front (over s + 1) max ss ys c.3)

pub Chain-back :
    (lo max : ℕ) (xs ys : List Segment) → Chain lo max (xs ++ ys) → Chain (past lo xs) max ys
Chain-back lo max [] ys c = c
Chain-back lo max (s ∷ ss) ys c = Chain-back (over s + 1) max ss ys c.3

pub past-snoc : (lo : ℕ) (xs : List Segment) (s : Segment) → past lo (xs ++ s ∷ []) ≡ over s + 1
past-snoc lo [] s = refl
past-snoc lo (x ∷ xs) s = past-snoc (over x + 1) xs s

-- A lower start is as good.
pub Chain-lower :
    (lo lo' max : ℕ) (ss : List Segment) → lo' ≤ lo → Chain lo max ss → Chain lo' max ss
Chain-lower lo lo' max [] h c = tt
Chain-lower lo lo' max (s ∷ ss) h c = (omega (arith, c.0), c.1, c.2, c.3)

-- In uint32 arithmetic too, a segment within the limit ends where it ends.
pub seg_end_lem : (s : Segment) (max : ℕ) → over s ≤ max → max < 2 ^ 32 → seg_end s ≡ over s
seg_end_lem s max h m = omega arith
