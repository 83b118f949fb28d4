-- ===== src/Prelude/Slices.antt =====
-- Go's slice expressions, `copy` and sums over slices.
use Prim.Native.Nat.{ℕ, zero, suc, ◌+◌, ◌-◌, ◌<◌, ◌≤◌}
use mathlib.Core.Path.{◌≡◌, refl, ap}
use mathlib.Core.Bool.{Bool, true, false}
use mathlib.Core.List.{List, [], ◌∷◌, ◌++◌}
use mathlib.Core.Option.{Option, none, some}
use mathlib.Core.Logic.{◌↔◌}
use native.Mathlib.Nat.{zero-add, suc-add}
use native.Mathlib.Omega.{arith}
use gov_pass.Prelude.Tests.{ltb, leb, if◌then◌else◌}
use gov_pass.Prelude.Lists.{length, get_or, take, drop}

module _ {ℓ} {A : Type ℓ} where
  -- `xs[lo:hi]`; a slice that ends beyond the list faults.
  abbrev pub slice : List A → ℕ → ℕ → Option (List A)
  slice xs lo hi = if ltb (length xs) hi then none else some (take (hi - lo) (drop lo xs))

  -- `copy(dst[at:], src)`: as much of `src` as fits.
  abbrev pub copy_at : List A → ℕ → List A → List A
  copy_at [] i src = []
  copy_at (x ∷ dst) zero [] = x ∷ dst
  copy_at (x ∷ dst) zero (s ∷ src) = s ∷ copy_at dst zero src
  copy_at (x ∷ dst) (suc i) src = x ∷ copy_at dst i src

  abbrev pub concat : List (List A) → List A
  concat [] = []
  concat (x ∷ xs) = x ++ concat xs

  abbrev pub is_empty : List A → Bool
  is_empty [] = true
  is_empty (x ∷ xs) = false

  -- The sum of a measure over a list.
  abbrev pub sum_of : (A → ℕ) → List A → ℕ
  sum_of f [] = 0
  sum_of f (x ∷ xs) = f x + sum_of f xs

module _ {ℓ} {A : Type ℓ} where
  pub length-copy_at :
      (dst : List A) (i : ℕ) (src : List A) → length (copy_at dst i src) ≡ length dst
  length-copy_at [] i src = refl
  length-copy_at (x ∷ dst) zero [] = refl
  length-copy_at (x ∷ dst) zero (s ∷ src) = ap suc (length-copy_at dst zero src)
  length-copy_at (x ∷ dst) (suc i) src = ap suc (length-copy_at dst i src)

  -- Each place of a copy: inside the copied range it is the source, elsewhere it is unchanged.
  pub get_or-copy_at :
      (dst : List A) (i : ℕ) (src : List A) (j : ℕ) (d : A)
      → j < length dst
      → get_or (copy_at dst i src) j d ≡ (
          if leb i j
          then (if ltb (j - i) (length src) then get_or src (j - i) d else get_or dst j d)
          else get_or dst j d)
  get_or-copy_at [] i src j d h = absurd (omega arith)
  get_or-copy_at (x ∷ dst) zero [] j d h = ground arith
  get_or-copy_at (x ∷ dst) zero (s ∷ src) zero d h = ground arith
  get_or-copy_at (x ∷ dst) zero (s ∷ src) (suc j) d h =
      ground (arith, get_or-copy_at dst zero src j d)
  get_or-copy_at (x ∷ dst) (suc i) src zero d h = ground arith
  get_or-copy_at (x ∷ dst) (suc i) src (suc j) d h = ground (arith, get_or-copy_at dst i src j d)

  pub sum_of-append : (f : A → ℕ) (xs ys : List A) → sum_of f (xs ++ ys) ≡ sum_of f xs + sum_of f ys
  sum_of-append f [] ys = omega arith
  sum_of-append f (x ∷ xs) ys = omega (arith, sum_of-append f xs ys)

  pub drop-length : (xs ys : List A) → drop (length xs) (xs ++ ys) ≡ ys
  drop-length [] ys = refl
  drop-length (x ∷ xs) ys = drop-length xs ys

  pub take-length : (xs ys : List A) → take (length xs) (xs ++ ys) ≡ xs
  take-length [] ys = refl
  take-length (x ∷ xs) ys = ap (λ t. x ∷ t) (take-length xs ys)

  drop-nil : (n : ℕ) → drop {A = A} n [] ≡ []
  drop-nil zero = refl
  drop-nil (suc n) = refl

  pub drop-drop : (m n : ℕ) (xs : List A) → drop n (drop m xs) ≡ drop (m + n) xs
  drop-drop zero n xs = rw zero-add
  drop-drop (suc m) n [] = rw (drop-nil n, drop-nil (suc m + n))
  drop-drop (suc m) n (x ∷ xs) = rw suc-add (drop-drop m n xs)

  pub drop_all : (n : ℕ) (xs : List A) → length xs ≤ n → drop n xs ≡ []
  drop_all n [] h = drop-nil n
  drop_all zero (x ∷ xs) h = absurd (omega arith)
  drop_all (suc n) (x ∷ xs) h = drop_all n xs (omega arith)

  pub is_empty_iff : (xs : List A) → (is_empty xs ≡ true) ↔ (length xs ≡ 0)
  is_empty_iff [] = ground arith
  is_empty_iff (x ∷ xs) = ground arith
