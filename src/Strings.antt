-- ===== src/Strings.antt =====
-- Functions of Go's `strings` package, on the bytes of a string, as internal/driver/driver_windows.go
-- uses them.
use gov_pass.Prelude.{
  ℕ, suc, Bool, true, false, ◌&&◌, Option, none, some, [], ◌∷◌, ◌==◌, if◌then◌else◌, is_empty,
}
use gov_pass.Settings.{Text}
use gov_pass.Settings.Files.{has_prefix}

-- strings.Index
unfoldable pub index_of : Text → Text → Option ℕ
index_of [] sub = if is_empty sub then some 0 else none
index_of (x ∷ s) sub =
    let later = index_of s sub in
    if has_prefix (x ∷ s) sub then some 0 else elim later [ none ↦ none | some n ↦ some (suc n) ]

-- strings.Contains
unfoldable pub contains : Text → Text → Bool
contains s sub = elim (index_of s sub) [ none ↦ false | some n ↦ true ]

-- strings.Trim with a quotation mark.
unfoldable pub trim_left_quotes : Text → Text
trim_left_quotes [] = []
trim_left_quotes (x ∷ s) = if x == 34 then trim_left_quotes s else (x ∷ s)

unfoldable pub trim_right_quotes : Text → Text
trim_right_quotes [] = []
trim_right_quotes (x ∷ s) =
    let rest = trim_right_quotes s in if x == 34 && is_empty rest then [] else (x ∷ rest)
