-- ===== src/Prelude/Calls.antt =====
-- The answers to a sequence of calls, where an answer may depend on the calls before: what was
-- accepted, what was refused, and with what errors.
use mathlib.Core.Path.{◌≡◌, refl, sym, ap, ◌∙◌}
use mathlib.Core.Logic.{◌⊎◌, inl, inr}
use mathlib.Core.Option.{Option, none, some}
use mathlib.Core.List.{List, [], ◌∷◌, ◌++◌, append-nil, append_assoc}
use Prim.Native.Nat.{ℕ, ◌+◌}
use native.Mathlib.Omega.{arith}
use gov_pass.Prelude.Slices.{sum_of}
use gov_pass.Prelude.Tests.{Option-cases}

module _ {ℓ κ} {A : Type ℓ} {E : Type κ} (answer : List A → Option E) where
  -- Of the calls `xs`, made after the calls `past`, those that were accepted.
  pub delivered_from : List A → List A → List A
  delivered_from past [] = []
  delivered_from past (x ∷ xs) =
      let rest = delivered_from (past ++ x ∷ []) xs in
      elim (answer past) [ none ↦ x ∷ rest | some e ↦ rest ]

  -- Those that were refused.
  pub refused_from : List A → List A → List A
  refused_from past [] = []
  refused_from past (x ∷ xs) =
      let rest = refused_from (past ++ x ∷ []) xs in
      elim (answer past) [ none ↦ rest | some e ↦ x ∷ rest ]

  -- The errors of those that were refused.
  unfoldable pub errors_from : List A → List A → List E
  errors_from past [] = []
  errors_from past (x ∷ xs) =
      let rest = errors_from (past ++ x ∷ []) xs in
      elim (answer past) [ none ↦ rest | some e ↦ e ∷ rest ]

  abbrev pub delivered : List A → List A
  delivered xs = delivered_from [] xs

  abbrev pub refused : List A → List A
  refused xs = refused_from [] xs

  refused_from-snoc-none :
      (past xs : List A) (x : A)
      → answer (past ++ xs) ≡ none
      → refused_from past (xs ++ x ∷ []) ≡ refused_from past xs
  unfolding refused_from
  refused_from-snoc-none past [] x h = rw (sym (ap answer (append-nil past)) ∙ h) refl
  refused_from-snoc-none past (y ∷ xs) x h =
      let rest =
        refused_from-snoc-none (past ++ y ∷ []) xs x
          (ap answer (append_assoc past (y ∷ []) xs) ∙ h) in
      elim (Option-cases (answer past)) [
        | inl e ↦ rw (e, refused_from) rest
        | inr (d, e) ↦ rw (e, refused_from) (ap (λ l. y ∷ l) rest)
      ]

  refused_from-snoc-some :
      (past xs : List A) (x : A) (e : E)
      → answer (past ++ xs) ≡ some e
      → refused_from past (xs ++ x ∷ []) ≡ refused_from past xs ++ x ∷ []
  unfolding refused_from
  refused_from-snoc-some past [] x d h = rw (sym (ap answer (append-nil past)) ∙ h) refl
  refused_from-snoc-some past (y ∷ xs) x d h =
      let rest =
        refused_from-snoc-some (past ++ y ∷ []) xs x d
          (ap answer (append_assoc past (y ∷ []) xs) ∙ h) in
      elim (Option-cases (answer past)) [
        | inl e ↦ rw (e, refused_from) rest
        | inr (c, e) ↦ rw (e, refused_from) (ap (λ l. y ∷ l) rest)
      ]

  -- One more call that is accepted adds nothing to what was refused.
  pub refused-none : (xs : List A) (x : A) → answer xs ≡ none → refused (xs ++ x ∷ []) ≡ refused xs
  refused-none xs x h = refused_from-snoc-none [] xs x h

  -- One more call that is refused is added.
  pub refused-some :
      (xs : List A) (x : A) (e : E)
      → answer xs ≡ some e
      → refused (xs ++ x ∷ []) ≡ refused xs ++ x ∷ []
  refused-some xs x e h = refused_from-snoc-some [] xs x e h

  -- What was accepted and what was refused are, by any count, the calls.
  sum_of-delivered_from :
      (f : A → ℕ) (past xs : List A)
      → sum_of f (delivered_from past xs) + sum_of f (refused_from past xs) ≡ sum_of f xs
  unfolding delivered_from refused_from
  sum_of-delivered_from f past [] = refl
  sum_of-delivered_from f past (x ∷ xs) =
      let rest = sum_of-delivered_from f (past ++ x ∷ []) xs in
      elim (Option-cases (answer past)) [
        | inl e ↦ rw (e, delivered_from, refused_from) (omega (arith, rest))
        | inr (d, e) ↦ rw (e, delivered_from, refused_from) (omega (arith, rest))
      ]

  pub sum_of-delivered :
      (f : A → ℕ) (xs : List A) → sum_of f (delivered xs) + sum_of f (refused xs) ≡ sum_of f xs
  sum_of-delivered f xs = sum_of-delivered_from f [] xs

  -- Between these two lists of calls none was refused, or only one, whose error is this.
  abbrev pub RefusesOne : List A → List A → Option E → Type (ℓ ⊔ κ)
  RefusesOne before after err =
      (refused after ≡ refused before)
      ⊎ ((x : A) × (e : E) × (refused after ≡ refused before ++ x ∷ []) × (err ≡ some e))

  -- A call, with its answer.
  pub RefusesOne-call : (xs : List A) (x : A) → RefusesOne xs (xs ++ x ∷ []) (answer xs)
  RefusesOne-call xs x = elim (Option-cases (answer xs)) [
    | inl h ↦ inl (refused-none xs x h)
    | inr (e, h) ↦ inr (x, e, refused-some xs x e h, h)
  ]
