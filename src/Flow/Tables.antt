-- ===== src/Flow/Tables.antt =====
-- The flow table of internal/flow/flow.go as a map, and sums and predicates over its flows.
use gov_pass.Prelude.{
  ℕ, ◌+◌, ◌≡◌, refl, ◌∙◌, ◌⊎◌, inl, inr, false, none, some, [], ◌∷◌, arith, if◌then◌else◌, if_cases,
  option_cases, Bool-cases, Option-cases,
}
use mathlib.Core.Path.{subst}
use gov_pass.Flow.{
  Key, FlowState, Table, table_get, table_set, table_delete, get_or_create, new_flow_state, key_eq,
}
use gov_pass.Flow.Keys.{key_eq_refl, key_eq→eq}

-- A measure summed over the flows.
abbrev pub total : (FlowState → ℕ) → Table → ℕ
total f [] = 0
total f ((k, st) ∷ t) = f st + total f t

-- Every flow has a property.
abbrev pub AllFlows : (FlowState → Type 0) → Table → Type 0
AllFlows P [] = Unit {0}
AllFlows P ((k, st) ∷ t) = P st × AllFlows P t

module _ (f : FlowState → ℕ) where
  pub total-table_set :
      (t : Table) (k : Key) (st st' : FlowState)
      → table_get t k ≡ some st
      → total f (table_set t k st') + f st ≡ total f t + f st'
  unfolding table_get table_set
  total-table_set [] k st st' h = cc
  total-table_set ((j, old) ∷ t) k st st' h =
      ground (arith, total-table_set t k st st', ap_some f old st)
    where
      ap_some : (g : FlowState → ℕ) (a b : FlowState) → some a ≡ some b → g a ≡ g b
      ap_some g a b e = cc

  pub total-table_delete :
      (t : Table) (k : Key) (st : FlowState)
      → table_get t k ≡ some st
      → total f (table_delete t k) + f st ≡ total f t
  unfolding table_get table_delete
  total-table_delete [] k st h = cc
  total-table_delete ((j, old) ∷ t) k st h = ground (arith, total-table_delete t k st)

module _ (P : FlowState → Type 0) where
  pub table_get-AllFlows :
      (t : Table) (k : Key) (st : FlowState) → table_get t k ≡ some st → AllFlows P t → P st
  unfolding table_get
  table_get-AllFlows [] k st h a = cc
  table_get-AllFlows ((j, old) ∷ t) k st h a = elim (Bool-cases (key_eq j k)) [
    | inl hit ↦ subst P (ground arith) a.0
    | inr miss ↦ table_get-AllFlows t k st (ground arith) a.1
  ]

  pub table_set-AllFlows :
      (t : Table) (k : Key) (st : FlowState) → P st → AllFlows P t → AllFlows P (table_set t k st)
  unfolding table_set
  table_set-AllFlows [] k st p a = tt
  table_set-AllFlows ((j, old) ∷ t) k st p a =
      if_cases (AllFlows P) (key_eq j k) (λ _. (p, a.1))
        (λ _. (a.0, table_set-AllFlows t k st p a.1))

  pub table_delete-AllFlows : (t : Table) (k : Key) → AllFlows P t → AllFlows P (table_delete t k)
  unfolding table_delete
  table_delete-AllFlows [] k a = tt
  table_delete-AllFlows ((j, old) ∷ t) k a =
      if_cases (AllFlows P) (key_eq j k) (λ _. a.1) (λ _. (a.0, table_delete-AllFlows t k a.1))

-- One entry for each key, as a Go map has it.
abbrev pub Distinct : Table → Type 0
Distinct [] = Unit {0}
Distinct ((k, st) ∷ t) = (table_get t k ≡ none) × Distinct t

-- What a write through a state's pointer does to reads: the flow itself reads as written, if it is
-- there, and no other is touched.
pub table_get-set :
    (t : Table) (k j : Key) (st : FlowState)
    → table_get (table_set t k st) j ≡ (
        if key_eq k j
        then elim (table_get t k) [ none ↦ none | some _ ↦ some st ]
        else table_get t j)
unfolding table_get table_set
table_get-set [] k j st = ground arith
table_get-set ((i, old) ∷ t) k j st =
    ground
      (arith, table_get-set t k j st, key_eq→eq i k, key_eq→eq k j, key_eq→eq i j, key_eq_refl j)

table_get-delete_ne :
    (t : Table) (k j : Key) → key_eq k j ≡ false → table_get (table_delete t k) j ≡ table_get t j
unfolding table_get table_delete
table_get-delete_ne [] k j h = refl
table_get-delete_ne ((i, st) ∷ t) k j h = ground (arith, table_get-delete_ne t k j, key_eq→eq i k)

table_get-delete_self : (t : Table) (k : Key) → Distinct t → table_get (table_delete t k) k ≡ none
unfolding table_get table_delete
table_get-delete_self [] k d = refl
table_get-delete_self ((i, st) ∷ t) k d =
    ground (arith, table_get-delete_self t k d.1, key_eq→eq i k)

key_ne_sym : (i k : Key) → key_eq i k ≡ false → key_eq k i ≡ false
key_ne_sym i k miss = ground (arith, key_eq→eq k i, key_eq_refl k)

table_set-Distinct :
    (t : Table) (k : Key) (st : FlowState) → Distinct t → Distinct (table_set t k st)
unfolding table_get table_set
table_set-Distinct [] k st d = tt
table_set-Distinct ((i, old) ∷ t) k st d = elim (Bool-cases (key_eq i k)) [
  | inl hit ↦ rw hit d
  | inr miss ↦
      rw miss
        (ground (arith, table_get-set t k i st, key_ne_sym i k miss), table_set-Distinct t k st d.1)
]

table_delete-Distinct : (t : Table) (k : Key) → Distinct t → Distinct (table_delete t k)
unfolding table_get table_delete
table_delete-Distinct [] k d = tt
table_delete-Distinct ((i, old) ∷ t) k d = elim (Bool-cases (key_eq i k)) [
  | inl hit ↦ rw hit d.1
  | inr miss ↦
      rw miss (table_get-delete_ne t k i (key_ne_sym i k miss) ∙ d.0, table_delete-Distinct t k d.1)
]

get_or_create-Distinct :
    (t : Table) (k : Key) (now : ℕ) → Distinct t → Distinct (get_or_create t k now).0
unfolding get_or_create
get_or_create-Distinct t k now d =
    option_cases (λ (r : Table × FlowState). Distinct r.0) (table_get t k) (λ e. (e, d)) (λ _ _. d)

-- Every operation of the table keeps one entry for each key.
pub Table-Distinct :
    (t : Table) (k : Key) (st : FlowState) (now : ℕ)
    → Distinct t
    → Distinct (get_or_create t k now).0 × Distinct (table_set t k st) × Distinct (table_delete t k)
Table-Distinct t k st now d =
    (get_or_create-Distinct t k now d, table_set-Distinct t k st d, table_delete-Distinct t k d)

-- Delete, in a table with one entry for each key, takes away that key and no other.
pub table_get-delete :
    (t : Table) (k j : Key)
    → Distinct t
    → table_get (table_delete t k) j ≡ (if key_eq k j then none else table_get t j)
table_get-delete t k j d =
    ground (arith, table_get-delete_self t k d, table_get-delete_ne t k j, key_eq→eq k j)

-- GetOrCreate gives back the state that is there, and leaves the table; or it adds a fresh state,
-- which reads at its key, and changes no other read.
pub get_or_create_lem :
    (t : Table) (k j : Key) (now : ℕ)
    → let r = get_or_create t k now in
      (((table_get t k ≡ some r.1) × (r.0 ≡ t))
        ⊎ ((table_get t k ≡ none) × (r.1 ≡ new_flow_state now)))
      × (table_get r.0 j ≡ (if key_eq k j then some r.1 else table_get t j))
unfolding get_or_create table_get
get_or_create_lem t k j now = elim (Option-cases (table_get t k)) [
  | inl e ↦ (inr (e, ground arith), ground arith)
  | inr (st, e) ↦ (inl (ground arith, ground arith), ground (arith, key_eq→eq k j))
]

pub get_or_create_absent :
    (t : Table) (k : Key) (now : ℕ)
    → table_get t k ≡ none
    → get_or_create t k now ≡ ((k, new_flow_state now) ∷ t, new_flow_state now)
unfolding get_or_create
get_or_create_absent t k now e = ground arith
