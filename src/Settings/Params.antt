-- ===== src/Settings/Params.antt =====
-- The queue parameters that internal/adapter/windivert_windows.go sets, in the hands of the service's loop of
-- cmd/splitter/main_windows.go: the driver has the value that the service takes for its own.
use mathlib.Core.Path.{subst}
use gov_pass.Prelude.{
  ℕ, ◌≡◌, refl, sym, ◌∙◌, arith, Bool, true, false, Option, none, some, List, [], ◌∷◌, ◌++◌, ltb,
  ◌==◌, if_cases, Bool-cases, inl, inr, if◌then◌else◌,
}
use gov_pass.Settings.Reload.{
  Param, param_queue_len, param_queue_time, param_queue_size, Options, SetCall, ParamError, Handle,
  no_handle, only, and_then, param_error, set_param, set_positive, apply_options, update_param,
}

abbrev pub param_eq : Param → Param → Bool
param_eq param_queue_len param_queue_len = true
param_eq param_queue_time param_queue_time = true
param_eq param_queue_size param_queue_size = true
param_eq param_queue_len param_queue_time = false
param_eq param_queue_len param_queue_size = false
param_eq param_queue_time param_queue_len = false
param_eq param_queue_time param_queue_size = false
param_eq param_queue_size param_queue_len = false
param_eq param_queue_size param_queue_time = false

-- One call: a failed one leaves the driver's value.
abbrev pub value_after : Param → ℕ → SetCall → ℕ
value_after p v c = elim c.error [ some e ↦ v | none ↦ if param_eq p c.param then c.value else v ]

-- The value that the driver has after the calls, where 0 is its default.
unfoldable pub in_force : Param → ℕ → List SetCall → ℕ
in_force p v [] = v
in_force p v (c ∷ cs) = in_force p (value_after p v c) cs

in_force-append :
    (p : Param) (v : ℕ) (cs : List SetCall) (c : SetCall)
    → in_force p v (cs ++ c ∷ []) ≡ value_after p (in_force p v cs) c
unfolding in_force
in_force-append p v [] c = refl
in_force-append p v (d ∷ cs) c = in_force-append p (value_after p v d) cs c

-- One parameter of a reload: the driver has the value in use, and its other parameters as before.
pub record Updated (p : Param) (before : List SetCall) (run : Handle × ℕ) : Type 0 where
  pub in_use : in_force p 0 run.0.calls ≡ run.1
  pub others : (q : Param) → param_eq q p ≡ false → in_force q 0 run.0.calls ≡ in_force q 0 before

param_eq_refl : (p : Param) → param_eq p p ≡ true
param_eq_refl param_queue_len = refl
param_eq_refl param_queue_time = refl
param_eq_refl param_queue_size = refl

and_then_done : (r : Handle × Option ParamError) → and_then r (λ h. (h, none)) ≡ r
and_then_done (h, none) = refl
and_then_done (h, some e) = refl

abbrev called_with : Handle → Param → ℕ → Option ℕ → Handle
called_with h p v o = record h {
  calls = h.calls ++ record { param = p; value = v; error = o } ∷ [];
}

-- The value that the service keeps for its own after a call.
called_with-Updated :
    (p : Param) (v cur : ℕ) (h : Handle) (o : Option ℕ)
    → in_force p 0 h.calls ≡ cur
    → Updated p h.calls (elim (param_error o) [
      | some e ↦ (called_with h p v o, cur)
      | none ↦ (called_with h p v o, v)
    ])
called_with-Updated p v cur h none now = record {
  in_use = in_force-append p 0 h.calls _ ∙ rw (param_eq_refl p) refl;
  others = λ q no. in_force-append q 0 h.calls _ ∙ rw no refl;
}
called_with-Updated p v cur h (some e) now = record {
  in_use = in_force-append p 0 h.calls _ ∙ now;
  others = λ q no. in_force-append q 0 h.calls _;
}

-- A parameter that is set for the first time.
pub record FirstSet (p : Param) (v : ℕ) (before : List SetCall) (run : Handle × Option ParamError)
    : Type 0 where
  pub in_use : run.1 ≡ none → in_force p 0 run.0.calls ≡ v
  pub others : (q : Param) → param_eq q p ≡ false → in_force q 0 run.0.calls ≡ in_force q 0 before

called_with-FirstSet :
    (p : Param) (v : ℕ) (h : Handle) (o : Option ℕ)
    → FirstSet p v h.calls (called_with h p v o, param_error o)
called_with-FirstSet p v h none = record {
  in_use = λ _. in_force-append p 0 h.calls _ ∙ rw (param_eq_refl p) refl;
  others = λ q no. in_force-append q 0 h.calls _ ∙ rw no refl;
}
called_with-FirstSet p v h (some e) = record {
  in_use = λ failed. cc failed;
  others = λ q no. in_force-append q 0 h.calls _;
}

module _ (answer : List SetCall → Param → ℕ → Option ℕ) where
  apply_options-only :
      (p : Param) (v : ℕ) (h : Handle)
      → h.is_open ≡ true
      → v == 0 ≡ false
      → apply_options answer h (only p v) ≡ set_param answer p v h
  unfolding apply_options only set_positive
  apply_options-only param_queue_len v h is_open positive =
      let given : ltb 0 v ≡ true = ground (arith, positive) in
      simp (is_open, given, and_then_done) refl
  apply_options-only param_queue_time v h is_open positive =
      let given : ltb 0 v ≡ true = ground (arith, positive) in
      simp (is_open, given, and_then_done) refl
  apply_options-only param_queue_size v h is_open positive =
      let given : ltb 0 v ≡ true = ground (arith, positive) in simp (is_open, given) refl

  apply_options_closed :
      (h : Handle) (opts : Options)
      → h.is_open ≡ false
      → apply_options answer h opts ≡ (h, some no_handle)
  unfolding apply_options
  apply_options_closed h opts closed = simp closed refl

  pub update_param-Updated :
      (p : Param) (new_value cur : ℕ) (h : Handle)
      → in_force p 0 h.calls ≡ cur
      → Updated p h.calls (update_param answer p new_value cur h)
  unfolding update_param set_param
  update_param-Updated p new_value cur h now =
      let same : Updated p h.calls (h, cur) = record { in_use = now; others = λ q no. refl } in
      if_cases (Updated p h.calls) (new_value == cur) (λ _. same)
        λ _.
          if_cases (Updated p h.calls) (new_value == 0) (λ _. same)
            λ positive.
              let goal : Handle × Option ParamError → Type 0 = λ r.
                Updated p h.calls (elim r.1 [ some e ↦ (r.0, cur) | none ↦ (r.0, new_value) ]) in
              elim (Bool-cases h.is_open) [
                | inl is_open ↦
                    subst goal (sym (apply_options-only p new_value h is_open positive))
                      (called_with-Updated p new_value cur h (answer h.calls p new_value) now)
                | inr closed ↦
                    subst goal (sym (apply_options_closed h (only p new_value) closed)) same
              ]

  pub set_positive-FirstSet :
      (p : Param) (v : ℕ) (h : Handle)
      → in_force p 0 h.calls ≡ 0
      → FirstSet p v h.calls (set_positive answer p v h)
  unfolding set_positive set_param
  set_positive-FirstSet p v h unset =
      if_cases (FirstSet p v h.calls) (ltb 0 v)
        (λ _. called_with-FirstSet p v h (answer h.calls p v))
        λ zero_value. record {
          in_use = λ _. unset ∙ ground (arith, zero_value);
          others = λ q no. refl;
        }
