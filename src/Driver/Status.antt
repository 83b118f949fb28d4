-- ===== src/Driver/Status.antt =====
-- What the documents of sc.exe say, and what the steps of internal/driver/driver_windows.go make of it.
use gov_pass.Prelude.{
  ℕ, ◌≡◌, refl, ap, Bool, true, false, Option, none, some, if_cases, option_cases,
}
use gov_pass.Settings.{Text}
use gov_pass.Settings.Files.{Outcome, ok, err}
use gov_pass.Strings.{contains}
use gov_pass.Driver.{
  sc_query, sc_start, sc_stop, sc_delete, sc_qc, sc_config, ScResult, Host, DriverError,
  running_text, is_service_missing, is_service_not_running, sc_error, query_service, stop_service,
  next_step,
}

-- What a service does, as the service manager reports it.
pub data Phase : Type 0 where
  stopped starting running stopping : Phase

-- What the service manager knows of a service; `true` is that it is marked for deletion, which waits
-- for the service to stop and for its handles to be closed.
pub data Status : Type 0 where
  absent : Status
  present : Phase → Bool → Status

-- How the output of a query is read.
abbrev pub Reads : {W : Type 0} → Host W → ScResult → Status → Type 0
Reads host r absent = (n : ℕ) × (r.error ≡ some n) × (is_service_missing host r.out ≡ true)
Reads host r (present running m) =
    (r.error ≡ none) × (contains (host.to_upper r.out) running_text ≡ true)
Reads host r (present stopped m) =
    (r.error ≡ none) × (contains (host.to_upper r.out) running_text ≡ false)
Reads host r (present starting m) =
    (r.error ≡ none) × (contains (host.to_upper r.out) running_text ≡ false)
Reads host r (present stopping m) =
    (r.error ≡ none) × (contains (host.to_upper r.out) running_text ≡ false)

-- The service runs, or has been asked to.
abbrev pub is_up : Status → Bool
is_up absent = false
is_up (present stopped m) = false
is_up (present starting m) = true
is_up (present running m) = true
is_up (present stopping m) = false

-- The service does not run, or has been asked to stop.
abbrev pub is_down : Status → Bool
is_down absent = true
is_down (present stopped m) = true
is_down (present starting m) = false
is_down (present running m) = false
is_down (present stopping m) = true

-- The service is not there, or goes when it can.
abbrev pub is_gone : Status → Bool
is_gone absent = true
is_gone (present phase m) = m

-- What the documents of sc.exe say: a query tells the status, it, qc and config leave a service that
-- runs running; a start or a stop that succeeds has been asked of the service, and may still be
-- pending; a stop that is refused because the service does not run finds it so; and a delete that
-- succeeds takes the service away or marks it for deletion.
pub record Documented {W : Type 0} (host : Host W) (name : Text) (status : W → Status)
    : Type 0 where
  pub query_reads : (w : W) → Reads host (host.run_sc (sc_query name) w).1 (status w)
  pub query_keeps :
      (w : W) → is_up (status w) ≡ true → is_up (status (host.run_sc (sc_query name) w).0) ≡ true
  pub qc_keeps :
      (w : W) → is_up (status w) ≡ true → is_up (status (host.run_sc (sc_qc name) w).0) ≡ true
  pub config_keeps :
      (path : Text) (w : W)
      → is_up (status w) ≡ true
      → is_up (status (host.run_sc (sc_config name path) w).0) ≡ true
  pub start_asked :
      (w : W)
      → (host.run_sc (sc_start name) w).1.error ≡ none
      → is_up (status (host.run_sc (sc_start name) w).0) ≡ true
  pub stop_asked :
      (w : W)
      → (host.run_sc (sc_stop name) w).1.error ≡ none
      → is_down (status (host.run_sc (sc_stop name) w).0) ≡ true
  pub stop_refused :
      (w : W) (n : ℕ)
      → (host.run_sc (sc_stop name) w).1.error ≡ some n
      → is_service_not_running host (host.run_sc (sc_stop name) w).1.out ≡ true
      → is_down (status (host.run_sc (sc_stop name) w).0) ≡ true
  pub delete_marks :
      (w : W)
      → (host.run_sc (sc_delete name) w).1.error ≡ none
      → is_gone (status (host.run_sc (sc_delete name) w).0) ≡ true

unfoldable pub exists_in : Status → Bool
exists_in absent = false
exists_in (present phase m) = true

unfoldable pub runs_in : Status → Bool
runs_in absent = false
runs_in (present stopped m) = false
runs_in (present starting m) = false
runs_in (present running m) = true
runs_in (present stopping m) = false

-- A service that runs is there.
pub runs_in-up : (s : Status) → runs_in s ≡ true → (exists_in s ≡ true) × (is_up s ≡ true)
unfolding runs_in exists_in
runs_in-up absent h = cc h
runs_in-up (present stopped m) h = cc h
runs_in-up (present starting m) h = cc h
runs_in-up (present running m) h = (refl, refl)
runs_in-up (present stopping m) h = cc h

pub next_step-ok :
    {W E A B : Type 0} (r : W × Outcome E A) (f : A → W → W × Outcome E B) (b : B)
    → (next_step r f).1 ≡ ok b
    → (a : A) × (r.1 ≡ ok a) × (next_step r f ≡ f a r.0)
next_step-ok (w, ok a) f b h = (a, refl, refl)
next_step-ok (w, err e) f b h = cc h

pub next_step-value :
    {W E A B : Type 0} (r : W × Outcome E A) (f : A → W → W × Outcome E B) (a : A)
    → r.1 ≡ ok a
    → next_step r f ≡ f a r.0
next_step-value (w, ok b) f a h = let same : b ≡ a = cc h in ap (λ x. f x w) same
next_step-value (w, err e) f a h = cc h

pub sc_error-ok : (o : Option ℕ) → sc_error o ≡ ok tt → o ≡ none
unfolding sc_error
sc_error-ok none h = refl
sc_error-ok (some n) h = cc h

module _ {W : Type 0} (host : Host W) (name : Text) (status : W → Status)
    (doc : Documented host name status) where
  pub query_service-Reads :
      (w : W) (s : Status)
      → Reads host (host.run_sc (sc_query name) w).1 s
      → (query_service host name w).1 ≡ ok (exists_in s, runs_in s)
  unfolding query_service exists_in runs_in
  query_service-Reads w absent r = rw (r.1, query_service) (rw r.2 refl)
  query_service-Reads w (present stopped m) r = rw (r.0, query_service) (rw r.1 refl)
  query_service-Reads w (present starting m) r = rw (r.0, query_service) (rw r.1 refl)
  query_service-Reads w (present running m) r = rw (r.0, query_service) (rw r.1 refl)
  query_service-Reads w (present stopping m) r = rw (r.0, query_service) (rw r.1 refl)

  pub query_service_keeps :
      (w : W) → is_up (status w) ≡ true → is_up (status (query_service host name w).0) ≡ true
  unfolding query_service
  query_service_keeps w up =
      let kept : W × Outcome DriverError (Bool × Bool) → Type 0 = λ r. is_up (status r.0) ≡ true in
      let r = host.run_sc (sc_query name) w in
      option_cases kept r.1.error (λ _. doc.query_keeps w up)
        λ n _.
          if_cases kept (is_service_missing host r.1.out) (λ _. doc.query_keeps w up)
            (λ _. doc.query_keeps w up)

  pub stop_service-down :
      (w : W)
      → (stop_service host name w).1 ≡ ok tt
      → is_down (status (stop_service host name w).0) ≡ true
  unfolding stop_service
  stop_service-down w =
      let stops : W × Outcome DriverError (Unit {0}) → Type 0 =
        λ r. r.1 ≡ ok tt → is_down (status r.0) ≡ true in
      let r = host.run_sc (sc_stop name) w in
      option_cases stops r.1.error (λ none_eq _. doc.stop_asked w none_eq)
        λ n some_eq.
          if_cases stops (is_service_not_running host r.1.out)
            (λ yes _. doc.stop_refused w n some_eq yes) (λ _ h. cc h)
