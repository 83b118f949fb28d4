-- ===== src/Settings/Runs.antt =====
-- What effectiveWindowsConfig of cmd/splitter/config_windows.go gives.
use gov_pass.Prelude.{ℕ, ◌≡◌, refl, Bool, true, false, Option, none, some, List, [], is_empty}
use gov_pass.Engine.Config.{Config}
use gov_pass.Settings.{Library, RunConfig}
use gov_pass.Settings.Validation.{
  Invalid, filter_empty, passes, validate_engine_config, validate_windows_run_config, Valid,
  validate-Valid,
}
use gov_pass.Settings.Files.{Paths, FileCall, Answer, Outcome, ok, err, follow, pure, Act}
use gov_pass.Settings.Flags.{Flag, CliArgs}
use gov_pass.Settings.Effective.{
  EffectiveError, reject, validated, keep_driver, finish, override_mode, effective_config,
}

-- Settings that a run can start with, if there are any.
pub data Runnable (lib : Library) (as_service : Bool)
    : Outcome EffectiveError (Config × RunConfig) → Type 0 where
  refused : (e : EffectiveError) → Runnable lib as_service (err e)
  runs :
      (c : Config) (w : RunConfig)
      → Valid c
      → is_empty (lib.trim_space w.filter) ≡ false
      → (as_service ≡ true → w.auto_uninstall_driver ≡ false)
      → Runnable lib as_service (ok (c, w))

-- A property of code with a first part, from that of its errors and of what follows.
follow_cases :
    {E A B : Type 0} (P : Outcome E B → Type 0) (m : List FileCall × Outcome E A) (f : A → Act E B)
    → ((e : E) → P (err e))
    → ((a : A) (log : List FileCall) → m.1 ≡ ok a → P (f a log).1)
    → P (follow m f).1
follow_cases P (log, ok a) f fails next = next a log refl
follow_cases P (log, err e) f fails next = fails e

follow-ok :
    {E A B : Type 0} (m : List FileCall × Outcome E A) (f : A → Act E B) (b : B)
    → (follow m f).1 ≡ ok b
    → (a : A) × (log : List FileCall) × (m.1 ≡ ok a) × ((f a log).1 ≡ ok b)
follow-ok (log, ok a) f b h = (a, log, refl, h)
follow-ok (log, err e) f b h = cc h

reject-ok :
    {A : Type 0} (v : Option Invalid) (a b : A) (log : List FileCall)
    → (reject v a log).1 ≡ ok b
    → v ≡ none
reject-ok none a b log h = refl
reject-ok (some e) a b log h = cc h

validated-Runnable :
    (lib : Library) (as_service : Bool) (c : Config) (w : RunConfig) (log : List FileCall)
    → (as_service ≡ true → w.auto_uninstall_driver ≡ false)
    → Runnable lib as_service (validated lib c w log).1
unfolding validated validate_windows_run_config
validated-Runnable lib as_service c w log kept =
    let goal : Outcome EffectiveError (Config × RunConfig) → Type 0 = Runnable lib as_service in
    let first : Act EffectiveError (Unit {0}) = reject (validate_engine_config c) tt in
    let second : Act EffectiveError (Unit {0}) = reject (validate_windows_run_config lib w) tt in
    follow_cases goal (follow (first log) (λ _. second)) (λ _. pure (c, w)) (λ e. refused e)
      λ a _ both.
        let parts = follow-ok (first log) (λ _. second) a both in
        runs c w ((validate-Valid c).0 (reject-ok (validate_engine_config c) tt _ log parts.2))
          (passes (is_empty (lib.trim_space w.filter)) filter_empty none
            (reject-ok (validate_windows_run_config lib w) tt a parts.1 parts.3)).0
          kept

keep_driver_kept :
    (as_service : Bool) (w : RunConfig)
    → as_service ≡ true
    → (keep_driver as_service w).auto_uninstall_driver ≡ false
unfolding keep_driver
keep_driver_kept true w h = refl
keep_driver_kept false w h = cc h

-- The settings that effectiveWindowsConfig gives, whatever the file, the flags and the system's
-- answers, are within the bounds of the validation, their filter is not blank, and a service's
-- never ask for the driver to be taken away.
pub effective_config-Runnable :
    (answer : List FileCall → FileCall → Answer) (lib : Library) (paths : Paths) (num_cpu : ℕ)
    (args : CliArgs) (set : Flag → Bool) (as_service : Bool)
    → Runnable lib as_service (effective_config answer lib paths num_cpu args set as_service []).1
unfolding effective_config finish
effective_config-Runnable answer lib paths num_cpu args set as_service =
    let goal : Outcome EffectiveError (Config × RunConfig) → Type 0 = Runnable lib as_service in
    follow_cases goal _ (finish lib set args as_service) (λ e. refused e)
      λ d log _.
        follow_cases goal (override_mode lib set args d.0 log) _ (λ e. refused e)
          λ c log' _. validated-Runnable lib as_service _ _ log' (keep_driver_kept as_service _)
