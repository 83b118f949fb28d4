-- ===== src/Driver/Laws.antt =====
-- Ensure of internal/driver/driver_windows.go and its cleanup: what they ask of the service manager,
-- from what Ensure found.
use mathlib.Core.Path.{subst}
use gov_pass.Prelude.{
  ℕ, ◌≡◌, refl, ap, sym, ◌∙◌, Bool, true, false, not, ◌&&◌, Option, some, is_empty, if_cases,
  option_cases,
}
use gov_pass.Settings.{Text}
use gov_pass.Settings.Files.{Outcome, ok, err}
use gov_pass.Driver.Status.{
  Status, absent, present, stopped, starting, running, stopping, Documented, is_up, is_down,
  is_gone, exists_in, runs_in, runs_in-up, next_step-ok, next_step-value, sc_error-ok,
  query_service-Reads, query_service_keeps, stop_service-down,
}
use gov_pass.Driver.{
  DriverConfig, sc_delete, sc_qc, Host, DriverError, sc, query_service, stop_service,
  query_service_bin_path, repair_path, install, start_driver, Cleanup, next_step, ensure_service,
  to_option, ensure, cleanup, resolve_dir, resolve_sys_path, service_name_of,
}

-- The cleanup, from `later` to `after`, against what Ensure had found: a service that was not there is
-- taken away or marked for deletion, one that did not run has been asked to stop, and one that ran is
-- left alone.
abbrev pub Restored : {W : Type 0} → (W → Status) → Status → W → W → Type 0
Restored status absent later after = is_gone (status after) ≡ true
Restored status (present stopped m) later after = is_down (status after) ≡ true
Restored status (present starting m) later after = is_down (status after) ≡ true
Restored status (present running m) later after = after ≡ later
Restored status (present stopping m) later after = is_down (status after) ≡ true

module _ {W : Type 0} (host : Host W) (name : Text) (status : W → Status)
    (doc : Documented host name status) where
  repair_path_keeps :
      (path : Text) (r : W × Outcome (Option ℕ) Text)
      → is_up (status r.0) ≡ true
      → is_up (status (repair_path host name path r).0) ≡ true
  unfolding repair_path sc
  repair_path_keeps path (w, err e) up = up
  repair_path_keeps path (w, ok old) up =
      let kept : W × Outcome DriverError (Unit {0}) → Type 0 = λ r. is_up (status r.0) ≡ true in
      if_cases kept (not (is_empty old) && not (host.file_exists old w))
        (λ _. if_cases kept (not (host.is_admin w)) (λ _. up) (λ _. doc.config_keeps path w up))
        (λ _. up)

  bin_path_keeps :
      (w : W)
      → is_up (status w) ≡ true
      → is_up (status (query_service_bin_path host name w).0) ≡ true
  unfolding query_service_bin_path
  bin_path_keeps w up =
      let kept : W × Outcome (Option ℕ) Text → Type 0 = λ r. is_up (status r.0) ≡ true in
      option_cases kept (host.run_sc (sc_qc name) w).1.error (λ _. doc.qc_keeps w up)
        (λ _ _. doc.qc_keeps w up)

  -- The installation of a service that is there leaves it running, if it runs.
  install_keeps :
      (path : Text) (there : Bool) (w : W)
      → there ≡ true
      → is_up (status w) ≡ true
      → is_up (status (install host name path there w).0) ≡ true
  unfolding install
  install_keeps path true w h up =
      repair_path_keeps path (query_service_bin_path host name w) (bin_path_keeps w up)
  install_keeps path false w h up = cc h

  start_driver-up :
      (runs : Bool) (w : W)
      → (runs ≡ true → is_up (status w) ≡ true)
      → (start_driver host name runs w).1 ≡ ok tt
      → is_up (status (start_driver host name runs w).0) ≡ true
  unfolding start_driver sc
  start_driver-up true w up = λ _. up refl
  start_driver-up false w up =
      if_cases (λ (r : W × Outcome DriverError (Unit {0})). r.1 ≡ ok tt → is_up (status r.0) ≡ true)
        (not (host.is_admin w)) (λ _ h. cc h) (λ _ h. doc.start_asked w (sc_error-ok _ h))

  -- What Ensure found is in its cleanup, and the driver has been started.
  ensure_service-up :
      (path : Text) (w : W) (c : Cleanup)
      → (ensure_service host name path w).1 ≡ ok c
      → (is_up (status (ensure_service host name path w).0) ≡ true)
        × (record {
          name = name;
          created = not (exists_in (status w));
          started = not (runs_in (status w));
        }
            ≡ c)
  unfolding ensure_service
  ensure_service-up path w c h =
      let there = exists_in (status w) in
      let runs = runs_in (status w) in
      let w1 = (query_service host name w).0 in
      let whole : ensure_service host name path w
          ≡ next_step (install host name path there w1) (λ _ w2.
            next_step (start_driver host name runs w2) λ _.
              λ w3. (w3, ok (record { name = name; created = not there; started = not runs }))) =
        next_step-value (query_service host name w) _ (there, runs)
          (query_service-Reads host name status doc w (status w) (doc.query_reads w)) in
      let one =
        next_step-ok (install host name path there w1) _ c (ap (λ r. r.1) (sym whole) ∙ h) in
      let w2 = (install host name path there w1).0 in
      let two =
        next_step-ok (start_driver host name runs w2) _ c
          (ap (λ r. r.1) (sym (whole ∙ one.2)) ∙ h) in
      let all = whole ∙ one.2 ∙ two.2 in
      let given : ok (record { name = name; created = not there; started = not runs }) ≡ ok c =
        ap (λ r. r.1) (sym all) ∙ h in
      let up : runs ≡ true → is_up (status w2) ≡ true = λ ran.
        let found = runs_in-up (status w) ran in
        install_keeps path there w1 found.0 (query_service_keeps host name status doc w found.1) in
      (ap (λ r. is_up (status r.0)) all ∙ start_driver-up runs w2 up two.1, cc given)

  -- The cleanup of what Ensure found.
  cleanup-Restored :
      (cfg : DriverConfig) (s : Status) (w : W)
      → cfg.auto_uninstall ≡ true
      → cfg.auto_stop ≡ true
      → let c : Cleanup = record {
        name = name;
        created = not (exists_in s);
        started = not (runs_in s);
      } in
        (cleanup host cfg c w).1 ≡ ok tt → Restored status s w (cleanup host cfg c w).0
  unfolding cleanup exists_in runs_in sc
  cleanup-Restored cfg absent w uninstall stop = rw uninstall λ h.
      let parts = next_step-ok (stop_service host name w) (λ _. sc host (sc_delete name)) tt h in
      let w1 = (stop_service host name w).0 in
      ap (λ r. is_gone (status r.0)) parts.2
      ∙ doc.delete_marks w1 (sc_error-ok _ (ap (λ r. r.1) (sym parts.2) ∙ h))
  cleanup-Restored cfg (present stopped m) w uninstall stop =
      rw stop (stop_service-down host name status doc w)
  cleanup-Restored cfg (present starting m) w uninstall stop =
      rw stop (stop_service-down host name status doc w)
  cleanup-Restored cfg (present running m) w uninstall stop = λ _. refl
  cleanup-Restored cfg (present stopping m) w uninstall stop =
      rw stop (stop_service-down host name status doc w)

to_option-some :
    {W : Type 0} (host : Host W) (r : W × Outcome DriverError Cleanup) (c : Cleanup)
    → (to_option host r).1 ≡ ok (some c)
    → (r.1 ≡ ok c) × ((to_option host r).0 ≡ r.0)
to_option-some host (w, ok d) c h = let same : d ≡ c = cc h in (ap ok same, refl)
to_option-some host (w, err e) c h = cc h

-- With sc.exe as its documents say: where Ensure gives a cleanup, the driver runs or has been asked to
-- start; and with the two settings that ask for it, that cleanup, where it returns nil, from any later
-- state, has taken away or marked for deletion a service that Ensure had not found, has asked to stop
-- one that it had found not running, and has left alone one that it had found running.
pub ensure-cleanup :
    {W : Type 0}
    → (host : Host W) (cfg : DriverConfig) (status : W → Status) (w later : W) (c : Cleanup)
    → Documented host (service_name_of cfg) status
    → cfg.auto_uninstall ≡ true
    → cfg.auto_stop ≡ true
    → (ensure host cfg w).1 ≡ ok (some c)
    → (cleanup host cfg c later).1 ≡ ok tt
    → (is_up (status (ensure host cfg w).0) ≡ true)
      × Restored status (status w) later (cleanup host cfg c later).0
unfolding ensure
ensure-cleanup {W} host cfg status w later c doc uninstall stop h done =
    let name = service_name_of cfg in
    let taken : Cleanup = record {
      name = name;
      created = not (exists_in (status w));
      started = not (runs_in (status w));
    } in
    let goal : W × Outcome DriverError (Option Cleanup) → Type 0 =
      λ r. r.1 ≡ ok (some c) → (is_up (status r.0) ≡ true) × (taken ≡ c) in
    let ended =
      if_cases goal (not cfg.auto_install) (λ _ e. cc e)
        (λ _ e.
          let one = next_step-ok (w, resolve_dir host cfg.dir w) _ (some c) e in
          let two =
            next_step-ok (w, resolve_sys_path host one.0 cfg.sys_name w) _ (some c)
              (ap (λ r. r.1) (sym one.2) ∙ e) in
          let three =
            to_option-some host (ensure_service host name two.0 w) c
              (ap (λ r. r.1) (sym (one.2 ∙ two.2)) ∙ e) in
          let ran = ensure_service-up host name status doc two.0 w c three.0 in
          (
            ap (λ r. is_up (status r.0)) (one.2 ∙ two.2)
                ∙ ap (λ v. is_up (status v)) three.1
                ∙ ran.0,
            ran.1,
          ))
        h in
    (
      ended.0,
      subst
          (λ d.
            (cleanup host cfg d later).1 ≡ ok tt
            → Restored status (status w) later (cleanup host cfg d later).0)
          ended.1 (cleanup-Restored host name status doc cfg (status w) later uninstall stop) done,
    )
