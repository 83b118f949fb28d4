-- ===== src/Tests/Installer.antt =====
-- A run of the Windows driver's Ensure and its cleanup, against a small service manager.
use gov_pass.Prelude.{ℕ, ◌≡◌, refl, true, false, none, some, [], ◌∷◌}
use gov_pass.Flow.{bytes_eq}
use gov_pass.Settings.{Text}
use gov_pass.Strings.{contains, index_of}
use gov_pass.Driver.{
  DriverConfig, ScCall, sc_query, sc_start, sc_stop, sc_delete, sc_qc, sc_create, sc_config,
  ScResult, Host, missing_code, stopped_code, running_text, driver_service_name, Cleanup, ensure,
  cleanup, is_service_missing, is_service_not_running, ensure_service, resolve_dir,
  resolve_sys_path, query_service, install, start_driver, sc, sc_error, stop_service,
}
use gov_pass.Driver.Status.{
  stopped, starting, running, stopping, Status, absent, present, Reads, Documented, is_up, is_down,
  is_gone,
}
use gov_pass.Driver.Laws.{Restored, ensure-cleanup}

abbrev done_with : Text → ScResult
done_with out = record { out = out; error = none }

abbrev refused_with : Text → ScResult
refused_with out = record { out = out; error = some 1 }

-- A service manager with one service, which starts and stops in its own time.
abbrev manage : ScCall → Status → Status × ScResult
manage (sc_query n) absent = (absent, refused_with missing_code)
manage (sc_query n) (present stopped m) = (present stopped m, done_with [])
manage (sc_query n) (present starting m) = (present running m, done_with [])
manage (sc_query n) (present running m) = (present running m, done_with running_text)
manage (sc_query n) (present stopping m) = (present stopped m, done_with [])
manage (sc_start n) (present stopped false) = (present starting false, done_with [])
manage (sc_start n) s = (s, refused_with missing_code)
manage (sc_stop n) (present stopped m) = (present stopped m, refused_with stopped_code)
manage (sc_stop n) (present running m) = (present stopping m, done_with [])
manage (sc_stop n) s = (s, refused_with missing_code)
manage (sc_delete n) (present stopped m) = (absent, done_with [])
manage (sc_delete n) (present starting m) = (present starting true, done_with [])
manage (sc_delete n) (present running m) = (present running true, done_with [])
manage (sc_delete n) (present stopping m) = (present stopping true, done_with [])
manage (sc_delete n) absent = (absent, refused_with missing_code)
manage (sc_qc n) s = (s, done_with [])
manage (sc_create n path) absent = (present stopped false, done_with [])
manage (sc_create n path) (present phase m) = (present phase m, refused_with [])
manage (sc_config n path) s = (s, done_with [])

abbrev desktop : Host Status
desktop = record {
  run_sc = manage;
  is_admin = λ w. true;
  file_exists = λ path w. true;
  exe_dir = some (67 ∷ []);
  join = λ dir file. file;
  scan_lines = λ out. (out ∷ [], none);
  trim_space = λ t. t;
  to_lower = λ t. t;
  to_upper = λ t. t;
}

abbrev driver_config : DriverConfig
driver_config = record {
  dir = [];
  sys_name = [];
  service_name = [];
  auto_install = true;
  auto_uninstall = true;
  auto_stop = true;
}

desktop-Documented : Documented desktop driver_service_name (λ s. s)
unfolding is_service_missing is_service_not_running contains index_of bytes_eq
desktop-Documented = record {
  query_reads = reads;
  query_keeps = keeps;
  qc_keeps = λ w up. up;
  config_keeps = λ path w up. up;
  start_asked = starts;
  stop_asked = stops;
  stop_refused = refuses;
  delete_marks = marks;
}
  where
    reads : (w : Status) → Reads desktop (manage (sc_query driver_service_name) w).1 w
    reads absent = (1, refl, refl)
    reads (present stopped m) = (refl, refl)
    reads (present starting m) = (refl, refl)
    reads (present running m) = (refl, refl)
    reads (present stopping m) = (refl, refl)

    keeps : (w : Status) → is_up w ≡ true → is_up (manage (sc_query driver_service_name) w).0 ≡ true
    keeps absent up = cc up
    keeps (present stopped m) up = cc up
    keeps (present starting m) up = refl
    keeps (present running m) up = refl
    keeps (present stopping m) up = cc up

    starts :
        (w : Status)
        → (manage (sc_start driver_service_name) w).1.error ≡ none
        → is_up (manage (sc_start driver_service_name) w).0 ≡ true
    starts absent h = cc h
    starts (present stopped true) h = cc h
    starts (present stopped false) h = refl
    starts (present starting m) h = cc h
    starts (present running m) h = cc h
    starts (present stopping m) h = cc h

    stops :
        (w : Status)
        → (manage (sc_stop driver_service_name) w).1.error ≡ none
        → is_down (manage (sc_stop driver_service_name) w).0 ≡ true
    stops absent h = cc h
    stops (present stopped m) h = cc h
    stops (present starting m) h = cc h
    stops (present running m) h = refl
    stops (present stopping m) h = cc h

    refuses :
        (w : Status) (n : ℕ)
        → (manage (sc_stop driver_service_name) w).1.error ≡ some n
        → is_service_not_running desktop (manage (sc_stop driver_service_name) w).1.out ≡ true
        → is_down (manage (sc_stop driver_service_name) w).0 ≡ true
    refuses absent n h k = refl
    refuses (present stopped m) n h k = refl
    refuses (present starting m) n h k = cc k
    refuses (present running m) n h k = refl
    refuses (present stopping m) n h k = refl

    marks :
        (w : Status)
        → (manage (sc_delete driver_service_name) w).1.error ≡ none
        → is_gone (manage (sc_delete driver_service_name) w).0 ≡ true
    marks absent h = refl
    marks (present stopped m) h = refl
    marks (present starting m) h = refl
    marks (present running m) h = refl
    marks (present stopping m) h = refl

-- The driver is not there: it is created and started, and the cleanup takes it away.
abbrev made : Cleanup
made = record { name = driver_service_name; created = true; started = true }

abbrev runs_now : Status
runs_now = present running false

ensure-cleanup_example :
    (is_up (ensure desktop driver_config absent).0 ≡ true)
    × Restored (λ s. s) absent runs_now (cleanup desktop driver_config made runs_now).0
unfolding ensure cleanup is_service_missing is_service_not_running contains index_of ensure_service
    resolve_dir resolve_sys_path query_service install start_driver sc sc_error stop_service
    bytes_eq
ensure-cleanup_example =
    ensure-cleanup desktop driver_config (λ s. s) absent runs_now made desktop-Documented refl refl
      refl refl
