-- ===== src/Driver.antt =====
-- internal/driver/driver_windows.go: the WinDivert driver as a service of Windows.
pub mod Laws
pub mod Status
use gov_pass.Prelude.{
  ℕ, zero, suc, ◌+◌, Bool, true, false, not, ◌&&◌, ◌||◌, Option, none, some, List, [], ◌∷◌, ◌++◌,
  ◌==◌, if◌then◌else◌, is_empty, take, drop,
}
use gov_pass.Settings.{Text}
use gov_pass.Strings.{index_of, contains, trim_left_quotes, trim_right_quotes}
use gov_pass.Settings.Files.{Outcome, ok, err, has_prefix}

-- config.go's Config.
pub record DriverConfig : Type 0 where
  pub dir : Text
  pub sys_name : Text
  pub service_name : Text
  pub auto_install : Bool
  pub auto_uninstall : Bool
  pub auto_stop : Bool

-- "WinDivert"
abbrev pub driver_service_name : Text
driver_service_name = 87 ∷ 105 ∷ 110 ∷ 68 ∷ 105 ∷ 118 ∷ 101 ∷ 114 ∷ 116 ∷ []

abbrev pub service_name_of : DriverConfig → Text
service_name_of cfg = if is_empty cfg.service_name then driver_service_name else cfg.service_name

-- The command lines of sc.exe.
pub data ScCall : Type 0 where
  sc_query sc_start sc_stop sc_delete sc_qc : Text → ScCall
  sc_create sc_config : Text → Text → ScCall

-- The output of a command, and its error.
pub record ScResult : Type 0 where
  pub out : Text
  pub error : Option ℕ

-- What the code takes from the system, in a state `W` that sc.exe changes, and from Go's library:
-- IsUserAnAdmin, os.Stat and os.Executable with filepath.Dir (`none` is an error), filepath.Join,
-- the lines of a bufio.Scanner with its error, and functions of `strings`.
pub record Host (W : Type 0) : Type 0 where
  pub run_sc : ScCall → W → W × ScResult
  pub is_admin : W → Bool
  pub file_exists : Text → W → Bool
  pub exe_dir : Option Text
  pub join : Text → Text → Text
  pub scan_lines : Text → List Text × Option ℕ
  pub trim_space : Text → Text
  pub to_lower : Text → Text
  pub to_upper : Text → Text

pub data DriverError : Type 0 where
  admin_required driver_not_found no_executable no_dir : DriverError
  sc_failed : ℕ → DriverError

-- "RUNNING"
abbrev pub running_text : Text
running_text = 82 ∷ 85 ∷ 78 ∷ 78 ∷ 73 ∷ 78 ∷ 71 ∷ []

-- "BINARY_PATH_NAME"
abbrev pub bin_path_text : Text
bin_path_text = 66 ∷ 73 ∷ 78 ∷ 65 ∷ 82 ∷ 89 ∷ 95 ∷ 80 ∷ 65 ∷ 84 ∷ 72 ∷ 95 ∷ 78 ∷ 65 ∷ 77 ∷ 69 ∷ []

-- "1060"
abbrev pub missing_code : Text
missing_code = 49 ∷ 48 ∷ 54 ∷ 48 ∷ []

-- "does not exist"
abbrev pub missing_words : Text
missing_words = 100 ∷ 111 ∷ 101 ∷ 115 ∷ 32 ∷ 110 ∷ 111 ∷ 116 ∷ 32 ∷ 101 ∷ 120 ∷ 105 ∷ 115 ∷ 116 ∷ []

-- "1062"
abbrev pub stopped_code : Text
stopped_code = 49 ∷ 48 ∷ 54 ∷ 50 ∷ []

-- "not been started"
abbrev pub stopped_words : Text
stopped_words =
    110 ∷ 111 ∷ 116 ∷ 32 ∷ 98 ∷ 101 ∷ 101 ∷ 110 ∷ 32 ∷ 115 ∷ 116 ∷ 97 ∷ 114 ∷ 116 ∷ 101 ∷ 100 ∷ []

-- ".sys"
abbrev pub sys_suffix : Text
sys_suffix = 46 ∷ 115 ∷ 121 ∷ 115 ∷ []

-- "\??\"
abbrev pub nt_prefix : Text
nt_prefix = 92 ∷ 63 ∷ 63 ∷ 92 ∷ []

-- "WinDivert64.sys"
abbrev pub sys64_name : Text
sys64_name = 87 ∷ 105 ∷ 110 ∷ 68 ∷ 105 ∷ 118 ∷ 101 ∷ 114 ∷ 116 ∷ 54 ∷ 52 ∷ 46 ∷ 115 ∷ 121 ∷ 115 ∷ []

-- "WinDivert.sys"
abbrev pub sys_name_text : Text
sys_name_text = 87 ∷ 105 ∷ 110 ∷ 68 ∷ 105 ∷ 118 ∷ 101 ∷ 114 ∷ 116 ∷ 46 ∷ 115 ∷ 121 ∷ 115 ∷ []

-- normalizeServicePath, from the path without its quotation marks.
unfoldable pub cut_arguments : Text → Text → Text
cut_arguments path lower = elim (index_of lower sys_suffix) [
  | some i ↦ take (i + 4) path
  | none ↦ elim (index_of path (32 ∷ [])) [ some i ↦ take i path | none ↦ path ]
]

-- What a command's error makes of the code that calls it.
unfoldable pub sc_error : Option ℕ → Outcome DriverError (Unit {0})
sc_error none = ok tt
sc_error (some n) = err (sc_failed n)

module _ {W : Type 0} (host : Host W) where
  -- normalizeServicePath
  unfoldable pub normalize_service_path : Text → Text
  normalize_service_path raw =
      let bare = trim_right_quotes (trim_left_quotes (host.trim_space raw)) in
      let path = if has_prefix bare nt_prefix then drop 4 bare else bare in
      cut_arguments path (host.to_lower path)

  -- isServiceMissing and isServiceNotRunning
  unfoldable pub is_service_missing : Text → Bool
  is_service_missing out =
      contains (host.to_lower out) missing_code || contains (host.to_lower out) missing_words

  unfoldable pub is_service_not_running : Text → Bool
  is_service_not_running out =
      contains (host.to_lower out) stopped_code || contains (host.to_lower out) stopped_words

  -- resolveDir
  unfoldable pub resolve_dir : Text → W → Outcome DriverError Text
  resolve_dir dir w =
      if is_empty dir
      then elim host.exe_dir [
        | none ↦ err no_executable
        | some d ↦ if host.file_exists d w then ok d else err no_dir
      ]
      else if host.file_exists dir w
      then ok dir
      else err no_dir

  -- resolveSysPath
  unfoldable pub resolve_sys_path : Text → Text → W → Outcome DriverError Text
  resolve_sys_path dir name w =
      if not (is_empty name)
      then (if host.file_exists (host.join dir name) w
          then ok (host.join dir name)
          else err driver_not_found)
      else if host.file_exists (host.join dir sys64_name) w
      then ok (host.join dir sys64_name)
      else if host.file_exists (host.join dir sys_name_text) w
      then ok (host.join dir sys_name_text)
      else err driver_not_found

  unfoldable pub sc : ScCall → W → W × Outcome DriverError (Unit {0})
  sc c w = let r = host.run_sc c w in (r.0, sc_error r.1.error)

  -- queryService: whether the service exists, and whether it runs.
  unfoldable pub query_service : Text → W → W × Outcome DriverError (Bool × Bool)
  query_service name w =
      let r = host.run_sc (sc_query name) w in
      elim r.1.error [
        | some n ↦
            if is_service_missing r.1.out
            then (r.0, ok (false, false))
            else (r.0, err (sc_failed n))
        | none ↦ (r.0, ok (true, contains (host.to_upper r.1.out) running_text))
      ]

  -- stopService: a service that does not run is stopped.
  unfoldable pub stop_service : Text → W → W × Outcome DriverError (Unit {0})
  stop_service name w =
      let r = host.run_sc (sc_stop name) w in
      elim r.1.error [
        | some n ↦ if is_service_not_running r.1.out then (r.0, ok tt) else (r.0, err (sc_failed n))
        | none ↦ (r.0, ok tt)
      ]

  -- The loop of queryServiceBinPath over the lines.
  unfoldable pub bin_path_in : List Text → Option ℕ → Outcome (Option ℕ) Text
  bin_path_in [] none = ok []
  bin_path_in [] (some e) = err (some e)
  bin_path_in (l ∷ ls) e =
      let line = host.trim_space l in
      let later = bin_path_in ls e in
      if has_prefix line bin_path_text
      then elim (index_of line (58 ∷ [])) [
        | some i ↦ ok (normalize_service_path (host.trim_space (drop (i + 1) line)))
        | none ↦ later
      ]
      else later

  -- queryServiceBinPath; only whether there is an error matters.
  pub query_service_bin_path : Text → W → W × Outcome (Option ℕ) Text
  query_service_bin_path name w =
      let r = host.run_sc (sc_qc name) w in
      let lines = host.scan_lines r.1.out in
      elim r.1.error [ some n ↦ (r.0, err (some n)) | none ↦ (r.0, bin_path_in lines.0 lines.1) ]

  -- The service is told the driver's path, if the one that it has is not there.
  pub repair_path : Text → Text → W × Outcome (Option ℕ) Text → W × Outcome DriverError (Unit {0})
  repair_path name sys_path (w, err e) = (w, ok tt)
  repair_path name sys_path (w, ok path) =
      if not (is_empty path) && not (host.file_exists path w)
      then (if not (host.is_admin w)
          then (w, err admin_required)
          else sc (sc_config name sys_path) w)
      else (w, ok tt)

  -- The service is created, or its path is repaired.
  unfoldable pub install : Text → Text → Bool → W → W × Outcome DriverError (Unit {0})
  install name sys_path there w =
      if not there
      then (if not (host.is_admin w)
          then (w, err admin_required)
          else sc (sc_create name sys_path) w)
      else repair_path name sys_path (query_service_bin_path name w)

  unfoldable pub start_driver : Text → Bool → W → W × Outcome DriverError (Unit {0})
  start_driver name running w =
      if not running
      then (if not (host.is_admin w) then (w, err admin_required) else sc (sc_start name) w)
      else (w, ok tt)

-- What the function that Ensure returns goes by.
pub record Cleanup : Type 0 where
  pub name : Text
  pub created : Bool
  pub started : Bool

-- The next step in the state that the one before left, unless that one failed.
abbrev pub next_step :
    {W E A B : Type 0} → W × Outcome E A → (A → W → W × Outcome E B) → W × Outcome E B
next_step (w, ok a) f = f a w
next_step (w, err e) f = (w, err e)

module _ {W : Type 0} (host : Host W) where
  unfoldable pub ensure_service : Text → Text → W → W × Outcome DriverError Cleanup
  ensure_service name sys_path w = next_step (query_service host name w) λ found. λ w1.
      next_step (install host name sys_path found.0 w1) λ _. λ w2.
        next_step (start_driver host name found.1 w2)
          λ _. λ w3. (w3, ok (record { name = name; created = not found.0; started = not found.1 }))

  abbrev pub to_option : W × Outcome DriverError Cleanup → W × Outcome DriverError (Option Cleanup)
  to_option (w, ok c) = (w, ok (some c))
  to_option (w, err e) = (w, err e)

  -- Ensure; no cleanup where the driver is not to be installed.
  unfoldable pub ensure : DriverConfig → W → W × Outcome DriverError (Option Cleanup)
  ensure cfg w =
      if not cfg.auto_install
      then (w, ok none)
      else next_step (w, resolve_dir host cfg.dir w)
          λ dir. λ w1.
            next_step (w1, resolve_sys_path host dir cfg.sys_name w1)
              λ path. λ w2. to_option (ensure_service (service_name_of cfg) path w2)

  -- The function that Ensure returns.
  unfoldable pub cleanup : DriverConfig → Cleanup → W → W × Outcome DriverError (Unit {0})
  cleanup cfg c w =
      if c.created && cfg.auto_uninstall
      then next_step (stop_service host c.name w) (λ _. sc host (sc_delete c.name))
      else if c.started && cfg.auto_stop
      then stop_service host c.name w
      else (w, ok tt)
