-- ===== src/Settings/Effective.antt =====
-- windowsDefaults and effectiveWindowsConfig of cmd/splitter/config_windows.go: the settings that a
-- run has, from the defaults, the file and the command line.
use gov_pass.Prelude.{
  ℕ, Bool, true, false, not, ◌&&◌, Option, none, some, List, [], ◌∷◌, if◌then◌else◌, is_empty,
}
use gov_pass.Engine.Config.{Config, SplitMode, default_config}
use gov_pass.Settings.{
  Text, Library, RunConfig, ApplyError, parse_split_mode, apply_json, json_from_defaults,
}
use gov_pass.Settings.Validation.{Invalid, validate_engine_config, validate_windows_run_config}
use gov_pass.Settings.Flags.{
  Flag, CliArgs, default_run, app_name, default_program_data_dir, default_service_config_path,
  override_engine, override_run, flag_split_mode,
}
use gov_pass.Settings.Files.{
  Paths, FileCall, stat, read_file, Answer, success, exists, missing, found, failure, FileError,
  call_error, Act, pure, raise, ◌>>=◌, ◌>>◌, wrap, ask, write_if_missing, secure_dir, harden_file,
  is_under_dir,
}

pub data EffectiveError : Type 0 where
  secure_dir_failed secure_file_failed create_failed read_failed : FileError → EffectiveError
  apply_failed : ApplyError → EffectiveError
  bad_mode_flag : EffectiveError
  invalid : Invalid → EffectiveError

-- What applyWindowsJSONConfig leaves, or its error.
abbrev pub applied :
    Config × RunConfig × Option ApplyError → Act EffectiveError (Config × RunConfig)
applied (c, w, none) = pure (c, w)
applied (c, w, some e) = raise (apply_failed e)

abbrev pub mode_of : Option SplitMode → Config → Act EffectiveError Config
mode_of none c = raise bad_mode_flag
mode_of (some m) c = pure (record c { split_mode = m })

unfoldable pub override_mode :
    Library → (Flag → Bool) → CliArgs → Config → Act EffectiveError Config
override_mode lib set args c =
    if set flag_split_mode then mode_of (parse_split_mode lib args.split_mode) c else pure c

-- A service never takes the driver away.
unfoldable pub keep_driver : Bool → RunConfig → RunConfig
keep_driver true w = record w { auto_uninstall_driver = false }
keep_driver false w = w

abbrev pub reject : {A : Type 0} → Option Invalid → A → Act EffectiveError A
reject none a = pure a
reject (some e) a = raise (invalid e)

unfoldable pub validated : Library → Config → RunConfig → Act EffectiveError (Config × RunConfig)
validated lib c w =
    reject (validate_engine_config c) tt
    >> reject (validate_windows_run_config lib w) tt
    >> pure (c, w)

-- From the command line's flags on.
unfoldable pub finish :
    Library
    → (Flag → Bool)
    → CliArgs
    → Bool
    → Config × RunConfig
    → Act EffectiveError (Config × RunConfig)
finish lib set args as_service (c0, w0) = override_mode lib set args c0 >>= λ c.
    validated lib (override_engine set args c) (keep_driver as_service (override_run set args w0))

-- "%ProgramData%\gov-pass"
unfoldable pub program_data_root : Paths → Text
program_data_root paths = paths.join (default_program_data_dir paths ∷ app_name ∷ [])

-- The path of the settings, and whether it is the service's own.
unfoldable pub config_path_of : Library → Paths → CliArgs → Bool → Text × Bool
config_path_of lib paths args as_service =
    let given = lib.trim_space args.config_path in
    if is_empty given && as_service
    then (default_service_config_path paths, true)
    else (given, false)

module _ (answer : List FileCall → FileCall → Answer) (lib : Library) (paths : Paths) where
  -- A settings file that is there gets its own access list.
  abbrev pub on_stat : Text → Answer → Act EffectiveError (Unit {0})
  on_stat path success = wrap secure_file_failed (harden_file answer lib paths path)
  on_stat path (found j) = wrap secure_file_failed (harden_file answer lib paths path)
  on_stat path exists = pure tt
  on_stat path missing = pure tt
  on_stat path (failure n) = pure tt

  unfoldable pub is_guarded : Bool → Text → Bool
  is_guarded as_service path = as_service && is_under_dir lib paths path (program_data_root paths)

  unfoldable pub secure_config : Bool → Text → Act EffectiveError (Unit {0})
  secure_config as_service path =
      if not (is_empty path) && is_guarded as_service path
      then wrap secure_dir_failed (secure_dir answer lib paths (program_data_root paths))
        >> (ask answer (stat path) >>= on_stat path)
      else pure tt

  -- The first run of the service.
  unfoldable pub create_default :
      Bool → Text → Config × RunConfig → Act EffectiveError (Config × RunConfig)
  create_default as_service path (c, w) =
      wrap create_failed (write_if_missing answer lib paths path (json_from_defaults lib c w))
      >> (if is_guarded as_service path
          then wrap secure_file_failed (harden_file answer lib paths path)
          else pure tt)
      >> pure (c, w)

  abbrev pub on_read :
      Bool → Bool → Text → Config × RunConfig → Answer → Act EffectiveError (Config × RunConfig)
  on_read as_service using_default path (c, w) (found j) = applied (apply_json lib c w j)
  on_read as_service using_default path d missing =
      if as_service && using_default
      then create_default as_service path d
      else raise (read_failed (call_error missing))
  on_read as_service using_default path d success = raise (read_failed (call_error success))
  on_read as_service using_default path d exists = raise (read_failed (call_error exists))
  on_read as_service using_default path d (failure n) = raise (read_failed (call_error (failure n)))

  -- The settings before the command line's.
  unfoldable pub load :
      Bool → Text × Bool → Config × RunConfig → Act EffectiveError (Config × RunConfig)
  load as_service (path, using_default) d =
      if is_empty path
      then pure d
      else ask answer (read_file path) >>= on_read as_service using_default path d

  -- effectiveWindowsConfig; `num_cpu` is runtime.NumCPU().
  unfoldable pub effective_config :
      ℕ → CliArgs → (Flag → Bool) → Bool → Act EffectiveError (Config × RunConfig)
  effective_config num_cpu args set as_service =
      let at = config_path_of lib paths args as_service in
      secure_config as_service at.0
      >> load as_service at (default_config num_cpu, default_run)
      >>= finish lib set args as_service
