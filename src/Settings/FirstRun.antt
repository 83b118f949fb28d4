-- ===== src/Settings/FirstRun.antt =====
-- The first run of the service, which writes the template of cmd/splitter/config_windows.go, and the
-- runs after it, which read it.
use gov_pass.Prelude.{ℕ, ◌≡◌, refl, Bool, true, false, List, [], is_empty}
use gov_pass.Engine.Config.{Config, default_config}
use gov_pass.Settings.{Library, RunConfig, JsonConfig, Text, json_from_defaults}
use gov_pass.Settings.Laws.{Documented}
use gov_pass.Settings.Files.{
  Paths, FileCall, look_path, mkdir_all, icacls_reset, icacls_harden_dir, icacls_harden_file, stat,
  read_file, create_file, write_file, close_file, Answer, success, Outcome, ok, harden_file,
}
use gov_pass.Settings.Flags.{Flag, CliArgs, default_run, default_service_config_path}
use gov_pass.Settings.Effective.{EffectiveError, secure_config, load}

-- A system on which every call succeeds, and reading gives that answer.
abbrev pub reads : Answer → List FileCall → FileCall → Answer
reads r log (read_file path) = r
reads r log look_path = success
reads r log (mkdir_all path) = success
reads r log (icacls_reset path) = success
reads r log (icacls_harden_dir path) = success
reads r log (icacls_harden_file path) = success
reads r log (stat path) = success
reads r log (create_file path) = success
reads r log (write_file path j) = success
reads r log (close_file path) = success

module _ (r : Answer) (lib : Library) (paths : Paths) where
  harden_file-ok :
      (path : Text) (log : List FileCall)
      → is_empty (lib.trim_space path) ≡ false
      → (harden_file (reads r) lib paths path log).1 ≡ ok tt
  unfolding harden_file
  harden_file-ok path log h = rw h refl

-- windowsDefaults, and the template that is made of them.
abbrev pub defaults : ℕ → Config × RunConfig
defaults num_cpu = (default_config num_cpu, default_run)

abbrev pub template : Library → ℕ → JsonConfig
template lib num_cpu = json_from_defaults lib (default_config num_cpu) default_run

module _ (lib : Library) (doc : Documented lib) (paths : Paths) (num_cpu : ℕ) (args : CliArgs)
    (set : Flag → Bool) where
  abbrev path : Text
  path = default_service_config_path paths

  -- The calls of a run up to where it loads its settings, and with those.
  abbrev secured : Answer → List FileCall
  secured r = (secure_config (reads r) lib paths true path []).0

  abbrev loads : Answer → List FileCall × Outcome EffectiveError (Config × RunConfig)
  loads r = load (reads r) lib paths true (path, true) (defaults num_cpu) (secured r)
