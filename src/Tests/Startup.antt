-- ===== src/Tests/Startup.antt =====
-- Runs of the Windows service's start and reloads, and their theorems at inputs that meet the
-- hypotheses.
use gov_pass.Prelude.{ℕ, ◌≡◌, refl, Bool, true, false, Option, none, some, List, [], ◌∷◌, concat}
use gov_pass.Prelude.Int.{pos}
use gov_pass.Engine.Config.{Config, default_config}
use gov_pass.Engine.Dispatch.{new_engine}
use gov_pass.Settings.{RunConfig}
use gov_pass.Settings.Validation.{validate_engine_config}
use gov_pass.Settings.Files.{Paths, FileCall, Answer, missing, Outcome, ok, err}
use gov_pass.Settings.Flags.{Flag, flag_workers, CliArgs, default_run, default_service_config_path}
use gov_pass.Settings.Effective.{EffectiveError, bad_mode_flag, effective_config}
use gov_pass.Settings.Runs.{Runnable, effective_config-Runnable}
use gov_pass.Settings.Acts.{file_after}
use gov_pass.Settings.FirstRun.{reads}
use gov_pass.Settings.Reload.{
  Param, param_queue_len, param_queue_time, set_positive, set_param, apply_options, started,
  SetCall, Service, service_reload, service_reloads, start_service,
}
use gov_pass.Settings.Live.{Either, InStep, service_reload-InStep}
use gov_pass.Settings.Started.{start_service-InStep}
use gov_pass.Tests.Services.{plain}

-- Paths that are joined by writing one behind the other.
abbrev joined : Paths
joined = record {
  program_data = 67 ∷ 58 ∷ [];
  join = λ parts. concat parts;
  dir = λ path. path;
  clean = λ path. path;
  absolute = λ path. some path;
}

abbrev cli : CliArgs
cli = record {
  split_mode = [];
  split_chunk = pos 0;
  collect_timeout = pos 0;
  max_buffer_bytes = pos 0;
  max_held_packets = pos 0;
  max_seg_payload = pos 0;
  workers = pos 3;
  flow_timeout = pos 0;
  gc_interval = pos 0;
  max_flows = pos 0;
  max_reassembly = pos 0;
  max_held_bytes = pos 0;
  shutdown_fail_open_timeout = pos 0;
  shutdown_fail_open_max_packets = pos 0;
  adapter_flush_timeout = pos 0;
  filter = [];
  queue_len = 0;
  queue_time = 0;
  queue_size = 0;
  win_divert_dir = [];
  win_divert_sys = [];
  auto_install = true;
  auto_uninstall = true;
  auto_download = true;
  config_path = [];
}

-- Only --workers is given.
abbrev given : Flag → Bool
given flag_workers = true
given other_flag = false

effective_config-Runnable_example :
    Runnable plain true (effective_config (reads missing) plain joined 2 cli given true []).1
effective_config-Runnable_example =
    effective_config-Runnable (reads missing) plain joined 2 cli given true

-- The first run of a service, and what reading its settings file then gives.
abbrev first_start : List FileCall × Outcome EffectiveError (Config × RunConfig)
first_start = effective_config (reads missing) plain joined 2 cli given true []

abbrev left_file : Answer
left_file = file_after (default_service_config_path joined) missing first_start.0

-- A driver that refuses the third call.
abbrev third_fails : List SetCall → Param → ℕ → Option ℕ
third_fails (a ∷ b ∷ []) p v = some 5
third_fails calls p v = none

abbrev first_run : RunConfig
first_run = record default_run { queue_len = 10; queue_time = 20; queue_size = 0 }

abbrev service : Service
service = record {
  cur_cfg = default_config 2;
  cur_wc = first_run;
  handle = record {
    is_open = true;
    calls =
        record { param = param_queue_len; value = 10; error = none }
        ∷ record { param = param_queue_time; value = 20; error = none }
        ∷ [];
  };
  engine = new_engine (default_config 2);
}

-- A file whose settings differ, in the number of workers as well.
abbrev changed : Config × RunConfig
changed = (default_config 7, default_run)

service-InStep : InStep service
unfolding new_engine service_reloads start_service set_positive set_param apply_options started
    validate_engine_config default_config
service-InStep =
    start_service-InStep third_fails (default_config 2) first_run service refl refl refl []

abbrev reloaded : Service
reloaded = service_reload third_fails service (ok changed)

service_reload-InStep_example :
    InStep reloaded
    × (reloaded.cur_cfg ≡ record (default_config 7) {
      worker_count = (default_config 2).worker_count;
      worker_queue_size = (default_config 2).worker_queue_size;
    })
    × ((len : ℕ) × (time : ℕ) × (size : ℕ) × (Either default_run.queue_len 10 len)
        × Either default_run.queue_time 20 time
        × Either default_run.queue_size 0 size
        × (reloaded.cur_wc
            ≡ record service.cur_wc { queue_len = len; queue_time = time; queue_size = size }))
service_reload-InStep_example =
    service_reload-InStep third_fails service (default_config 7) default_run service-InStep

start_service-InStep_example :
    InStep (service_reloads third_fails service (ok changed ∷ err bad_mode_flag ∷ []))
unfolding new_engine start_service set_positive set_param apply_options started
    validate_engine_config default_config
start_service-InStep_example =
    start_service-InStep third_fails (default_config 2) first_run service refl refl refl
      (ok changed ∷ err bad_mode_flag ∷ [])
