-- ===== src/Settings/Flags.antt =====
-- The command line's flags in cmd/splitter/config_windows.go, its defaults, and what a flag overrides.
use gov_pass.Prelude.{ℕ, ◌*◌, Bool, true, false, [], ◌∷◌, if◌then◌else◌, is_empty}
use gov_pass.Prelude.Int.{ℤ}
use gov_pass.Engine.Config.{Config}
use gov_pass.Settings.{Text, RunConfig}
use gov_pass.Settings.Files.{Paths}

-- The flags that the code asks for in setFlags.
pub data Flag : Type 0 where
  flag_split_mode flag_split_chunk flag_collect_timeout : Flag
  flag_max_buffer flag_max_held_pkts flag_max_seg_payload : Flag
  flag_workers flag_flow_timeout flag_gc_interval : Flag
  flag_max_flows_per_worker flag_max_reassembly_bytes_per_worker flag_max_held_bytes_per_worker :
      Flag
  flag_shutdown_fail_open_timeout flag_shutdown_fail_open_max_pkts flag_adapter_flush_timeout : Flag
  flag_filter flag_queue_len flag_queue_time : Flag
  flag_queue_size flag_windivert_dir flag_windivert_sys : Flag
  flag_auto_install flag_auto_uninstall flag_auto_download_windivert : Flag

-- windowsCLIArgs
pub record CliArgs : Type 0 where
  pub split_mode : Text
  pub split_chunk : ℤ
  pub collect_timeout : ℤ
  pub max_buffer_bytes : ℤ
  pub max_held_packets : ℤ
  pub max_seg_payload : ℤ
  pub workers : ℤ
  pub flow_timeout : ℤ
  pub gc_interval : ℤ
  pub max_flows : ℤ
  pub max_reassembly : ℤ
  pub max_held_bytes : ℤ
  pub shutdown_fail_open_timeout : ℤ
  pub shutdown_fail_open_max_packets : ℤ
  pub adapter_flush_timeout : ℤ
  pub filter : Text
  pub queue_len : ℕ
  pub queue_time : ℕ
  pub queue_size : ℕ
  pub win_divert_dir : Text
  pub win_divert_sys : Text
  pub auto_install : Bool
  pub auto_uninstall : Bool
  pub auto_download : Bool
  pub config_path : Text

-- "outbound and ip and tcp.DstPort == 443" and "WinDivert"
abbrev pub default_filter : Text
default_filter =
    111 ∷ 117 ∷ 116 ∷ 98 ∷ 111 ∷ 117 ∷ 110 ∷ 100 ∷ 32 ∷ 97 ∷ 110 ∷ 100 ∷ 32 ∷ 105 ∷ 112 ∷ 32 ∷ 97
    ∷ 110 ∷ 100 ∷ 32 ∷ 116 ∷ 99 ∷ 112 ∷ 46 ∷ 68 ∷ 115 ∷ 116 ∷ 80 ∷ 111 ∷ 114 ∷ 116 ∷ 32 ∷ 61 ∷ 61
    ∷ 32 ∷ 52 ∷ 52 ∷ 51 ∷ []

abbrev pub default_service_name : Text
default_service_name = 87 ∷ 105 ∷ 110 ∷ 68 ∷ 105 ∷ 118 ∷ 101 ∷ 114 ∷ 116 ∷ []

-- windowsDefaults: the adapter's part.
unfoldable pub default_run : RunConfig
default_run = record {
  filter = default_filter;
  queue_len = 4096;
  queue_time = 2000;
  queue_size = 32 * 1024 * 1024;
  win_divert_dir = [];
  win_divert_sys = [];
  win_divert_svc_name = default_service_name;
  auto_install_driver = true;
  auto_uninstall_driver = true;
  auto_download_files = true;
}

-- "gov-pass", "config.json" and "C:\ProgramData"
abbrev pub app_name : Text
app_name = 103 ∷ 111 ∷ 118 ∷ 45 ∷ 112 ∷ 97 ∷ 115 ∷ 115 ∷ []

abbrev pub config_name : Text
config_name = 99 ∷ 111 ∷ 110 ∷ 102 ∷ 105 ∷ 103 ∷ 46 ∷ 106 ∷ 115 ∷ 111 ∷ 110 ∷ []

abbrev pub fixed_program_data : Text
fixed_program_data = 67 ∷ 58 ∷ 92 ∷ 80 ∷ 114 ∷ 111 ∷ 103 ∷ 114 ∷ 97 ∷ 109 ∷ 68 ∷ 97 ∷ 116 ∷ 97 ∷ []

-- defaultProgramDataDir
unfoldable pub default_program_data_dir : Paths → Text
default_program_data_dir paths =
    if is_empty paths.program_data then fixed_program_data else paths.program_data

-- defaultServiceConfigPath
unfoldable pub default_service_config_path : Paths → Text
default_service_config_path paths =
    paths.join (default_program_data_dir paths ∷ app_name ∷ config_name ∷ [])

-- A flag that was given is written over what is there.
unfoldable pub override {ℓ} : {S : Type ℓ} → Bool → S → S → S
override true given s = given
override false given s = s

-- The command line's part of the settings, but for the mode.
unfoldable pub override_engine : (Flag → Bool) → CliArgs → Config → Config
override_engine set args c = record c {
  split_chunk = override (set flag_split_chunk) args.split_chunk c.split_chunk;
  collect_timeout = override (set flag_collect_timeout) args.collect_timeout c.collect_timeout;
  max_buffer_bytes = override (set flag_max_buffer) args.max_buffer_bytes c.max_buffer_bytes;
  max_held_packets = override (set flag_max_held_pkts) args.max_held_packets c.max_held_packets;
  max_segment_payload =
      override (set flag_max_seg_payload) args.max_seg_payload c.max_segment_payload;
  worker_count = override (set flag_workers) args.workers c.worker_count;
  flow_idle_timeout = override (set flag_flow_timeout) args.flow_timeout c.flow_idle_timeout;
  gc_interval = override (set flag_gc_interval) args.gc_interval c.gc_interval;
  max_flows_per_worker =
      override (set flag_max_flows_per_worker) args.max_flows c.max_flows_per_worker;
  max_reassembly_bytes_per_worker =
      override (set flag_max_reassembly_bytes_per_worker) args.max_reassembly
        c.max_reassembly_bytes_per_worker;
  max_held_bytes_per_worker =
      override (set flag_max_held_bytes_per_worker) args.max_held_bytes c.max_held_bytes_per_worker;
  shutdown_fail_open_timeout =
      override (set flag_shutdown_fail_open_timeout) args.shutdown_fail_open_timeout
        c.shutdown_fail_open_timeout;
  shutdown_fail_open_max_packets =
      override (set flag_shutdown_fail_open_max_pkts) args.shutdown_fail_open_max_packets
        c.shutdown_fail_open_max_packets;
  adapter_flush_timeout =
      override (set flag_adapter_flush_timeout) args.adapter_flush_timeout c.adapter_flush_timeout;
}

unfoldable pub override_run : (Flag → Bool) → CliArgs → RunConfig → RunConfig
override_run set args w = record w {
  filter = override (set flag_filter) args.filter w.filter;
  queue_len = override (set flag_queue_len) args.queue_len w.queue_len;
  queue_time = override (set flag_queue_time) args.queue_time w.queue_time;
  queue_size = override (set flag_queue_size) args.queue_size w.queue_size;
  win_divert_dir = override (set flag_windivert_dir) args.win_divert_dir w.win_divert_dir;
  win_divert_sys = override (set flag_windivert_sys) args.win_divert_sys w.win_divert_sys;
  auto_install_driver = override (set flag_auto_install) args.auto_install w.auto_install_driver;
  auto_uninstall_driver =
      override (set flag_auto_uninstall) args.auto_uninstall w.auto_uninstall_driver;
  auto_download_files =
      override (set flag_auto_download_windivert) args.auto_download w.auto_download_files;
}
