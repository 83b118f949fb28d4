-- ===== src/Settings.antt =====
-- cmd/splitter/config_windows.go: the settings in the service's JSON file.
pub mod Started
pub mod Validation
pub mod Acts
pub mod Effective
pub mod Files
pub mod Flags
pub mod FirstRun
pub mod Laws
pub mod Live
pub mod Params
pub mod Reload
pub mod Runs
use gov_pass.Prelude.{
  ℕ, Bool, true, false, Option, none, some, List, [], ◌∷◌, if◌then◌else◌, is_empty,
}
use gov_pass.Prelude.Int.{ℤ}
use gov_pass.Flow.{bytes_eq}
use gov_pass.Engine.Config.{
  Config, SplitMode, split_mode_immediate, split_mode_tls_hello, other_mode,
}

-- A string, as its bytes.
abbrev pub Text : Type 0
Text = List ℕ

-- What the code takes from Go's `strings` and `time`: TrimSpace, ToLower, ParseDuration (`none` is
-- its error) and Duration.String, on durations in nanoseconds.
pub record Library : Type 0 where
  pub trim_space : Text → Text
  pub to_lower : Text → Text
  pub parse_duration : Text → Option ℤ
  pub duration_text : ℤ → Text

-- The settings of windowsRunConfig, with those of adapter.WinDivertOptions.
pub record RunConfig : Type 0 where
  pub filter : Text
  pub queue_len : ℕ
  pub queue_time : ℕ
  pub queue_size : ℕ
  pub win_divert_dir : Text
  pub win_divert_sys : Text
  pub win_divert_svc_name : Text
  pub auto_install_driver : Bool
  pub auto_uninstall_driver : Bool
  pub auto_download_files : Bool

-- A pointer in the JSON types is an option.
pub record EngineJson : Type 0 where
  pub split_mode : Option Text
  pub split_chunk : Option ℤ
  pub collect_timeout : Option Text
  pub max_buffer_bytes : Option ℤ
  pub max_held_packets : Option ℤ
  pub max_segment_payload : Option ℤ
  pub workers : Option ℤ
  pub flow_idle_timeout : Option Text
  pub gc_interval : Option Text
  pub max_flows_per_worker : Option ℤ
  pub max_reassembly_bytes_per_worker : Option ℤ
  pub max_held_bytes_per_worker : Option ℤ
  pub shutdown_fail_open_timeout : Option Text
  pub shutdown_fail_open_max_packets : Option ℤ
  pub adapter_flush_timeout : Option Text

pub record WinDivertJson : Type 0 where
  pub filter : Option Text
  pub queue_len : Option ℕ
  pub queue_time_ms : Option ℕ
  pub queue_size_bytes : Option ℕ
  pub win_divert_dir : Option Text
  pub win_divert_sys : Option Text
  pub auto_install_driver : Option Bool
  pub auto_download_files : Option Bool

pub record JsonConfig : Type 0 where
  pub engine : Option EngineJson
  pub win_divert : Option WinDivertJson

-- The setting that an error names.
pub data ApplyError : Type 0 where
  bad_split_mode bad_collect_timeout bad_flow_idle_timeout : ApplyError
  bad_gc_interval bad_shutdown_fail_open_timeout bad_adapter_flush_timeout : ApplyError

-- "immediate" and "tls-hello"
abbrev pub immediate_text : Text
immediate_text = 105 ∷ 109 ∷ 109 ∷ 101 ∷ 100 ∷ 105 ∷ 97 ∷ 116 ∷ 101 ∷ []

abbrev pub tls_hello_text : Text
tls_hello_text = 116 ∷ 108 ∷ 115 ∷ 45 ∷ 104 ∷ 101 ∷ 108 ∷ 108 ∷ 111 ∷ []

-- A setting that is there is written.
pub put {ℓ κ} : {S : Type ℓ} {A : Type κ} → Option A → (S → A → S) → S → S × Option ApplyError
put none write s = (s, none)
put (some v) write s = (write s v, none)

-- A step is taken on what those before it left, unless one of them failed.
pub after {ℓ} :
    {S : Type ℓ} → (S × Option ApplyError) → (S → S × Option ApplyError) → S × Option ApplyError
after (s, none) step = step s
after (s, some e) step = (s, some e)

-- An error of the engine's part leaves the adapter's settings alone.
pub after_engine :
    RunConfig
    → Config × Option ApplyError
    → RunConfig × Option ApplyError
    → Config × RunConfig × Option ApplyError
after_engine w (c, some e) applied = (c, w, some e)
after_engine w (c, none) (w', e) = (c, w', e)

-- The name of a mode in the template.
pub mode_text : SplitMode → Text
mode_text split_mode_immediate = immediate_text
mode_text split_mode_tls_hello = tls_hello_text
mode_text (other_mode n) = tls_hello_text

module _ (lib : Library) where
  -- parseSplitMode
  pub parse_split_mode : Text → Option SplitMode
  parse_split_mode value =
      if bytes_eq (lib.to_lower value) immediate_text
      then some split_mode_immediate
      else if bytes_eq (lib.to_lower value) tls_hello_text
      then some split_mode_tls_hello
      else none

  -- A setting in words is read when it is there and not blank.
  pub put_parsed {ℓ κ} :
      {S : Type ℓ} {A : Type κ}
      → Option Text
      → (Text → Option A)
      → ApplyError
      → (S → A → S)
      → S
      → S × Option ApplyError
  put_parsed none parse err write s = (s, none)
  put_parsed (some t) parse err write s =
      if is_empty (lib.trim_space t)
      then (s, none)
      else elim (parse t) [ none ↦ (s, some err) | some v ↦ (write s v, none) ]

  -- The engine's part of applyWindowsJSONConfig, in the order of the code.
  pub apply_engine : Config → EngineJson → Config × Option ApplyError
  apply_engine c j =
      let c0 =
        put_parsed j.split_mode parse_split_mode bad_split_mode (λ c v. record c { split_mode = v })
          c in
      let c1 = after c0 (put j.split_chunk (λ c v. record c { split_chunk = v })) in
      let c2 = after c1 (
        put_parsed j.collect_timeout lib.parse_duration bad_collect_timeout
          (λ c v. record c { collect_timeout = v })) in
      let c3 = after c2 (put j.max_buffer_bytes (λ c v. record c { max_buffer_bytes = v })) in
      let c4 = after c3 (put j.max_held_packets (λ c v. record c { max_held_packets = v })) in
      let c5 = after c4 (put j.max_segment_payload (λ c v. record c { max_segment_payload = v })) in
      let c6 = after c5 (put j.workers (λ c v. record c { worker_count = v })) in
      let c7 = after c6 (
        put_parsed j.flow_idle_timeout lib.parse_duration bad_flow_idle_timeout
          (λ c v. record c { flow_idle_timeout = v })) in
      let c8 = after c7 (
        put_parsed j.gc_interval lib.parse_duration bad_gc_interval
          (λ c v. record c { gc_interval = v })) in
      let c9 =
        after c8 (put j.max_flows_per_worker (λ c v. record c { max_flows_per_worker = v })) in
      let c10 = after c9 (
        put j.max_reassembly_bytes_per_worker
          (λ c v. record c { max_reassembly_bytes_per_worker = v })) in
      let c11 =
        after c10
          (put j.max_held_bytes_per_worker (λ c v. record c { max_held_bytes_per_worker = v })) in
      let c12 = after c11 (
        put_parsed j.shutdown_fail_open_timeout lib.parse_duration bad_shutdown_fail_open_timeout
          (λ c v. record c { shutdown_fail_open_timeout = v })) in
      let c13 = after c12 (
        put j.shutdown_fail_open_max_packets
          (λ c v. record c { shutdown_fail_open_max_packets = v })) in
      after c13 (
        put_parsed j.adapter_flush_timeout lib.parse_duration bad_adapter_flush_timeout
          (λ c v. record c { adapter_flush_timeout = v }))

  -- A filter that is not blank is taken as it stands.
  pub set_filter : RunConfig → Option Text → RunConfig
  set_filter w none = w
  set_filter w (some t) = if is_empty (lib.trim_space t) then w else record w { filter = t }

  -- The adapter's part; a path is taken without the spaces around it.
  pub apply_win_divert : RunConfig → WinDivertJson → RunConfig × Option ApplyError
  apply_win_divert w j =
      let w0 = set_filter w j.filter in
      let w1 = put j.queue_len (λ w v. record w { queue_len = v }) w0 in
      let w2 = after w1 (put j.queue_time_ms (λ w v. record w { queue_time = v })) in
      let w3 = after w2 (put j.queue_size_bytes (λ w v. record w { queue_size = v })) in
      let w4 =
        after w3 (put j.win_divert_dir (λ w v. record w { win_divert_dir = lib.trim_space v })) in
      let w5 =
        after w4 (put j.win_divert_sys (λ w v. record w { win_divert_sys = lib.trim_space v })) in
      let w6 = after w5 (put j.auto_install_driver (λ w v. record w { auto_install_driver = v })) in
      after w6 (put j.auto_download_files (λ w v. record w { auto_download_files = v }))

  pub apply_engine_part : Config → Option EngineJson → Config × Option ApplyError
  apply_engine_part c none = (c, none)
  apply_engine_part c (some j) = apply_engine c j

  pub apply_win_divert_part : RunConfig → Option WinDivertJson → RunConfig × Option ApplyError
  apply_win_divert_part w none = (w, none)
  apply_win_divert_part w (some j) = apply_win_divert w j

  -- applyWindowsJSONConfig: the two configurations as it leaves them, and its error. They are
  -- parameters here that are given back, so that they cannot be nil.
  pub apply_json : Config → RunConfig → JsonConfig → Config × RunConfig × Option ApplyError
  apply_json c w cfg =
      after_engine w (apply_engine_part c cfg.engine) (apply_win_divert_part w cfg.win_divert)

  -- windowsJSONConfigFromDefaults: the paths are left out.
  pub json_from_defaults : Config → RunConfig → JsonConfig
  json_from_defaults cfg wc = record {
    engine = some (record {
      split_mode = some (mode_text cfg.split_mode);
      split_chunk = some cfg.split_chunk;
      collect_timeout = some (lib.duration_text cfg.collect_timeout);
      max_buffer_bytes = some cfg.max_buffer_bytes;
      max_held_packets = some cfg.max_held_packets;
      max_segment_payload = some cfg.max_segment_payload;
      workers = some cfg.worker_count;
      flow_idle_timeout = some (lib.duration_text cfg.flow_idle_timeout);
      gc_interval = some (lib.duration_text cfg.gc_interval);
      max_flows_per_worker = some cfg.max_flows_per_worker;
      max_reassembly_bytes_per_worker = some cfg.max_reassembly_bytes_per_worker;
      max_held_bytes_per_worker = some cfg.max_held_bytes_per_worker;
      shutdown_fail_open_timeout = some (lib.duration_text cfg.shutdown_fail_open_timeout);
      shutdown_fail_open_max_packets = some cfg.shutdown_fail_open_max_packets;
      adapter_flush_timeout = some (lib.duration_text cfg.adapter_flush_timeout);
    });
    win_divert = some (record {
      filter = some wc.filter;
      queue_len = some wc.queue_len;
      queue_time_ms = some wc.queue_time;
      queue_size_bytes = some wc.queue_size;
      win_divert_dir = none;
      win_divert_sys = none;
      auto_install_driver = some wc.auto_install_driver;
      auto_download_files = some wc.auto_download_files;
    });
  }
