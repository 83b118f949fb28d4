-- ===== src/Settings/Validation.antt =====
-- validateEngineConfig and validateWindowsRunConfig of cmd/splitter/config_windows.go.
use gov_pass.Prelude.{
  ℕ, ◌≤◌, ◌≡◌, refl, ◌↔◌, Bool, true, false, Option, none, some, arith, if◌then◌else◌, is_empty,
}
use gov_pass.Prelude.Int.{ℤ, pos, negsuc, ltb_ℤ, is_pos}
use gov_pass.Engine.Config.{Config, millisecond}
use gov_pass.Engine.Worker.{clamp_config}
use gov_pass.Settings.{Library, RunConfig}

-- The setting that an error names.
pub data Invalid : Type 0 where
  split_chunk_low max_buffer_low max_held_low max_segment_negative workers_low : Invalid
  collect_timeout_low flow_timeout_low gc_interval_low max_flows_negative : Invalid
  max_reassembly_negative max_held_bytes_negative shutdown_timeout_negative : Invalid
  shutdown_packets_negative adapter_timeout_negative : Invalid
  filter_empty : Invalid

unfoldable pub validate_engine_config : Config → Option Invalid
validate_engine_config cfg =
    if ltb_ℤ cfg.split_chunk (pos 1)
    then some split_chunk_low
    else if ltb_ℤ cfg.max_buffer_bytes (pos 1)
    then some max_buffer_low
    else if ltb_ℤ cfg.max_held_packets (pos 1)
    then some max_held_low
    else if ltb_ℤ cfg.max_segment_payload (pos 0)
    then some max_segment_negative
    else if ltb_ℤ cfg.worker_count (pos 1)
    then some workers_low
    else if ltb_ℤ cfg.collect_timeout (pos millisecond)
    then some collect_timeout_low
    else if ltb_ℤ cfg.flow_idle_timeout (pos millisecond)
    then some flow_timeout_low
    else if ltb_ℤ cfg.gc_interval (pos millisecond)
    then some gc_interval_low
    else if ltb_ℤ cfg.max_flows_per_worker (pos 0)
    then some max_flows_negative
    else if ltb_ℤ cfg.max_reassembly_bytes_per_worker (pos 0)
    then some max_reassembly_negative
    else if ltb_ℤ cfg.max_held_bytes_per_worker (pos 0)
    then some max_held_bytes_negative
    else if ltb_ℤ cfg.shutdown_fail_open_timeout (pos 0)
    then some shutdown_timeout_negative
    else if ltb_ℤ cfg.shutdown_fail_open_max_packets (pos 0)
    then some shutdown_packets_negative
    else if ltb_ℤ cfg.adapter_flush_timeout (pos 0)
    then some adapter_timeout_negative
    else none

unfoldable pub validate_windows_run_config : Library → RunConfig → Option Invalid
validate_windows_run_config lib wc =
    if is_empty (lib.trim_space wc.filter) then some filter_empty else none

-- `n ≤ x`, of an integer and a number: it is a number that large.
abbrev pub AtLeast : ℕ → ℤ → Type 0
AtLeast n x = (m : ℕ) × (x ≡ pos m) × (n ≤ m)

-- The settings that the engine can run with.
pub record Valid (cfg : Config) : Type 0 where
  pub split_chunk : AtLeast 1 cfg.split_chunk
  pub max_buffer_bytes : AtLeast 1 cfg.max_buffer_bytes
  pub max_held_packets : AtLeast 1 cfg.max_held_packets
  pub max_segment_payload : AtLeast 0 cfg.max_segment_payload
  pub worker_count : AtLeast 1 cfg.worker_count
  pub collect_timeout : AtLeast millisecond cfg.collect_timeout
  pub flow_idle_timeout : AtLeast millisecond cfg.flow_idle_timeout
  pub gc_interval : AtLeast millisecond cfg.gc_interval
  pub max_flows_per_worker : AtLeast 0 cfg.max_flows_per_worker
  pub max_reassembly_bytes_per_worker : AtLeast 0 cfg.max_reassembly_bytes_per_worker
  pub max_held_bytes_per_worker : AtLeast 0 cfg.max_held_bytes_per_worker
  pub shutdown_fail_open_timeout : AtLeast 0 cfg.shutdown_fail_open_timeout
  pub shutdown_fail_open_max_packets : AtLeast 0 cfg.shutdown_fail_open_max_packets
  pub adapter_flush_timeout : AtLeast 0 cfg.adapter_flush_timeout

not_below : (n : ℕ) (x : ℤ) → (ltb_ℤ x (pos n) ≡ false) ↔ AtLeast n x
not_below n (pos m) = (λ e. (m, refl, ground arith), λ h. ground arith)
not_below n (negsuc m) = (λ e. ground arith, λ h. ground arith)

positive : (x : ℤ) → AtLeast millisecond x → is_pos x ≡ true
positive (pos m) h = ground arith
positive (negsuc m) h = ground arith

-- One test of the chain.
pub passes :
    (b : Bool) (e : Invalid) (rest : Option Invalid)
    → (if b then some e else rest) ≡ none
    → (b ≡ false) × (rest ≡ none)
passes true e rest h = cc
passes false e rest h = (refl, h)

validate→Valid : (cfg : Config) → validate_engine_config cfg ≡ none → Valid cfg
unfolding validate_engine_config
validate→Valid cfg h0 =
    let h1 = passes _ _ _ h0 in
    let h2 = passes _ _ _ h1.1 in
    let h3 = passes _ _ _ h2.1 in
    let h4 = passes _ _ _ h3.1 in
    let h5 = passes _ _ _ h4.1 in
    let h6 = passes _ _ _ h5.1 in
    let h7 = passes _ _ _ h6.1 in
    let h8 = passes _ _ _ h7.1 in
    let h9 = passes _ _ _ h8.1 in
    let h10 = passes _ _ _ h9.1 in
    let h11 = passes _ _ _ h10.1 in
    let h12 = passes _ _ _ h11.1 in
    let h13 = passes _ _ _ h12.1 in
    let h14 = passes _ _ _ h13.1 in
    record {
      split_chunk = (not_below 1 cfg.split_chunk).0 h1.0;
      max_buffer_bytes = (not_below 1 cfg.max_buffer_bytes).0 h2.0;
      max_held_packets = (not_below 1 cfg.max_held_packets).0 h3.0;
      max_segment_payload = (not_below 0 cfg.max_segment_payload).0 h4.0;
      worker_count = (not_below 1 cfg.worker_count).0 h5.0;
      collect_timeout = (not_below millisecond cfg.collect_timeout).0 h6.0;
      flow_idle_timeout = (not_below millisecond cfg.flow_idle_timeout).0 h7.0;
      gc_interval = (not_below millisecond cfg.gc_interval).0 h8.0;
      max_flows_per_worker = (not_below 0 cfg.max_flows_per_worker).0 h9.0;
      max_reassembly_bytes_per_worker = (not_below 0 cfg.max_reassembly_bytes_per_worker).0 h10.0;
      max_held_bytes_per_worker = (not_below 0 cfg.max_held_bytes_per_worker).0 h11.0;
      shutdown_fail_open_timeout = (not_below 0 cfg.shutdown_fail_open_timeout).0 h12.0;
      shutdown_fail_open_max_packets = (not_below 0 cfg.shutdown_fail_open_max_packets).0 h13.0;
      adapter_flush_timeout = (not_below 0 cfg.adapter_flush_timeout).0 h14.0;
    }

Valid→validate : (cfg : Config) → Valid cfg → validate_engine_config cfg ≡ none
unfolding validate_engine_config
Valid→validate cfg v = rw ((not_below 1 cfg.split_chunk).1 v.split_chunk) (
    rw ((not_below 1 cfg.max_buffer_bytes).1 v.max_buffer_bytes) (
      rw ((not_below 1 cfg.max_held_packets).1 v.max_held_packets) (
        rw ((not_below 0 cfg.max_segment_payload).1 v.max_segment_payload) (
          rw ((not_below 1 cfg.worker_count).1 v.worker_count) (
            rw ((not_below millisecond cfg.collect_timeout).1 v.collect_timeout) (
              rw ((not_below millisecond cfg.flow_idle_timeout).1 v.flow_idle_timeout) (
                rw ((not_below millisecond cfg.gc_interval).1 v.gc_interval) (
                  rw ((not_below 0 cfg.max_flows_per_worker).1 v.max_flows_per_worker) (
                    rw
                      ((not_below 0 cfg.max_reassembly_bytes_per_worker).1
                        v.max_reassembly_bytes_per_worker)
                      (rw
                        ((not_below 0 cfg.max_held_bytes_per_worker).1 v.max_held_bytes_per_worker)
                        (rw
                          ((not_below 0 cfg.shutdown_fail_open_timeout).1
                            v.shutdown_fail_open_timeout)
                          (rw
                            ((not_below 0 cfg.shutdown_fail_open_max_packets).1
                              v.shutdown_fail_open_max_packets)
                            (rw ((not_below 0 cfg.adapter_flush_timeout).1 v.adapter_flush_timeout)
                              refl)))))))))))))

-- The validation accepts exactly the settings within their bounds.
pub validate-Valid : (cfg : Config) → (validate_engine_config cfg ≡ none) ↔ Valid cfg
validate-Valid cfg = (validate→Valid cfg, Valid→validate cfg)

-- newWorker changes nothing in settings that the validation accepts, with a queue of one place at
-- least: the defaults that it puts in are never met.
pub clamp_config-validated :
    (cfg : Config)
    → validate_engine_config cfg ≡ none
    → is_pos cfg.worker_queue_size ≡ true
    → clamp_config cfg ≡ cfg
unfolding clamp_config
clamp_config-validated cfg h q =
    let v = validate→Valid cfg h in
    rw q (
      rw (positive cfg.gc_interval v.gc_interval) (
        rw (positive cfg.flow_idle_timeout v.flow_idle_timeout) (
          rw ((not_below 0 cfg.max_flows_per_worker).1 v.max_flows_per_worker) (
            rw
              ((not_below 0 cfg.max_reassembly_bytes_per_worker).1
                v.max_reassembly_bytes_per_worker)
              (rw ((not_below 0 cfg.max_held_bytes_per_worker).1 v.max_held_bytes_per_worker)
                refl)))))
