-- ===== src/Engine/Config.antt =====
-- internal/engine/config.go. Durations are nanoseconds; Go's `int` fields are signed.
use gov_pass.Prelude.{ℕ, ◌*◌}
use gov_pass.Prelude.Int.{ℤ, pos}

-- A byte with two named values.
pub data SplitMode : Type 0 where
  split_mode_immediate split_mode_tls_hello : SplitMode
  other_mode : ℕ → SplitMode

pub record Config : Type 0 where
  pub split_mode : SplitMode
  pub split_chunk : ℤ
  pub collect_timeout : ℤ
  pub max_buffer_bytes : ℤ
  pub max_held_packets : ℤ
  pub max_segment_payload : ℤ
  pub max_flows_per_worker : ℤ
  pub max_reassembly_bytes_per_worker : ℤ
  pub max_held_bytes_per_worker : ℤ
  pub worker_count : ℤ
  pub worker_queue_size : ℤ
  pub flow_idle_timeout : ℤ
  pub gc_interval : ℤ
  pub shutdown_fail_open_timeout : ℤ
  pub shutdown_fail_open_max_packets : ℤ
  pub adapter_flush_timeout : ℤ

abbrev pub millisecond : ℕ
millisecond = 1000000

abbrev pub second : ℕ
second = 1000 * millisecond

-- DefaultConfig, at the number of processors.
unfoldable pub default_config : ℕ → Config
default_config num_cpu = record {
  split_mode = split_mode_tls_hello;
  split_chunk = pos 5;
  collect_timeout = pos (250 * millisecond);
  max_buffer_bytes = pos (64 * 1024);
  max_held_packets = pos 32;
  max_segment_payload = pos 1460;
  max_flows_per_worker = pos 4096;
  max_reassembly_bytes_per_worker = pos (64 * 1024 * 1024);
  max_held_bytes_per_worker = pos (64 * 1024 * 1024);
  worker_count = pos num_cpu;
  worker_queue_size = pos 1024;
  flow_idle_timeout = pos (30 * second);
  gc_interval = pos (5 * second);
  shutdown_fail_open_timeout = pos (5 * second);
  shutdown_fail_open_max_packets = pos 200000;
  adapter_flush_timeout = pos (2 * second);
}
