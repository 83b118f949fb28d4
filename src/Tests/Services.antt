-- ===== src/Tests/Services.antt =====
-- Runs of the adapter, the settings, the buffer and the end of the engine, and their theorems at
-- inputs that meet the hypotheses.
use gov_pass.Prelude.{
  ℕ, ◌/◌, ◌%◌, ◌^◌, ◌≡◌, refl, ◌⊎◌, ◌↔◌, inr, ◌||◌, true, false, Option, none, some, List, [], ◌∷◌,
  ◌++◌, arith, if◌then◌else◌, ◌==◌, is_empty,
}
use gov_pass.Prelude.Int.{ℤ, pos, negsuc}
use gov_pass.Packet.{Packet}
use gov_pass.Packet.Checksum.{checksum, checksum_sum, fold_checksum}
use gov_pass.Packet.Checksum.Sums.{IsFolded, fold_checksum-IsFolded, checksum-Verifies}
use gov_pass.Engine.Config.{Config, default_config}
use gov_pass.Engine.Worker.{canceled, deadline_exceeded, limit_reached, adapter_error, clamp_config}
use gov_pass.Engine.Dispatch.{is_canceled}
use gov_pass.Engine.Worker.{Adapter, Worker, new_worker}
use gov_pass.Engine.Shutdown.{shutdown_fail_open}
use gov_pass.Engine.Shutdown.Bound.{Released, shutdown_fail_open-Released}
use gov_pass.Engine.Exit.{
  is_deadline, is_limit, was, worker_exit, worker_report, engine_exit, worker_report-none_iff,
  engine_exit-none_iff,
}
use gov_pass.Reassembly.{new_buffer, push}
use gov_pass.Reassembly.Laws.{Kept, push-Kept}
use gov_pass.Reassembly.Stream.{push_all, push_all-new}
use gov_pass.Nfqueue.{
  Nfqueue, Call, NfError, new_nfqueue, on_captured, on_packet, send, captured, flush,
}
use gov_pass.Nfqueue.Ledger.{opened, arrives, receives, sends, flushes, Balanced}
use gov_pass.Nfqueue.Verdicts.{Reaches-Balanced}
use gov_pass.Settings.{Text, Library, RunConfig, apply_json, json_from_defaults}
use gov_pass.Settings.Validation.{
  validate_engine_config, Valid, validate-Valid, clamp_config-validated,
}
use gov_pass.Settings.Laws.{IsInt64, Documented, HasDurations, apply-defaults}

-- The header of an IPv4 packet, before and behind its checksum.
abbrev front : List ℕ
front = 0x45 ∷ 0 ∷ 0 ∷ 46 ∷ 0 ∷ 7 ∷ 0x40 ∷ 0 ∷ 64 ∷ 6 ∷ []

abbrev back : List ℕ
back = 10 ∷ 0 ∷ 0 ∷ 2 ∷ 1 ∷ 1 ∷ 1 ∷ 1 ∷ []

fold_checksum-IsFolded_example : IsFolded 131071 (fold_checksum 131071)
fold_checksum-IsFolded_example = fold_checksum-IsFolded 131071 (omega arith)

checksum-Verifies_example :
    let c = checksum (front ++ 0 ∷ 0 ∷ back) in
    fold_checksum (checksum_sum (front ++ (c / 2 ^ 8) ∷ (c % 2 ^ 8) ∷ back)) ≡ 65535
checksum-Verifies_example = checksum-Verifies front back refl (omega arith) (omega arith)

worker_report-none_iff_example :
    (worker_report (worker_exit (some canceled) (some limit_reached)) ≡ none) ↔ (
      ((some canceled ≡ none) × (some limit_reached ≡ none))
      ⊎ ((was is_canceled (some canceled) ≡ true)
          × ((some limit_reached ≡ none)
              ⊎ ((was is_deadline (some limit_reached) || was is_limit (some limit_reached))
                  ≡ true))))
unfolding was is_canceled
worker_report-none_iff_example = worker_report-none_iff (some canceled) (some limit_reached) refl

engine_exit-none_iff_example :
    (engine_exit (some canceled) (some deadline_exceeded) (some (adapter_error 3)) ≡ none) ↔ (
      (is_canceled canceled ≡ true)
      × ((some deadline_exceeded ≡ none) ⊎ (was is_deadline (some deadline_exceeded) ≡ true))
      × (worker_report (some (adapter_error 3)) ≡ none))
unfolding was is_canceled
engine_exit-none_iff_example =
    engine_exit-none_iff canceled (some deadline_exceeded) (some (adapter_error 3)) refl

-- Two packets come in; the engine takes the first and sends it; Flush accepts the second.
abbrev silent : List Call → Call → Option NfError
silent calls c = none

abbrev two_came : Nfqueue
two_came =
    on_packet silent (on_packet silent new_nfqueue (record { bytes = [] }) (some (1 ∷ [])) (some 7))
      (record { bytes = [] }) (some (2 ∷ [])) (some 8)

abbrev one_left : Nfqueue
one_left = record two_came { recv = captured (record { bytes = [] }) (2 ∷ []) 8 ∷ [] }

abbrev first_packet : Packet
first_packet = captured (record { bytes = [] }) (1 ∷ []) 7

Reaches-Balanced_example :
    Balanced
      (flush silent (send silent one_left first_packet).0 none).0
      (8 ∷ 7 ∷ [])
      (7 ∷ [])
      (7 ∷ [])
unfolding new_nfqueue on_packet on_captured
Reaches-Balanced_example = Reaches-Balanced silent _ _ _ _ (
    flushes
      (sends
        (receives (arrives (arrives opened _ (1 ∷ []) 7) _ (2 ∷ []) 8) first_packet one_left.recv
          refl)
        first_packet refl refl)
      none)

-- Texts that are taken as they stand, and durations as a sign and a number.
abbrev read_duration : Text → Option ℤ
read_duration [] = none
read_duration (sign ∷ []) = none
read_duration (sign ∷ n ∷ []) = some (if sign == 0 then pos n else negsuc n)
read_duration (sign ∷ n ∷ m ∷ rest) = none

abbrev write_duration : ℤ → Text
write_duration (pos n) = 0 ∷ n ∷ []
write_duration (negsuc n) = 1 ∷ n ∷ []

abbrev pub plain : Library
plain = record {
  trim_space = λ t. t;
  to_lower = λ t. t;
  parse_duration = read_duration;
  duration_text = write_duration;
}

write_duration-read : (d : ℤ) → read_duration (write_duration d) ≡ some d
write_duration-read (pos n) = refl
write_duration-read (negsuc n) = refl

pub plain-Documented : Documented plain
plain-Documented = record {
  immediate_lower = refl;
  tls_hello_lower = refl;
  immediate_word = refl;
  tls_hello_word = refl;
  duration_word = not_blank;
  duration_read = λ d _. write_duration-read d;
}
  where
    not_blank : (d : ℤ) → IsInt64 d → is_empty (write_duration d) ≡ false
    not_blank (pos n) h = refl
    not_blank (negsuc n) h = refl

default-HasDurations : HasDurations (default_config 2)
unfolding default_config IsInt64
default-HasDurations = record {
  collect_timeout = omega arith;
  flow_idle_timeout = omega arith;
  gc_interval = omega arith;
  shutdown_fail_open_timeout = omega arith;
  adapter_flush_timeout = omega arith;
}

abbrev run_config : RunConfig
run_config = record {
  filter = 116 ∷ 99 ∷ 112 ∷ [];
  queue_len = 4096;
  queue_time = 2000;
  queue_size = 33554432;
  win_divert_dir = [];
  win_divert_sys = [];
  win_divert_svc_name = [];
  auto_install_driver = true;
  auto_uninstall_driver = true;
  auto_download_files = true;
}

abbrev other_run : RunConfig
other_run = record run_config { filter = 117 ∷ []; queue_len = 1; win_divert_dir = 67 ∷ [] }

abbrev other_cfg : Config
other_cfg = record (default_config 8) { worker_queue_size = pos 16; split_chunk = pos 9 }

apply-defaults_example :
    apply_json plain other_cfg other_run (json_from_defaults plain (default_config 2) run_config)
    ≡ (
      record (default_config 2) { worker_queue_size = pos 16 },
      record run_config { win_divert_dir = 67 ∷ [] },
      none,
    )
unfolding default_config
apply-defaults_example =
    apply-defaults plain plain-Documented (default_config 2) other_cfg run_config other_run
      (inr refl) default-HasDurations refl

validate-Valid_example :
    (validate_engine_config (default_config 2) ≡ none) ↔ Valid (default_config 2)
validate-Valid_example = validate-Valid (default_config 2)

clamp_config-validated_example : clamp_config (default_config 2) ≡ default_config 2
unfolding validate_engine_config default_config
clamp_config-validated_example = clamp_config-validated (default_config 2) refl refl

-- A worker with two packets in its queue, whose adapter refuses the first.
abbrev waiting_worker : Worker
waiting_worker = record (new_worker 0 (default_config 2)) {
  queue = first_packet ∷ first_packet ∷ [];
}

abbrev refusing : Adapter
refusing = record {
  send_result = λ t p. if t == 0 then some (adapter_error 1) else none;
  drop_result = λ t p. none;
  calc_checksums = λ t p. (p, none);
}

shutdown_fail_open-Released_example :
    Released waiting_worker (shutdown_fail_open refusing (λ t. none) waiting_worker)
shutdown_fail_open-Released_example =
    shutdown_fail_open-Released refusing (λ t. none) waiting_worker

-- A fragment behind a gap.
push-Kept_example : Kept (new_buffer 100 64) (push (new_buffer 100 64) 104 (7 ∷ 8 ∷ []))
push-Kept_example = push-Kept (new_buffer 100 64) 104 (7 ∷ 8 ∷ [])

-- A stream over the wrap-around of its sequence numbers.
push_all-new_example :
    (push_all (new_buffer 4294967294 64) 4294967294 ((1 ∷ 2 ∷ 3 ∷ []) ∷ [] ∷ (4 ∷ []) ∷ [])).contig
    ≡ 1 ∷ 2 ∷ 3 ∷ 4 ∷ []
push_all-new_example =
    push_all-new 4294967294 64 ((1 ∷ 2 ∷ 3 ∷ []) ∷ [] ∷ (4 ∷ []) ∷ []) (omega arith) (omega arith)
      (omega arith)
