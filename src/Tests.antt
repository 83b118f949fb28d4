-- ===== src/Tests.antt =====
-- The definitions run on small inputs, and each theorem with hypotheses at an input that meets them.
mod Services
mod Startup
mod Adapters
mod Installer
mod Rules
mod Windows
use gov_pass.Prelude.{
  ℕ, ◌+◌, ◌≤◌, ◌<◌, ◌≡◌, refl, ◌⊎◌, ◌↔◌, true, none, some, List, [], ◌∷◌, ◌++◌, arith, drop,
  if◌then◌else◌, concat,
}
use gov_pass.Prelude.Int.{pos, is_pos}
use gov_pass.Packet.{Packet, source_captured, decode_ipv4_tcp, decode_ip, decode_tcp}
use gov_pass.Packet.Bytes.{read_u16, read_u32}
use gov_pass.Packet.Decode.{IsWholeTcp, fields, Sound, decode-accepts, decode-Sound}
use gov_pass.Tls.{detect_client_hello_record, match}
use gov_pass.Tls.Laws.{IsHello, detect-match_iff, detect-append}
use gov_pass.Flow.{
  Key, Table, table_get, table_set, table_delete, get_or_create, new_flow_state, key_eq, FlowState,
}
use gov_pass.Flow.Tables.{Distinct, Table-Distinct, table_get-delete, get_or_create_lem}
use gov_pass.Flow.Sharder.{new_sharder, shard_index, fnv_write, fnv_offset}
use gov_pass.Flow.Sharder.Laws.{shard_index-lt}
use gov_pass.Engine.Config.{default_config}
use gov_pass.Engine.Segments.{
  chunk_payload, chunk_loop, split_first, first_length, clamp_segment_payload, max_ipv4_total_len,
}
use gov_pass.Engine.Segments.Laws.{Fit, chunk_payload_lem, clamp_segment_payload_lem}
use gov_pass.Engine.Worker.{Worker, Adapter, adapter_error, new_worker, clamp_config, fail_open}
use gov_pass.Engine.Release.{FailsOpen, fail_open-FailsOpen}
use gov_pass.Engine.Collector.{packet_ready, run_step, enqueue}
use gov_pass.Engine.Accounting.Slots.{Accounts}
use gov_pass.Engine.Accounting.Reachable.{created, receives, rounds, Reaches-Accounts}
use gov_pass.Engine.Dispatch.{new_engine, receive}
use gov_pass.Engine.Dispatch.Laws.{Routed, new_engine-IsRouted, receive-Routed}
use gov_pass.Engine.Segments.{zero_meta}

-- A segment from 10.0.0.2:54321 to 1.1.1.1:443 with the first six bytes of a ClientHello record.
abbrev frame : List ℕ
frame =
    0x45 ∷ 0 ∷ 0 ∷ 46 ∷ 0 ∷ 7 ∷ 0x40 ∷ 0 ∷ 64 ∷ 6 ∷ 0 ∷ 0 ∷ 10 ∷ 0 ∷ 0 ∷ 2 ∷ 1 ∷ 1 ∷ 1 ∷ 1 ∷ 0xd4
    ∷ 0x31 ∷ 0x01 ∷ 0xbb ∷ 0 ∷ 0 ∷ 0 ∷ 100 ∷ 0 ∷ 0 ∷ 0 ∷ 0 ∷ 0x50 ∷ 0x18 ∷ 0 ∷ 0 ∷ 0 ∷ 0 ∷ 0 ∷ 0
    ∷ 0x16 ∷ 3 ∷ 1 ∷ 0 ∷ 5 ∷ 1 ∷ []

abbrev raw : Packet
raw = record {
  bytes = frame;
  addr = record { bytes = [] };
  meta = zero_meta;
  source = source_captured;
  nfq_id = 1;
}

abbrev captured : Packet
captured = record raw { meta = fields frame }

frame-IsWholeTcp : IsWholeTcp frame
frame-IsWholeTcp = omega arith

decode-accepts_example : decode_ipv4_tcp raw ≡ some (record raw { meta = fields frame }, none)
decode-accepts_example = decode-accepts raw frame-IsWholeTcp

decode-Sound_example : Sound raw (decode_ipv4_tcp raw)
decode-Sound_example = decode-Sound raw

decode_runs : decode_ipv4_tcp raw ≡ some (captured, none)
unfolding decode_ipv4_tcp decode_ip decode_tcp read_u16 read_u32
decode_runs = refl

detect-match_iff_example :
    (detect_client_hello_record (drop 40 frame) ≡ (5, match)) ↔ IsHello (drop 40 frame) 5
detect-match_iff_example = detect-match_iff (drop 40 frame) 5

detect-append_example :
    detect_client_hello_record (drop 40 frame ++ 9 ∷ [])
    ≡ detect_client_hello_record (drop 40 frame)
unfolding detect_client_hello_record
detect-append_example = detect-append (drop 40 frame) (9 ∷ []) (λ e. cc)

chunk_payload_lem_example :
    (concat (chunk_payload frame 20) ≡ frame) × Fit 20 (chunk_payload frame 20)
chunk_payload_lem_example = chunk_payload_lem frame 20 (omega arith)

split_first_runs :
    split_first (1 ∷ 2 ∷ 3 ∷ 4 ∷ 5 ∷ []) (pos 1) 2 ≡ (1 ∷ []) ∷ (2 ∷ 3 ∷ []) ∷ (4 ∷ 5 ∷ []) ∷ []
unfolding split_first chunk_loop first_length
split_first_runs = refl

abbrev limit : ℕ
limit = 1460

clamp_segment_payload_lem_example :
    let m = clamp_segment_payload 66000 40 (pos 1460) in
    (m ≤ 66000)
    × (1 ≤ m → 40 + m ≤ max_ipv4_total_len)
    × (is_pos (pos 1460) ≡ true → m ≤ 1460)
    × (1 ≤ 66000 → 1 ≤ 40 → 40 < max_ipv4_total_len → 1 ≤ m)
clamp_segment_payload_lem_example = clamp_segment_payload_lem 66000 40 (pos 1460)

abbrev key_a : Key
key_a = record {
  src_ip = 10 ∷ 0 ∷ 0 ∷ 2 ∷ [];
  dst_ip = 1 ∷ 1 ∷ 1 ∷ 1 ∷ [];
  src_port = 54321;
  dst_port = 443;
  proto = 6;
}

abbrev key_b : Key
key_b = record key_a { src_port = 54322 }

abbrev table : Table
table = (key_a, new_flow_state 3) ∷ []

table-Distinct : Distinct table
unfolding table_get
table-Distinct = (refl, tt)

table_get-delete_example :
    table_get (table_delete table key_a) key_b
    ≡ (if key_eq key_a key_b then none else table_get table key_b)
table_get-delete_example = table_get-delete table key_a key_b table-Distinct

get_or_create_lem_example :
    let r = get_or_create table key_b 9 in
    (((table_get table key_b ≡ some r.1) × (r.0 ≡ table))
      ⊎ ((table_get table key_b ≡ none) × (r.1 ≡ new_flow_state 9)))
    × (table_get r.0 key_a ≡ (if key_eq key_b key_a then some r.1 else table_get table key_a))
get_or_create_lem_example = get_or_create_lem table key_b key_a 9

shard_index-lt_example : shard_index (new_sharder (pos 8)) key_a < (new_sharder (pos 8)).workers
shard_index-lt_example = shard_index-lt (pos 8) key_a

-- The published FNV-1a hash of the text "a".
fnv_runs : fnv_write fnv_offset (b'a' ∷ []) ≡ 0xaf63dc4c8601ec8c
fnv_runs = refl

-- An adapter that takes every packet, and one that takes none.
abbrev willing : Adapter
willing = record {
  send_result = λ t p. none;
  drop_result = λ t p. none;
  calc_checksums = λ t p. (p, none);
}

abbrev broken : Adapter
broken = record willing { send_result = λ t p. some (adapter_error t) }

abbrev fresh : Worker
fresh = new_worker 0 (default_config 2)

abbrev holding : FlowState
holding = record (new_flow_state 3) { held_packets = captured ∷ captured ∷ [] }

fail_open-FailsOpen_example : FailsOpen fresh holding (fail_open broken fresh holding)
fail_open-FailsOpen_example = fail_open-FailsOpen broken fresh holding

Reaches-Accounts_example :
    Accounts (run_step willing (record fresh { queue = captured ∷ [] }) packet_ready 7).0
unfolding enqueue new_worker default_config clamp_config
Reaches-Accounts_example =
    Reaches-Accounts willing _
      (rounds (receives none captured (created 0 (default_config 2)) refl) packet_ready 7)

receive-Routed_example :
    (decoded : Packet) × (decoded.bytes ≡ frame)
    × Routed
        (new_engine (default_config 2))
        decoded
        (receive willing none (new_engine (default_config 2)) raw)
receive-Routed_example =
    receive-Routed willing none (new_engine (default_config 2)) raw
      (new_engine-IsRouted (default_config 2))
