-- ===== src/Engine/Segments.antt =====
-- How internal/engine/worker.go cuts a payload into segments, and the packets that it builds.
pub mod Laws
use gov_pass.Prelude.{
  ℕ, zero, suc, ◌+◌, ◌-◌, ◌||◌, ◌&&◌, Option, none, some, List, [], ◌∷◌, ltb, ◌==◌, if◌then◌else◌,
  length, take, drop, replicate, copy_at, is_empty,
}
use gov_pass.Prelude.Int.{ℤ, pos, pos_part, ltb_ℤ, is_pos}
use gov_pass.Packet.{Packet, Meta, source_injected}
use gov_pass.Packet.Fields.{
  set_ipv4_total_length, set_ipv4_id, set_tcp_seq, set_tcp_flags, set_ipv4_checksum_zero,
  set_tcp_checksum_zero,
}

abbrev pub max_ipv4_total_len : ℕ
max_ipv4_total_len = 0xffff

-- The loop of splitFirst and of chunkPayload from `offset` on. A round takes at least one byte, so
-- that the length of the payload is enough fuel.
unfoldable pub chunk_loop : ℕ → List ℕ → ℕ → ℕ → List (List ℕ)
chunk_loop zero payload max_payload offset = []
chunk_loop (suc fuel) payload max_payload offset =
    let remaining = length payload - offset in
    let chunk = if ltb remaining max_payload then remaining else max_payload in
    let rest = chunk_loop fuel payload max_payload (offset + chunk) in
    if ltb offset (length payload) then take chunk (drop offset payload) ∷ rest else []

-- `nil` is the empty list. The caller's `maxPayload` comes from clampSegmentPayload and is not
-- negative.
pub chunk_payload : List ℕ → ℕ → List (List ℕ)
chunk_payload payload max_payload =
    if ltb max_payload 1 || length payload == 0
    then []
    else chunk_loop (length payload) payload max_payload 0

-- `firstLen` brought into the range from 1 to `maxPayload`.
unfoldable pub first_length : ℤ → ℕ → ℕ
first_length first_len max_payload =
    let first = if ltb_ℤ first_len (pos 1) then 1 else pos_part first_len in
    if ltb max_payload first then max_payload else first

unfoldable pub split_first : List ℕ → ℤ → ℕ → List (List ℕ)
split_first payload first_len max_payload =
    if ltb max_payload 1 || length payload == 0
    then []
    else let first = first_length first_len max_payload in
      if ltb first (length payload)
      then take first payload ∷ chunk_loop (length payload) payload max_payload first
      else []

pub clamp_segment_payload : ℕ → ℕ → ℤ → ℕ
clamp_segment_payload payload_len header_len cap_payload =
    if ltb payload_len 1
    then 0
    else if ltb header_len 1 || ltb max_ipv4_total_len header_len
    then 0
    else let ip_max = max_ipv4_total_len - header_len in
      let max_payload = if ltb ip_max payload_len then ip_max else payload_len in
      if is_pos cap_payload && ltb_ℤ cap_payload (pos max_payload)
      then pos_part cap_payload
      else max_payload

-- The zero value of packet.Meta.
abbrev pub zero_meta : Meta
zero_meta = record {
  src_ip = 0 ∷ 0 ∷ 0 ∷ 0 ∷ [];
  dst_ip = 0 ∷ 0 ∷ 0 ∷ 0 ∷ [];
  src_port = 0;
  dst_port = 0;
  proto = 0;
  seq = 0;
  ack = 0;
  flags = 0;
  ip_header_len = 0;
  tcp_header_len = 0;
  payload_offset = 0;
}

-- The bytes of the new packet, in the order in which the code writes them.
unfoldable pub build_bytes : List ℕ → ℕ → ℕ → ℕ → List ℕ → ℕ → ℕ → List ℕ
build_bytes tpl ip_len header_len seq payload flags ipid =
    let buf = copy_at (replicate (header_len + length payload) 0) 0 (take header_len tpl) in
    let sized = set_ipv4_total_length buf (length buf) in
    let numbered = set_ipv4_id sized ipid in
    let sequenced = set_tcp_seq numbered ip_len seq in
    let flagged = set_tcp_flags sequenced ip_len flags in
    let filled = copy_at flagged header_len payload in
    set_tcp_checksum_zero (set_ipv4_checksum_zero filled) ip_len

-- buildPacket; `none` is its error "invalid header length". The callers' templates are not nil,
-- and their `ipid` is a pointer to a counter that they step on success.
unfoldable pub build_packet : Packet → ℕ → List ℕ → ℕ → ℕ → Option Packet
build_packet tpl seq payload flags ipid =
    let header_len = tpl.meta.ip_header_len + tpl.meta.tcp_header_len in
    if header_len == 0 || ltb (length tpl.bytes) header_len
    then none
    else some (record {
      bytes = build_bytes tpl.bytes tpl.meta.ip_header_len header_len seq payload flags ipid;
      addr = tpl.addr;
      meta = zero_meta;
      source = source_injected;
      nfq_id = 0;
    })
