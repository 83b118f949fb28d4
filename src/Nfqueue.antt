-- ===== src/Nfqueue.antt =====
-- internal/adapter/nfqueue_linux.go: the adapter over NFQUEUE and a raw socket.
pub mod Ledger
pub mod Verdicts
use gov_pass.Prelude.{
  ℕ, ◌+◌, ◌*◌, ◌%◌, ◌^◌, Bool, true, false, not, ◌||◌, Option, none, some, List, [], ◌∷◌, ◌++◌, ltb,
  if◌then◌else◌, length, take, drop, is_empty,
}
use gov_pass.Packet.{Packet, Address, Source, source_unknown, source_captured, source_injected}
use gov_pass.Packet.Bytes.{byte_at}
use gov_pass.Packet.Fields.{
  set_ipv4_checksum_zero, set_ipv4_checksum, set_tcp_checksum_zero, set_tcp_checksum,
}
use gov_pass.Packet.Checksum.{ipv4_checksum, tcp_checksum_ipv4}
use gov_pass.Engine.Segments.{zero_meta}

pub data Verdict : Type 0 where
  nf_accept nf_drop : Verdict

-- A call of the queue's library or of the raw socket.
pub data Call : Type 0 where
  verdict : ℕ → Verdict → Call
  send_to : List ℕ → List ℕ → Call

-- ErrNotImplemented, or an error of a call or of a context.
pub data NfError : Type 0 where
  not_implemented : NfError
  foreign : ℕ → NfError

-- `queue_open` is `queue != nil`, `raw_open` is `rawFD >= 0`, and `stopped` is `ctx.Err() != nil`.
-- `capacity` is that of the channel `recv`, and `calls` are the calls made so far.
pub record Nfqueue : Type 0 where
  pub queue_open : Bool
  pub raw_open : Bool
  pub flushing : Bool
  pub stopped : Bool
  pub recv : List Packet
  pub capacity : ℕ
  pub calls : List Call

-- The adapter as NewNFQueue leaves it, when the library's calls succeed.
unfoldable pub new_nfqueue : Nfqueue
new_nfqueue = record {
  queue_open = true;
  raw_open = true;
  flushing = false;
  stopped = false;
  recv = [];
  capacity = 1024;
  calls = [];
}

abbrev pub called : Nfqueue → Call → Nfqueue
called q c = record q { calls = q.calls ++ c ∷ [] }

-- The packet that a callback makes.
abbrev pub captured : Address → List ℕ → ℕ → Packet
captured addr bytes id = record {
  bytes = bytes;
  addr = addr;
  meta = zero_meta;
  source = source_captured;
  nfq_id = id;
}

-- CalcChecksums, on the packet's bytes.
unfoldable pub calc_checksums : List ℕ → List ℕ
calc_checksums d =
    let header_len = byte_at d 0 % 2 ^ 4 * 4 in
    let zeroed = set_tcp_checksum_zero (set_ipv4_checksum_zero d) header_len in
    if ltb (length d) 20
    then d
    else if ltb header_len 20 || ltb (length d) (header_len + 20)
    then d
    else set_tcp_checksum (set_ipv4_checksum zeroed (ipv4_checksum zeroed header_len)) header_len
        (tcp_checksum_ipv4 zeroed header_len)

-- `answer` is what a call returns, after the calls before it.
module _ (answer : List Call → Call → Option NfError) where
  -- setVerdict
  pub set_verdict : Nfqueue → ℕ → Verdict → Nfqueue × Option NfError
  set_verdict q id v =
      if not q.queue_open
      then (q, some not_implemented)
      else (called q (verdict id v), answer q.calls (verdict id v))

  -- inject: a packet without a whole IP header is left out.
  unfoldable pub inject : Nfqueue → Packet → Nfqueue × Option NfError
  inject q pkt =
      let call = send_to (take 4 (drop 16 pkt.bytes)) pkt.bytes in
      if not q.raw_open
      then (q, some not_implemented)
      else if ltb (length pkt.bytes) 20
      then (q, none)
      else (called q call, answer q.calls call)

  -- Send: a captured packet is accepted as it stands in the kernel, any other is sent anew.
  unfoldable pub send : Nfqueue → Packet → Nfqueue × Option NfError
  send q pkt = if is_empty pkt.bytes then (q, none) else elim pkt.source [
    | source_captured ↦ set_verdict q pkt.nfq_id nf_accept
    | source_unknown ↦ inject q pkt
    | source_injected ↦ inject q pkt
  ]

  -- Drop
  unfoldable pub drop_packet : Nfqueue → Packet → Nfqueue × Option NfError
  drop_packet q pkt = elim pkt.source [
    | source_captured ↦ set_verdict q pkt.nfq_id nf_drop
    | source_unknown ↦ (q, none)
    | source_injected ↦ (q, none)
  ]

  -- onPacket, on a message with a payload and an id: it waits in `recv`, if there is room and the
  -- adapter is not being closed, and is accepted at once otherwise. `addr` is the zero address.
  unfoldable pub on_captured : Nfqueue → Address → List ℕ → ℕ → Nfqueue
  on_captured q addr bytes id =
      if q.flushing || q.stopped
      then (set_verdict q id nf_accept).0
      else if ltb (length q.recv) q.capacity
      then record q { recv = q.recv ++ captured addr bytes id ∷ [] }
      else (set_verdict q id nf_accept).0

  -- onPacket, which leaves a message without a payload or an id alone. It always returns 0.
  unfoldable pub on_packet : Nfqueue → Address → Option (List ℕ) → Option ℕ → Nfqueue
  on_packet q addr none id = q
  on_packet q addr (some bytes) none = q
  on_packet q addr (some bytes) (some id) = on_captured q addr bytes id

  -- The last loop of Flush: all that waits is accepted, and the errors are collected.
  unfoldable pub drain : Nfqueue → List Packet → Nfqueue × List NfError
  drain q [] = (record q { recv = [] }, [])
  drain q (pkt ∷ rest) =
      let r = set_verdict q pkt.nfq_id nf_accept in
      let later = drain r.0 rest in (later.0, elim r.1 [ none ↦ later.1 | some e ↦ e ∷ later.1 ])

  -- Flush, once no callback is running; `waited` is the context's error if that took too long.
  pub flush : Nfqueue → Option NfError → Nfqueue × List NfError
  flush q waited =
      let closing = record q { flushing = true; stopped = true } in
      if not q.queue_open
      then (q, [])
      else elim waited [ some e ↦ (closing, e ∷ []) | none ↦ drain closing closing.recv ]
