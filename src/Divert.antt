-- ===== src/Divert.antt =====
-- internal/adapter/divert_freebsd.go: the adapter over a divert socket.
pub mod Flushing
pub mod Laws
pub mod Receiving
use gov_pass.Prelude.{
  ℕ, suc, ◌+◌, ◌%◌, ◌^◌, Bool, true, false, not, Option, none, some, List, [], ◌∷◌, ◌++◌, ◌==◌,
  if◌then◌else◌, take, drop, is_empty, replicate, copy_at,
}
use gov_pass.Packet.{Packet, Address, source_captured}
use gov_pass.Packet.Bytes.{u16_at, u32_at, put_u16}
use gov_pass.Engine.Segments.{zero_meta}
use gov_pass.Nfqueue

-- FreeBSD's unix.AF_INET and unix.AF_INET6.
abbrev pub af_inet : ℕ
af_inet = 2

abbrev pub af_inet6 : ℕ
af_inet6 = 28

-- unix.Sockaddr: those that the code makes or tells apart.
pub data Sockaddr : Type 0 where
  inet4 : ℕ → List ℕ → Sockaddr
  inet6 : ℕ → List ℕ → ℕ → Sockaddr
  other_sockaddr : ℕ → Sockaddr

-- The array Data of packet.Address.
abbrev pub zero_address : Address
zero_address = record { bytes = replicate 256 0 }

-- encodeDivertAddr; `none` is its error.
pub encode_divert_addr : Sockaddr → Option Address
encode_divert_addr (inet4 port ip) = some (record {
  bytes = copy_at (put_u16 (put_u16 zero_address.bytes 0 af_inet) 2 (port % 2 ^ 16)) 4 (take 4 ip);
})
encode_divert_addr (inet6 port ip zone) = none
encode_divert_addr (other_sockaddr n) = none

-- The port of an address, or the socket's own; `none` is the error "missing port".
pub port_or : ℕ → ℕ → Option ℕ
port_or port fallback =
    if port == 0 then (if fallback == 0 then none else some fallback) else some port

-- legacyDivertAddr
unfoldable pub legacy_divert_addr : Address → ℕ → Option Sockaddr
legacy_divert_addr addr fallback = elim (port_or (u16_at addr.bytes 0) fallback) [
  | none ↦ none
  | some port ↦ some (inet4 port (take 4 (drop 2 addr.bytes)))
]

-- decodeDivertAddr; `none` is its error.
pub decode_divert_addr : Address → ℕ → Option Sockaddr
decode_divert_addr addr fallback =
    let family = u16_at addr.bytes 0 in
    if family == af_inet
    then elim (port_or (u16_at addr.bytes 2) fallback) [
      | none ↦ none
      | some port ↦ some (inet4 port (take 4 (drop 4 addr.bytes)))
    ]
    else if family == af_inet6
    then elim (port_or (u16_at addr.bytes 2) fallback) [
      | none ↦ none
      | some port ↦ some (inet6 port (take 16 (drop 4 addr.bytes)) (u32_at addr.bytes 20))
    ]
    else legacy_divert_addr addr fallback

-- What unix.Recvfrom returns: bytes and where they come from, EINTR, EAGAIN (EWOULDBLOCK is the
-- same number), or another error.
pub data Arrival : Type 0 where
  arrived : List ℕ → Sockaddr → Arrival
  interrupted would_block : Arrival
  recv_failed : ℕ → Arrival

pub data DivertError : Type 0 where
  not_implemented missing_port : DivertError
  system_error context_error : ℕ → DivertError

-- `fd_open` is `fd >= 0`, and `calls` are the calls of unix.Sendto so far.
pub record Divert : Type 0 where
  pub fd_open : Bool
  pub port : ℕ
  pub calls : List (List ℕ × Sockaddr)

-- What Recv returns; `waits` means that the arrivals are used up.
pub data Received : Type 0 where
  returns : Packet → Received
  fails : DivertError → Received
  waits : Received

abbrev pub captured : List ℕ → Address → Packet
captured bytes addr = record {
  bytes = bytes;
  addr = addr;
  meta = zero_meta;
  source = source_captured;
  nfq_id = 0;
}

-- CalcChecksums has the text of the Linux adapter's.
unfoldable pub calc_checksums : List ℕ → List ℕ
calc_checksums d = Nfqueue.calc_checksums d

abbrev pub called : Divert → List ℕ → Sockaddr → Divert
called d bytes to = record d { calls = d.calls ++ (bytes, to) ∷ [] }

-- `answer` is the error of the call of Sendto that follows so many others, if it has one.
module _ (answer : List (List ℕ × Sockaddr) → Option DivertError) where
  pub send_to : Divert → List ℕ → Sockaddr → Divert × Option DivertError
  send_to d bytes to = (called d bytes to, answer d.calls)

  -- Send
  unfoldable pub send : Divert → Packet → Divert × Option DivertError
  send d pkt =
      if not d.fd_open
      then (d, some not_implemented)
      else if is_empty pkt.bytes
      then (d, none)
      else elim (decode_divert_addr pkt.addr d.port) [
        | none ↦ (d, some missing_port)
        | some to ↦ send_to d pkt.bytes to
      ]

  -- The loop of Recv over what the socket gives: the adapter, the arrivals left, and what is
  -- returned. `ctx_err` is ctx.Err() with so many arrivals left.
  pub recv_loop :
      (List Arrival → Option DivertError) → Divert → List Arrival → Divert × List Arrival × Received
  recv_loop ctx_err d [] = (d, [], waits)
  recv_loop ctx_err d (interrupted ∷ rest) = recv_loop ctx_err d rest
  recv_loop ctx_err d (would_block ∷ rest) =
      let next = recv_loop ctx_err d rest in
      elim (ctx_err rest) [ some e ↦ (d, rest, fails e) | none ↦ next ]
  recv_loop ctx_err d (recv_failed n ∷ rest) = (d, rest, fails (system_error n))
  recv_loop ctx_err d (arrived bytes from ∷ rest) =
      let sent = send_to d bytes from in
      let next = recv_loop ctx_err d rest in
      let after = recv_loop ctx_err sent.0 rest in
      if is_empty bytes then next else elim (encode_divert_addr from) [
        | some addr ↦ (d, rest, returns (captured bytes addr))
        | none ↦ elim sent.1 [ some e ↦ (sent.0, rest, fails e) | none ↦ after ]
      ]

  -- Recv
  pub recv :
      (List Arrival → Option DivertError) → Divert → List Arrival → Divert × List Arrival × Received
  recv ctx_err d arrivals =
      if not d.fd_open then (d, arrivals, fails not_implemented) else recv_loop ctx_err d arrivals

  -- The loop of Flush, which does not wait: the errors that are joined, oldest first. Where the
  -- socket has nothing more it answers EAGAIN.
  pub flush_loop :
      (List Arrival → Option DivertError) → Divert → List Arrival → Divert × List DivertError
  flush_loop ctx_err d [] = elim (ctx_err []) [ some e ↦ (d, e ∷ []) | none ↦ (d, []) ]
  flush_loop ctx_err d (interrupted ∷ rest) =
      let next = flush_loop ctx_err d rest in
      elim (ctx_err (interrupted ∷ rest)) [ some e ↦ (d, e ∷ []) | none ↦ next ]
  flush_loop ctx_err d (would_block ∷ rest) = elim (ctx_err (would_block ∷ rest)) [
    | some e ↦ (d, e ∷ [])
    | none ↦ (d, [])
  ]
  flush_loop ctx_err d (recv_failed n ∷ rest) = elim (ctx_err (recv_failed n ∷ rest)) [
    | some e ↦ (d, e ∷ [])
    | none ↦ (d, system_error n ∷ [])
  ]
  flush_loop ctx_err d (arrived bytes from ∷ rest) =
      let sent = send_to d bytes from in
      let next = flush_loop ctx_err d rest in
      let after = flush_loop ctx_err sent.0 rest in
      elim (ctx_err (arrived bytes from ∷ rest)) [
        | some e ↦ (d, e ∷ [])
        | none ↦
            if is_empty bytes
            then next
            else elim sent.1 [ some e ↦ (after.0, e ∷ after.1) | none ↦ after ]
      ]

  -- Flush
  unfoldable pub flush :
      (List Arrival → Option DivertError) → Divert → List Arrival → Divert × List DivertError
  flush ctx_err d arrivals = if not d.fd_open then (d, []) else flush_loop ctx_err d arrivals
