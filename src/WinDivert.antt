-- ===== src/WinDivert.antt =====
-- internal/adapter/windivert_windows.go: the packets in the Windows adapter.
pub mod Counts
pub mod Laws
pub mod Losses
use gov_pass.Prelude.{
  ℕ, Bool, true, false, not, ◌||◌, Option, none, some, List, [], ◌∷◌, ◌++◌, ◌==◌, if◌then◌else◌,
  length, is_empty,
}
use gov_pass.Packet.{Packet, Address, source_captured}
use gov_pass.Engine.Segments.{zero_meta}

-- What WinDivertRecv gives.
pub data WinArrival : Type 0 where
  received : List ℕ → Address → WinArrival
  receive_failed : ℕ → WinArrival

-- ErrNotImplemented, or an error of a call or a context.
pub data WinError : Type 0 where
  closed : WinError
  call_failed : ℕ → WinError

-- `is_open` is `handle != 0`, and `stopped` is `ctx.Err() != nil`. `errs` is the channel of one
-- place, `capacity` that of the channel `recv`, and `sends` are the calls of WinDivertSend so far.
pub record WinDivert : Type 0 where
  pub is_open : Bool
  pub stopped : Bool
  pub recv : List Packet
  pub capacity : ℕ
  pub errs : List ℕ
  pub sends : List (List ℕ × Address)

-- The packet that the receiving loop makes.
abbrev pub win_captured : List ℕ → Address → Packet
win_captured bytes addr = record {
  bytes = bytes;
  addr = addr;
  meta = zero_meta;
  source = source_captured;
  nfq_id = 0;
}

-- An error waits in the channel, if there is room.
abbrev pub report : WinDivert → ℕ → WinDivert
report w e = if is_empty w.errs then record w { errs = e ∷ [] } else w

-- A packet that has no room in the channel is sent on; the loop ends where that fails.
abbrev pub on_full : WinDivert × Option ℕ → WinDivert × Bool
on_full (w, none) = (w, true)
on_full (w, some e) = if w.stopped then (w, false) else (report w e, false)

-- `answer` is the error of a call of WinDivertSend after those before it, if it has one.
module _ (answer : List (List ℕ × Address) → Option ℕ) where
  unfoldable pub call_send : WinDivert → List ℕ → Address → WinDivert × Option ℕ
  call_send w bytes addr = (record w { sends = w.sends ++ (bytes, addr) ∷ [] }, answer w.sends)

  -- Send
  unfoldable pub send_packet : WinDivert → Packet → WinDivert × Option WinError
  send_packet w pkt =
      let r = call_send w pkt.bytes pkt.addr in
      if not w.is_open
      then (w, some closed)
      else if is_empty pkt.bytes
      then (w, none)
      else elim r.1 [ none ↦ (r.0, none) | some e ↦ (r.0, some (call_failed e)) ]

  -- What the loop does with what WinDivertRecv gave; `cancelled` is that the context ends before
  -- the packet is in the channel, which then goes on instead. The channel has room there, since no
  -- one else fills it.
  unfoldable pub on_arrival : Bool → WinDivert → WinArrival → WinDivert × Bool
  on_arrival cancelled w (receive_failed e) = if w.stopped then (w, false) else (report w e, false)
  on_arrival cancelled w (received bytes addr) =
      if is_empty bytes
      then (w, true)
      else if w.stopped
      then ((call_send w bytes addr).0, false)
      else if length w.recv == w.capacity
      then on_full (call_send w bytes addr)
      else if cancelled
      then (record (call_send w bytes addr).0 { stopped = true }, false)
      else (record w { recv = w.recv ++ win_captured bytes addr ∷ [] }, true)

  -- The receiving loop, over what comes: with each arrival, whether the context ends while
  -- WinDivertRecv waits for it, and before it is in the channel. The arrivals that it leaves are
  -- given back.
  unfoldable pub receive_loop :
      WinDivert → List (WinArrival × Bool × Bool) → WinDivert × List (WinArrival × Bool × Bool)
  receive_loop w [] = (w, [])
  receive_loop w (a ∷ rest) =
      let awake = if a.1 then record w { stopped = true } else w in
      let r = on_arrival a.2 awake a.0 in
      let later = receive_loop r.0 rest in
      if w.stopped || not w.is_open then (w, a ∷ rest) else if r.1 then later else (r.0, rest)

  -- The loop of Flush: the first error is kept.
  unfoldable pub drain_recv :
      WinDivert → List Packet → Option WinError → WinDivert × Option WinError
  drain_recv w [] first = (record w { recv = [] }, first)
  drain_recv w (p ∷ ps) first =
      let r = send_packet w p in drain_recv r.0 ps (elim first [ some e ↦ some e | none ↦ r.1 ])

  -- Flush, once the receiving loop has ended or the context `ctx_err` has.
  unfoldable pub flush_recv : WinDivert → Option ℕ → WinDivert × Option WinError
  flush_recv w ctx_err =
      let r = drain_recv (record w { stopped = true }) w.recv none in
      if not w.is_open then (w, none) else elim r.1 [
        | some e ↦ (r.0, some e)
        | none ↦ elim ctx_err [ some n ↦ (r.0, some (call_failed n)) | none ↦ (r.0, none) ]
      ]
