-- ===== src/Engine/Shutdown.antt =====
-- shutdownFailOpen of internal/engine/worker.go: the bounded release of held and queued packets.
pub mod Stretch
pub mod Bound
use gov_pass.Prelude.{
  ℕ, ◌+◌, Bool, true, false, not, ◌&&◌, ◌||◌, Option, none, some, List, [], ◌∷◌, ltb, if◌then◌else◌,
}
use gov_pass.Prelude.Int.{is_pos, pos_part}
use gov_pass.Packet.{Packet}
use gov_pass.Flow.{Table}
use gov_pass.Engine.Config.{Config}
use gov_pass.Engine.Worker.{
  Worker, Adapter, Error, canceled, deadline_exceeded, limit_reached, config_nil, invalid_header,
  adapter_error, joined, send,
}
use gov_pass.Engine.Collector.{first_error}

-- ShutdownFailOpenMaxPackets, or its default.
pub packet_limit : Option Config → ℕ
packet_limit none = 200000
packet_limit (some cfg) =
    if is_pos cfg.shutdown_fail_open_max_packets
    then pos_part cfg.shutdown_fail_open_max_packets
    else 200000

-- `errors.Is` for the three errors that end the release.
unfoldable pub is_stop : Error → Bool
is_stop canceled = true
is_stop deadline_exceeded = true
is_stop limit_reached = true
is_stop config_nil = false
is_stop invalid_header = false
is_stop (adapter_error n) = false
is_stop (joined a b) = is_stop a || is_stop b

-- `errors.Join(firstErr, err)` if there is a first error.
abbrev pub join_first : Option Error → Error → Error
join_first none e = e
join_first (some f) e = joined f e

-- How the loops over the packets go: the worker, the number released so far, the first error, and
-- the error that stopped them.
pub record Flush : Type 0 where
  pub worker : Worker
  pub flushed : ℕ
  pub first : Option Error
  pub stop : Option Error

-- A packet counts when it has been sent.
pub count_sent : Flush → Worker × Option Error → Flush × Option Error
count_sent f (w, some e) = (record f { worker = w }, some e)
count_sent f (w, none) = (record f { worker = w; flushed = f.flushed + 1 }, none)

-- What becomes of reinject's error.
pub settle : Flush × Option Error → Flush
settle (f, none) = f
settle (f, some e) =
    if is_stop e
    then record f { stop = some e }
    else record f { first = first_error f.first (some e) }

-- `ctx_err` is ctx.Err() as a function of the adapter calls made.
module _ (ad : Adapter) (ctx_err : ℕ → Option Error) (max_packets : ℕ) where
  -- reinject
  pub reinject : Flush → Packet → Flush × Option Error
  reinject f pkt = elim (ctx_err f.worker.clock) [
    | some e ↦ (f, some e)
    | none ↦
        if ltb 0 max_packets && not (ltb f.flushed max_packets)
        then (f, some limit_reached)
        else count_sent f (send ad f.worker pkt)
  ]

  -- reinject, with its error taken for a stop or kept as the first.
  pub release_one : Flush → Packet → Flush
  release_one f pkt = settle (reinject f pkt)

  pub release_held : Flush → List Packet → Flush
  release_held f [] = f
  release_held f (pkt ∷ rest) =
      let f' = release_one f pkt in elim f'.stop [ some e ↦ f' | none ↦ release_held f' rest ]

  -- The loop over the flows; after a stop the rest are passed over.
  pub release_flows : Flush → Table → Flush
  release_flows f [] = f
  release_flows f ((key, st) ∷ rest) =
      let f' = release_held f st.held_packets in
      elim f'.stop [ some e ↦ f' | none ↦ release_flows f' rest ]

  -- The checks before each receive from the queue.
  unfoldable pub gate : Flush → Option Error
  gate f = elim (ctx_err f.worker.clock) [
    | some e ↦ some e
    | none ↦
        if ltb 0 max_packets && not (ltb f.flushed max_packets) then some limit_reached else none
  ]

  -- The loop over the queue: the worker with what is left of the queue, and the error returned.
  unfoldable pub drain : Flush → List Packet → Worker × Option Error
  drain f [] = elim (gate f) [
    | some e ↦ (record f.worker { queue = [] }, some (join_first f.first e))
    | none ↦ (record f.worker { queue = [] }, f.first)
  ]
  drain f (pkt ∷ rest) = elim (gate f) [
    | some e ↦ (record f.worker { queue = pkt ∷ rest }, some (join_first f.first e))
    | none ↦
        let f' = release_one f pkt in
        elim f'.stop [
          | some e ↦ (record f'.worker { queue = rest }, some (join_first f'.first e))
          | none ↦ drain f' rest
        ]
  ]

-- The state in which the release begins.
abbrev pub flush_start : Worker → Flush
flush_start w = record { worker = w; flushed = 0; first = none; stop = none }

-- shutdownFailOpen
pub shutdown_fail_open : Adapter → (ℕ → Option Error) → Worker → Worker × Option Error
shutdown_fail_open ad ctx_err w =
    let limit = packet_limit w.cfg in
    let f = release_flows ad ctx_err limit (flush_start w) w.flows in
    elim f.stop [
      | some e ↦ (f.worker, some (join_first f.first e))
      | none ↦ drain ad ctx_err limit f f.worker.queue
    ]
