-- ===== src/Engine/Dispatch.antt =====
-- internal/engine/engine.go: the engine, its Reload, and what recvLoop does with a packet.
pub mod Laws
use gov_pass.Prelude.{
  ℕ, zero, suc, ◌+◌, Bool, true, false, not, ◌&&◌, ◌||◌, Option, none, some, List, [], ◌∷◌, ◌++◌,
  ◌==◌, if◌then◌else◌, length, get_elem?, set, is_empty,
}
use gov_pass.Prelude.Int.{ℤ, pos, is_pos, pos_part, eq_ℤ}
use gov_pass.Packet.{
  Packet, DecodeError, payload, has_flag, decode_ipv4_tcp, tcp_flag_fin, tcp_flag_rst,
}
use gov_pass.Flow.{Key, key_from_meta}
use gov_pass.Flow.Sharder.{Sharder, new_sharder, shard_index}
use gov_pass.Engine.Config.{Config}
use gov_pass.Engine.Worker.{
  Worker, Adapter, Error, Event, sent, canceled, deadline_exceeded, limit_reached, config_nil,
  invalid_header, adapter_error, joined, new_worker, set_config,
}
use gov_pass.Engine.Collector.{Enqueued, refused, queued, waits, enqueue, touch_flow}

-- `clock` and `log` are those of the receiving goroutine: the adapter's calls that it makes.
pub record Engine : Type 0 where
  pub cfg : Config
  pub sharder : Sharder
  pub workers : List Worker
  pub clock : ℕ
  pub log : List Event

-- The workers `id`, `id + 1`, … of New.
unfoldable pub make_workers : Config → ℕ → ℕ → List Worker
make_workers cfg zero id = []
make_workers cfg (suc n) id = new_worker id cfg ∷ make_workers cfg n (id + 1)

unfoldable pub new_engine : Config → Engine
new_engine cfg = record {
  cfg = cfg;
  sharder = new_sharder cfg.worker_count;
  workers = make_workers cfg (new_sharder cfg.worker_count).workers 0;
  clock = 0;
  log = [];
}

-- Reload's reasons to want a restart.
pub data ReloadError : Type 0 where
  workers_changed queue_size_changed : ReloadError

unfoldable pub same_capacity : ℤ → List Worker → Bool
same_capacity size [] = true
same_capacity size (w ∷ ws) = if eq_ℤ (pos w.capacity) size then same_capacity size ws else false

unfoldable pub set_configs : Config → List Worker → List Worker
set_configs cfg [] = []
set_configs cfg (w ∷ ws) = set_config w cfg ∷ set_configs cfg ws

unfoldable pub reload : Engine → Config → Engine × Option ReloadError
reload e cfg =
    if not (eq_ℤ cfg.worker_count (pos (length e.workers)))
    then (e, some workers_changed)
    else if is_pos cfg.worker_queue_size && not (same_capacity cfg.worker_queue_size e.workers)
    then (e, some queue_size_changed)
    else (record e { cfg = cfg; workers = set_configs cfg e.workers }, none)

-- One packet of recvLoop: the loop goes on, or returns an error, or waits for room in a worker's
-- queue; `faulted` is an index out of range.
pub data Received : Type 0 where
  continues : Engine → Received
  returns : Engine → Error → Received
  blocks faulted : Received

-- `errors.Is(err, context.Canceled)`
unfoldable pub is_canceled : Error → Bool
is_canceled canceled = true
is_canceled deadline_exceeded = false
is_canceled limit_reached = false
is_canceled config_nil = false
is_canceled invalid_header = false
is_canceled (adapter_error n) = false
is_canceled (joined a b) = is_canceled a || is_canceled b

module _ (ad : Adapter) where
  -- `if sendErr := e.adapter.Send(...); sendErr != nil { return sendErr }; continue`
  pub pass_through : Engine → Packet → Received
  pass_through e pkt = elim (ad.send_result e.clock pkt) [
    | none ↦ continues (record e { clock = e.clock + 1; log = e.log ++ sent pkt ∷ [] })
    | some err ↦ returns (record e { clock = e.clock + 1 }) err
  ]

  -- What follows from the call of enqueue on the worker at `index`.
  pub on_enqueued : Engine → Packet → ℕ → Enqueued → Received
  on_enqueued e pkt index (refused err) =
      if is_canceled err then pass_through e pkt else returns e err
  on_enqueued e pkt index (queued w) = continues (record e { workers = set e.workers index w })
  on_enqueued e pkt index waits = blocks

  -- The packet goes to its worker's queue; when the context is cancelled it goes straight out.
  pub to_worker : Option Error → Engine → Packet → Received
  to_worker ctx_err e pkt =
      let index = shard_index e.sharder (key_from_meta pkt.meta) in
      elim (get_elem? e.workers index) [
        | none ↦ faulted
        | some w ↦ on_enqueued e pkt index (enqueue ctx_err w pkt)
      ]

  -- A packet without payload that ends nothing: its flow is touched, and it goes straight out.
  pub touch_and_pass : Engine → Packet → Received
  touch_and_pass e pkt =
      let key = key_from_meta pkt.meta in
      let index = shard_index e.sharder key in
      elim (get_elem? e.workers index) [
        | none ↦ faulted
        | some w ↦ pass_through (record e { workers = set e.workers index (touch_flow w key) }) pkt
      ]

  -- A decoded packet.
  pub route : Option Error → Engine → Packet → Received
  route ctx_err e pkt =
      if not (pkt.meta.dst_port == 443)
      then pass_through e pkt
      else if not (is_empty (payload pkt))
      then to_worker ctx_err e pkt
      else if has_flag pkt tcp_flag_fin || has_flag pkt tcp_flag_rst
      then to_worker ctx_err e pkt
      else touch_and_pass e pkt

  pub on_decoded : Option Error → Engine → Option (Packet × Option DecodeError) → Received
  on_decoded ctx_err e none = faulted
  on_decoded ctx_err e (some (decoded, some err)) = pass_through e decoded
  on_decoded ctx_err e (some (decoded, none)) = route ctx_err e decoded

  -- One round of recvLoop with the packet that Recv gave; `ctx_err` is what ctx.Err() gives.
  pub receive : Option Error → Engine → Packet → Received
  receive ctx_err e pkt = on_decoded ctx_err e (decode_ipv4_tcp pkt)
