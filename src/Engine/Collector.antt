-- ===== src/Engine/Collector.antt =====
-- The worker's timer and its event loop: gc, run, enqueue and touchFlow of internal/engine/worker.go.
use gov_pass.Prelude.{
  ℕ, ◌*◌, not, ◌&&◌, Option, none, some, List, [], ◌∷◌, ◌++◌, ltb, if◌then◌else◌, length, is_empty,
}
use gov_pass.Prelude.Int.{ℤ, pos, sub_ℕ, ltb_ℤ, is_pos}
use gov_pass.Packet.{Packet}
use gov_pass.Flow.{Key, Table, is_state_collecting, table_get, table_set}
use gov_pass.Engine.Config.{Config, second}
use gov_pass.Engine.Worker.{Worker, Adapter, Error, fail_open}
use gov_pass.Engine.Handle.{handle_packet}

-- FlowIdleTimeout, or its default.
unfoldable pub idle_timeout : Option Config → ℤ
idle_timeout none = pos (30 * second)
idle_timeout (some cfg) =
    if is_pos cfg.flow_idle_timeout then cfg.flow_idle_timeout else pos (30 * second)

-- `firstErr`
abbrev pub first_error : Option Error → Option Error → Option Error
first_error none e = e
first_error (some e) _ = some e

module _ (ad : Adapter) where
  -- The loop over the table: the worker, the entries that stay, and the first error. A flow whose
  -- packets cannot be sent stays in the table.
  unfoldable pub gc_loop : ℤ → ℕ → Worker → Table → Option Error → Worker × Table × Option Error
  gc_loop idle now w [] err = (w, [], err)
  gc_loop idle now w ((key, st) ∷ rest) err =
      let others = gc_loop idle now w rest err in
      let released = fail_open ad w st in
      let flushed = elim released.2 as (λ _. Worker × Table × Option Error) [
        | none ↦ gc_loop idle now released.0 rest err
        | some e ↦
            let r = gc_loop idle now released.0 rest (first_error err (some e)) in
            (r.0, (key, released.1) ∷ r.1, r.2)
      ] in
      if not (ltb_ℤ idle (sub_ℕ now st.last_active))
      then (others.0, (key, st) ∷ others.1, others.2)
      else if is_state_collecting st.state && not (is_empty st.held_packets)
      then flushed
      else others

  -- gc. Go's order over a map is not fixed; the model takes the order of the list.
  unfoldable pub gc : Worker → ℕ → Worker × Option Error
  gc w now =
      let r = gc_loop (idle_timeout w.cfg) now w w.flows none in (record r.0 { flows = r.1 }, r.2)

-- What enqueue does at a moment at which `ctx.Err()` is as given: it fails, it appends, or it waits
-- for room in the queue.
pub data Enqueued : Type 0 where
  refused : Error → Enqueued
  queued : Worker → Enqueued
  waits : Enqueued

unfoldable pub enqueue : Option Error → Worker → Packet → Enqueued
enqueue ctx_err w pkt = elim ctx_err [
  | some e ↦ refused e
  | none ↦
      if ltb (length w.queue) w.capacity
      then queued (record w { queue = w.queue ++ pkt ∷ [] })
      else waits
]

-- touchFlow: dropped when the channel is full.
unfoldable pub touch_flow : Worker → Key → Worker
touch_flow w key =
    if ltb (length w.touched) w.capacity then record w { touched = w.touched ++ key ∷ [] } else w

-- The case of `run` for a key from the touch channel.
unfoldable pub touch : Worker → Key → ℕ → Worker
touch w key now = elim (table_get w.flows key) [
  | none ↦ w
  | some st ↦ record w { flows = table_set w.flows key (record st { last_active = now }) }
]

-- What `select` finds ready in one round of the worker's loop.
pub data Ready : Type 0 where
  packet_ready touch_ready timer_ready : Ready
  cancelled : Error → Ready

module _ (ad : Adapter) where
  unfoldable pub take_packet : Worker → List Packet → ℕ → Worker × Option Error
  take_packet w [] now = (w, none)
  take_packet w (pkt ∷ rest) now = handle_packet ad (record w { queue = rest }) pkt now

  unfoldable pub take_touch : Worker → List Key → ℕ → Worker × Option Error
  take_touch w [] now = (w, none)
  take_touch w (key ∷ rest) now = (touch (record w { touched = rest }) key now, none)

  -- One round of `run`, at a time. A channel with nothing in it is not ready, and changes nothing.
  unfoldable pub run_step : Worker → Ready → ℕ → Worker × Option Error
  run_step w packet_ready now = take_packet w w.queue now
  run_step w touch_ready now = take_touch w w.touched now
  run_step w timer_ready now = gc ad w now
  run_step w (cancelled e) now = (w, some e)

  -- `run`, over what becomes ready and when.
  unfoldable pub run : Worker → List (Ready × ℕ) → Worker × Option Error
  run w [] = (w, none)
  run w ((ready, now) ∷ rest) =
      let r = run_step w ready now in elim r.1 [ none ↦ run r.0 rest | some e ↦ (r.0, some e) ]
