-- ===== src/Engine/Dispatch/Laws.antt =====
-- What recvLoop of internal/engine/engine.go does with every packet that it is given.
use gov_pass.Prelude.{
  ℕ, zero, suc, ◌+◌, ◌≤◌, ◌<◌, ◌≡◌, refl, ◌⊎◌, inl, inr, not, ◌||◌, Option, none, some, [], ◌∷◌,
  ◌++◌, arith, length, length-set, get_elem?, set, is_empty, if_cases, option_cases, Bool-cases,
  ltb→lt, ltb-false→le, get_elem?-some, ◌==◌, ltb,
}
use gov_pass.Prelude.Int.{ℤ}
use gov_pass.Packet.{
  Packet, DecodeError, payload, has_flag, decode_ipv4_tcp, tcp_flag_fin, tcp_flag_rst,
}
use gov_pass.Packet.Decode.{Sound, decode-Sound}
use gov_pass.Flow.{key_from_meta}
use gov_pass.Flow.Sharder.{new_sharder, shard_index}
use gov_pass.Flow.Sharder.Laws.{shard_index-lt}
use gov_pass.Engine.Config.{Config}
use gov_pass.Engine.Worker.{Worker, Adapter, Error, sent}
use gov_pass.Engine.Collector.{enqueue, touch_flow}
use gov_pass.Engine.Dispatch.{
  Engine, Received, continues, returns, blocks, faulted, is_canceled, pass_through, on_enqueued,
  to_worker, touch_and_pass, route, on_decoded, receive, new_engine, make_workers,
}

-- There is a worker for every index that the sharder gives.
pub record IsRouted (e : Engine) : Type 0 where
  pub asked : ℤ
  pub sharded : e.sharder ≡ new_sharder asked
  pub staffed : length e.workers ≡ e.sharder.workers

pub length-make_workers : (cfg : Config) (n id : ℕ) → length (make_workers cfg n id) ≡ n
unfolding make_workers
length-make_workers cfg zero id = refl
length-make_workers cfg (suc n) id = omega (arith, length-make_workers cfg n (id + 1))

pub new_engine-IsRouted : (cfg : Config) → IsRouted (new_engine cfg)
unfolding new_engine
new_engine-IsRouted cfg = record {
  asked = cfg.worker_count;
  sharded = refl;
  staffed = length-make_workers cfg _ 0;
}

-- The worker of a packet, and the engine with another worker in its place.
abbrev pub index_of : Engine → Packet → ℕ
index_of e pkt = shard_index e.sharder (key_from_meta pkt.meta)

abbrev pub with_worker : Engine → Packet → Worker → Engine
with_worker e pkt w = record e { workers = set e.workers (index_of e pkt) w }

-- Where a packet that was taken in goes. Either it goes out, as the one call of the adapter that
-- the loop makes; or it stands at the end of its worker's queue, which had room; or the loop ends
-- with an error, or waits for the queue. It is never lost, and no index is out of range.
abbrev pub Routed : Engine → Packet → Received → Type 0
Routed e pkt (continues e') =
    ((e'.log ≡ e.log ++ sent pkt ∷ []) × (length e'.workers ≡ length e.workers))
    ⊎ ((w : Worker) × (get_elem? e.workers (index_of e pkt) ≡ some w)
        × (length w.queue < w.capacity)
        × (e' ≡ with_worker e pkt (record w { queue = w.queue ++ pkt ∷ [] })))
Routed e pkt (returns e' err) = e'.log ≡ e.log
Routed e pkt blocks =
    (w : Worker) × (get_elem? e.workers (index_of e pkt) ≡ some w) × (w.capacity ≤ length w.queue)
Routed e pkt faulted = ⊥

worker_at :
    (e : Engine) (pkt : Packet)
    → IsRouted e
    → (w : Worker) × (get_elem? e.workers (index_of e pkt) ≡ some w)
worker_at e pkt v =
    get_elem?-some e.workers (index_of e pkt)
      (rw (v.staffed, v.sharded) (shard_index-lt v.asked (key_from_meta pkt.meta)))

module _ (ad : Adapter) where
  pass_through-Routed : (e : Engine) (pkt : Packet) → Routed e pkt (pass_through ad e pkt)
  unfolding pass_through
  pass_through-Routed e pkt =
      option_cases (Routed e pkt) (ad.send_result e.clock pkt) (λ _. inl (refl, refl)) (λ _ _. refl)

  -- A worker's queue, and what enqueue makes of it.
  on_enqueued-Routed :
      (ctx_err : Option Error) (e : Engine) (pkt : Packet) (w : Worker)
      → get_elem? e.workers (index_of e pkt) ≡ some w
      → Routed e pkt (on_enqueued ad e pkt (index_of e pkt) (enqueue ctx_err w pkt))
  unfolding on_enqueued enqueue
  on_enqueued-Routed (some err) e pkt w at =
      if_cases (Routed e pkt) (is_canceled err) (λ _. pass_through-Routed e pkt) (λ _. refl)
  on_enqueued-Routed none e pkt w at = elim (Bool-cases (ltb (length w.queue) w.capacity)) [
    | inl room ↦ rw room (inr (w, at, ltb→lt _ _ room, refl))
    | inr full ↦ rw full (w, at, ltb-false→le _ _ full)
  ]

  to_worker-Routed :
      (ctx_err : Option Error) (e : Engine) (pkt : Packet)
      → IsRouted e
      → Routed e pkt (to_worker ad ctx_err e pkt)
  unfolding to_worker
  to_worker-Routed ctx_err e pkt v =
      option_cases (Routed e pkt) (get_elem? e.workers (index_of e pkt))
        (λ missing. let found = worker_at e pkt v in cc (missing, found.1))
        (λ w at. on_enqueued-Routed ctx_err e pkt w at)

  touch_and_pass-Routed :
      (e : Engine) (pkt : Packet) → IsRouted e → Routed e pkt (touch_and_pass ad e pkt)
  unfolding touch_and_pass pass_through
  touch_and_pass-Routed e pkt v =
      option_cases (Routed e pkt) (get_elem? e.workers (index_of e pkt))
        (λ missing. let found = worker_at e pkt v in cc (missing, found.1))
        λ w at.
          option_cases (Routed e pkt) (ad.send_result e.clock pkt)
            (λ _.
              inl (
                refl,
                length-set e.workers (index_of e pkt) (touch_flow w (key_from_meta pkt.meta)),
              ))
            (λ _ _. refl)

  route-Routed :
      (ctx_err : Option Error) (e : Engine) (pkt : Packet)
      → IsRouted e
      → Routed e pkt (route ad ctx_err e pkt)
  unfolding route
  route-Routed ctx_err e pkt v =
      if_cases (Routed e pkt) (not (pkt.meta.dst_port == 443)) (λ _. pass_through-Routed e pkt)
        λ _.
          if_cases (Routed e pkt) (not (is_empty (payload pkt)))
            (λ _. to_worker-Routed ctx_err e pkt v)
            λ _.
              if_cases (Routed e pkt) (has_flag pkt tcp_flag_fin || has_flag pkt tcp_flag_rst)
                (λ _. to_worker-Routed ctx_err e pkt v) (λ _. touch_and_pass-Routed e pkt v)

  -- One round of recvLoop, for every packet, in an engine whose sharder has its workers: it
  -- decodes to a packet with the same bytes, which either goes out, or stands at the end of its
  -- worker's queue, or waits for room there, or ends the loop by an error. No index is out of
  -- range, so that no packet is lost, whatever its bytes.
  pub receive-Routed :
      (ctx_err : Option Error) (e : Engine) (pkt : Packet)
      → IsRouted e
      → (decoded : Packet) × (decoded.bytes ≡ pkt.bytes)
        × Routed e decoded (receive ad ctx_err e pkt)
  unfolding receive on_decoded Sound
  receive-Routed ctx_err e pkt v = after (decode_ipv4_tcp pkt) (decode-Sound pkt)
    where
      after :
          (r : Option (Packet × Option DecodeError))
          → Sound pkt r
          → (decoded : Packet) × (decoded.bytes ≡ pkt.bytes)
            × Routed e decoded (on_decoded ad ctx_err e r)
      after none s = absurd s
      after (some (q, some err)) s = (q, s, pass_through-Routed e q)
      after (some (q, none)) s = (q, s.0, route-Routed ctx_err e q v)
