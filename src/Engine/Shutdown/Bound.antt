-- ===== src/Engine/Shutdown/Bound.antt =====
-- What shutdownFailOpen of internal/engine/worker.go releases, and how much at most.
use mathlib.Core.List.{append-nil, append_assoc, map-append}
use gov_pass.Prelude.{
  ℕ, ◌+◌, ◌≤◌, ◌≡◌, sym, ap, ◌∙◌, Option, none, some, List, [], ◌∷◌, ◌++◌, map, arith, length,
  option_cases,
}
use gov_pass.Packet.{Packet}
use gov_pass.Engine.Config.{Config}
use gov_pass.Engine.Worker.{Worker, Adapter, Error, sent}
use gov_pass.Engine.Shutdown.{
  Flush, release_one, release_flows, gate, drain, flush_start, packet_limit, shutdown_fail_open,
  join_first,
}
use gov_pass.Engine.Shutdown.Stretch.{
  held_in, Stretch, Stretch-nil, release_one-Stretch, release_flows-Stretch,
}

-- The drain of the queue `ps`, up to its end.
record Drained (limit : ℕ) (f : Flush) (ps : List Packet) (o : Worker × Option Error) : Type 0 where
  bound : f.flushed ≤ limit → length o.0.log + f.flushed ≤ length f.worker.log + limit
  whole : o.1 ≡ none → (f.first ≡ none) × (o.0.log ≡ f.worker.log ++ map sent ps)

-- An error from the checks before a receive.
gated-Drained :
    (limit : ℕ) (f g : Flush) (ps qs rest : List Packet) (e : Error)
    → Stretch limit f g qs
    → Drained limit f ps (record g.worker { queue = rest }, some (join_first g.first e))
gated-Drained limit f g ps qs rest e s = record {
  bound = λ h. omega (arith, s.counts, s.within h);
  whole = λ a. cc;
}

drain-append :
    {limit : ℕ} {f g : Flush} {o : Worker × Option Error} (p : Packet) (ps : List Packet)
    → Stretch limit f g (p ∷ [])
    → g.stop ≡ none
    → Drained limit g ps o
    → Drained limit f (p ∷ ps) o
drain-append {limit} {f} {g} {o} p ps s goes d = record {
  bound = λ h. omega (arith, s.counts, d.bound (s.within h));
  whole = λ a.
      let later = d.whole a in
      let sooner = s.whole later.0 goes in
      (
        sooner.0,
        later.1
            ∙ ap (λ l. l ++ map sent ps) sooner.1
            ∙ append_assoc f.worker.log (sent p ∷ []) (map sent ps),
      );
}

module _ (ad : Adapter) (ctx_err : ℕ → Option Error) (limit : ℕ) where
  drain-Drained :
      (ps : List Packet) (f : Flush) → 1 ≤ limit → Drained limit f ps (drain ad ctx_err limit f ps)
  unfolding drain
  drain-Drained [] f h =
      option_cases (Drained limit f []) (gate ad ctx_err limit f)
        (λ _. record {
          bound = λ b. omega (arith, b);
          whole = λ a. (a, sym (append-nil f.worker.log));
        })
        (λ e _. gated-Drained limit f f [] [] [] e (Stretch-nil limit f))
  drain-Drained (p ∷ ps) f h =
      let one = release_one-Stretch ad ctx_err limit f p h in
      let next = release_one ad ctx_err limit f p in
      option_cases (Drained limit f (p ∷ ps)) (gate ad ctx_err limit f)
        (λ _.
          option_cases (Drained limit f (p ∷ ps)) next.stop
            (λ goes. drain-append p ps one goes (drain-Drained ps next h))
            (λ e _. gated-Drained limit f next (p ∷ ps) (p ∷ []) ps e one))
        (λ e _. gated-Drained limit f f (p ∷ ps) [] (p ∷ ps) e (Stretch-nil limit f))

packet_limit-positive : (cfg : Option Config) → 1 ≤ packet_limit cfg
unfolding packet_limit
packet_limit-positive none = omega arith
packet_limit-positive (some cfg) = ground arith

-- What shutdownFailOpen promises.
pub record Released (w : Worker) (o : Worker × Option Error) : Type 0 where
  pub bound : length o.0.log ≤ length w.log + packet_limit w.cfg
  pub whole : o.1 ≡ none → o.0.log ≡ w.log ++ map sent (held_in w.flows ++ w.queue)

-- shutdownFailOpen, for every adapter, worker and context, sends no more packets than its limit;
-- and when it returns nil, it has sent all the held packets of every flow, in order, and then all
-- that was queued, and nothing else.
pub shutdown_fail_open-Released :
    (ad : Adapter) (ctx_err : ℕ → Option Error) (w : Worker)
    → Released w (shutdown_fail_open ad ctx_err w)
unfolding shutdown_fail_open
shutdown_fail_open-Released ad ctx_err w =
    let limit = packet_limit w.cfg in
    let some_allowed = packet_limit-positive w.cfg in
    let f = release_flows ad ctx_err limit (flush_start w) w.flows in
    let s = release_flows-Stretch ad ctx_err limit w.flows (flush_start w) some_allowed in
    let within = s.within (omega arith) in
    let d = drain-Drained ad ctx_err limit f.worker.queue f some_allowed in
    option_cases (Released w) f.stop
      (λ goes. record {
        bound = omega (arith, s.counts, d.bound within);
        whole = λ a.
            let queued = d.whole a in
            queued.1
            ∙ ap (λ l. l ++ map sent f.worker.queue) (s.whole queued.0 goes).1
            ∙ append_assoc w.log (map sent (held_in w.flows)) (map sent f.worker.queue)
            ∙ ap (λ l. w.log ++ l) (sym (map-append sent (held_in w.flows) f.worker.queue))
            ∙ ap (λ (v : Worker). w.log ++ map sent (held_in w.flows ++ v.queue)) s.logs.2;
      })
      (λ e _. record { bound = omega (arith, s.counts, within); whole = λ a. cc })
