-- ===== src/Engine/Shutdown/Stretch.antt =====
-- The release of held packets by shutdownFailOpen of internal/engine/worker.go, stretch by stretch.
use mathlib.Core.List.{append-nil, append_assoc, map-append}
use gov_pass.Prelude.{
  ℕ, ◌+◌, ◌≤◌, ◌<◌, ◌≡◌, refl, sym, ap, ◌∙◌, inl, inr, not, ◌&&◌, Option, none, some, List, [], ◌∷◌,
  ◌++◌, map, arith, length, ltb, if_cases, option_cases,
}
use gov_pass.Packet.{Packet}
use gov_pass.Flow.{Table}
use gov_pass.Engine.Worker.{Worker, Adapter, Error, sent, limit_reached, record_event, tick}
use gov_pass.Engine.Release.{Logs, Logs-refl, Logs-trans, send-Marks}
use gov_pass.Engine.Collector.{first_error}
use gov_pass.Engine.Shutdown.{
  Flush, settle, reinject, count_sent, release_one, release_held, release_flows, is_stop,
}

-- All held packets, flow by flow.
pub held_in : Table → List Packet
held_in [] = []
held_in ((key, st) ∷ rest) = st.held_packets ++ held_in rest

-- A stretch of the release, on `ps`: what it sent is counted, the count stays within the limit, and
-- if there was no error, all of `ps` went out in order.
pub record Stretch (limit : ℕ) (f g : Flush) (ps : List Packet) : Type 0 where
  pub logs : Logs f.worker g.worker
  pub counts : length g.worker.log + f.flushed ≡ length f.worker.log + g.flushed
  pub within : f.flushed ≤ limit → g.flushed ≤ limit
  pub whole :
      g.first ≡ none
      → g.stop ≡ none
      → (f.first ≡ none) × (g.worker.log ≡ f.worker.log ++ map sent ps)

length-snoc : {A : Type 0} (xs : List A) (x : A) → length (xs ++ x ∷ []) ≡ length xs + 1
length-snoc [] x = omega arith
length-snoc (y ∷ xs) x = omega (arith, length-snoc xs x)

pub Stretch-nil : (limit : ℕ) (f : Flush) → Stretch limit f f []
Stretch-nil limit f = record {
  logs = Logs-refl f.worker;
  counts = refl;
  within = λ h. h;
  whole = λ a b. (a, sym (append-nil f.worker.log));
}

Stretch-append :
    {limit : ℕ} {f g h : Flush} (ps qs : List Packet)
    → Stretch limit f g ps
    → g.stop ≡ none
    → Stretch limit g h qs
    → Stretch limit f h (ps ++ qs)
Stretch-append {limit} {f} {g} {h} ps qs s n t = record {
  logs = Logs-trans f.worker g.worker h.worker s.logs t.logs;
  counts = omega (arith, s.counts, t.counts);
  within = λ b. t.within (s.within b);
  whole = λ a b.
      let later = t.whole a b in
      let sooner = s.whole later.0 n in
      (
        sooner.0,
        later.1
            ∙ ap (λ l. l ++ map sent qs) sooner.1
            ∙ append_assoc f.worker.log (map sent ps) (map sent qs)
            ∙ ap (λ l. f.worker.log ++ l) (sym (map-append sent ps qs)),
      );
}

-- A stop leaves out what is left.
Stretch-stopped :
    {limit : ℕ} {f g : Flush} (ps qs : List Packet) (e : Error)
    → Stretch limit f g ps
    → g.stop ≡ some e
    → Stretch limit f g (ps ++ qs)
Stretch-stopped ps qs e s stopped = record {
  logs = s.logs;
  counts = s.counts;
  within = s.within;
  whole = λ a b. cc;
}

first_error-fails : {X : Type 0} (o : Option Error) (e : Error) → first_error o (some e) ≡ none → X
first_error-fails none e h = cc
first_error-fails (some x) e h = cc

-- An error of reinject.
settle-failed :
    (limit : ℕ) (f : Flush) (w : Worker) (p : Packet) (e : Error)
    → Logs f.worker w
    → w.log ≡ f.worker.log
    → Stretch limit f (settle (record f { worker = w }, some e)) (p ∷ [])
unfolding settle
settle-failed limit f w p e l same =
    let ends : Flush → Type 0 = λ g. Stretch limit f g (p ∷ []) in
    if_cases ends (is_stop e)
      (λ _. record {
        logs = l;
        counts = omega (arith, ap length same);
        within = λ h. h;
        whole = λ a b. cc;
      })
      (λ _. record {
        logs = l;
        counts = omega (arith, ap length same);
        within = λ h. h;
        whole = λ a b. first_error-fails f.first e a;
      })

settle-sent :
    (limit : ℕ) (f : Flush) (p : Packet)
    → f.flushed < limit
    → Stretch limit f
        (settle
          (record f { worker = record_event f.worker (sent p); flushed = f.flushed + 1 }, none))
        (p ∷ [])
unfolding settle
settle-sent limit f p h = record {
  logs = (f.worker.clock + 1, f.worker.log ++ sent p ∷ [], refl);
  counts = omega (arith, length-snoc f.worker.log (sent p));
  within = λ _. omega arith;
  whole = λ a b. (a, refl);
}

module _ (ad : Adapter) (ctx_err : ℕ → Option Error) (limit : ℕ) where
  pub release_one-Stretch :
      (f : Flush) (p : Packet)
      → 1 ≤ limit
      → Stretch limit f (release_one ad ctx_err limit f p) (p ∷ [])
  unfolding release_one reinject count_sent
  release_one-Stretch f p h =
      let ends : Flush × Option Error → Type 0 = λ r. Stretch limit f (settle r) (p ∷ []) in
      let fails : (e : Error) → ends (f, some e) =
        λ e. settle-failed limit f f.worker p e (Logs-refl f.worker) refl in
      option_cases ends (ctx_err f.worker.clock)
        (λ _.
          if_cases ends (ltb 0 limit && not (ltb f.flushed limit)) (λ _. fails limit_reached)
            λ room. elim (send-Marks ad f.worker p) [
              | inl ok ↦ rw ok (settle-sent limit f p (ground arith))
              | inr (e, failed) ↦ rw failed (
                  settle-failed limit f (tick f.worker) p e (f.worker.clock + 1, f.worker.log, refl)
                    refl)
            ])
        (λ e _. fails e)

  release_held-Stretch :
      (ps : List Packet) (f : Flush)
      → 1 ≤ limit
      → Stretch limit f (release_held ad ctx_err limit f ps) ps
  unfolding release_held
  release_held-Stretch [] f h = Stretch-nil limit f
  release_held-Stretch (p ∷ ps) f h =
      let one = release_one-Stretch f p h in
      let next = release_one ad ctx_err limit f p in
      option_cases (λ g. Stretch limit f g (p ∷ ps)) next.stop
        (λ goes. Stretch-append (p ∷ []) ps one goes (release_held-Stretch ps next h))
        (λ e stops. Stretch-stopped (p ∷ []) ps e one stops)

  pub release_flows-Stretch :
      (flows : Table) (f : Flush)
      → 1 ≤ limit
      → Stretch limit f (release_flows ad ctx_err limit f flows) (held_in flows)
  unfolding release_flows held_in
  release_flows-Stretch [] f h = Stretch-nil limit f
  release_flows-Stretch ((key, st) ∷ rest) f h =
      let one = release_held-Stretch st.held_packets f h in
      let next = release_held ad ctx_err limit f st.held_packets in
      option_cases (λ g. Stretch limit f g (st.held_packets ++ held_in rest)) next.stop
        (λ goes.
          Stretch-append st.held_packets (held_in rest) one goes
            (release_flows-Stretch rest next h))
        (λ e stops. Stretch-stopped st.held_packets (held_in rest) e one stops)
