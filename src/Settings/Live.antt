-- ===== src/Settings/Live.antt =====
-- A service through its reloads, as cmd/splitter/main_windows.go runs them: the engine, the driver
-- and the settings that the service takes for its own stay in step.
use mathlib.Core.Path.{subst}
use gov_pass.Prelude.{
  ℕ, ◌≡◌, refl, ap, sym, ◌∙◌, arith, Bool, true, false, ◌&&◌, Option, none, some, List, [], ◌∷◌,
  length, if_cases, if◌then◌else◌, option_cases, ◌==◌, ◌⊎◌, inl, inr,
}
use gov_pass.Prelude.Int.{ℤ, pos, negsuc, eq_ℤ, is_pos}
use gov_pass.Engine.Config.{Config}
use gov_pass.Engine.Worker.{Worker, set_config}
use gov_pass.Engine.Dispatch.{Engine, ReloadError, same_capacity, set_configs, reload}
use gov_pass.Settings.{RunConfig}
use gov_pass.Settings.Effective.{EffectiveError}
use gov_pass.Settings.Files.{Outcome, ok, err}
use gov_pass.Settings.Params.{in_force, update_param-Updated}
use gov_pass.Settings.Reload.{
  Param, param_queue_len, param_queue_time, param_queue_size, SetCall, Service, Handle, only,
  apply_options, update_param, applicable, service_reload, service_reloads,
}

-- Every worker runs with these settings, and its queue has their capacity.
unfoldable pub AllRun : Config → List Worker → Type 0
AllRun cfg [] = Unit {0}
AllRun cfg (w ∷ ws) = (w.cfg ≡ some cfg) × (pos w.capacity ≡ cfg.worker_queue_size) × AllRun cfg ws

-- The service's own record of the settings is what the engine, its workers and the driver have.
pub record InStep (s : Service) : Type 0 where
  pub engine_cfg : s.engine.cfg ≡ s.cur_cfg
  pub staffed : pos (length s.engine.workers) ≡ s.cur_cfg.worker_count
  pub workers_run : AllRun s.cur_cfg s.engine.workers
  pub queue_len : in_force param_queue_len 0 s.handle.calls ≡ s.cur_wc.queue_len
  pub queue_time : in_force param_queue_time 0 s.handle.calls ≡ s.cur_wc.queue_time
  pub queue_size : in_force param_queue_size 0 s.handle.calls ≡ s.cur_wc.queue_size

eq_ℤ→≡ : (a b : ℤ) → eq_ℤ a b ≡ true → a ≡ b
eq_ℤ→≡ (pos m) (pos n) h = let e : m ≡ n = ground (arith, h) in ap pos e
eq_ℤ→≡ (pos m) (negsuc n) h = absurd (ground (arith, h))
eq_ℤ→≡ (negsuc m) (pos n) h = absurd (ground (arith, h))
eq_ℤ→≡ (negsuc m) (negsuc n) h = let e : m ≡ n = ground (arith, h) in ap negsuc e

eq_ℤ_refl : (a : ℤ) → eq_ℤ a a ≡ true
eq_ℤ_refl (pos m) = ground arith
eq_ℤ_refl (negsuc m) = ground arith

-- The workers and the queues of the settings in use are taken over.
applicable_lem :
    (c cur : Config)
    → applicable c cur
      ≡ record c { worker_count = cur.worker_count; worker_queue_size = cur.worker_queue_size }
unfolding applicable
applicable_lem c cur =
    let kept : (a b : ℤ) → (if eq_ℤ a b then a else b) ≡ b =
      λ a b. if_cases (λ x. x ≡ b) (eq_ℤ a b) (eq_ℤ→≡ a b) (λ _. refl) in
    ap
      (λ n. record c {
        worker_count = n;
        worker_queue_size =
            (if eq_ℤ c.worker_queue_size cur.worker_queue_size
              then c.worker_queue_size
              else cur.worker_queue_size);
      })
      (kept c.worker_count cur.worker_count)
    ∙ ap (λ n. record c { worker_count = cur.worker_count; worker_queue_size = n })
        (kept c.worker_queue_size cur.worker_queue_size)

same_capacity-true :
    (size : ℤ) (cfg : Config) (ws : List Worker)
    → AllRun cfg ws
    → cfg.worker_queue_size ≡ size
    → same_capacity size ws ≡ true
unfolding same_capacity AllRun
same_capacity-true size cfg [] a h = refl
same_capacity-true size cfg (w ∷ ws) a h =
    let e : pos w.capacity ≡ size = a.1 ∙ h in
    if_cases (λ b. b ≡ true) (eq_ℤ (pos w.capacity) size)
      (λ _. same_capacity-true size cfg ws a.2 h)
      (λ no. sym no ∙ ap (eq_ℤ (pos w.capacity)) (sym e) ∙ eq_ℤ_refl (pos w.capacity))

set_configs-AllRun :
    (cfg new_cfg : Config) (ws : List Worker)
    → AllRun cfg ws
    → new_cfg.worker_queue_size ≡ cfg.worker_queue_size
    → AllRun new_cfg (set_configs new_cfg ws)
unfolding set_configs AllRun set_config
set_configs-AllRun cfg new_cfg [] a h = a
set_configs-AllRun cfg new_cfg (w ∷ ws) a h =
    (refl, a.1 ∙ sym h, set_configs-AllRun cfg new_cfg ws a.2 h)

length-set_configs : (cfg : Config) (ws : List Worker) → length (set_configs cfg ws) ≡ length ws
unfolding set_configs
length-set_configs cfg [] = refl
length-set_configs cfg (w ∷ ws) = omega (arith, length-set_configs cfg ws)

and_false : (b : Bool) → (b && false) ≡ false
and_false true = refl
and_false false = refl

-- The engine takes settings that leave its workers and queues as they are.
reload_accepts :
    (e : Engine) (cur cfg : Config)
    → pos (length e.workers) ≡ cur.worker_count
    → AllRun cur e.workers
    → cfg.worker_count ≡ cur.worker_count
    → cfg.worker_queue_size ≡ cur.worker_queue_size
    → reload e cfg ≡ (record e { cfg = cfg; workers = set_configs cfg e.workers }, none)
unfolding reload
reload_accepts e cur cfg staffed run workers size =
    let same_count : eq_ℤ cfg.worker_count (pos (length e.workers)) ≡ true =
      ap (λ n. eq_ℤ n (pos (length e.workers))) (workers ∙ sym staffed)
      ∙ eq_ℤ_refl (pos (length e.workers)) in
    let same_size : same_capacity cfg.worker_queue_size e.workers ≡ true =
      same_capacity-true cfg.worker_queue_size cur e.workers run (sym size) in
    simp (same_count, same_size, and_false (is_pos cfg.worker_queue_size)) refl

-- The new value, or the one in use.
abbrev pub Either : ℕ → ℕ → ℕ → Type 0
Either new cur value = (value ≡ new) ⊎ (value ≡ cur)

module _ (answer : List SetCall → Param → ℕ → Option ℕ) where
  abbrev after_reload : Service → Config → RunConfig → Engine × Option ReloadError → Service
  after_reload s cfg w r =
      let len = update_param answer param_queue_len w.queue_len s.cur_wc.queue_len s.handle in
      let time = update_param answer param_queue_time w.queue_time s.cur_wc.queue_time len.0 in
      let size = update_param answer param_queue_size w.queue_size s.cur_wc.queue_size time.0 in
      record {
        cur_cfg = elim r.1 [ some e ↦ s.cur_cfg | none ↦ cfg ];
        cur_wc = record s.cur_wc { queue_len = len.1; queue_time = time.1; queue_size = size.1 };
        handle = size.0;
        engine = r.0;
      }

  -- With the engine's answer, the service is in step again.
  after_reload-InStep :
      (s : Service) (c : Config) (w : RunConfig)
      → InStep s
      → InStep (
          after_reload s (applicable c s.cur_cfg) w (
            record s.engine {
              cfg = applicable c s.cur_cfg;
              workers = set_configs (applicable c s.cur_cfg) s.engine.workers;
            },
            none,
          ))
  after_reload-InStep s c w i =
      let len =
        update_param-Updated answer param_queue_len w.queue_len s.cur_wc.queue_len s.handle
          i.queue_len in
      let h1 = (update_param answer param_queue_len w.queue_len s.cur_wc.queue_len s.handle).0 in
      let time =
        update_param-Updated answer param_queue_time w.queue_time s.cur_wc.queue_time h1
          (len.others param_queue_time refl ∙ i.queue_time) in
      let h2 = (update_param answer param_queue_time w.queue_time s.cur_wc.queue_time h1).0 in
      let size =
        update_param-Updated answer param_queue_size w.queue_size s.cur_wc.queue_size h2
          (time.others param_queue_size refl ∙ len.others param_queue_size refl ∙ i.queue_size) in
      record {
        engine_cfg = refl;
        staffed =
            ap pos (length-set_configs (applicable c s.cur_cfg) s.engine.workers)
            ∙ i.staffed
            ∙ sym (ap (λ d. d.worker_count) (applicable_lem c s.cur_cfg));
        workers_run =
            set_configs-AllRun s.cur_cfg (applicable c s.cur_cfg) s.engine.workers i.workers_run
              (ap (λ d. d.worker_queue_size) (applicable_lem c s.cur_cfg));
        queue_len =
            size.others param_queue_len refl ∙ time.others param_queue_len refl ∙ len.in_use;
        queue_time = size.others param_queue_time refl ∙ time.in_use;
        queue_size = size.in_use;
      }

  update_param-Either :
      (p : Param) (new cur : ℕ) (h : Handle) → Either new cur (update_param answer p new cur h).1
  unfolding update_param
  update_param-Either p new cur h =
      let goal : Handle × ℕ → Type 0 = λ r. Either new cur r.1 in
      if_cases goal (new == cur) (λ _. inr refl)
        λ _.
          if_cases goal (new == 0) (λ _. inr refl)
            λ _.
              let r = apply_options answer h (only p new) in
              option_cases goal r.1 (λ _. inl refl) (λ _ _. inr refl)

  -- A reload whose settings can be read, of a service in step: the engine accepts them, and runs with
  -- them but for the number of workers and the size of their queues, which stay; of the run settings
  -- only the three queue parameters may change, each of which becomes the new value or stays the one in
  -- use; and the service is in step again, whatever the driver answers, so that the values that it
  -- takes for its own are those that the driver has.
  pub service_reload-InStep :
      (s : Service) (c : Config) (w : RunConfig)
      → InStep s
      → InStep (service_reload answer s (ok (c, w)))
        × ((service_reload answer s (ok (c, w))).cur_cfg ≡ record c {
          worker_count = s.cur_cfg.worker_count;
          worker_queue_size = s.cur_cfg.worker_queue_size;
        })
        × ((len : ℕ) × (time : ℕ) × (size : ℕ) × (Either w.queue_len s.cur_wc.queue_len len)
            × Either w.queue_time s.cur_wc.queue_time time
            × Either w.queue_size s.cur_wc.queue_size size
            × ((service_reload answer s (ok (c, w))).cur_wc
                ≡ record s.cur_wc { queue_len = len; queue_time = time; queue_size = size }))
  unfolding service_reload
  service_reload-InStep s c w i =
      let len = update_param answer param_queue_len w.queue_len s.cur_wc.queue_len s.handle in
      let time = update_param answer param_queue_time w.queue_time s.cur_wc.queue_time len.0 in
      let size = update_param answer param_queue_size w.queue_size s.cur_wc.queue_size time.0 in
      let cfg : Config = applicable c s.cur_cfg in
      let accepted =
        reload_accepts s.engine s.cur_cfg cfg i.staffed i.workers_run
          (ap (λ d. d.worker_count) (applicable_lem c s.cur_cfg))
          (ap (λ d. d.worker_queue_size) (applicable_lem c s.cur_cfg)) in
      (
        subst (λ r. InStep (after_reload s cfg w r)) (sym accepted) (after_reload-InStep s c w i),
        ap (λ r. (after_reload s cfg w r).cur_cfg) accepted ∙ applicable_lem c s.cur_cfg,
        (
          len.1,
          time.1,
          size.1,
          update_param-Either param_queue_len w.queue_len s.cur_wc.queue_len s.handle,
          update_param-Either param_queue_time w.queue_time s.cur_wc.queue_time len.0,
          update_param-Either param_queue_size w.queue_size s.cur_wc.queue_size time.0,
          refl,
        ),
      )

  -- Any sequence of reloads, failed ones among them, keeps a service in step.
  pub service_reloads-InStep :
      (os : List (Outcome EffectiveError (Config × RunConfig))) (s : Service)
      → InStep s
      → InStep (service_reloads answer s os)
  unfolding service_reloads service_reload
  service_reloads-InStep [] s i = i
  service_reloads-InStep (err e ∷ os) s i = service_reloads-InStep os s i
  service_reloads-InStep (ok d ∷ os) s i =
      service_reloads-InStep os _ (service_reload-InStep s d.0 d.1 i).0
