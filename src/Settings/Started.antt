-- ===== src/Settings/Started.antt =====
-- How a service starts, in runWindowsService of cmd/splitter/main_windows.go, and what it is through
-- its reloads.
use mathlib.Core.Path.{subst}
use gov_pass.Prelude.{
  ℕ, zero, suc, ◌+◌, ◌≡◌, refl, ap, sym, ◌∙◌, arith, true, Option, none, some, List, [],
}
use gov_pass.Prelude.Int.{ℤ, pos, negsuc, is_pos, pos_part}
use gov_pass.Engine.Config.{Config}
use gov_pass.Engine.Worker.{clamp_config, new_worker}
use gov_pass.Engine.Dispatch.{new_engine, make_workers}
use gov_pass.Settings.{RunConfig}
use gov_pass.Flow.Sharder.{new_sharder}
use gov_pass.Engine.Dispatch.Laws.{length-make_workers}
use gov_pass.Settings.Validation.{
  AtLeast, validate-Valid, validate_engine_config, clamp_config-validated,
}
use gov_pass.Settings.Effective.{EffectiveError}
use gov_pass.Settings.Files.{Outcome, ok}
use gov_pass.Settings.Params.{in_force, set_positive-FirstSet}
use gov_pass.Settings.Live.{InStep, AllRun, service_reloads-InStep}
use gov_pass.Settings.Reload.{
  Param, param_queue_len, param_queue_time, param_queue_size, SetCall, ParamError, Handle, and_then,
  Service, set_positive, apply_options, service_reloads, started, start_service,
}

make_workers-AllRun :
    (cfg : Config) (n id : ℕ)
    → clamp_config cfg ≡ cfg
    → pos (pos_part cfg.worker_queue_size) ≡ cfg.worker_queue_size
    → AllRun cfg (make_workers cfg n id)
unfolding make_workers new_worker AllRun
make_workers-AllRun cfg zero id same size = tt
make_workers-AllRun cfg (suc n) id same size = (
  ap some same,
  ap (λ c. pos (pos_part c.worker_queue_size)) same ∙ size,
  make_workers-AllRun cfg n (id + 1) same size,
)

positive_part : (x : ℤ) → is_pos x ≡ true → pos (pos_part x) ≡ x
positive_part (pos m) h = refl
positive_part (negsuc m) h = absurd (ground (arith, h))

sharder_count : (x : ℤ) → AtLeast 1 x → pos (new_sharder x).workers ≡ x
unfolding new_sharder
sharder_count (pos m) least = ground arith
sharder_count (negsuc m) least = absurd (ground (arith))

and_then-none :
    (r : Handle × Option ParamError) (step : Handle → Handle × Option ParamError)
    → (and_then r step).1 ≡ none
    → (r.1 ≡ none) × (and_then r step ≡ step r.0)
and_then-none (h, none) step done = (refl, refl)
and_then-none (h, some e) step done = cc done

started-ok :
    (c : Config) (w : RunConfig) (r : Handle × Option ParamError) (s : Service)
    → started c w r ≡ ok s
    → (r.1 ≡ none) × (record { cur_cfg = c; cur_wc = w; handle = r.0; engine = new_engine c } ≡ s)
unfolding started
started-ok c w (h, none) s e = (refl, cc e)
started-ok c w (h, some f) s e = cc e

module _ (answer : List SetCall → Param → ℕ → Option ℕ) where
  -- A service that starts with valid settings, and with queues that have a place, is in step after
  -- any sequence of reloads.
  pub start_service-InStep :
      (c : Config) (w : RunConfig) (s : Service)
      → validate_engine_config c ≡ none
      → is_pos c.worker_queue_size ≡ true
      → start_service answer c w ≡ ok s
      → (os : List (Outcome EffectiveError (Config × RunConfig)))
      → InStep (service_reloads answer s os)
  unfolding start_service apply_options new_engine in_force
  start_service-InStep c w s valid places e os =
      let first : Handle = record { is_open = true; calls = [] } in
      let len : Handle × Option ParamError =
        set_positive answer param_queue_len w.queue_len first in
      let time : Handle × Option ParamError =
        set_positive answer param_queue_time w.queue_time len.0 in
      let size : Handle × Option ParamError =
        set_positive answer param_queue_size w.queue_size time.0 in
      let start = started-ok c w _ s e in
      let both =
        and_then-none (and_then len (set_positive answer param_queue_time w.queue_time))
          (set_positive answer param_queue_size w.queue_size) start.0 in
      let one = and_then-none len (set_positive answer param_queue_time w.queue_time) both.0 in
      let all : and_then (and_then len (set_positive answer param_queue_time w.queue_time))
            (set_positive answer param_queue_size w.queue_size)
          ≡ size =
        both.1 ∙ ap (λ r. set_positive answer param_queue_size w.queue_size r.0) one.1 in
      let l = set_positive-FirstSet answer param_queue_len w.queue_len first refl in
      let t =
        set_positive-FirstSet answer param_queue_time w.queue_time len.0
          (l.others param_queue_time refl) in
      let z =
        set_positive-FirstSet answer param_queue_size w.queue_size time.0
          (t.others param_queue_size refl ∙ l.others param_queue_size refl) in
      let v = (validate-Valid c).0 valid in
      let begun : Service = record {
        cur_cfg = c;
        cur_wc = w;
        handle = size.0;
        engine = new_engine c;
      } in
      let i : InStep begun = record {
        engine_cfg = refl;
        staffed =
            ap pos (length-make_workers c (new_sharder c.worker_count).workers 0)
            ∙ sharder_count c.worker_count v.worker_count;
        workers_run =
            make_workers-AllRun c (new_sharder c.worker_count).workers 0
              (clamp_config-validated c valid places) (positive_part c.worker_queue_size places);
        queue_len = z.others param_queue_len refl ∙ t.others param_queue_len refl ∙ l.in_use one.0;
        queue_time = z.others param_queue_time refl ∙ t.in_use (ap (λ r. r.1) (sym one.1) ∙ both.0);
        queue_size = z.in_use (ap (λ r. r.1) (sym all) ∙ start.0);
      } in
      let same : begun ≡ s =
        ap (λ r. record { cur_cfg = c; cur_wc = w; handle = r.0; engine = new_engine c }) (sym all)
        ∙ start.1 in
      service_reloads-InStep answer os s (subst InStep same i)
