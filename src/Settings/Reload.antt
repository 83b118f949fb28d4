-- ===== src/Settings/Reload.antt =====
-- The service's loop of cmd/splitter/main_windows.go, with UpdateOptions of
-- internal/adapter/windivert_windows.go: what a reload changes while packets pass.
use gov_pass.Prelude.{
  ℕ, ◌==◌, Bool, true, not, Option, none, some, List, [], ◌∷◌, ◌++◌, ltb, if◌then◌else◌,
}
use gov_pass.Prelude.Int.{eq_ℤ}
use gov_pass.Engine.Config.{Config}
use gov_pass.Engine.Dispatch.{Engine, new_engine, reload}
use gov_pass.Settings.{RunConfig}
use gov_pass.Settings.Effective.{EffectiveError}
use gov_pass.Settings.Files.{Outcome, ok, err}

pub data Param : Type 0 where
  param_queue_len param_queue_time param_queue_size : Param

-- adapter.WinDivertOptions
pub record Options : Type 0 where
  pub queue_len : ℕ
  pub queue_time : ℕ
  pub queue_size : ℕ

-- A call of WinDivertSetParam, and its error.
pub record SetCall : Type 0 where
  pub param : Param
  pub value : ℕ
  pub error : Option ℕ

-- ErrNotImplemented, or the error of a call.
pub data ParamError : Type 0 where
  no_handle : ParamError
  set_param_failed : ℕ → ParamError

-- `is_open` is `handle != 0`, and `calls` are the calls of WinDivertSetParam so far.
pub record Handle : Type 0 where
  pub is_open : Bool
  pub calls : List SetCall

-- The options of UpdateOptions, for one parameter.
unfoldable pub only : Param → ℕ → Options
only param_queue_len v = record { queue_len = v; queue_time = 0; queue_size = 0 }
only param_queue_time v = record { queue_len = 0; queue_time = v; queue_size = 0 }
only param_queue_size v = record { queue_len = 0; queue_time = 0; queue_size = v }

-- The next step, where the one before it gave no error.
abbrev pub and_then :
    Handle × Option ParamError → (Handle → Handle × Option ParamError) → Handle × Option ParamError
and_then (h, none) step = step h
and_then (h, some e) step = (h, some e)

abbrev pub param_error : Option ℕ → Option ParamError
param_error none = none
param_error (some n) = some (set_param_failed n)

-- The engine's settings that a reload applies: the workers and their queues stay.
unfoldable pub applicable : Config → Config → Config
applicable new_cfg cur = record new_cfg {
  worker_count =
      if eq_ℤ new_cfg.worker_count cur.worker_count then new_cfg.worker_count else cur.worker_count;
  worker_queue_size =
      if eq_ℤ new_cfg.worker_queue_size cur.worker_queue_size
      then new_cfg.worker_queue_size
      else cur.worker_queue_size;
}

-- The windowsRunConfig and engine.Config in use, the adapter's handle and the engine.
pub record Service : Type 0 where
  pub cur_cfg : Config
  pub cur_wc : RunConfig
  pub handle : Handle
  pub engine : Engine

-- NewWinDivert sets the parameters, and its error ends the service.
unfoldable pub started :
    Config → RunConfig → Handle × Option ParamError → Outcome ParamError Service
started c w (h, some e) = err e
started c w (h, none) = ok (record { cur_cfg = c; cur_wc = w; handle = h; engine = new_engine c })

-- `answer` is the error of a call of WinDivertSetParam after those before it, if it has one.
module _ (answer : List SetCall → Param → ℕ → Option ℕ) where
  -- setParam
  unfoldable pub set_param : Param → ℕ → Handle → Handle × Option ParamError
  set_param p v h =
      let e = answer h.calls p v in
      (
        record h { calls = h.calls ++ record { param = p; value = v; error = e } ∷ [] },
        param_error e,
      )

  -- A parameter that is 0 is left as the driver has it.
  unfoldable pub set_positive : Param → ℕ → Handle → Handle × Option ParamError
  set_positive p v h = if ltb 0 v then set_param p v h else (h, none)

  -- applyOptions, and so UpdateOptions
  unfoldable pub apply_options : Handle → Options → Handle × Option ParamError
  apply_options h opts =
      if not h.is_open
      then (h, some no_handle)
      else and_then
          (and_then (set_positive param_queue_len opts.queue_len h)
            (set_positive param_queue_time opts.queue_time))
          (set_positive param_queue_size opts.queue_size)

  -- One queue parameter of a reload: the value that was read, and the one in use.
  unfoldable pub update_param : Param → ℕ → ℕ → Handle → Handle × ℕ
  update_param p new_value cur h =
      if new_value == cur
      then (h, cur)
      else if new_value == 0
      then (h, cur)
      else let r = apply_options h (only p new_value) in
        elim r.1 [ some e ↦ (r.0, cur) | none ↦ (r.0, new_value) ]

  -- What a reload finds: effectiveWindowsConfig's outcome.
  unfoldable pub service_reload : Service → Outcome EffectiveError (Config × RunConfig) → Service
  service_reload s (err e) = s
  service_reload s (ok (c, w)) =
      let len = update_param param_queue_len w.queue_len s.cur_wc.queue_len s.handle in
      let time = update_param param_queue_time w.queue_time s.cur_wc.queue_time len.0 in
      let size = update_param param_queue_size w.queue_size s.cur_wc.queue_size time.0 in
      let cfg = applicable c s.cur_cfg in
      let r = reload s.engine cfg in
      record {
        cur_cfg = elim r.1 [ some e ↦ s.cur_cfg | none ↦ cfg ];
        cur_wc = record s.cur_wc { queue_len = len.1; queue_time = time.1; queue_size = size.1 };
        handle = size.0;
        engine = r.0;
      }

  -- The reloads of a service's life.
  unfoldable pub service_reloads :
      Service → List (Outcome EffectiveError (Config × RunConfig)) → Service
  service_reloads s [] = s
  service_reloads s (o ∷ os) = service_reloads (service_reload s o) os

  -- The service as it starts.
  unfoldable pub start_service : Config → RunConfig → Outcome ParamError Service
  start_service c w = started c w (
      apply_options (record { is_open = true; calls = [] })
        (record { queue_len = w.queue_len; queue_time = w.queue_time; queue_size = w.queue_size }))
