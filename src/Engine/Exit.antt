-- ===== src/Engine/Exit.antt =====
-- The errors of Engine.Run in internal/engine/engine.go: what a worker's goroutine reports when it
-- ends, and what Run returns. The goroutines themselves are not modelled: `run_err`, `flush_err`
-- and `pending` are what the calls and the channel gave.
use gov_pass.Prelude.{
  ◌≡◌, ◌⊎◌, ◌↔◌, inl, Bool, true, false, ◌&&◌, ◌||◌, Option, none, some, if◌then◌else◌, arith, refl,
}
use gov_pass.Engine.Worker.{
  Error, canceled, deadline_exceeded, limit_reached, config_nil, invalid_header, adapter_error,
  joined,
}
use gov_pass.Engine.Dispatch.{is_canceled}

-- `errors.Is(err, context.DeadlineExceeded)`
unfoldable pub is_deadline : Error → Bool
is_deadline deadline_exceeded = true
is_deadline canceled = false
is_deadline limit_reached = false
is_deadline config_nil = false
is_deadline invalid_header = false
is_deadline (adapter_error n) = false
is_deadline (joined a b) = is_deadline a || is_deadline b

-- `errors.Is(err, ErrShutdownFailOpenLimitReached)`
unfoldable pub is_limit : Error → Bool
is_limit limit_reached = true
is_limit canceled = false
is_limit deadline_exceeded = false
is_limit config_nil = false
is_limit invalid_header = false
is_limit (adapter_error n) = false
is_limit (joined a b) = is_limit a || is_limit b

-- `errors.Is` is false for nil.
unfoldable pub was : (Error → Bool) → Option Error → Bool
was test none = false
was test (some e) = test e

-- An error is joined with the flush's, which takes the place of nil and of a cancellation.
pub join_flush : Option Error → Option Error → Option Error
join_flush err none = err
join_flush none (some flush) = some flush
join_flush (some e) (some flush) = if is_canceled e then some flush else some (joined e flush)

-- The end of a worker's goroutine: the flush's guardrails do not count after a cancellation.
pub worker_exit : Option Error → Option Error → Option Error
worker_exit run_err flush_err = join_flush run_err (
    if was is_canceled run_err && (was is_deadline flush_err || was is_limit flush_err)
    then none
    else flush_err)

-- What the goroutine puts on workerErrCh.
pub worker_report : Option Error → Option Error
worker_report none = none
worker_report (some e) = if is_canceled e then none else some e

-- The adapter's flush at the end of Run.
pub after_flush : Option Error → Option Error → Option Error
after_flush err flush_err =
    join_flush err (if was is_canceled err && was is_deadline flush_err then none else flush_err)

-- A worker's error is preferred to a cancellation.
pub prefer_pending : Option Error → Option Error → Option Error
prefer_pending err none = err
prefer_pending err (some pending) = if was is_canceled err then some pending else err

-- What Run returns, from the first error, the adapter's flush and a worker's error that still
-- waits in the channel.
pub engine_exit : Option Error → Option Error → Option Error → Option Error
engine_exit first flush_err pending =
    let err = prefer_pending (after_flush first flush_err) pending in
    if was is_canceled err then none else err

-- When a worker's run and its flush gave `run_err` and `flush_err`, where the flush's own error is
-- no cancellation, the goroutine reports nothing exactly when the run ended by nil or by a
-- cancellation, and the flush by nil or, after a cancellation, by one of its guardrails.
pub worker_report-none_iff :
    (run_err flush_err : Option Error)
    → was is_canceled flush_err ≡ false
    → (worker_report (worker_exit run_err flush_err) ≡ none) ↔ (
        ((run_err ≡ none) × (flush_err ≡ none))
        ⊎ ((was is_canceled run_err ≡ true)
            × ((flush_err ≡ none)
                ⊎ ((was is_deadline flush_err || was is_limit flush_err) ≡ true))))
unfolding worker_report worker_exit join_flush was is_canceled
worker_report-none_iff none none h = (λ _. inl (refl, refl), λ _. refl)
worker_report-none_iff none (some f) h = ground arith
worker_report-none_iff (some e) none h = ground arith
worker_report-none_iff (some e) (some f) h = ground arith

-- When the first error of Run is `first`, and the adapter's flush did not give a cancellation, Run
-- returns nil exactly when the first error is a cancellation, the flush gave nil or ran out of its
-- time, and no worker's error other than a cancellation waits: no other error is swallowed.
pub engine_exit-none_iff :
    (first : Error) (flush_err pending : Option Error)
    → was is_canceled flush_err ≡ false
    → (engine_exit (some first) flush_err pending ≡ none) ↔ (
        (is_canceled first ≡ true)
        × ((flush_err ≡ none) ⊎ (was is_deadline flush_err ≡ true))
        × (worker_report pending ≡ none))
unfolding worker_report engine_exit prefer_pending after_flush join_flush was is_canceled
engine_exit-none_iff first none none h = ground arith
engine_exit-none_iff first none (some p) h = ground arith
engine_exit-none_iff first (some f) none h = ground arith
engine_exit-none_iff first (some f) (some p) h = ground arith
