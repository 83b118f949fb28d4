-- ===== src/Engine/Accounting/Reachable.antt =====
-- The states that a worker of internal/engine can reach: its own rounds, interleaved with what the
-- receiving goroutine and Reload do to it.
use mathlib.Core.Path.{subst}
use gov_pass.Prelude.{ℕ, ◌≡◌, refl, Option, option_cases, if_cases, ltb, length}
use gov_pass.Packet.{Packet}
use gov_pass.Flow.{Key}
use gov_pass.Engine.Config.{Config}
use gov_pass.Engine.Worker.{Worker, Adapter, Error, new_worker, set_config}
use gov_pass.Engine.Collector.{
  Ready, Enqueued, queued, refused, waits, enqueue, touch_flow, run_step,
}
use gov_pass.Engine.Accounting.Slots.{Accounts}
use gov_pass.Engine.Accounting.Collection.{run_step-Accounts}

pub data Reaches (ad : Adapter) : Worker → Type 0 where
  created : (id : ℕ) (cfg : Config) → Reaches ad (new_worker id cfg)
  rounds :
      {w : Worker}
      → Reaches ad w
      → (ready : Ready) (now : ℕ) → Reaches ad (run_step ad w ready now).0
  receives :
      {w w' : Worker} (ctx_err : Option Error) (pkt : Packet)
      → Reaches ad w
      → enqueue ctx_err w pkt ≡ queued w'
      → Reaches ad w'
  touches : {w : Worker} → Reaches ad w → (key : Key) → Reaches ad (touch_flow w key)
  reloads : {w : Worker} → Reaches ad w → (cfg : Config) → Reaches ad (set_config w cfg)

new_worker-Accounts : (id : ℕ) (cfg : Config) → Accounts (new_worker id cfg)
unfolding new_worker
new_worker-Accounts id cfg = record { held = refl; buffered = refl; regular = tt; distinct = tt }

abbrev Holds : Enqueued → Type 0
Holds (queued w) = Accounts w
Holds (refused e) = Unit {0}
Holds waits = Unit {0}

enqueue-Accounts :
    (ctx_err : Option Error) (w w' : Worker) (pkt : Packet)
    → enqueue ctx_err w pkt ≡ queued w'
    → Accounts w
    → Accounts w'
unfolding enqueue
enqueue-Accounts ctx_err w w' pkt e a = subst Holds e (
    option_cases Holds ctx_err
      (λ _.
        if_cases Holds (ltb (length w.queue) w.capacity)
          (λ _. record {
            held = a.held;
            buffered = a.buffered;
            regular = a.regular;
            distinct = a.distinct;
          })
          (λ _. tt))
      (λ _ _. tt))

touch_flow-Accounts : (w : Worker) (key : Key) → Accounts w → Accounts (touch_flow w key)
unfolding touch_flow
touch_flow-Accounts w key a =
    if_cases Accounts (ltb (length w.touched) w.capacity)
      (λ _. record {
        held = a.held;
        buffered = a.buffered;
        regular = a.regular;
        distinct = a.distinct;
      })
      (λ _. a)

-- In every state that a worker can reach, under any adapter and any interleaving, heldBytes is the
-- sum of the sizes of all held packets and reassemblyBytes the sum of the bytes in all
-- reassemblers; a flow in the table holds packets exactly while it collects; and no key has two
-- entries.
pub Reaches-Accounts : (ad : Adapter) (w : Worker) → Reaches ad w → Accounts w
unfolding set_config
Reaches-Accounts ad w (created id cfg) = new_worker-Accounts id cfg
Reaches-Accounts ad w (rounds {w = v} s ready now) =
    run_step-Accounts ad v ready now (Reaches-Accounts ad v s)
Reaches-Accounts ad w (receives {w = v} c pkt s e) =
    enqueue-Accounts c v w pkt e (Reaches-Accounts ad v s)
Reaches-Accounts ad w (touches {w = v} s key) = touch_flow-Accounts v key (Reaches-Accounts ad v s)
Reaches-Accounts ad w (reloads {w = v} s cfg) =
    let a = Reaches-Accounts ad v s in
    record { held = a.held; buffered = a.buffered; regular = a.regular; distinct = a.distinct }
