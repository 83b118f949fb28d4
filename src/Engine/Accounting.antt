-- ===== src/Engine/Accounting.antt =====
-- The byte counters of a worker of internal/engine/worker.go: what the flows hold is what
-- `heldBytes` and `reassemblyBytes` say. One flow at a time.
pub mod Window
pub mod Steps
pub mod Slots
pub mod Invariant
pub mod Collection
pub mod Reachable
use mathlib.Core.Path.{subst}
use gov_pass.Prelude.{
  ℕ, zero, suc, ◌+◌, ◌-◌, ◌≤◌, ◌<◌, ◌≡◌, refl, sym, ap, ◌∙◌, ◌⊎◌, inl, inr, ◌≢◌, Bool, true, false,
  Option, none, some, List, [], ◌∷◌, ◌++◌, map, arith, length, Option-cases, Bool-cases, if_cases,
  sum_of-append,
}
use gov_pass.Packet.{Packet}
use gov_pass.Reassembly.{Buffer}
use gov_pass.Flow.{
  FlowState, State, Table, state_new, state_collecting, state_split_ready, state_injected,
  state_pass_through, state_closed, is_state_collecting,
}
use gov_pass.Engine.Worker.{
  Worker, Adapter, Error, Outcome, fail_open, clear_collecting_state, data_bytes, send,
}
use gov_pass.Engine.Release.{Logs, FailsOpen, fail_open-FailsOpen, send-Logs}

-- The bytes in a flow's reassembler.
abbrev pub buffer_bytes : Option Buffer → ℕ
buffer_bytes none = 0
buffer_bytes (some b) = b.total_bytes

-- The counters hold `h` and `r` beside what the flow at hand has.
pub record Charged (h r : ℕ) (flows : Table) (w : Worker) (st : FlowState) : Type 0 where
  pub table : w.flows ≡ flows
  pub held : w.held_bytes ≡ h + data_bytes st.held_packets
  pub buffered : w.reassembly_bytes ≡ r + buffer_bytes st.reassembler

-- A flow in the table: it collects and holds a packet, or it is done with and holds nothing.
abbrev pub InState : State → FlowState → Type 0
InState state_collecting st = 1 ≤ length st.held_packets
InState state_injected st = (st.held_packets ≡ []) × (st.reassembler ≡ none)
InState state_pass_through st = (st.held_packets ≡ []) × (st.reassembler ≡ none)
InState state_new st = ⊥
InState state_split_ready st = ⊥
InState state_closed st = ⊥

abbrev pub IsRegular : FlowState → Type 0
IsRegular st = InState st.state st

-- An outcome whose state may be written to the table.
abbrev pub Settled : ℕ → ℕ → Table → Outcome → Type 0
Settled h r flows o = Charged h r flows o.0 o.1 × IsRegular o.1

-- After a success the flow no longer collects.
abbrev pub Freed : Outcome → Type 0
Freed o = o.2 ≡ none → is_state_collecting o.1.state ≡ false

module _ {h r : ℕ} {flows : Table} where
  pub Charged-Logs :
      (w w' : Worker) (st : FlowState)
      → Logs w w'
      → Charged h r flows w st
      → Charged h r flows w' st
  Charged-Logs w w' st (c, l, e) v =
      rw e (record { table = v.table; held = v.held; buffered = v.buffered })

  pub Charged-clear :
      (w : Worker) (st st' : FlowState)
      → Charged h r flows w st
      → st'.held_packets ≡ []
      → st'.reassembler ≡ none
      → Charged h r flows (clear_collecting_state w st).0 st'
  unfolding clear_collecting_state
  Charged-clear w st st' v p q = elim (Option-cases st.reassembler) [
    | inl e ↦
        rw (p, q, e)
          (record {
            table = v.table;
            held = omega (arith, v.held);
            buffered = v.buffered ∙ ap (λ b. r + buffer_bytes b) e;
          })
    | inr (b, e) ↦
        rw (p, q, e)
          (record {
            table = v.table;
            held = omega (arith, v.held);
            buffered = omega (arith, v.buffered ∙ ap (λ b. r + buffer_bytes b) e);
          })
  ]

  pub fail_open-Settled :
      (ad : Adapter) (w : Worker) (st : FlowState)
      → Charged h r flows w st
      → (1 ≤ length st.held_packets → IsRegular st)
      → Settled h r flows (fail_open ad w st) × Freed (fail_open ad w st)
  unfolding clear_collecting_state
  fail_open-Settled ad w st v keeps = elim (fail_open-FailsOpen ad w st) [
    | inl (c, e) ↦ rw e (
      (Charged-clear _ st _ (Charged-Logs w _ st (c, _, refl) v) refl refl, (refl, refl)),
      λ _. refl,
    )
    | inr (c, k, x, lt, e) ↦
        rw e ((Charged-Logs w _ st (c, _, refl) v, keeps (omega arith)), λ n. cc)
  ]

-- A collecting flow that holds a packet is regular.
pub collecting-IsRegular :
    (st : FlowState) → st.state ≡ state_collecting → 1 ≤ length st.held_packets → IsRegular st
collecting-IsRegular st e n = subst (λ s. InState s st) (sym e) n
