-- ===== src/Engine/Accounting/Slots.antt =====
-- The counters of a worker of internal/engine/worker.go, and what a write to one flow does to them.
use gov_pass.Prelude.{ℕ, ◌+◌, ◌≡◌, refl, sym, ap, ◌∙◌, false, Option, none, some, [], ◌∷◌, arith}
use gov_pass.Flow.{
  Key, FlowState, State, Table, state_new, state_collecting, state_split_ready, state_injected,
  state_pass_through, state_closed, is_state_collecting, is_state_done, new_flow_state, table_get,
  table_set, table_delete,
}
use gov_pass.Flow.Keys.{key_eq_refl}
use gov_pass.Flow.Tables.{
  total, AllFlows, Distinct, total-table_set, total-table_delete, table_set-AllFlows,
  table_delete-AllFlows, Table-Distinct,
}
use gov_pass.Engine.Worker.{Worker, Error, Outcome, data_bytes}
use gov_pass.Engine.Release.{Logs}
use gov_pass.Engine.Accounting.{InState, IsRegular, Settled, Freed, buffer_bytes}
use gov_pass.Engine.Handle.{Progress, ended, going}
use gov_pass.Engine.Handle

-- The bytes of a flow's held packets, and those in its reassembler.
abbrev pub held_of : FlowState → ℕ
held_of st = data_bytes st.held_packets

abbrev pub buffered_of : FlowState → ℕ
buffered_of st = buffer_bytes st.reassembler

-- The counters are the sums over the flows, each flow is regular, and no key stands twice.
pub record Accounts (w : Worker) : Type 0 where
  pub held : w.held_bytes ≡ total held_of w.flows
  pub buffered : w.reassembly_bytes ≡ total buffered_of w.flows
  pub regular : AllFlows IsRegular w.flows
  pub distinct : Distinct w.flows

pub InState-freed :
    (st : FlowState) (s : State)
    → InState s st
    → is_state_collecting s ≡ false
    → (st.held_packets ≡ []) × (st.reassembler ≡ none)
InState-freed st state_collecting ok e = cc
InState-freed st state_injected ok e = ok
InState-freed st state_pass_through ok e = ok
InState-freed st state_new ok e = absurd ok
InState-freed st state_split_ready ok e = absurd ok
InState-freed st state_closed ok e = absurd ok

pub InState-collecting :
    (st : FlowState) (s : State) → InState s st → is_state_done s ≡ false → s ≡ state_collecting
InState-collecting st state_collecting ok e = refl
InState-collecting st state_injected ok e = cc
InState-collecting st state_pass_through ok e = cc
InState-collecting st state_new ok e = absurd ok
InState-collecting st state_split_ready ok e = absurd ok
InState-collecting st state_closed ok e = absurd ok

pub InState-touched :
    (s : State) (st : FlowState) (now : ℕ)
    → InState s st
    → InState s (record st { last_active = now })
InState-touched state_collecting st now ok = ok
InState-touched state_injected st now ok = ok
InState-touched state_pass_through st now ok = ok
InState-touched state_new st now ok = ok
InState-touched state_split_ready st now ok = ok
InState-touched state_closed st now ok = ok

abbrev pub Fine : Worker × Option Error → Type 0
Fine o = Accounts o.0

pub Accounts-Logs : (w w' : Worker) → Logs w w' → Accounts w → Accounts w'
Accounts-Logs w w' (c, l, e) a =
    rw e
      (record { held = a.held; buffered = a.buffered; regular = a.regular; distinct = a.distinct })

-- A place in a table: what the other flows hold, and what a write or a deletion there gives.
pub record Slot (flows : Table) (key : Key) (h r : ℕ) : Type 0 where
  pub set_held : (st : FlowState) → total held_of (table_set flows key st) ≡ h + held_of st
  pub set_buffered :
      (st : FlowState) → total buffered_of (table_set flows key st) ≡ r + buffered_of st
  pub set_regular : (st : FlowState) → IsRegular st → AllFlows IsRegular (table_set flows key st)
  pub cut_held : total held_of (table_delete flows key) ≡ h
  pub cut_buffered : total buffered_of (table_delete flows key) ≡ r
  pub cut_regular : AllFlows IsRegular (table_delete flows key)
  pub once : Distinct flows

module _ {flows : Table} {key : Key} {h r : ℕ} (slot : Slot flows key h r) where
  pub written-Accounts : (o : Outcome) → Settled h r flows o → Accounts (Handle.written key o).0
  written-Accounts o s = record {
    held =
        s.0.held
        ∙ sym (ap (λ t. total held_of (table_set t key o.1)) s.0.table ∙ slot.set_held o.1);
    buffered =
        s.0.buffered
        ∙ sym (ap (λ t. total buffered_of (table_set t key o.1)) s.0.table ∙ slot.set_buffered o.1);
    regular = rw s.0.table (slot.set_regular o.1 s.1);
    distinct = rw s.0.table (Table-Distinct flows key o.1 0 slot.once).1;
  }

  pub deleted-Accounts :
      (o : Outcome) → Settled h r flows o → Freed o → Accounts (Handle.deleted key o).0
  deleted-Accounts (w, st, some e) s f = written-Accounts (w, st, some e) s
  deleted-Accounts (w, st, none) s f =
      let gone = InState-freed st st.state s.1 (f refl) in
      record {
        held = omega (
          arith,
          s.0.held,
          ap data_bytes gone.0,
          ap (λ t. total held_of (table_delete t key)) s.0.table,
          slot.cut_held,
        );
        buffered = omega (
          arith,
          s.0.buffered,
          ap buffer_bytes gone.1,
          ap (λ t. total buffered_of (table_delete t key)) s.0.table,
          slot.cut_buffered,
        );
        regular = rw s.0.table slot.cut_regular;
        distinct = rw s.0.table (Table-Distinct flows key st 0 slot.once).2;
      }

-- The slot of a flow in the table, and the flow's share of the counters.
pub Slot-of :
    {flows : Table} {key : Key} (st : FlowState)
    → table_get flows key ≡ some st
    → AllFlows IsRegular flows
    → Distinct flows
    → Slot flows key
        (total held_of (table_delete flows key))
        (total buffered_of (table_delete flows key))
Slot-of {flows} {key} st e reg d = record {
  set_held = λ st'. omega (
    arith,
    total-table_set held_of flows key st st' e,
    total-table_delete held_of flows key st e,
  );
  set_buffered = λ st'. omega (
    arith,
    total-table_set buffered_of flows key st st' e,
    total-table_delete buffered_of flows key st e,
  );
  set_regular = λ st' ok. table_set-AllFlows IsRegular flows key st' ok reg;
  cut_held = refl;
  cut_buffered = refl;
  cut_regular = table_delete-AllFlows IsRegular flows key reg;
  once = d;
}

-- The slot of a flow that GetOrCreate has just added.
pub fresh-Slot :
    (flows : Table) (key : Key) (now : ℕ)
    → table_get flows key ≡ none
    → AllFlows IsRegular flows
    → Distinct flows
    → Slot ((key, new_flow_state now) ∷ flows) key (total held_of flows) (total buffered_of flows)
unfolding table_set table_delete
fresh-Slot flows key now e reg d = record {
  set_held = λ st. rw (key_eq_refl key) (omega arith);
  set_buffered = λ st. rw (key_eq_refl key) (omega arith);
  set_regular = λ st ok. rw (key_eq_refl key) (ok, reg);
  cut_held = rw (key_eq_refl key);
  cut_buffered = rw (key_eq_refl key);
  cut_regular = rw (key_eq_refl key) reg;
  once = (e, d);
}
