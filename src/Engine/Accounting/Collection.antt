-- ===== src/Engine/Accounting/Collection.antt =====
-- The invariant of a worker of internal/engine/worker.go through gc, touches and its event loop.
use gov_pass.Prelude.{
  ℕ, ◌+◌, ◌≡◌, refl, ap, false, not, ◌&&◌, Option, none, some, List, [], ◌∷◌, arith, is_empty,
  if_cases, option_cases, is_empty_iff,
}
use gov_pass.Prelude.Int.{ℤ, ltb_ℤ, sub_ℕ}
use gov_pass.Packet.{Packet}
use gov_pass.Flow.{Key, State, FlowState, Table, state_collecting, is_state_collecting, table_get}
use gov_pass.Flow.Tables.{
  total, AllFlows, Distinct, total-table_set, table_get-AllFlows, table_set-AllFlows,
  Table-Distinct,
}
use gov_pass.Engine.Worker.{Worker, Adapter, Error, Outcome, fail_open, data_bytes}
use gov_pass.Engine.Accounting.{IsRegular, Settled, Freed, InState, fail_open-Settled, buffer_bytes}
use gov_pass.Engine.Accounting.Slots.{
  Accounts, held_of, buffered_of, InState-freed, InState-touched,
}
use gov_pass.Engine.Accounting.Invariant.{handle_packet-Accounts}
use gov_pass.Engine.Collector.{
  Ready, packet_ready, touch_ready, timer_ready, cancelled, first_error, gc_loop, gc, idle_timeout,
  touch, take_packet, take_touch, run_step,
}

-- The counters before the loop over the flows `rest`, where those already passed have `h` and `r`.
record Owed (h r : ℕ) (w : Worker) (rest : Table) : Type 0 where
  held : w.held_bytes ≡ h + total held_of rest
  buffered : w.reassembly_bytes ≡ r + total buffered_of rest

-- What the loop leaves of `rest`.
record Kept (h r : ℕ) (rest : Table) (o : Worker × Table × Option Error) : Type 0 where
  owed : Owed h r o.0 o.1
  regular : AllFlows IsRegular o.1
  distinct : Distinct o.1
  absent : (k : Key) → table_get rest k ≡ none → table_get o.1 k ≡ none

module _ {h r : ℕ} where
  -- The first flow stays, with the share that it has then.
  Kept-cons :
      (k : Key) (old st : FlowState) (rest : Table) (o : Worker × Table × Option Error)
      → IsRegular st
      → table_get rest k ≡ none
      → Kept (h + held_of st) (r + buffered_of st) rest o
      → Kept h r ((k, old) ∷ rest) (o.0, (k, st) ∷ o.1, o.2)
  unfolding table_get
  Kept-cons k old st rest o ok e kept = record {
    owed = record {
      held = omega (arith, kept.owed.held);
      buffered = omega (arith, kept.owed.buffered);
    };
    regular = (ok, kept.regular);
    distinct = (kept.absent k e, kept.distinct);
    absent = λ j n. ground (arith, kept.absent j);
  }

  -- The first flow goes.
  Kept-drop :
      (k : Key) (old : FlowState) (rest : Table) (o : Worker × Table × Option Error)
      → Kept h r rest o
      → Kept h r ((k, old) ∷ rest) o
  unfolding table_get
  Kept-drop k old rest o kept = record {
    owed = kept.owed;
    regular = kept.regular;
    distinct = kept.distinct;
    absent = λ j n. ground (arith, kept.absent j);
  }

collects :
    (st : FlowState) (s : State)
    → InState s st
    → (is_state_collecting s && not (is_empty st.held_packets)) ≡ false
    → is_state_collecting s ≡ false
collects st state_collecting ok e = ground (arith, is_empty_iff st.held_packets)
collects st _ ok e = refl

module _ (ad : Adapter) (idle : ℤ) (now : ℕ) where
  -- One flow, given the loop over the rest.
  gc_cons-Kept :
      (k : Key) (st : FlowState) (rest : Table) (h r : ℕ) (w : Worker) (err : Option Error)
      → Owed h r w ((k, st) ∷ rest)
      → IsRegular st
      → table_get rest k ≡ none
      → ((h' r' : ℕ) (w' : Worker) (err' : Option Error)
          → Owed h' r' w' rest
          → Kept h' r' rest (gc_loop ad idle now w' rest err'))
      → Kept h r ((k, st) ∷ rest) (gc_loop ad idle now w ((k, st) ∷ rest) err)
  unfolding gc_loop
  gc_cons-Kept k st rest h r w err v reg d ih =
      if_cases (Kept h r ((k, st) ∷ rest)) (not (ltb_ℤ idle (sub_ℕ now st.last_active)))
        (λ _. Kept-cons k st st rest (gc_loop ad idle now w rest err) reg d (
          ih _ _ w err
            (record { held = omega (arith, v.held); buffered = omega (arith, v.buffered) })))
        λ _.
          if_cases (Kept h r ((k, st) ∷ rest))
            (is_state_collecting st.state && not (is_empty st.held_packets))
            (λ _.
              option_cases (Kept h r ((k, st) ∷ rest)) (fail_open ad w st).2
                (λ done. Kept-drop k st rest (gc_loop ad idle now released.0 rest err) (
                  ih _ _ released.0 err
                    (paid (InState-freed released.1 released.1.state flow.0.1 (flow.1 done)))))
                (λ e _.
                  Kept-cons k st released.1 rest
                    (gc_loop ad idle now released.0 rest (first_error err (some e))) flow.0.1 d
                    (ih _ _ released.0 (first_error err (some e)) (record {
                      held = omega (arith, flow.0.0.held);
                      buffered = omega (arith, flow.0.0.buffered);
                    }))))
            (λ plain.
              let gone = InState-freed st st.state reg (collects st st.state reg plain) in
              Kept-drop k st rest (gc_loop ad idle now w rest err) (
                ih _ _ w err (record {
                  held = omega (arith, v.held, ap data_bytes gone.0);
                  buffered = omega (arith, v.buffered, ap buffer_bytes gone.1);
                })))
    where
      released : Outcome
      released = fail_open ad w st

      flow :
          Settled (h + total held_of rest) (r + total buffered_of rest) w.flows released
          × Freed released
      flow =
          fail_open-Settled ad w st
            (record {
              table = refl;
              held = omega (arith, v.held);
              buffered = omega (arith, v.buffered);
            })
            (λ _. reg)

      paid :
          (released.1.held_packets ≡ []) × (released.1.reassembler ≡ none)
          → Owed h r released.0 rest
      paid gone = record {
        held = omega (arith, flow.0.0.held, ap data_bytes gone.0);
        buffered = omega (arith, flow.0.0.buffered, ap buffer_bytes gone.1);
      }

  gc_loop-Kept :
      (rest : Table) (h r : ℕ) (w : Worker) (err : Option Error)
      → Owed h r w rest
      → AllFlows IsRegular rest
      → Distinct rest
      → Kept h r rest (gc_loop ad idle now w rest err)
  unfolding gc_loop
  gc_loop-Kept [] h r w err v reg d = record {
    owed = v;
    regular = tt;
    distinct = tt;
    absent = λ k e. e;
  }
  gc_loop-Kept ((k, st) ∷ rest) h r w err v reg d =
      gc_cons-Kept k st rest h r w err v reg.0 d.0
        λ h' r' w' err' v'. gc_loop-Kept rest h' r' w' err' v' reg.1 d.1

module _ (ad : Adapter) where
  -- A collection keeps the worker's invariant, also where some flows cannot be released.
  pub gc-Accounts : (w : Worker) (now : ℕ) → Accounts w → Accounts (gc ad w now).0
  unfolding gc
  gc-Accounts w now a =
      let kept =
        gc_loop-Kept ad (idle_timeout w.cfg) now w.flows 0 0 w none
          (record { held = omega (arith, a.held); buffered = omega (arith, a.buffered) }) a.regular
          a.distinct in
      record {
        held = omega (arith, kept.owed.held);
        buffered = omega (arith, kept.owed.buffered);
        regular = kept.regular;
        distinct = kept.distinct;
      }

touch-Accounts : (w : Worker) (key : Key) (now : ℕ) → Accounts w → Accounts (touch w key now)
unfolding touch
touch-Accounts w key now a =
    option_cases Accounts (table_get w.flows key) (λ _. a)
      λ st e.
        let st' = record st { last_active = now } in
        record {
          held = omega (arith, a.held, total-table_set held_of w.flows key st st' e);
          buffered = omega (arith, a.buffered, total-table_set buffered_of w.flows key st st' e);
          regular =
              table_set-AllFlows IsRegular w.flows key st'
                (InState-touched st.state st now
                  (table_get-AllFlows IsRegular w.flows key st e a.regular))
                a.regular;
          distinct = (Table-Distinct w.flows key st' now a.distinct).1;
        }

module _ (ad : Adapter) where
  -- One round of the loop, whatever is ready.
  pub run_step-Accounts :
      (w : Worker) (ready : Ready) (now : ℕ) → Accounts w → Accounts (run_step ad w ready now).0
  unfolding run_step take_packet take_touch
  run_step-Accounts w packet_ready now a = taken w.queue
    where
      taken : (q : List Packet) → Accounts (take_packet ad w q now).0
      taken [] = a
      taken (pkt ∷ rest) =
          handle_packet-Accounts ad (record w { queue = rest }) pkt now
            (record {
              held = a.held;
              buffered = a.buffered;
              regular = a.regular;
              distinct = a.distinct;
            })
  run_step-Accounts w touch_ready now a = taken w.touched
    where
      taken : (q : List Key) → Accounts (take_touch ad w q now).0
      taken [] = a
      taken (key ∷ rest) =
          touch-Accounts (record w { touched = rest }) key now
            (record {
              held = a.held;
              buffered = a.buffered;
              regular = a.regular;
              distinct = a.distinct;
            })
  run_step-Accounts w timer_ready now a = gc-Accounts ad w now a
  run_step-Accounts w (cancelled e) now a = a
