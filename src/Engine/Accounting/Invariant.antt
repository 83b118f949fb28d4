-- ===== src/Engine/Accounting/Invariant.antt =====
-- The invariant of a worker of internal/engine/worker.go between packets, through handlePacket.
use gov_pass.Prelude.{
  ℕ, ◌+◌, ◌≡◌, refl, inl, inr, not, ◌&&◌, ◌||◌, none, some, ◌∷◌, arith, length, Bool-cases,
  if_cases, option_cases, is_empty,
}
use gov_pass.Prelude.Int.{pos, ltb_ℤ, is_pos}
use gov_pass.Reassembly.{new_buffer}
use gov_pass.Packet.{Packet, payload, has_flag, tcp_flag_fin, tcp_flag_syn, tcp_flag_rst}
use gov_pass.Flow.{
  Key, FlowState, Table, state_collecting, is_state_collecting, is_state_done, new_flow_state,
  table_get, table_len, key_from_meta,
}
use gov_pass.Flow.Tables.{total-table_delete, table_get-AllFlows, get_or_create_absent}
use gov_pass.Engine.Config.{Config}
use gov_pass.Engine.Worker.{Worker, Adapter, fail_open, send}
use gov_pass.Engine.Release.{send-Logs}
use gov_pass.Engine.Accounting.{Charged, IsRegular, fail_open-Settled}
use gov_pass.Engine.Accounting.Steps.{
  send_through-Charged, fail_open_then_send-Settled, Proceeds, hold-Proceeds, try_split-Settled,
}
use gov_pass.Engine.Handle.{Progress, ended, going}
use gov_pass.Engine.Handle
use gov_pass.Engine.Accounting.Slots.{
  Accounts, held_of, buffered_of, Fine, Accounts-Logs, Slot, Slot-of, fresh-Slot, written-Accounts,
  deleted-Accounts, InState-collecting, InState-touched,
}

start_collecting_later :
    (cfg : Config) (st : FlowState) (pkt : Packet) (now : ℕ)
    → st.state ≡ state_collecting
    → Handle.start_collecting cfg st pkt now ≡ record st { template = some pkt }
unfolding Handle.start_collecting
start_collecting_later cfg st pkt now e = ground arith

module _ (ad : Adapter) {h r : ℕ} {flows : Table} where
  -- A flow that collects already, with one more packet.
  resumed-Proceeds :
      (cfg : Config) (w : Worker) (st : FlowState) (pkt : Packet) (now : ℕ)
      → Charged h r flows w st
      → st.state ≡ state_collecting
      → Proceeds h r flows (Handle.hold ad cfg w (Handle.start_collecting cfg st pkt now) pkt now)
  resumed-Proceeds cfg w st pkt now v e = rw (start_collecting_later cfg st pkt now e) (
      hold-Proceeds ad cfg w (record st { template = some pkt }) pkt now
        (record { table = v.table; held = v.held; buffered = v.buffered }) e)

  -- A fresh flow, with its first packet.
  begun-Proceeds :
      (cfg : Config) (w : Worker) (pkt : Packet) (now : ℕ)
      → w.flows ≡ flows
      → w.held_bytes ≡ h
      → w.reassembly_bytes ≡ r
      → Proceeds h r flows (
          Handle.hold ad cfg w
            (Handle.start_collecting cfg
              (record (new_flow_state now) { last_active = now })
              pkt
              now)
            pkt
            now)
  unfolding Handle.start_collecting new_flow_state new_buffer
  begun-Proceeds cfg w pkt now t p q =
      hold-Proceeds ad cfg w _ pkt now
        (record { table = t; held = omega arith; buffered = omega arith }) refl

module _ (ad : Adapter) {flows : Table} {key : Key} {h r : ℕ} (slot : Slot flows key h r) where
  tear_down-Accounts :
      (w : Worker) (st : FlowState) (pkt : Packet)
      → Charged h r flows w st
      → IsRegular st
      → Accounts (Handle.tear_down ad w key st pkt).0
  unfolding Handle.tear_down
  tear_down-Accounts w st pkt v ok = elim (Bool-cases (is_state_collecting st.state)) [
    | inl yes' ↦
        let f = fail_open_then_send-Settled ad w st pkt v (λ _. ok) in
        rw yes' (deleted-Accounts slot _ f.0 f.1)
    | inr no' ↦ rw no' (
        deleted-Accounts slot (Handle.send_through ad w st pkt)
          (send_through-Charged ad w st pkt v, ok) (λ _. no'))
  ]

  finish_existing-Accounts :
      (cfg : Config) (w : Worker) (st : FlowState) (pkt : Packet)
      → Charged h r flows w st
      → IsRegular st
      → Accounts (Handle.finish_existing ad cfg w key st pkt).0
  unfolding Handle.finish_existing
  finish_existing-Accounts cfg w st pkt v ok =
      let f = fail_open-Settled ad w st v (λ _. ok) in
      if_cases Fine (has_flag pkt tcp_flag_syn) (λ _. written-Accounts slot (fail_open ad w st) f.0)
        λ _.
          if_cases Fine (has_flag pkt tcp_flag_rst) (λ _. deleted-Accounts slot _ f.0 f.1)
            λ _.
              if_cases Fine (has_flag pkt tcp_flag_fin) (λ _. deleted-Accounts slot _ f.0 f.1)
                λ _.
                  written-Accounts slot (Handle.try_split ad cfg w st)
                    (try_split-Settled ad cfg w st v ok)

  finish_new-Accounts :
      (cfg : Config) (w : Worker) (st : FlowState) (pkt : Packet)
      → Charged h r flows w st
      → IsRegular st
      → Accounts (Handle.finish_new ad cfg w key st pkt).0
  unfolding Handle.finish_new
  finish_new-Accounts cfg w st pkt v ok =
      let f = fail_open-Settled ad w st v (λ _. ok) in
      if_cases Fine (has_flag pkt tcp_flag_syn || has_flag pkt tcp_flag_rst)
        (λ _.
          if_cases Fine (has_flag pkt tcp_flag_rst) (λ _. deleted-Accounts slot _ f.0 f.1)
            (λ _. written-Accounts slot (fail_open ad w st) f.0))
        λ _.
          if_cases Fine (has_flag pkt tcp_flag_fin) (λ _. deleted-Accounts slot _ f.0 f.1)
            λ _.
              written-Accounts slot (Handle.try_split ad cfg w st)
                (try_split-Settled ad cfg w st v ok)

  settle_existing-Accounts :
      (cfg : Config) (pkt : Packet) (p : Progress)
      → Proceeds h r flows p
      → Accounts (Handle.settle_existing ad cfg key pkt p).0
  unfolding Handle.settle_existing
  settle_existing-Accounts cfg pkt (ended o) s = written-Accounts slot o s
  settle_existing-Accounts cfg pkt (going w st) s = finish_existing-Accounts cfg w st pkt s.0 s.1

  settle_new-Accounts :
      (cfg : Config) (pkt : Packet) (p : Progress)
      → Proceeds h r flows p
      → Accounts (Handle.settle_new ad cfg key pkt p).0
  unfolding Handle.settle_new
  settle_new-Accounts cfg pkt (ended o) s = written-Accounts slot o s
  settle_new-Accounts cfg pkt (going w st) s = finish_new-Accounts cfg w st pkt s.0 s.1

  handle_existing-Accounts :
      (cfg : Config) (w : Worker) (st : FlowState) (pkt : Packet) (now : ℕ)
      → Charged h r flows w st
      → IsRegular st
      → Accounts (Handle.handle_existing ad cfg w key st pkt now).0
  unfolding Handle.handle_existing
  handle_existing-Accounts cfg w old pkt now v ok =
      let st = record old { last_active = now } in
      let v' : Charged h r flows w st = record {
        table = v.table;
        held = v.held;
        buffered = v.buffered;
      } in
      let ok' = InState-touched st.state old now ok in
      let through =
        written-Accounts slot (Handle.send_through ad w st pkt)
          (send_through-Charged ad w st pkt v', ok') in
      if_cases Fine
        (is_empty (payload pkt) && (has_flag pkt tcp_flag_rst || has_flag pkt tcp_flag_fin))
        (λ _. tear_down-Accounts w st pkt v' ok')
        λ _.
          if_cases Fine (is_state_done st.state) (λ _. through)
            λ open_flow.
              if_cases Fine (is_empty (payload pkt)) (λ _. through)
                λ _. settle_existing-Accounts cfg pkt _ (
                  resumed-Proceeds ad cfg w st pkt now v'
                    (InState-collecting st st.state ok' open_flow))

module _ (ad : Adapter) where
  send-Accounts : (w : Worker) (pkt : Packet) → Accounts w → Fine (send ad w pkt)
  send-Accounts w pkt a = Accounts-Logs w (send ad w pkt).0 (send-Logs ad w pkt) a

  begin_flow-Accounts :
      (cfg : Config) (w : Worker) (key : Key) (pkt : Packet) (now : ℕ)
      → table_get w.flows key ≡ none
      → Accounts w
      → Accounts (Handle.begin_flow ad cfg w key pkt now).0
  unfolding Handle.begin_flow
  begin_flow-Accounts cfg w key pkt now e a = rw (get_or_create_absent w.flows key now e) (
      settle_new-Accounts ad (fresh-Slot w.flows key now e a.regular a.distinct) cfg pkt _ (
        begun-Proceeds ad cfg (record w { flows = (key, new_flow_state now) ∷ w.flows }) pkt now
          refl a.held a.buffered))

  handle_new-Accounts :
      (cfg : Config) (w : Worker) (key : Key) (pkt : Packet) (now : ℕ)
      → table_get w.flows key ≡ none
      → Accounts w
      → Accounts (Handle.handle_new ad cfg w key pkt now).0
  unfolding Handle.handle_new
  handle_new-Accounts cfg w key pkt now e a =
      let out = send-Accounts w pkt a in
      if_cases Fine (is_empty (payload pkt)) (λ _. out)
        λ _.
          if_cases Fine
            (is_pos cfg.max_flows_per_worker
              && not (ltb_ℤ (pos (table_len w.flows)) cfg.max_flows_per_worker))
            (λ _. out)
            λ _.
              if_cases Fine (Handle.over_held_limit cfg w pkt) (λ _. out)
                λ _.
                  if_cases Fine
                    (Handle.over_reassembly_limit cfg (w.reassembly_bytes + length (payload pkt)))
                    (λ _. out) (λ _. begin_flow-Accounts cfg w key pkt now e a)

  -- handlePacket keeps the counters equal to what the flows hold, every flow regular and the keys
  -- distinct, for every packet, configuration and adapter, on the error paths too.
  pub handle_packet-Accounts :
      (w : Worker) (pkt : Packet) (now : ℕ)
      → Accounts w
      → Accounts (Handle.handle_packet ad w pkt now).0
  unfolding Handle.handle_packet
  handle_packet-Accounts w pkt now a =
      let key = key_from_meta pkt.meta in
      option_cases Fine w.cfg (λ _. a)
        λ cfg _.
          option_cases Fine (table_get w.flows key) (λ e. handle_new-Accounts cfg w key pkt now e a)
            λ st e.
              handle_existing-Accounts ad (Slot-of st e a.regular a.distinct) cfg w st pkt now
                (record {
                  table = refl;
                  held = omega (arith, a.held, total-table_delete held_of w.flows key st e);
                  buffered =
                      omega (arith, a.buffered, total-table_delete buffered_of w.flows key st e);
                })
                (table_get-AllFlows IsRegular w.flows key st e a.regular)
