-- ===== src/Engine/Accounting/Steps.antt =====
-- The counters through the steps of handlePacket of internal/engine/worker.go on one flow.
use gov_pass.Prelude.{
  ℕ, ◌+◌, ◌-◌, ◌≤◌, ◌≡◌, ap, ◌∙◌, not, some, [], ◌∷◌, ◌++◌, arith, length, length-append,
  sum_of-append, if_cases, option_cases, ltb, ◌==◌,
}
use gov_pass.Prelude.Int.{pos, ltb_ℤ, sub_ℕ}
use gov_pass.Packet.{Packet, payload}
use gov_pass.Reassembly.{Buffer, push}
use gov_pass.Tls.{Result, need_more, mismatch, match, detect_client_hello_record}
use gov_pass.Flow.{FlowState, Table, state_collecting}
use gov_pass.Engine.Config.{
  Config, SplitMode, split_mode_immediate, split_mode_tls_hello, other_mode,
}
use gov_pass.Engine.Worker.{Worker, Adapter, Outcome, fail_open, send}
use gov_pass.Engine.Release.{send-Logs}
use gov_pass.Engine.Accounting.{
  Charged, IsRegular, Settled, Freed, Charged-Logs, fail_open-Settled, buffer_bytes,
  collecting-IsRegular,
}
use gov_pass.Engine.Accounting.Window.{inject_window-Settled}
use gov_pass.Engine.Handle.{
  Progress, ended, going, over_held_limit, over_reassembly_limit, send_through, fail_open_then_send,
  push_payload, hold, on_hello, try_split_immediate, try_split_tls_hello, try_split_in, try_split,
}

-- A step that ends settles the flow; one that goes on leaves it regular and collecting.
abbrev pub Proceeds : ℕ → ℕ → Table → Progress → Type 0
Proceeds h r flows (ended o) = Settled h r flows o
Proceeds h r flows (going w st) = Charged h r flows w st × IsRegular st

module _ (ad : Adapter) {h r : ℕ} {flows : Table} where
  pub send_through-Charged :
      (w : Worker) (st : FlowState) (pkt : Packet)
      → Charged h r flows w st
      → let o = send_through ad w st pkt in Charged h r flows o.0 o.1
  send_through-Charged w st pkt v = Charged-Logs w (send ad w pkt).0 st (send-Logs ad w pkt) v

  pub fail_open_then_send-Settled :
      (w : Worker) (st : FlowState) (pkt : Packet)
      → Charged h r flows w st
      → (1 ≤ length st.held_packets → IsRegular st)
      → Settled h r flows (fail_open_then_send ad w st pkt)
        × Freed (fail_open_then_send ad w st pkt)
  unfolding fail_open_then_send
  fail_open_then_send-Settled w st pkt v keeps =
      let f = fail_open-Settled ad w st v keeps in
      let o = fail_open ad w st in
      option_cases (λ (x : Outcome). Settled h r flows x × Freed x) o.2
        (λ done. ((send_through-Charged o.0 o.1 pkt f.0.0, f.0.1), λ _. f.1 done)) (λ e failed. f)

  push_payload-Proceeds :
      (cfg : Config) (w : Worker) (st : FlowState) (pkt : Packet)
      → Charged h r flows w st
      → st.state ≡ state_collecting
      → 1 ≤ length st.held_packets
      → Proceeds h r flows (push_payload ad cfg w st pkt)
  unfolding push_payload
  push_payload-Proceeds cfg w st pkt v s n =
      let ok = collecting-IsRegular st s n in
      option_cases (Proceeds h r flows) st.reassembler
        (λ _. (fail_open-Settled ad w st v (λ _. ok)).0)
        λ b e.
          let p = push b pkt.meta.seq (payload pkt) in
          let w' = record w {
            reassembly_bytes = w.reassembly_bytes + p.0.total_bytes - b.total_bytes;
          } in
          let st' = record st { reassembler = some p.0 } in
          let v' : Charged h r flows w' st' = record {
            table = v.table;
            held = v.held;
            buffered = omega (arith, v.buffered ∙ ap (λ c. r + buffer_bytes c) e);
          } in
          let ok' : IsRegular st' = collecting-IsRegular st' s n in
          option_cases (Proceeds h r flows) p.1
            (λ _.
              if_cases (Proceeds h r flows) (over_reassembly_limit cfg w'.reassembly_bytes)
                (λ _. (fail_open-Settled ad w' st' v' (λ _. ok')).0) (λ _. (v', ok')))
            (λ x _. (fail_open-Settled ad w' st' v' (λ _. ok')).0)

  pub hold-Proceeds :
      (cfg : Config) (w : Worker) (st : FlowState) (pkt : Packet) (now : ℕ)
      → Charged h r flows w st
      → st.state ≡ state_collecting
      → Proceeds h r flows (hold ad cfg w st pkt now)
  unfolding hold
  hold-Proceeds cfg w st pkt now v s =
      let st' = record st { held_packets = st.held_packets ++ pkt ∷ [] } in
      let w' = record w { held_bytes = w.held_bytes + length pkt.bytes } in
      let v' : Charged h r flows w' st' = record {
        table = v.table;
        held = omega (
          arith,
          v.held,
          sum_of-append (λ (p : Packet). length p.bytes) st.held_packets (pkt ∷ []),
        );
        buffered = v.buffered;
      } in
      let n : 1 ≤ length st'.held_packets =
        omega (arith, length-append st.held_packets (pkt ∷ [])) in
      let given_up = (fail_open-Settled ad w' st' v' (λ _. collecting-IsRegular st' s n)).0 in
      if_cases (Proceeds h r flows) (over_held_limit cfg w pkt)
        (λ _. (fail_open_then_send-Settled w st pkt v (collecting-IsRegular st s)).0)
        λ _.
          if_cases (Proceeds h r flows)
            (not (ltb_ℤ (pos (length st'.held_packets)) cfg.max_held_packets)) (λ _. given_up)
            λ _.
              if_cases (Proceeds h r flows)
                (ltb_ℤ cfg.collect_timeout (sub_ℕ now st'.collect_start)) (λ _. given_up)
                (λ _. push_payload-Proceeds cfg w' st' pkt v' s n)

  try_split_immediate-Settled :
      (cfg : Config) (w : Worker) (st : FlowState)
      → Charged h r flows w st
      → IsRegular st
      → Settled h r flows (try_split_immediate ad cfg w st)
  unfolding try_split_immediate
  try_split_immediate-Settled cfg w st v ok =
      if_cases (Settled h r flows) (st.first_payload_len == 0) (λ _. (v, ok))
        λ _.
          option_cases (Settled h r flows) st.reassembler
            (λ _. (fail_open-Settled ad w st v (λ _. ok)).0)
            λ b _.
              if_cases (Settled h r flows) (ltb (length b.contig) st.first_payload_len)
                (λ _. (v, ok)) (λ _. inject_window-Settled ad cfg w st b st.first_payload_len v ok)

  on_hello-Settled :
      (cfg : Config) (w : Worker) (st : FlowState) (b : Buffer) (hello : ℕ × Result)
      → Charged h r flows w st
      → IsRegular st
      → Settled h r flows (on_hello ad cfg w st b hello)
  unfolding on_hello
  on_hello-Settled cfg w st b (len, need_more) v ok = (v, ok)
  on_hello-Settled cfg w st b (len, mismatch) v ok = (fail_open-Settled ad w st v (λ _. ok)).0
  on_hello-Settled cfg w st b (len, match) v ok =
      if_cases (Settled h r flows) (ltb_ℤ cfg.max_buffer_bytes (pos (5 + len)))
        (λ _. (fail_open-Settled ad w st v (λ _. ok)).0)
        λ _.
          if_cases (Settled h r flows) (ltb (length b.contig) (5 + len)) (λ _. (v, ok))
            (λ _. inject_window-Settled ad cfg w st b (5 + len) v ok)

  try_split_tls_hello-Settled :
      (cfg : Config) (w : Worker) (st : FlowState)
      → Charged h r flows w st
      → IsRegular st
      → Settled h r flows (try_split_tls_hello ad cfg w st)
  unfolding try_split_tls_hello
  try_split_tls_hello-Settled cfg w st v ok =
      option_cases (Settled h r flows) st.reassembler
        (λ _. (fail_open-Settled ad w st v (λ _. ok)).0)
        (λ b _. on_hello-Settled cfg w st b (detect_client_hello_record b.contig) v ok)

  pub try_split-Settled :
      (cfg : Config) (w : Worker) (st : FlowState)
      → Charged h r flows w st
      → IsRegular st
      → Settled h r flows (try_split ad cfg w st)
  unfolding try_split try_split_in
  try_split-Settled cfg w st v ok = go cfg.split_mode
    where
      go : (m : SplitMode) → Settled h r flows (try_split_in ad m cfg w st)
      go split_mode_immediate = try_split_immediate-Settled cfg w st v ok
      go split_mode_tls_hello = try_split_tls_hello-Settled cfg w st v ok
      go (other_mode n) = (v, ok)
