-- ===== src/Engine/Accounting/Window.antt =====
-- The counters through injectWindow of internal/engine/worker.go and what it calls.
use gov_pass.Prelude.{
  ℕ, ◌+◌, refl, ap, inl, inr, Option, List, [], ◌∷◌, length, take, drop, if_cases, if◌then◌else◌,
  option_cases, ltb, is_empty,
}
use gov_pass.Packet.{Packet, payload}
use gov_pass.Packet.Fields.{ipv4_id}
use gov_pass.Reassembly.{Buffer, add32, u32}
use gov_pass.Flow.{FlowState, Table}
use gov_pass.Engine.Config.{Config}
use gov_pass.Engine.Segments.{build_packet, clamp_segment_payload, split_first}
use gov_pass.Engine.Worker.{Worker, Adapter, Error, clear_collecting_state, tick}
use gov_pass.Engine.Release.{Logs, Logs-refl, Logs-trans, send-Logs, drop_held-Ran}
use gov_pass.Engine.Accounting.{
  Charged, IsRegular, Settled, Charged-Logs, Charged-clear, fail_open-Settled,
}
use gov_pass.Engine.Inject.{
  next_id, can_trim_remainder, inject, send_segments, reinject_trimmed, trim_of, send_remainder,
  mark_injected, finish_injected, inject_segments, inject_window,
}

abbrev Reached : Worker → Worker × Option Error → Type 0
Reached w q = Logs w q.0

abbrev Reached3 : Worker → Worker × ℕ × Option Error → Type 0
Reached3 w q = Logs w q.0

module _ (ad : Adapter) where
  inject-Logs :
      (w : Worker) (tpl : Packet) (seq : ℕ) (segment : List ℕ) (flags ipid : ℕ)
      → Logs w (inject ad w tpl seq segment flags ipid).0
  unfolding inject
  inject-Logs w tpl seq segment flags ipid =
      option_cases (Reached w) (build_packet tpl seq segment flags ipid) (λ _. Logs-refl w)
        λ built _.
          option_cases (Reached w) (ad.calc_checksums w.clock built).1
            (λ _.
              Logs-trans w (tick w) _ (w.clock + 1, w.log, refl)
                (send-Logs ad (tick w) (ad.calc_checksums w.clock built).0))
            (λ e _. (w.clock + 1, w.log, refl))

  send_segments-Logs :
      (w : Worker) (tpl : Packet) (base offset : ℕ) (segs : List (List ℕ)) (flags last ipid : ℕ)
      → Logs w (send_segments ad w tpl base offset segs flags last ipid).0
  unfolding send_segments
  send_segments-Logs w tpl base offset [] flags last ipid = Logs-refl w
  send_segments-Logs w tpl base offset (s ∷ rest) flags last ipid =
      let seg_flags = if is_empty rest then last else flags in
      let r = inject ad w tpl (add32 base (u32 offset)) s seg_flags ipid in
      let there = inject-Logs w tpl (add32 base (u32 offset)) s seg_flags ipid in
      if_cases (Reached3 w) (is_empty s)
        (λ _. send_segments-Logs w tpl base offset rest flags last ipid)
        λ _.
          option_cases (Reached3 w) r.1
            (λ _.
              Logs-trans w r.0 _ there (
                send_segments-Logs r.0 tpl base (offset + length s) rest flags last (next_id ipid)))
            (λ e _. there)

  reinject_trimmed-Logs :
      (w : Worker) (base window : ℕ) (ps : List Packet) (ipid : ℕ)
      → Logs w (reinject_trimmed ad w base window ps ipid).0
  unfolding reinject_trimmed
  reinject_trimmed-Logs w base window [] ipid = Logs-refl w
  reinject_trimmed-Logs w base window (p ∷ rest) ipid =
      option_cases (Reached w) (trim_of base window p)
        (λ _. reinject_trimmed-Logs w base window rest ipid)
        λ trim _.
          let r = inject ad w p (add32 p.meta.seq trim) (drop trim (payload p)) p.meta.flags ipid in
          let there =
            inject-Logs w p (add32 p.meta.seq trim) (drop trim (payload p)) p.meta.flags ipid in
          option_cases (Reached w) r.1
            (λ _.
              Logs-trans w r.0 _ there (reinject_trimmed-Logs r.0 base window rest (next_id ipid)))
            (λ e _. there)

  send_remainder-Logs :
      (w : Worker) (st : FlowState) (b : Buffer) (tpl : Packet) (window max ipid : ℕ)
      → Logs w (send_remainder ad w st b tpl window max ipid).0
  unfolding send_remainder
  send_remainder-Logs w st b tpl window max ipid =
      if_cases (Reached w) (is_empty (drop window b.contig)) (λ _. Logs-refl w)
        λ _.
          if_cases (Reached w) (can_trim_remainder b)
            (λ _. reinject_trimmed-Logs w st.base_seq (u32 window) st.held_packets ipid)
            (λ _. send_segments-Logs w tpl _ 0 _ _ _ ipid)

module _ (ad : Adapter) {h r : ℕ} {flows : Table} where
  finish_injected-Settled :
      (w : Worker) (st : FlowState)
      → Charged h r flows w st
      → IsRegular st
      → Settled h r flows (finish_injected ad w st)
  unfolding finish_injected mark_injected clear_collecting_state
  finish_injected-Settled w st v ok = elim (drop_held-Ran ad w st) [
    | inl (c, e) ↦
        rw (ap (mark_injected st) e)
          (Charged-clear _ st _ (Charged-Logs w _ st (c, _, refl) v) refl refl, (refl, refl))
    | inr (c, k, x, _, e) ↦ rw (ap (mark_injected st) e) (Charged-Logs w _ st (c, _, refl) v, ok)
  ]

  inject_segments-Settled :
      (w : Worker) (st : FlowState) (b : Buffer) (tpl : Packet) (window max : ℕ)
      (segs : List (List ℕ))
      → Charged h r flows w st
      → IsRegular st
      → Settled h r flows (inject_segments ad w st b tpl window max segs)
  unfolding inject_segments
  inject_segments-Settled w st b tpl window max segs v ok =
      let split = send_segments ad w tpl st.base_seq 0 segs _ _ (ipv4_id tpl.bytes) in
      let sent = send_segments-Logs ad w tpl st.base_seq 0 segs _ _ (ipv4_id tpl.bytes) in
      let v' = Charged-Logs w split.0 st sent v in
      option_cases (Settled h r flows) split.2
        (λ _.
          let rem = send_remainder ad split.0 st b tpl window max split.1 in
          let v'' =
            Charged-Logs split.0 rem.0 st
              (send_remainder-Logs ad split.0 st b tpl window max split.1) v' in
          option_cases (Settled h r flows) rem.1 (λ _. finish_injected-Settled rem.0 st v'' ok)
            (λ e _. (fail_open-Settled ad rem.0 st v'' (λ _. ok)).0))
        (λ e _. (fail_open-Settled ad split.0 st v' (λ _. ok)).0)

  -- A window that was injected, or given up, leaves the flow regular and the counters right.
  pub inject_window-Settled :
      (cfg : Config) (w : Worker) (st : FlowState) (b : Buffer) (window : ℕ)
      → Charged h r flows w st
      → IsRegular st
      → Settled h r flows (inject_window ad cfg w st b window)
  unfolding inject_window
  inject_window-Settled cfg w st b window v ok =
      let given_up = (fail_open-Settled ad w st v (λ _. ok)).0 in
      if_cases (Settled h r flows) (ltb window 1) (λ _. given_up)
        λ _.
          if_cases (Settled h r flows) (ltb (length b.contig) window) (λ _. (v, ok))
            λ _.
              option_cases (Settled h r flows) st.template (λ _. given_up)
                λ tpl _.
                  let max_payload =
                    clamp_segment_payload (length (payload tpl))
                      (tpl.meta.ip_header_len + tpl.meta.tcp_header_len) cfg.max_segment_payload in
                  let segs = split_first (take window b.contig) cfg.split_chunk max_payload in
                  if_cases (Settled h r flows) (ltb max_payload 1) (λ _. given_up)
                    λ _.
                      if_cases (Settled h r flows) (ltb (length segs) 2) (λ _. given_up)
                        λ _. inject_segments-Settled w st b tpl window max_payload segs v ok
