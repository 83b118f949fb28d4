-- ===== src/Engine/Inject.antt =====
-- Sending a collected window in pieces: sendSegments, reinjectTrimmed and injectWindow of
-- internal/engine/worker.go.
use gov_pass.Prelude.{
  ℕ, ◌+◌, ◌-◌, ◌%◌, ◌^◌, Bool, true, not, ◌&&◌, Option, none, some, List, [], ◌∷◌, ltb, leb,
  if◌then◌else◌, length, take, drop, is_empty, bit_and,
}
use gov_pass.Packet.{Packet, payload, tcp_flag_psh, tcp_flag_fin}
use gov_pass.Packet.Fields.{ipv4_id}
use gov_pass.Reassembly.{Buffer, add32, sub32, u32}
use gov_pass.Flow.{FlowState, state_injected}
use gov_pass.Engine.Config.{Config}
use gov_pass.Engine.Segments.{build_packet, split_first, chunk_payload, clamp_segment_payload}
use gov_pass.Engine.Worker.{
  Worker, Adapter, Error, invalid_header, Outcome, send, fail_open, drop_held,
  clear_collecting_state, tick,
}

-- `*ipid++`
abbrev pub next_id : ℕ → ℕ
next_id ipid = (ipid + 1) % 2 ^ 16

-- `flags &^ (PSH | FIN)`
abbrev pub without_psh_fin : ℕ → ℕ
without_psh_fin flags = flags - bit_and flags (tcp_flag_psh + tcp_flag_fin)

module _ (ad : Adapter) where
  -- buildPacket, CalcChecksums and Send, with the error checks between them.
  unfoldable pub inject : Worker → Packet → ℕ → List ℕ → ℕ → ℕ → Worker × Option Error
  inject w tpl seq segment flags ipid = elim (build_packet tpl seq segment flags ipid) [
    | none ↦ (w, some invalid_header)
    | some built ↦
        let summed = ad.calc_checksums w.clock built in
        elim summed.1 [ some e ↦ (tick w, some e) | none ↦ send ad (tick w) summed.0 ]
  ]

  -- The loop of sendSegments from one segment on, at its offset; the counter is returned for the
  -- packets that follow.
  unfoldable pub send_segments :
      Worker → Packet → ℕ → ℕ → List (List ℕ) → ℕ → ℕ → ℕ → Worker × ℕ × Option Error
  send_segments w tpl base_seq offset [] flags last_flags ipid = (w, ipid, none)
  send_segments w tpl base_seq offset (segment ∷ rest) flags last_flags ipid =
      let skipped = send_segments w tpl base_seq offset rest flags last_flags ipid in
      let seg_flags = if is_empty rest then last_flags else flags in
      let r = inject w tpl (add32 base_seq (u32 offset)) segment seg_flags ipid in
      let sent = elim r.1 as (λ _. Worker × ℕ × Option Error) [
        | some e ↦ (r.0, ipid, some e)
        | none ↦
            send_segments r.0 tpl base_seq (offset + length segment) rest flags last_flags
              (next_id ipid)
      ] in
      if is_empty segment then skipped else sent

-- canTrimRemainder
unfoldable pub can_trim_remainder : Buffer → Bool
can_trim_remainder b = not b.had_out_of_order && not b.had_overlap

-- How much of a held packet lies inside the window; `none` where the loop goes on to the next.
unfoldable pub trim_of : ℕ → ℕ → Packet → Option ℕ
trim_of base_seq window_len pkt =
    let len = u32 (length (payload pkt)) in
    let offset = sub32 pkt.meta.seq base_seq in
    let trim = if ltb offset window_len then sub32 window_len offset else 0 in
    if is_empty (payload pkt)
    then none
    else if leb (add32 offset len) window_len
    then none
    else if leb len trim
    then none
    else some trim

-- The end of injectWindow, behind dropHeld: on an error nothing is cleared.
unfoldable pub mark_injected : FlowState → Worker × Option Error → Outcome
mark_injected st (w, some e) = (w, st, some e)
mark_injected st (w, none) =
    let c = clear_collecting_state w (record st { state = state_injected }) in
    (c.0, record c.1 { processed = true }, none)

module _ (ad : Adapter) where
  -- reinjectTrimmed
  unfoldable pub reinject_trimmed : Worker → ℕ → ℕ → List Packet → ℕ → Worker × Option Error
  reinject_trimmed w base_seq window_len [] ipid = (w, none)
  reinject_trimmed w base_seq window_len (pkt ∷ rest) ipid =
      elim (trim_of base_seq window_len pkt) [
        | none ↦ reinject_trimmed w base_seq window_len rest ipid
        | some trim ↦
            let r =
              inject ad w pkt (add32 pkt.meta.seq trim) (drop trim (payload pkt)) pkt.meta.flags
                ipid in
            elim r.1 as (λ _. Worker × Option Error) [
              | some e ↦ (r.0, some e)
              | none ↦ reinject_trimmed r.0 base_seq window_len rest (next_id ipid)
            ]
      ]

  -- What follows the split of the window, behind `if len(remainder) > 0`.
  unfoldable pub send_remainder :
      Worker → FlowState → Buffer → Packet → ℕ → ℕ → ℕ → Worker × Option Error
  send_remainder w st buf tpl window_len max_payload ipid =
      let remainder = drop window_len buf.contig in
      let pieces =
        send_segments ad w tpl (add32 st.base_seq (u32 window_len)) 0
          (chunk_payload remainder max_payload) (without_psh_fin tpl.meta.flags) tpl.meta.flags
          ipid in
      if is_empty remainder
      then (w, none)
      else if can_trim_remainder buf
      then reinject_trimmed w st.base_seq (u32 window_len) st.held_packets ipid
      else (pieces.0, pieces.2)

  -- From `dropHeld` to the end of injectWindow.
  unfoldable pub finish_injected : Worker → FlowState → Outcome
  finish_injected w st = mark_injected st (drop_held ad w st)

  -- The segments of the window, and then the remainder; an error on the way fails open.
  unfoldable pub inject_segments :
      Worker → FlowState → Buffer → Packet → ℕ → ℕ → List (List ℕ) → Outcome
  inject_segments w st buf tpl window_len max_payload segments =
      let flags = tpl.meta.flags in
      let last_flags =
        if is_empty (drop window_len buf.contig) then flags else without_psh_fin flags in
      let split =
        send_segments ad w tpl st.base_seq 0 segments (without_psh_fin flags) last_flags
          (ipv4_id tpl.bytes) in
      elim split.2 [
        | some e ↦ fail_open ad split.0 st
        | none ↦
            let r = send_remainder split.0 st buf tpl window_len max_payload split.1 in
            elim r.1 [ some e ↦ fail_open ad r.0 st | none ↦ finish_injected r.0 st ]
      ]

  -- injectWindow, at the flow's reassembler, which the callers have found not to be nil.
  unfoldable pub inject_window : Config → Worker → FlowState → Buffer → ℕ → Outcome
  inject_window cfg w st buf window_len =
      if ltb window_len 1
      then fail_open ad w st
      else if ltb (length buf.contig) window_len
      then (w, st, none)
      else elim st.template [
        | none ↦ fail_open ad w st
        | some tpl ↦
            let max_payload =
              clamp_segment_payload (length (payload tpl))
                (tpl.meta.ip_header_len + tpl.meta.tcp_header_len) cfg.max_segment_payload in
            let segments = split_first (take window_len buf.contig) cfg.split_chunk max_payload in
            if ltb max_payload 1
            then fail_open ad w st
            else if ltb (length segments) 2
            then fail_open ad w st
            else inject_segments w st buf tpl window_len max_payload segments
      ]
