-- ===== src/Engine/Handle.antt =====
-- handlePacket of internal/engine/worker.go and the steps that it takes with a flow.
use gov_pass.Prelude.{
  ℕ, ◌+◌, ◌-◌, Bool, not, ◌&&◌, ◌||◌, Option, none, some, [], ◌∷◌, ◌++◌, ltb, ◌==◌, if◌then◌else◌,
  length, is_empty,
}
use gov_pass.Prelude.Int.{pos, sub_ℕ, ltb_ℤ, is_pos, to_u32}
use gov_pass.Packet.{Packet, payload, has_flag, tcp_flag_fin, tcp_flag_syn, tcp_flag_rst}
use gov_pass.Reassembly.{Buffer, new_buffer, push}
use gov_pass.Tls.{Result, detect_client_hello_record, need_more, mismatch, match}
use gov_pass.Flow.{
  Key, FlowState, key_from_meta, state_collecting, is_state_new, is_state_collecting, is_state_done,
  table_get, table_set, table_delete, table_len, get_or_create,
}
use gov_pass.Engine.Config.{
  Config, SplitMode, split_mode_immediate, split_mode_tls_hello, other_mode,
}
use gov_pass.Engine.Worker.{Worker, Adapter, Error, config_nil, Outcome, send, fail_open}
use gov_pass.Engine.Inject.{inject_window}

-- The state's first payload packet opens the collection; a later one only becomes the template.
unfoldable pub start_collecting : Config → FlowState → Packet → ℕ → FlowState
start_collecting cfg st pkt now =
    if is_state_new st.state
    then record st {
      base_seq = pkt.meta.seq;
      reassembler = some (new_buffer pkt.meta.seq (to_u32 cfg.max_buffer_bytes));
      state = state_collecting;
      collect_start = now;
      first_payload_len = length (payload pkt);
      template = some pkt;
    }
    else record st { template = some pkt }

-- `cfg.MaxHeldBytesPerWorker > 0 && w.heldBytes + len(pkt.Data) > limit`
unfoldable pub over_held_limit : Config → Worker → Packet → Bool
over_held_limit cfg w pkt =
    is_pos cfg.max_held_bytes_per_worker
    && ltb_ℤ cfg.max_held_bytes_per_worker (pos (w.held_bytes + length pkt.bytes))

unfoldable pub over_reassembly_limit : Config → ℕ → Bool
over_reassembly_limit cfg bytes =
    is_pos cfg.max_reassembly_bytes_per_worker
    && ltb_ℤ cfg.max_reassembly_bytes_per_worker (pos bytes)

-- A step that ends handlePacket, or that lets it go on.
pub data Progress : Type 0 where
  ended : Outcome → Progress
  going : Worker → FlowState → Progress

module _ (ad : Adapter) where
  -- Send the packet itself, with the flow's state as it is.
  abbrev pub send_through : Worker → FlowState → Packet → Outcome
  send_through w st pkt = let r = send ad w pkt in (r.0, st, r.1)

  -- `if err := w.failOpen(...); err != nil { return err }; return w.adapter.Send(ctx, pkt)`
  unfoldable pub fail_open_then_send : Worker → FlowState → Packet → Outcome
  fail_open_then_send w st pkt =
      let r = fail_open ad w st in elim r.2 [ some e ↦ r | none ↦ send_through r.0 r.1 pkt ]

  -- The held packet's payload goes into the flow's reassembler, and the worker's counter follows.
  unfoldable pub push_payload : Config → Worker → FlowState → Packet → Progress
  push_payload cfg w st pkt = elim st.reassembler [
    | none ↦ ended (fail_open ad w st)
    | some b ↦
        let r = push b pkt.meta.seq (payload pkt) in
        let w' = record w {
          reassembly_bytes = w.reassembly_bytes + r.0.total_bytes - b.total_bytes;
        } in
        let st' = record st { reassembler = some r.0 } in
        elim r.1 [
          | some e ↦ ended (fail_open ad w' st')
          | none ↦
              if over_reassembly_limit cfg w'.reassembly_bytes
              then ended (fail_open ad w' st')
              else going w' st'
        ]
  ]

  -- From the check of the held bytes to that of the reassembly bytes.
  unfoldable pub hold : Config → Worker → FlowState → Packet → ℕ → Progress
  hold cfg w st pkt now =
      if over_held_limit cfg w pkt
      then ended (fail_open_then_send w st pkt)
      else let st' = record st { held_packets = st.held_packets ++ pkt ∷ [] } in
        let w' = record w { held_bytes = w.held_bytes + length pkt.bytes } in
        if not (ltb_ℤ (pos (length st'.held_packets)) cfg.max_held_packets)
        then ended (fail_open ad w' st')
        else if ltb_ℤ cfg.collect_timeout (sub_ℕ now st'.collect_start)
        then ended (fail_open ad w' st')
        else push_payload cfg w' st' pkt

  -- trySplitImmediate
  unfoldable pub try_split_immediate : Config → Worker → FlowState → Outcome
  try_split_immediate cfg w st =
      if st.first_payload_len == 0 then (w, st, none) else elim st.reassembler [
        | none ↦ fail_open ad w st
        | some b ↦
            if ltb (length b.contig) st.first_payload_len
            then (w, st, none)
            else inject_window ad cfg w st b st.first_payload_len
      ]

  -- trySplitTLSHello with the record's length and the verdict of the TLS test.
  unfoldable pub on_hello : Config → Worker → FlowState → Buffer → ℕ × Result → Outcome
  on_hello cfg w st b (record_len, need_more) = (w, st, none)
  on_hello cfg w st b (record_len, mismatch) = fail_open ad w st
  on_hello cfg w st b (record_len, match) =
      if ltb_ℤ cfg.max_buffer_bytes (pos (5 + record_len))
      then fail_open ad w st
      else if ltb (length b.contig) (5 + record_len)
      then (w, st, none)
      else inject_window ad cfg w st b (5 + record_len)

  -- trySplitTLSHello
  unfoldable pub try_split_tls_hello : Config → Worker → FlowState → Outcome
  try_split_tls_hello cfg w st = elim st.reassembler [
    | none ↦ fail_open ad w st
    | some b ↦ on_hello cfg w st b (detect_client_hello_record b.contig)
  ]

  -- The two tests of cfg.SplitMode at the end of handlePacket; any other mode does nothing.
  unfoldable pub try_split_in : SplitMode → Config → Worker → FlowState → Outcome
  try_split_in split_mode_immediate cfg w st = try_split_immediate cfg w st
  try_split_in split_mode_tls_hello cfg w st = try_split_tls_hello cfg w st
  try_split_in (other_mode n) cfg w st = (w, st, none)

  unfoldable pub try_split : Config → Worker → FlowState → Outcome
  try_split cfg w st = try_split_in cfg.split_mode cfg w st

-- The flow's state is written back through its pointer; or, without an error, the flow is deleted.
abbrev pub written : Key → Outcome → Worker × Option Error
written key (w, st, e) = (record w { flows = table_set w.flows key st }, e)

abbrev pub deleted : Key → Outcome → Worker × Option Error
deleted key (w, st, some e) = written key (w, st, some e)
deleted key (w, st, none) = (record w { flows = table_delete w.flows key }, none)

module _ (ad : Adapter) where
  -- The checks of SYN, RST and FIN behind the reassembly, for a flow that was there before.
  unfoldable pub finish_existing :
      Config → Worker → Key → FlowState → Packet → Worker × Option Error
  finish_existing cfg w key st pkt =
      if has_flag pkt tcp_flag_syn
      then written key (fail_open ad w st)
      else if has_flag pkt tcp_flag_rst
      then deleted key (fail_open ad w st)
      else if has_flag pkt tcp_flag_fin
      then deleted key (fail_open ad w st)
      else written key (try_split ad cfg w st)

  -- The same for a flow that this packet has begun.
  unfoldable pub finish_new : Config → Worker → Key → FlowState → Packet → Worker × Option Error
  finish_new cfg w key st pkt =
      if has_flag pkt tcp_flag_syn || has_flag pkt tcp_flag_rst
      then (if has_flag pkt tcp_flag_rst
          then deleted key (fail_open ad w st)
          else written key (fail_open ad w st))
      else if has_flag pkt tcp_flag_fin
      then deleted key (fail_open ad w st)
      else written key (try_split ad cfg w st)

  -- Behind the checks of the budgets: what has ended is written back, and what goes on is finished.
  unfoldable pub settle_existing : Config → Key → Packet → Progress → Worker × Option Error
  settle_existing cfg key pkt (ended o) = written key o
  settle_existing cfg key pkt (going w st) = finish_existing cfg w key st pkt

  unfoldable pub settle_new : Config → Key → Packet → Progress → Worker × Option Error
  settle_new cfg key pkt (ended o) = written key o
  settle_new cfg key pkt (going w st) = finish_new cfg w key st pkt

  -- A FIN or RST without payload: the held packets, then the packet, and the flow is forgotten.
  unfoldable pub tear_down : Worker → Key → FlowState → Packet → Worker × Option Error
  tear_down w key st pkt = deleted key (
      if is_state_collecting st.state
      then fail_open_then_send ad w st pkt
      else send_through ad w st pkt)

  -- A packet of a flow in the table.
  unfoldable pub handle_existing :
      Config → Worker → Key → FlowState → Packet → ℕ → Worker × Option Error
  handle_existing cfg w key old pkt now =
      let st = record old { last_active = now } in
      let bare = is_empty (payload pkt) in
      if bare && (has_flag pkt tcp_flag_rst || has_flag pkt tcp_flag_fin)
      then tear_down w key st pkt
      else if is_state_done st.state
      then written key (send_through ad w st pkt)
      else if bare
      then written key (send_through ad w st pkt)
      else settle_existing cfg key pkt (hold ad cfg w (start_collecting cfg st pkt now) pkt now)

  -- A packet that begins a flow, past the budget checks.
  unfoldable pub begin_flow : Config → Worker → Key → Packet → ℕ → Worker × Option Error
  begin_flow cfg w key pkt now =
      let (flows, st) = get_or_create w.flows key now in
      let w' = record w { flows = flows } in
      let st' = start_collecting cfg (record st { last_active = now }) pkt now in
      settle_new cfg key pkt (hold ad cfg w' st' pkt now)

  -- A packet of no flow in the table: without payload, or over a budget, it goes straight out.
  unfoldable pub handle_new : Config → Worker → Key → Packet → ℕ → Worker × Option Error
  handle_new cfg w key pkt now =
      if is_empty (payload pkt)
      then send ad w pkt
      else if is_pos cfg.max_flows_per_worker
          && not (ltb_ℤ (pos (table_len w.flows)) cfg.max_flows_per_worker)
      then send ad w pkt
      else if over_held_limit cfg w pkt
      then send ad w pkt
      else if over_reassembly_limit cfg (w.reassembly_bytes + length (payload pkt))
      then send ad w pkt
      else begin_flow cfg w key pkt now

  -- handlePacket. The configuration is read once: a Reload in the middle of a packet is left out.
  unfoldable pub handle_packet : Worker → Packet → ℕ → Worker × Option Error
  handle_packet w pkt now = elim w.cfg [
    | none ↦ (w, some config_nil)
    | some cfg ↦
        let key = key_from_meta pkt.meta in
        elim (table_get w.flows key) [
          | some st ↦ handle_existing cfg w key st pkt now
          | none ↦ handle_new cfg w key pkt now
        ]
  ]
