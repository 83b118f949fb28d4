-- ===== src/Engine/Release.antt =====
-- What the worker's loops over the adapter do: failOpen and dropHeld of internal/engine/worker.go.
use mathlib.Core.List.{append-nil, append_assoc}
use gov_pass.Prelude.{
  ℕ, suc, ◌+◌, ◌-◌, ◌<◌, ◌≡◌, refl, sym, ap, ◌∙◌, ◌⊎◌, inl, inr, Option, none, some, List, [], ◌∷◌,
  ◌++◌, map, arith, length, take, Option-cases,
}
use gov_pass.Packet.{Packet}
use gov_pass.Flow.{FlowState, state_pass_through}
use gov_pass.Engine.Worker.{
  Worker, Adapter, Error, Event, sent, dropped, Outcome, send, drop_packet, until_error,
  until_error-ok, until_error-failed, fail_open, drop_held, pass_flow, clear_collecting_state, tick,
  record_event, data_bytes,
}

-- Only the clock and the log differ.
abbrev pub Logs : Worker → Worker → Type 0
Logs w w' = (c : ℕ) × (l : List Event) × (w' ≡ record w { clock = c; log = l })

pub Logs-refl : (w : Worker) → Logs w w
Logs-refl w = (w.clock, w.log, refl)

pub Logs-trans : (u v w : Worker) → Logs u v → Logs v w → Logs u w
Logs-trans u v w (c, l, e) (c', l', e') =
    (c', l', e' ∙ ap (λ (x : Worker). record x { clock = c'; log = l' }) e)

-- A loop that appends `mark p` for each packet until a call fails: all are marked and there is no
-- error, or those before the one that failed are.
abbrev pub Ran : (Packet → Event) → Worker → List Packet → Worker × Option Error → Type 0
Ran mark w ps r =
    ((c : ℕ) × (r ≡ (record w { clock = c; log = w.log ++ map mark ps }, none)))
    ⊎ ((c : ℕ) × (k : ℕ) × (e : Error) × (k < length ps)
        × (r ≡ (record w { clock = c; log = w.log ++ map mark (take k ps) }, some e)))

-- A call that appends one event or fails.
abbrev pub Marks : (Packet → Event) → (Worker → Packet → Worker × Option Error) → Type 0
Marks mark f =
    (w : Worker) (p : Packet)
    → (f w p ≡ (record_event w (mark p), none)) ⊎ ((e : Error) × (f w p ≡ (tick w, some e)))

Ran-cons :
    (mark : Packet → Event) (w : Worker) (p : Packet) (ps : List Packet) {r : Worker × Option Error}
    → Ran mark (record_event w (mark p)) ps r
    → Ran mark w (p ∷ ps) r
Ran-cons mark w p ps (inl (c, e)) = inl (
  c,
  e
      ∙ ap (λ l. (record w { clock = c; log = l }, none))
          (append_assoc w.log (mark p ∷ []) (map mark ps)),
)
Ran-cons mark w p ps (inr (c, k, x, h, e)) = inr (
  c,
  suc k,
  x,
  omega arith,
  e
      ∙ ap (λ l. (record w { clock = c; log = l }, some x))
          (append_assoc w.log (mark p ∷ []) (map mark (take k ps))),
)

until_error-Ran :
    (mark : Packet → Event) (f : Worker → Packet → Worker × Option Error)
    → Marks mark f
    → (ps : List Packet) (w : Worker) → Ran mark w ps (until_error f w ps)
unfolding until_error
until_error-Ran mark f m [] w =
    inl (w.clock, ap (λ l. (record w { log = l }, none)) (sym (append-nil w.log)))
until_error-Ran mark f m (p ∷ ps) w = elim (m w p) [
  | inl ok ↦
      rw (until_error-ok f ps ok)
        (Ran-cons mark w p ps (until_error-Ran mark f m ps (record_event w (mark p))))
  | inr (e, failed) ↦ rw (until_error-failed f ps failed) (
      inr (
        w.clock + 1,
        0,
        e,
        omega arith,
        ap (λ l. (record w { clock = w.clock + 1; log = l }, some e)) (sym (append-nil w.log)),
      ))
]

module _ (ad : Adapter) where
  pub send-Marks : Marks sent (send ad)
  unfolding send
  send-Marks w p = elim (Option-cases (ad.send_result w.clock p)) [
    | inl e ↦ inl (ground arith)
    | inr (x, e) ↦ inr (x, ground arith)
  ]

  drop-Marks : Marks dropped (drop_packet ad)
  unfolding drop_packet
  drop-Marks w p = elim (Option-cases (ad.drop_result w.clock p)) [
    | inl e ↦ inl (ground arith)
    | inr (x, e) ↦ inr (x, ground arith)
  ]

  pub send-Ran : (w : Worker) (ps : List Packet) → Ran sent w ps (until_error (send ad) w ps)
  send-Ran w ps = until_error-Ran sent (send ad) send-Marks ps w

  -- dropHeld drops the held packets in order, up to the first call that fails.
  pub drop_held-Ran :
      (w : Worker) (st : FlowState) → Ran dropped w st.held_packets (drop_held ad w st)
  unfolding drop_held
  drop_held-Ran w st = until_error-Ran dropped (drop_packet ad) drop-Marks st.held_packets w

  -- One call of Send changes the worker in its clock and its log only.
  pub send-Logs : (w : Worker) (p : Packet) → Logs w (send ad w p).0
  send-Logs w p = elim (send-Marks w p) [
    | inl ok ↦ rw ok (w.clock + 1, w.log ++ sent p ∷ [], refl)
    | inr (e, failed) ↦ rw failed (w.clock + 1, w.log, refl)
  ]

-- failOpen, whole: all the held packets went out in order, as they came, the flow is passed through
-- and what it held, its packets' bytes and its buffer's, is taken off the two counters; or the
-- packets before the one that the adapter refused went out, and the flow and the counters are as they
-- were.
abbrev pub FailsOpen : Worker → FlowState → Outcome → Type 0
FailsOpen w st o =
    ((c : ℕ) × (o ≡ (
      record w {
        clock = c;
        log = w.log ++ map sent st.held_packets;
        held_bytes = w.held_bytes - data_bytes st.held_packets;
        reassembly_bytes = elim st.reassembler [
          | none ↦ w.reassembly_bytes
          | some b ↦ w.reassembly_bytes - b.total_bytes
        ];
      },
      record st {
        state = state_pass_through;
        held_packets = [];
        template = none;
        reassembler = none;
      },
      none,
    )))
    ⊎ ((c : ℕ) × (k : ℕ) × (e : Error) × (k < length st.held_packets)
        × (o ≡ (
          record w { clock = c; log = w.log ++ map sent (take k st.held_packets) },
          st,
          some e,
        )))

-- failOpen, for every adapter, worker and flow: it sends all the held packets in order, unchanged,
-- passes the flow through and takes the bytes of its packets and of its buffer off the counters; or
-- the adapter refuses a send, with those before it sent, after which the flow and the two counters
-- are as they were.
pub fail_open-FailsOpen :
    (ad : Adapter) (w : Worker) (st : FlowState) → FailsOpen w st (fail_open ad w st)
unfolding fail_open pass_flow clear_collecting_state
fail_open-FailsOpen ad w st = elim (send-Ran ad w st.held_packets) [
  | inl (c, e) ↦ inl (c, ap (pass_flow st) e)
  | inr (c, k, x, h, e) ↦ inr (c, k, x, h, ap (pass_flow st) e)
]
