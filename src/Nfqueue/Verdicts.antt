-- ===== src/Nfqueue/Verdicts.antt =====
-- Every operation of internal/adapter/nfqueue_linux.go keeps the ledger of captured packets.
use gov_pass.Prelude.{
  ℕ, ◌+◌, ◌≡◌, refl, ap, true, not, ◌||◌, Option, List, [], ◌∷◌, ◌++◌, ltb, arith, if_cases,
  option_cases, is_empty, length,
}
use gov_pass.Packet.{Packet, Address}
use gov_pass.Nfqueue.{
  Verdict, Call, verdict, send_to, NfError, Nfqueue, nf_accept, nf_drop, new_nfqueue, called,
  captured, set_verdict, inject, send, drop_packet, on_captured, on_packet, drain, flush,
}
use gov_pass.Nfqueue.Ledger.{
  hit, tally, ruled, waiting, Reaches, opened, arrives, receives, sends, injects, drops, flushes,
  Balanced,
}

ruled-append : (id : ℕ) (cs ds : List Call) → ruled id (cs ++ ds) ≡ ruled id cs + ruled id ds
unfolding ruled
ruled-append id [] ds = omega arith
ruled-append id (verdict j v ∷ cs) ds = omega (arith, ruled-append id cs ds)
ruled-append id (send_to dst bytes ∷ cs) ds = ruled-append id cs ds

waiting-append :
    (id : ℕ) (ps qs : List Packet) → waiting id (ps ++ qs) ≡ waiting id ps + waiting id qs
unfolding waiting
waiting-append id [] qs = omega arith
waiting-append id (p ∷ ps) qs = omega (arith, waiting-append id ps qs)

ruled-verdict :
    (id j : ℕ) (v : Verdict) (cs : List Call)
    → ruled id (cs ++ verdict j v ∷ []) ≡ ruled id cs + hit id j
unfolding ruled
ruled-verdict id j v cs = omega (arith, ruled-append id cs (verdict j v ∷ []))

module _ (answer : List Call → Call → Option NfError) where
  -- An open queue takes a verdict.
  set_verdict-called :
      (q : Nfqueue) (id : ℕ) (v : Verdict)
      → q.queue_open ≡ true
      → (set_verdict answer q id v).0 ≡ called q (verdict id v)
  unfolding set_verdict
  set_verdict-called q id v h = rw h refl

  -- A verdict for one more id that came in, and for one that came back.
  arrived-Balanced :
      {q : Nfqueue} {a d r : List ℕ} (id : ℕ) (v : Verdict)
      → Balanced q a d r
      → Balanced (set_verdict answer q id v).0 (id ∷ a) d r
  unfolding tally
  arrived-Balanced {q} id v b = rw (set_verdict-called q id v b.queue_is_open) (record {
    queue_is_open = b.queue_is_open;
    balance = λ i. omega (arith, b.balance i, ruled-verdict i id v q.calls);
  })

  returned-Balanced :
      {q : Nfqueue} {a d r : List ℕ} (id : ℕ) (v : Verdict)
      → Balanced q a d r
      → Balanced (set_verdict answer q id v).0 a d (id ∷ r)
  unfolding tally
  returned-Balanced {q} id v b = rw (set_verdict-called q id v b.queue_is_open) (record {
    queue_is_open = b.queue_is_open;
    balance = λ i. omega (arith, b.balance i, ruled-verdict i id v q.calls);
  })

  on_captured-Balanced :
      {q : Nfqueue} {a d r : List ℕ} (addr : Address) (bytes : List ℕ) (id : ℕ)
      → Balanced q a d r
      → Balanced (on_captured answer q addr bytes id) (id ∷ a) d r
  unfolding on_captured tally waiting
  on_captured-Balanced {q} {a} {d} {r} addr bytes id b =
      let ends : Nfqueue → Type 0 = λ o. Balanced o (id ∷ a) d r in
      if_cases ends (q.flushing || q.stopped) (λ _. arrived-Balanced id nf_accept b)
        λ _.
          if_cases ends (ltb (length q.recv) q.capacity)
            (λ _. record {
              queue_is_open = b.queue_is_open;
              balance = λ i.
                  omega (arith, b.balance i, waiting-append i q.recv (captured addr bytes id ∷ []));
            })
            (λ _. arrived-Balanced id nf_accept b)

  received-Balanced :
      {q : Nfqueue} {a d r : List ℕ} (p : Packet) (rest : List Packet)
      → q.recv ≡ p ∷ rest
      → Balanced q a d r
      → Balanced (record q { recv = rest }) a (p.nfq_id ∷ d) r
  unfolding tally waiting
  received-Balanced p rest e b = record {
    queue_is_open = b.queue_is_open;
    balance = λ i. omega (arith, b.balance i, ap (waiting i) e);
  }

  injected-Balanced :
      {q : Nfqueue} {a d r : List ℕ} (p : Packet)
      → Balanced q a d r
      → Balanced (inject answer q p).0 a d r
  unfolding inject ruled
  injected-Balanced {q} {a} {d} {r} p b =
      let ends : Nfqueue × Option NfError → Type 0 = λ o. Balanced o.0 a d r in
      if_cases ends (not q.raw_open) (λ _. b)
        λ _.
          if_cases ends (ltb (length p.bytes) 20) (λ _. b)
            λ _. record {
              queue_is_open = b.queue_is_open;
              balance = λ i. omega (arith, b.balance i, ruled-append i q.calls (send_to _ _ ∷ []));
            }

  -- The last loop of Flush, when `ps` are left of what waited.
  drain-Balanced :
      {a d r : List ℕ} (ps : List Packet) (q : Nfqueue)
      → Balanced (record q { recv = ps }) a d r
      → Balanced (drain answer q ps).0 a d r
  unfolding drain waiting
  drain-Balanced [] q b = b
  drain-Balanced (p ∷ ps) q b = drain-Balanced ps _ (
      rw (set_verdict-called q p.nfq_id nf_accept b.queue_is_open) (record {
        queue_is_open = b.queue_is_open;
        balance = λ i. omega (arith, b.balance i, ruled-verdict i p.nfq_id nf_accept q.calls);
      }))

  flush-Balanced :
      {q : Nfqueue} {a d r : List ℕ} (waited : Option NfError)
      → Balanced q a d r
      → Balanced (flush answer q waited).0 a d r
  unfolding flush
  flush-Balanced {q} {a} {d} {r} waited b =
      let closing = record q { flushing = true; stopped = true } in
      let ends : Nfqueue × List NfError → Type 0 = λ o. Balanced o.0 a d r in
      let still : Balanced closing a d r = record {
        queue_is_open = b.queue_is_open;
        balance = b.balance;
      } in
      if_cases ends (not q.queue_open) (λ _. b)
        λ _.
          option_cases ends waited (λ _. drain-Balanced closing.recv closing still) (λ _ _. still)

-- In every state that the adapter can come to, whatever its calls answer and in whatever order
-- callbacks, Recv, Send, Drop and Flush follow each other, the queue is open, and each id came in,
-- or back from the engine, as often as it was given a verdict, waits, or was given to the engine.
-- So once Flush has emptied `recv` and the engine has returned what it was given, every captured
-- packet has had its verdict, and only one.
pub Reaches-Balanced :
    (answer : List Call → Call → Option NfError) (q : Nfqueue) (arrived delivered returned : List ℕ)
    → Reaches answer q arrived delivered returned
    → Balanced q arrived delivered returned
unfolding new_nfqueue tally ruled waiting on_packet send drop_packet
Reaches-Balanced answer q a d r opened = record { queue_is_open = refl; balance = λ i. refl }
Reaches-Balanced answer q a d r (arrives s addr bytes id) =
    on_captured-Balanced answer addr bytes id (Reaches-Balanced answer _ _ _ _ s)
Reaches-Balanced answer q a d r (receives s p rest e) =
    received-Balanced answer p rest e (Reaches-Balanced answer _ _ _ _ s)
Reaches-Balanced answer q a d r (sends s p source whole) =
    rw whole
      (rw source (returned-Balanced answer p.nfq_id nf_accept (Reaches-Balanced answer _ _ _ _ s)))
Reaches-Balanced answer q a d r (injects s p source) =
    let b = Reaches-Balanced answer _ _ _ _ s in
    if_cases (λ (o : Nfqueue × Option NfError). Balanced o.0 a d r) (is_empty p.bytes) (λ _. b)
      (λ _. rw source (injected-Balanced answer p b))
Reaches-Balanced answer q a d r (drops s p source) =
    rw source (returned-Balanced answer p.nfq_id nf_drop (Reaches-Balanced answer _ _ _ _ s))
Reaches-Balanced answer q a d r (flushes s waited) =
    flush-Balanced answer waited (Reaches-Balanced answer _ _ _ _ s)
