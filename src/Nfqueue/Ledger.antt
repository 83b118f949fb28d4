-- ===== src/Nfqueue/Ledger.antt =====
-- Runs of internal/adapter/nfqueue_linux.go, and the ledger of its captured packets: each waits, is
-- with the engine, or has its verdict.
use gov_pass.Prelude.{
  ℕ, ◌+◌, ◌≡◌, true, false, Option, some, List, [], ◌∷◌, ◌==◌, if◌then◌else◌, is_empty,
}
use gov_pass.Packet.{Packet, Address, source_captured, source_injected}
use gov_pass.Nfqueue.{
  Call, verdict, send_to, NfError, Nfqueue, new_nfqueue, send, drop_packet, on_packet, flush,
}

abbrev pub hit : ℕ → ℕ → ℕ
hit id j = if id == j then 1 else 0

-- How often an id stands in a list, how many verdicts it was given, how many such packets wait.
unfoldable pub tally : ℕ → List ℕ → ℕ
tally id [] = 0
tally id (j ∷ js) = hit id j + tally id js

unfoldable pub ruled : ℕ → List Call → ℕ
ruled id [] = 0
ruled id (verdict j v ∷ cs) = hit id j + ruled id cs
ruled id (send_to dst bytes ∷ cs) = ruled id cs

unfoldable pub waiting : ℕ → List Packet → ℕ
waiting id [] = 0
waiting id (p ∷ ps) = hit id p.nfq_id + waiting id ps

-- What the adapter can come to: `arrived` are the ids of the messages that callbacks were given,
-- `delivered` those that Recv gave to the engine, and `returned` those of the captured packets that
-- the engine sent or dropped. A callback may also run between the steps of the engine.
pub data Reaches (answer : List Call → Call → Option NfError)
    : Nfqueue → List ℕ → List ℕ → List ℕ → Type 0 where
  opened : Reaches answer new_nfqueue [] [] []
  arrives :
      {q : Nfqueue} {arrived delivered returned : List ℕ}
      → Reaches answer q arrived delivered returned
      → (addr : Address) (bytes : List ℕ) (id : ℕ)
      → Reaches answer
          (on_packet answer q addr (some bytes) (some id))
          (id ∷ arrived)
          delivered
          returned
  receives :
      {q : Nfqueue} {arrived delivered returned : List ℕ}
      → Reaches answer q arrived delivered returned
      → (p : Packet) (rest : List Packet) → q.recv ≡ p ∷ rest
      → Reaches answer (record q { recv = rest }) arrived (p.nfq_id ∷ delivered) returned
  sends :
      {q : Nfqueue} {arrived delivered returned : List ℕ}
      → Reaches answer q arrived delivered returned
      → (p : Packet) → p.source ≡ source_captured
      → is_empty p.bytes ≡ false
      → Reaches answer (send answer q p).0 arrived delivered (p.nfq_id ∷ returned)
  injects :
      {q : Nfqueue} {arrived delivered returned : List ℕ}
      → Reaches answer q arrived delivered returned
      → (p : Packet) → p.source ≡ source_injected
      → Reaches answer (send answer q p).0 arrived delivered returned
  drops :
      {q : Nfqueue} {arrived delivered returned : List ℕ}
      → Reaches answer q arrived delivered returned
      → (p : Packet) → p.source ≡ source_captured
      → Reaches answer (drop_packet answer q p).0 arrived delivered (p.nfq_id ∷ returned)
  flushes :
      {q : Nfqueue} {arrived delivered returned : List ℕ}
      → Reaches answer q arrived delivered returned
      → (waited : Option NfError)
      → Reaches answer (flush answer q waited).0 arrived delivered returned

-- The ids that came in, and those that came back, are the verdicts with what waits and what is out.
pub record Balanced (q : Nfqueue) (arrived delivered returned : List ℕ) : Type 0 where
  pub queue_is_open : q.queue_open ≡ true
  pub balance :
      (id : ℕ)
      → tally id arrived + tally id returned
        ≡ ruled id q.calls + waiting id q.recv + tally id delivered
