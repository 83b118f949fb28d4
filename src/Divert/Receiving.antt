-- ===== src/Divert/Receiving.antt =====
-- The loop of Recv of internal/adapter/divert_freebsd.go: where the datagrams go that come in.
use mathlib.Core.Path.{subst}
use mathlib.Core.List.{append_assoc}
use gov_pass.Prelude.{
  ◌∙◌, ℕ, ◌≡◌, refl, false, Option, none, some, List, [], ◌∷◌, ◌++◌, option_cases, is_empty,
  if◌then◌else◌, ◌⊎◌, inl, inr, refused, refused-none, refused-some, RefusesOne,
}
use gov_pass.Packet.{Address}
use gov_pass.Divert.{
  Sockaddr, encode_divert_addr, Arrival, arrived, interrupted, would_block, recv_failed,
  DivertError, Divert, Received, returns, fails, waits, system_error, captured, called, send_to,
  recv_loop,
}

-- The datagrams among the arrivals; Go's loops pass over an empty one.
unfoldable pub datagrams : List Arrival → List (List ℕ × Sockaddr)
datagrams [] = []
datagrams (arrived bytes from ∷ rest) =
    if is_empty bytes then datagrams rest else ((bytes, from) ∷ datagrams rest)
datagrams (interrupted ∷ rest) = datagrams rest
datagrams (would_block ∷ rest) = datagrams rest
datagrams (recv_failed n ∷ rest) = datagrams rest

-- Every datagram is from such a sender.
abbrev pub AllSenders : (Sockaddr → Type 0) → List Arrival → Type 0
AllSenders P [] = Unit {0}
AllSenders P (arrived bytes from ∷ rest) = P from × AllSenders P rest
AllSenders P (interrupted ∷ rest) = AllSenders P rest
AllSenders P (would_block ∷ rest) = AllSenders P rest
AllSenders P (recv_failed n ∷ rest) = AllSenders P rest

-- The datagram that the engine has after a call of Recv.
pub data Holds (P : Sockaddr → Type 0) : Received → List (List ℕ × Sockaddr) → Type 0 where
  no_failure : {e : DivertError} → Holds P (fails e) []
  no_wait : Holds P waits []
  one :
      (bytes : List ℕ) (from : Sockaddr) (addr : Address)
      → is_empty bytes ≡ false
      → P from
      → encode_divert_addr from ≡ some addr
      → Holds P (returns (captured bytes addr)) ((bytes, from) ∷ [])

-- The error that Recv returns, if it returns one.
unfoldable pub failure : Received → Option DivertError
failure (returns p) = none
failure (fails e) = some e
failure waits = none

module _ (answer : List (List ℕ × Sockaddr) → Option DivertError) where
  -- What came in was handed to Sendto, is what the engine holds or is still to come, in order; and at
  -- most one call of Sendto was refused, whose error is returned.
  pub record Conserved (P : Sockaddr → Type 0) (d : Divert) (incoming : List (List ℕ × Sockaddr))
      (run : Divert × List Arrival × Received) : Type 0 where
    pub same_port : run.0.port ≡ d.port
    pub same_fd : run.0.fd_open ≡ d.fd_open
    pub held : List (List ℕ × Sockaddr)
    pub holds : Holds P run.2 held
    pub balance : run.0.calls ++ (held ++ datagrams run.1) ≡ d.calls ++ incoming
    pub losses : RefusesOne answer d.calls run.0.calls (failure run.2)

  -- A datagram that was handed over came in before the others.
  handed :
      (d : Divert) (bytes : List ℕ) (from : Sockaddr) (incoming : List (List ℕ × Sockaddr))
      → (called d bytes from).calls ++ incoming ≡ d.calls ++ ((bytes, from) ∷ incoming)
  handed d bytes from incoming = append_assoc d.calls ((bytes, from) ∷ []) incoming

  sent-Conserved :
      {P : Sockaddr → Type 0}
      → (d : Divert) (bytes : List ℕ) (from : Sockaddr) (incoming : List (List ℕ × Sockaddr))
        (run : Divert × List Arrival × Received)
      → answer d.calls ≡ none
      → Conserved P (called d bytes from) incoming run
      → Conserved P d ((bytes, from) ∷ incoming) run
  sent-Conserved {P} d bytes from incoming run sent c = record {
    same_port = c.same_port;
    same_fd = c.same_fd;
    held = c.held;
    holds = c.holds;
    balance = c.balance ∙ handed d bytes from incoming;
    losses =
        subst
          (λ l.
            (refused answer run.0.calls ≡ l)
            ⊎ ((x : List ℕ × Sockaddr) × (e : DivertError) × (refused answer run.0.calls
                  ≡ l ++ x ∷ [])
                × (failure run.2 ≡ some e)))
          (refused-none answer d.calls (bytes, from) sent) c.losses;
  }

  failed-Conserved :
      {P : Sockaddr → Type 0}
      → (d : Divert) (rest : List Arrival) (e : DivertError)
      → Conserved P d (datagrams rest) (d, rest, fails e)
  failed-Conserved {P} d rest e = record {
    same_port = refl;
    same_fd = refl;
    held = [];
    holds = no_failure;
    balance = refl;
    losses = inl refl;
  }

  refused-Conserved :
      {P : Sockaddr → Type 0}
      → (d : Divert) (bytes : List ℕ) (from : Sockaddr) (rest : List Arrival) (e : DivertError)
      → answer d.calls ≡ some e
      → Conserved P d ((bytes, from) ∷ datagrams rest) (called d bytes from, rest, fails e)
  unfolding failure
  refused-Conserved {P} d bytes from rest e rejected = record {
    same_port = refl;
    same_fd = refl;
    held = [];
    holds = no_failure;
    balance = handed d bytes from (datagrams rest);
    losses = inr ((bytes, from), e, refused-some answer d.calls (bytes, from) e rejected, refl);
  }

module _ (answer : List (List ℕ × Sockaddr) → Option DivertError)
    (ctx_err : List Arrival → Option DivertError) (P : Sockaddr → Type 0) where
  pub recv_loop-Conserved :
      (arrivals : List Arrival) (d : Divert)
      → AllSenders P arrivals
      → Conserved answer P d (datagrams arrivals) (recv_loop answer ctx_err d arrivals)
  unfolding recv_loop datagrams send_to
  recv_loop-Conserved [] d a = record {
    same_port = refl;
    same_fd = refl;
    held = [];
    holds = no_wait;
    balance = refl;
    losses = inl refl;
  }
  recv_loop-Conserved (interrupted ∷ rest) d a = recv_loop-Conserved rest d a
  recv_loop-Conserved (would_block ∷ rest) d a =
      option_cases (Conserved answer P d (datagrams rest)) (ctx_err rest)
        (λ _. recv_loop-Conserved rest d a) λ e _. failed-Conserved answer d rest e
  recv_loop-Conserved (recv_failed n ∷ rest) d a = failed-Conserved answer d rest (system_error n)
  recv_loop-Conserved (arrived [] from ∷ rest) d a = recv_loop-Conserved rest d a.1
  recv_loop-Conserved (arrived (b ∷ bs) from ∷ rest) d a =
      let ends : Divert × List Arrival × Received → Type 0 =
        Conserved answer P d ((b ∷ bs, from) ∷ datagrams rest) in
      option_cases ends (encode_divert_addr from)
        (λ _.
          option_cases ends (answer d.calls)
            (λ sent.
              sent-Conserved answer d (b ∷ bs) from (datagrams rest) _ sent
                (recv_loop-Conserved rest (called d (b ∷ bs) from) a.1))
            λ e rejected. refused-Conserved answer d (b ∷ bs) from rest e rejected)
        λ addr h. record {
          same_port = refl;
          same_fd = refl;
          held = (b ∷ bs, from) ∷ [];
          holds = one (b ∷ bs) from addr refl a.0 h;
          balance = refl;
          losses = inl refl;
        }
