-- ===== src/Divert/Laws.antt =====
-- internal/adapter/divert_freebsd.go: what becomes of the datagrams that a divert socket gives.
use mathlib.Core.Path.{subst}
use mathlib.Core.List.{append-nil, append_assoc}
use gov_pass.Prelude.{
  ◌∙◌, sym, ℕ, ◌+◌, ◌*◌, ◌%◌, ◌/◌, ◌^◌, ◌≡◌, ◌<◌, refl, ap, true, false, Option, none, some, List,
  [], ◌∷◌, ◌++◌, ◌==◌, arith, if◌then◌else◌, inl, inr, refused, RefusesOne, RefusesOne-call,
}
use gov_pass.Packet.{Address}
use gov_pass.Divert.{
  Sockaddr, inet4, inet6, other_sockaddr, encode_divert_addr, decode_divert_addr, port_or, Arrival,
  DivertError, Divert, Received, returns, fails, waits, send_to, send, recv_loop, recv,
}
use gov_pass.Divert.Receiving.{
  datagrams, AllSenders, Holds, no_failure, no_wait, one, failure, Conserved, recv_loop-Conserved,
}

-- The address that Send makes of the one that Recv stored.
pub return_address : Sockaddr → ℕ → Option Sockaddr
return_address from fallback = elim (encode_divert_addr from) [
  | none ↦ none
  | some addr ↦ decode_divert_addr addr fallback
]

pub return_address-inet4 :
    (port a b c d fallback : ℕ)
    → port < 2 ^ 16
    → return_address (inet4 port (a ∷ b ∷ c ∷ d ∷ [])) fallback ≡ (
        if port == 0
        then (if fallback == 0 then none else some (inet4 fallback (a ∷ b ∷ c ∷ d ∷ [])))
        else some (inet4 port (a ∷ b ∷ c ∷ d ∷ [])))
unfolding return_address decode_divert_addr encode_divert_addr port_or
return_address-inet4 port a b c d fallback short = rw (joined) (ground arith)
  where
    joined : port % 65536 / 256 % 256 * 256 + port % 65536 % 256 ≡ port
    joined = omega (arith, short)

-- A sender that the kernel reports: an IPv4 address has a port, and four bytes.
pub data IsSender : Sockaddr → Type 0 where
  inet4_sender :
      (port a b c d : ℕ) → 0 < port → port < 2 ^ 16 → IsSender (inet4 port (a ∷ b ∷ c ∷ d ∷ []))
  inet6_sender : (port : ℕ) (ip : List ℕ) (zone : ℕ) → IsSender (inet6 port ip zone)
  other_sender : (n : ℕ) → IsSender (other_sockaddr n)

return_address-sender :
    (from : Sockaddr) (fallback : ℕ) (addr : Address)
    → IsSender from
    → encode_divert_addr from ≡ some addr
    → decode_divert_addr addr fallback ≡ some from
unfolding return_address encode_divert_addr port_or
return_address-sender _ fallback addr (inet4_sender port a b c d positive short) h =
    let back : return_address (inet4 port (a ∷ b ∷ c ∷ d ∷ [])) fallback
        ≡ some (inet4 port (a ∷ b ∷ c ∷ d ∷ [])) =
      return_address-inet4 port a b c d fallback short ∙ rw (zero_test) refl in
    subst
      (λ o.
        elim o [ none ↦ none | some at ↦ decode_divert_addr at fallback ]
        ≡ some (inet4 port (a ∷ b ∷ c ∷ d ∷ [])))
      h back
  where
    zero_test : (port == 0) ≡ false
    zero_test = ground (arith, positive)
return_address-sender _ fallback addr (inet6_sender port ip zone) h = cc h
return_address-sender _ fallback addr (other_sender n) h = cc h

module _ (answer : List (List ℕ × Sockaddr) → Option DivertError) where
  -- The engine gives back what Recv returned, as it was: the adapter, and the error of Recv or Send.
  pub give_back : Divert → Received → Divert × Option DivertError
  give_back d (returns p) = send answer d p
  give_back d (fails e) = (d, some e)
  give_back d waits = (d, none)

  give_back-failure :
      (d : Divert) (r : Received) (e : DivertError)
      → failure r ≡ some e
      → give_back d r ≡ (d, some e)
  unfolding give_back failure
  give_back-failure d (returns p) e h = cc h
  give_back-failure d (fails x) e h = ap (λ o. (d, o)) h
  give_back-failure d waits e h = cc h

  give_back-held :
      (d : Divert) (r : Received) (held : List (List ℕ × Sockaddr))
      → d.fd_open ≡ true
      → Holds IsSender r held
      → ((give_back d r).0.calls ≡ d.calls ++ held)
        × RefusesOne answer d.calls (give_back d r).0.calls (give_back d r).1
  unfolding give_back send send_to
  give_back-held d _ _ is_open no_failure = (sym (append-nil d.calls), inl refl)
  give_back-held d _ _ is_open no_wait = (sym (append-nil d.calls), inl refl)
  give_back-held d _ _ is_open (one bytes from addr full sender h) =
      rw (is_open, full, return_address-sender from d.port addr sender h)
        (refl, RefusesOne-call answer d.calls (bytes, from))

  -- A call of Recv, and what the engine gives back after it.
  give_back-losses :
      (d run : Divert) (r : Received)
      → RefusesOne answer d.calls run.calls (failure r)
      → RefusesOne answer run.calls (give_back run r).0.calls (give_back run r).1
      → RefusesOne answer d.calls (give_back run r).0.calls (give_back run r).1
  give_back-losses d run r (inl same) (inl kept) = inl (kept ∙ same)
  give_back-losses d run r (inl same) (inr (x, e, more, h)) =
      inr (x, e, more ∙ ap (λ l. l ++ x ∷ []) same, h)
  give_back-losses d run r (inr (x, e, more, h)) after =
      let ended = give_back-failure run r e h in
      inr (x, e, ap (λ o. refused answer o.0.calls) ended ∙ more, ap (λ o. o.1) ended)

  -- With the socket open, and IPv4 senders that have a port: once the engine has given back what a
  -- call of Recv returned, the datagrams that were handed to Sendto, before the call and since, are
  -- those of before and then those that came in, each to its sender and in order of arrival, but for
  -- those that are still to come. Sendto refused none of them, or one only, whose error is then what
  -- Recv or Send returned.
  pub recv-give_back :
      (ctx_err : List Arrival → Option DivertError) (d : Divert) (arrivals : List Arrival)
      → d.fd_open ≡ true
      → AllSenders IsSender arrivals
      → let run : Divert × List Arrival × Received = recv answer ctx_err d arrivals in
        let end : Divert × Option DivertError = give_back run.0 run.2 in
        (end.0.calls ++ datagrams run.1 ≡ d.calls ++ datagrams arrivals)
        × RefusesOne answer d.calls end.0.calls end.1
  unfolding recv
  recv-give_back ctx_err d arrivals is_open senders = simp is_open (
      let run : Divert × List Arrival × Received = recv_loop answer ctx_err d arrivals in
      let c : Conserved answer IsSender d (datagrams arrivals) run =
        recv_loop-Conserved answer ctx_err IsSender arrivals d senders in
      let back = give_back-held run.0 run.2 c.held (c.same_fd ∙ is_open) c.holds in
      (
        ap (λ l. l ++ datagrams run.1) back.0
            ∙ append_assoc run.0.calls c.held (datagrams run.1)
            ∙ c.balance,
        give_back-losses d run.0 run.2 c.losses back.1,
      ))
