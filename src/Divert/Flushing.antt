-- ===== src/Divert/Flushing.antt =====
-- internal/adapter/divert_freebsd.go: what Flush does with the datagrams that wait.
use mathlib.Core.List.{append-nil, append_assoc}
use gov_pass.Prelude.{
  ◌∙◌, sym, refl, ap, ℕ, ◌≡◌, true, Option, none, List, [], ◌∷◌, ◌++◌, Option-cases, inl, inr,
  errors_from,
}
use gov_pass.Divert.{
  Sockaddr, Arrival, arrived, interrupted, would_block, recv_failed, DivertError, system_error,
  Divert, called, send_to, flush_loop, flush,
}
use gov_pass.Divert.Receiving.{datagrams}

-- What the socket gives before its first EAGAIN or other error.
pub before_stop : List Arrival → List Arrival
before_stop [] = []
before_stop (arrived bytes from ∷ rest) = arrived bytes from ∷ before_stop rest
before_stop (interrupted ∷ rest) = interrupted ∷ before_stop rest
before_stop (would_block ∷ rest) = []
before_stop (recv_failed n ∷ rest) = []

-- The error of Recvfrom that comes then, if it is one.
pub stop_error : List Arrival → List DivertError
stop_error [] = []
stop_error (arrived bytes from ∷ rest) = stop_error rest
stop_error (interrupted ∷ rest) = stop_error rest
stop_error (would_block ∷ rest) = []
stop_error (recv_failed n ∷ rest) = system_error n ∷ []

module _ (answer : List (List ℕ × Sockaddr) → Option DivertError)
    (ctx_err : List Arrival → Option DivertError) where
  -- The loop, from `d`: all before the stop was handed to Sendto, and these are the errors.
  abbrev Flushed : Divert → List Arrival → Divert × List DivertError → Type 0
  Flushed d arrivals r =
      (r.0.calls ≡ d.calls ++ datagrams (before_stop arrivals))
      × (r.1 ≡ errors_from answer d.calls (datagrams (before_stop arrivals)) ++ stop_error arrivals)

  flush_loop-Flushed :
      (arrivals : List Arrival) (d : Divert)
      → ((left : List Arrival) → ctx_err left ≡ none)
      → Flushed d arrivals (flush_loop answer ctx_err d arrivals)
  unfolding flush_loop before_stop stop_error datagrams send_to errors_from
  flush_loop-Flushed [] d live = rw (live [], flush_loop) (sym (append-nil d.calls), refl)
  flush_loop-Flushed (interrupted ∷ rest) d live =
      rw (live (interrupted ∷ rest), flush_loop) (flush_loop-Flushed rest d live)
  flush_loop-Flushed (would_block ∷ rest) d live =
      rw (live (would_block ∷ rest), flush_loop) (sym (append-nil d.calls), refl)
  flush_loop-Flushed (recv_failed n ∷ rest) d live =
      rw (live (recv_failed n ∷ rest), flush_loop) (sym (append-nil d.calls), refl)
  flush_loop-Flushed (arrived [] from ∷ rest) d live =
      rw (live (arrived [] from ∷ rest), flush_loop) (flush_loop-Flushed rest d live)
  flush_loop-Flushed (arrived (b ∷ bs) from ∷ rest) d live =
      rw (live (arrived (b ∷ bs) from ∷ rest), flush_loop)
        (let later = flush_loop-Flushed rest (called d (b ∷ bs) from) live in
          let handed =
            later.0 ∙ append_assoc d.calls ((b ∷ bs, from) ∷ []) (datagrams (before_stop rest)) in
          elim (Option-cases (answer d.calls)) [
            | inl sent ↦ rw (sent, errors_from) (handed, later.1)
            | inr (e, rejected) ↦ rw (rejected, errors_from) (handed, ap (λ l. e ∷ l) later.1)
          ])

  -- If the context does not end during it, Flush on an open socket hands to Sendto every datagram
  -- that the socket gives before its first EAGAIN or error, each to its sender and in order, whether
  -- or not the sends before it failed; and the errors it returns are those of the sends that failed,
  -- in order, and then Recvfrom's. What lies behind an error of Recvfrom stays in the socket.
  pub flush-before_stop :
      (arrivals : List Arrival) (d : Divert)
      → d.fd_open ≡ true
      → ((left : List Arrival) → ctx_err left ≡ none)
      → ((flush answer ctx_err d arrivals).0.calls ≡ d.calls ++ datagrams (before_stop arrivals))
        × ((flush answer ctx_err d arrivals).1
            ≡ errors_from answer d.calls (datagrams (before_stop arrivals)) ++ stop_error arrivals)
  unfolding flush
  flush-before_stop arrivals d is_open live = simp is_open (flush_loop-Flushed arrivals d live)
