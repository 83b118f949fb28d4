-- ===== src/WinDivert/Counts.antt =====
-- The receiving loop of internal/adapter/windivert_windows.go: what it takes and what it calls
-- WinDivertSend with, counted.
use gov_pass.Prelude.{
  ℕ, ◌+◌, ◌≡◌, refl, ◌∙◌, arith, Bool, true, false, not, ◌||◌, Option, none, some, List, [], ◌∷◌,
  ◌==◌, if◌then◌else◌, length, is_empty, sum_of, sum_of-append, if_cases, ◌⊎◌, inl, inr,
}
use gov_pass.Packet.{Packet, Address}
use gov_pass.WinDivert.{
  WinArrival, received, receive_failed, WinDivert, win_captured, report, call_send, on_full,
  on_arrival, receive_loop,
}

abbrev no_address : Address
no_address = record { bytes = [] }

abbrev pub pair : Packet → List ℕ × Address
pair p = (p.bytes, p.addr)

-- The packets among the arrivals.
abbrev pub packets : List (WinArrival × Bool × Bool) → List (List ℕ × Address)
packets [] = []
packets ((received [] addr, s, c) ∷ rest) = packets rest
packets ((received (b ∷ bs) addr, s, c) ∷ rest) = (b ∷ bs, addr) ∷ packets rest
packets ((receive_failed n, s, c) ∷ rest) = packets rest

-- How much there is, of anything that is counted, in the calls of WinDivertSend and in what waits.
abbrev pub amount : (List ℕ × Address → ℕ) → WinDivert → ℕ
amount f w = sum_of f w.sends + sum_of (λ p. f (pair p)) w.recv

module _ (f : List ℕ × Address → ℕ) where
  amount-report : (w : WinDivert) (e : ℕ) → amount f (report w e) ≡ amount f w
  amount-report w e =
      if_cases (λ o. amount f o ≡ amount f w) (is_empty w.errs) (λ _. refl) (λ _. refl)

  on_full-amount : (w : WinDivert) (o : Option ℕ) → amount f (on_full (w, o)).0 ≡ amount f w
  on_full-amount w none = refl
  on_full-amount w (some e) =
      if_cases (λ (r : WinDivert × Bool). amount f r.0 ≡ amount f w) w.stopped (λ _. refl)
        (λ _. amount-report w e)

module _ (answer : List (List ℕ × Address) → Option ℕ) (f : List ℕ × Address → ℕ) where
  on_arrival-amount :
      (c : Bool) (w : WinDivert) (b : ℕ) (bs : List ℕ) (addr : Address)
      → amount f (on_arrival answer c w (received (b ∷ bs) addr)).0 ≡ amount f w + f (b ∷ bs, addr)
  unfolding on_arrival call_send
  on_arrival-amount c w b bs addr =
      let goal : WinDivert × Bool → Type 0 = λ r. amount f r.0 ≡ amount f w + f (b ∷ bs, addr) in
      let sent = sum_of-append f w.sends ((b ∷ bs, addr) ∷ []) in
      if_cases goal w.stopped (λ _. omega (arith, sent))
        λ _.
          if_cases goal (length w.recv == w.capacity)
            (λ _. on_full-amount f _ (answer w.sends) ∙ omega (arith, sent))
            λ _.
              if_cases goal c (λ _. omega (arith, sent))
                (λ _.
                  omega (
                    arith,
                    sum_of-append (λ p. f (pair p)) w.recv (win_captured (b ∷ bs) addr ∷ []),
                  ))

  on_arrival-else :
      (c : Bool) (w : WinDivert) (a : WinArrival)
      → (addr : Address) → (a ≡ received [] addr) ⊎ ((n : ℕ) × (a ≡ receive_failed n))
      → amount f (on_arrival answer c w a).0 ≡ amount f w
  unfolding on_arrival
  on_arrival-else c w a addr (inl e) = rw (e, on_arrival) refl
  on_arrival-else c w a addr (inr e) =
      rw (e.1, on_arrival)
        (if_cases (λ (r : WinDivert × Bool). amount f r.0 ≡ amount f w) w.stopped (λ _. refl)
          (λ _. amount-report f w e.0))

  -- A turn of the loop counts the packet that it takes.
  turn-amount :
      (a : WinArrival) (s c : Bool) (rest : List (WinArrival × Bool × Bool)) (w : WinDivert)
      → amount f (on_arrival answer c (if s then record w { stopped = true } else w) a).0
          + sum_of f (packets rest)
        ≡ amount f w + sum_of f (packets ((a, s, c) ∷ rest))
  turn-amount (received [] addr) true c rest w =
      omega
        (arith, on_arrival-else c (record w { stopped = true }) (received [] addr) addr (inl refl))
  turn-amount (received [] addr) false c rest w =
      omega (arith, on_arrival-else c w (received [] addr) addr (inl refl))
  turn-amount (receive_failed n) true c rest w = omega (
    arith,
    on_arrival-else c (record w { stopped = true }) (receive_failed n) no_address (inr (n, refl)),
  )
  turn-amount (receive_failed n) false c rest w =
      omega (arith, on_arrival-else c w (receive_failed n) no_address (inr (n, refl)))
  turn-amount (received (b ∷ bs) addr) true c rest w =
      omega (arith, on_arrival-amount c (record w { stopped = true }) b bs addr)
  turn-amount (received (b ∷ bs) addr) false c rest w =
      omega (arith, on_arrival-amount c w b bs addr)

  -- By any count, the calls of WinDivertSend and what waits, with what is still to come, are what
  -- there was and what came.
  pub receive_loop-calls :
      (arrivals : List (WinArrival × Bool × Bool)) (w : WinDivert)
      → amount f (receive_loop answer w arrivals).0
          + sum_of f (packets (receive_loop answer w arrivals).1)
        ≡ amount f w + sum_of f (packets arrivals)
  unfolding receive_loop
  receive_loop-calls [] w = refl
  receive_loop-calls ((a, s, c) ∷ rest) w =
      let awake = if s then record w { stopped = true } else w in
      let r = on_arrival answer c awake a in
      let goal : WinDivert × List (WinArrival × Bool × Bool) → Type 0 = λ o.
        amount f o.0 + sum_of f (packets o.1)
        ≡ amount f w + sum_of f (packets ((a, s, c) ∷ rest)) in
      if_cases goal (w.stopped || not w.is_open) (λ _. refl)
        λ _.
          if_cases goal r.1 (λ _. receive_loop-calls rest r.0 ∙ turn-amount a s c rest w)
            (λ _. turn-amount a s c rest w)
