-- ===== src/WinDivert/Losses.antt =====
-- The receiving loop of internal/adapter/windivert_windows.go: the packets that WinDivertSend refuses.
use mathlib.Core.Path.{subst}
use gov_pass.Prelude.{
  ℕ, ◌≡◌, refl, ap, ◌∙◌, Bool, true, false, not, ◌||◌, Option, none, some, List, [], ◌∷◌, ◌++◌,
  ◌==◌, if◌then◌else◌, length, is_empty, if_cases, ◌⊎◌, inl, inr, Option-cases, refused,
  refused-none, refused-some,
}
use gov_pass.Packet.{Address}
use gov_pass.WinDivert.{
  WinArrival, received, receive_failed, WinDivert, report, call_send, on_full, on_arrival,
  receive_loop,
}

module _ (answer : List (List ℕ × Address) → Option ℕ) where
  -- The packet of one call of WinDivertSend that was refused, or none.
  abbrev pub Loses : List (List ℕ × Address) → List (List ℕ × Address) → Type 0
  Loses before after =
      (refused answer after ≡ refused answer before)
      ⊎ ((x : List ℕ × Address) × (refused answer after ≡ refused answer before ++ x ∷ []))

  -- Where WinDivertSend refuses a packet, the loop ends.
  abbrev LosesLast : WinDivert → WinDivert × Bool → Type 0
  LosesLast w r =
      (refused answer r.0.sends ≡ refused answer w.sends)
      ⊎ ((x : List ℕ × Address) × (refused answer r.0.sends ≡ refused answer w.sends ++ x ∷ [])
          × (r.1 ≡ false))

  LosesLast-false :
      (w : WinDivert) (r : WinDivert × Bool) → Loses w.sends r.0.sends → r.1 ≡ false → LosesLast w r
  LosesLast-false w r (inl same) h = inl same
  LosesLast-false w r (inr (x, more)) h = inr (x, more, h)

  call-Loses : (xs : List (List ℕ × Address)) (x : List ℕ × Address) → Loses xs (xs ++ x ∷ [])
  call-Loses xs x = elim (Option-cases (answer xs)) [
    | inl sent ↦ inl (refused-none answer xs x sent)
    | inr (e, rejected) ↦ inr (x, refused-some answer xs x e rejected)
  ]

  report-LosesLast : (w : WinDivert) (e : ℕ) → LosesLast w (report w e, false)
  report-LosesLast w e =
      if_cases (λ (v : WinDivert). LosesLast w (v, false)) (is_empty w.errs) (λ _. inl refl)
        (λ _. inl refl)

  on_full-LosesLast :
      (w v : WinDivert) (o : Option ℕ) (x : List ℕ × Address)
      → v.sends ≡ w.sends ++ x ∷ []
      → answer w.sends ≡ o
      → LosesLast w (on_full (v, o))
  on_full-LosesLast w v none x called sent =
      inl (ap (refused answer) called ∙ refused-none answer w.sends x sent)
  on_full-LosesLast w v (some e) x called rejected =
      let lost = ap (refused answer) called ∙ refused-some answer w.sends x e rejected in
      if_cases (λ (r : WinDivert × Bool). LosesLast w r) v.stopped (λ _. inr (x, lost, refl))
        (λ _.
          if_cases (λ (u : WinDivert). LosesLast w (u, false)) (is_empty v.errs)
            (λ _. inr (x, lost, refl)) (λ _. inr (x, lost, refl)))

  on_arrival-LosesLast :
      (c : Bool) (w : WinDivert) (a : WinArrival) → LosesLast w (on_arrival answer c w a)
  unfolding on_arrival call_send
  on_arrival-LosesLast c w (receive_failed n) =
      if_cases (λ (r : WinDivert × Bool). LosesLast w r) w.stopped (λ _. inl refl)
        (λ _. report-LosesLast w n)
  on_arrival-LosesLast c w (received bytes addr) =
      let goal : WinDivert × Bool → Type 0 = LosesLast w in
      let lost = call-Loses w.sends (bytes, addr) in
      if_cases goal (is_empty bytes) (λ _. inl refl)
        λ _.
          if_cases goal w.stopped
            (λ _. LosesLast-false w ((call_send answer w bytes addr).0, false) lost refl)
            λ _.
              if_cases goal (length w.recv == w.capacity)
                (λ _. on_full-LosesLast w _ (answer w.sends) (bytes, addr) refl refl)
                λ _.
                  if_cases goal c
                    (λ _.
                      LosesLast-false w
                        (record (call_send answer w bytes addr).0 { stopped = true }, false) lost
                        refl)
                    (λ _. inl refl)

  pub receive_loop-Loses :
      (arrivals : List (WinArrival × Bool × Bool)) (w : WinDivert)
      → Loses w.sends (receive_loop answer w arrivals).0.sends
  unfolding receive_loop
  receive_loop-Loses [] w = inl refl
  receive_loop-Loses ((a, s, c) ∷ rest) w =
      let awake = if s then record w { stopped = true } else w in
      let r = on_arrival answer c awake a in
      let goal : WinDivert × List (WinArrival × Bool × Bool) → Type 0 =
        λ o. Loses w.sends o.0.sends in
      let same : awake.sends ≡ w.sends =
        if_cases (λ (v : WinDivert). v.sends ≡ w.sends) s (λ _. refl) (λ _. refl) in
      let step : LosesLast w r =
        subst
          (λ l.
            (refused answer r.0.sends ≡ refused answer l)
            ⊎ ((x : List ℕ × Address) × (refused answer r.0.sends ≡ refused answer l ++ x ∷ [])
                × (r.1 ≡ false)))
          same (on_arrival-LosesLast c awake a) in
      if_cases goal (w.stopped || not w.is_open) (λ _. inl refl)
        λ _.
          if_cases goal r.1
            (λ goes_on. elim step [
              | inl kept ↦
                  subst
                    (λ l.
                      (refused answer (receive_loop answer r.0 rest).0.sends ≡ l)
                      ⊎ ((x : List ℕ × Address) × (refused answer
                              (receive_loop answer r.0 rest).0.sends
                            ≡ l ++ x ∷ [])))
                    kept (receive_loop-Loses rest r.0)
              | inr (x, more, ended) ↦ cc (goes_on, ended)
            ])
            (λ _. elim step [ inl kept ↦ inl kept | inr (x, more, ended) ↦ inr (x, more) ])
