-- ===== src/WinDivert/Laws.antt =====
-- internal/adapter/windivert_windows.go: what becomes of the packets that WinDivertRecv gives.
use mathlib.Core.List.{append-nil, append_assoc}
use gov_pass.Prelude.{
  ℕ, ◌+◌, ◌≡◌, refl, ap, sym, ◌∙◌, arith, Bool, true, not, Option, none, some, List, [], ◌∷◌, ◌++◌,
  if◌then◌else◌, length, is_empty, sum_of, sum_of-append, if_cases, option_cases, inl, inr, ◌≤◌,
  delivered, refused, sum_of-delivered,
}
use gov_pass.Packet.{Packet, Address}
use gov_pass.WinDivert.{
  WinArrival, WinError, WinDivert, call_send, send_packet, receive_loop, drain_recv, flush_recv,
}
use gov_pass.WinDivert.Counts.{pair, packets, receive_loop-calls}
use gov_pass.WinDivert.Losses.{Loses, receive_loop-Loses}

-- The same, in what WinDivertSend accepted and in what waits.
abbrev pub passed : (List (List ℕ × Address) → Option ℕ) → (List ℕ × Address → ℕ) → WinDivert → ℕ
passed answer f w = sum_of f (delivered answer w.sends) + sum_of (λ p. f (pair p)) w.recv

module _ (answer : List (List ℕ × Address) → Option ℕ) (f : List ℕ × Address → ℕ) where
  -- The packets lost, in a list.
  Loses-list :
      (before after : List (List ℕ × Address))
      → Loses answer before after
      → (lost : List (List ℕ × Address)) × (length lost ≤ 1)
        × (refused answer after ≡ refused answer before ++ lost)
  Loses-list before after (inl same) =
      ([], omega arith, same ∙ sym (append-nil (refused answer before)))
  Loses-list before after (inr (x, more)) = (x ∷ [], omega arith, more)

  -- The receiving loop loses at most the one packet at which WinDivertSend fails, and makes none up:
  -- by any count, what WinDivertSend accepted and what waits, with what is still to come and what was
  -- lost, is what had been accepted and waited and what came; and what was lost is what WinDivertSend
  -- refused since, at most one packet; whatever its answers, and whenever the context ends.
  pub receive_loop-amount :
      (arrivals : List (WinArrival × Bool × Bool)) (w : WinDivert)
      → (lost : List (List ℕ × Address)) × (length lost ≤ 1)
        × (refused answer (receive_loop answer w arrivals).0.sends ≡ refused answer w.sends ++ lost)
        × (passed answer f (receive_loop answer w arrivals).0
              + sum_of f (packets (receive_loop answer w arrivals).1)
              + sum_of f lost
            ≡ passed answer f w + sum_of f (packets arrivals))
  receive_loop-amount arrivals w =
      let o = receive_loop answer w arrivals in
      let lost = Loses-list w.sends o.0.sends (receive_loop-Loses answer arrivals w) in
      (
        lost.0,
        lost.1,
        lost.2,
        omega (
          arith,
          receive_loop-calls answer f arrivals w,
          sum_of-delivered answer f w.sends,
          sum_of-delivered answer f o.0.sends,
          ap (sum_of f) lost.2,
          sum_of-append f (refused answer w.sends) lost.0,
        ),
      )

-- The packets that Send sends: those with bytes, as the receiving loop makes them.
unfoldable pub carried : List Packet → List (List ℕ × Address)
carried [] = []
carried (p ∷ ps) = let rest = carried ps in if is_empty p.bytes then rest else (pair p ∷ rest)

module _ (answer : List (List ℕ × Address) → Option ℕ) where
  send_packet-sends :
      (w : WinDivert) (p : Packet)
      → w.is_open ≡ true
      → ((send_packet answer w p).0.is_open ≡ true)
        × ((send_packet answer w p).0.sends
            ≡ w.sends ++ (if is_empty p.bytes then [] else pair p ∷ []))
  unfolding send_packet call_send
  send_packet-sends w p is_open =
      let asked : List (List ℕ × Address) = if is_empty p.bytes then [] else pair p ∷ [] in
      let goal : WinDivert × Option WinError → Type 0 =
        λ r. (r.0.is_open ≡ true) × (r.0.sends ≡ w.sends ++ asked) in
      if_cases goal (not w.is_open) (λ no. cc (no, is_open))
        λ _.
          if_cases goal (is_empty p.bytes) (λ empty. (is_open, rw empty (sym (append-nil w.sends))))
            λ full.
              let sent : w.sends ++ pair p ∷ [] ≡ w.sends ++ asked = rw full refl in
              option_cases goal (answer w.sends) (λ _. (is_open, sent)) (λ _ _. (is_open, sent))

  drain_recv-carried :
      (ps : List Packet) (w : WinDivert) (first : Option WinError)
      → w.is_open ≡ true
      → ((drain_recv answer w ps first).0.sends ≡ w.sends ++ carried ps)
        × ((drain_recv answer w ps first).0.recv ≡ [])
  unfolding drain_recv carried
  drain_recv-carried [] w first is_open = (sym (append-nil w.sends), refl)
  drain_recv-carried (p ∷ ps) w first is_open =
      let step = send_packet-sends w p is_open in
      let rest =
        drain_recv-carried ps (send_packet answer w p).0
          (elim first [ some e ↦ some e | none ↦ (send_packet answer w p).1 ]) step.0 in
      (
        rest.0
            ∙ ap (λ l. l ++ carried ps) step.1
            ∙ append_assoc w.sends (if is_empty p.bytes then [] else pair p ∷ []) (carried ps)
            ∙ ap (λ l. w.sends ++ l)
                (if_cases
                  (λ (l : List (List ℕ × Address)).
                    (if is_empty p.bytes then [] else pair p ∷ []) ++ carried ps ≡ l)
                  (is_empty p.bytes) (λ empty. rw empty refl) (λ full. rw full refl)),
        rest.1,
      )

  -- Flush on an open handle sends all that waits, in order, and leaves nothing to wait, whether or not
  -- sends before it failed and whether or not the context has ended.
  pub flush_recv-carried :
      (w : WinDivert) (ctx_err : Option ℕ)
      → w.is_open ≡ true
      → ((flush_recv answer w ctx_err).0.sends ≡ w.sends ++ carried w.recv)
        × ((flush_recv answer w ctx_err).0.recv ≡ [])
  unfolding flush_recv
  flush_recv-carried w ctx_err is_open =
      let stopping : WinDivert = record w { stopped = true } in
      let goal : WinDivert × Option WinError → Type 0 =
        λ r. (r.0.sends ≡ w.sends ++ carried w.recv) × (r.0.recv ≡ []) in
      let drained = drain_recv-carried w.recv stopping none is_open in
      if_cases goal (not w.is_open) (λ no. cc (no, is_open))
        λ _.
          option_cases goal (drain_recv answer stopping w.recv none).1
            (λ _. option_cases goal ctx_err (λ _. drained) (λ _ _. drained)) (λ _ _. drained)
