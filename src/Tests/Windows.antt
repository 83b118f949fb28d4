-- ===== src/Tests/Windows.antt =====
-- Runs of the Windows adapter, and its theorems at inputs that meet the hypotheses.
use gov_pass.Prelude.{
  ℕ, ◌+◌, ◌≡◌, refl, Bool, true, false, Option, none, some, List, [], ◌∷◌, ◌++◌, length, sum_of,
  refused, ◌≤◌,
}
use gov_pass.Packet.{Address}
use gov_pass.WinDivert.{
  WinArrival, received, receive_failed, WinDivert, win_captured, receive_loop, flush_recv,
}
use gov_pass.WinDivert.Counts.{packets}
use gov_pass.WinDivert.Laws.{passed, receive_loop-amount, carried, flush_recv-carried}

abbrev outward : Address
outward = record { bytes = 1 ∷ [] }

-- A channel with one of its two places taken, and a handle that is open.
abbrev busy : WinDivert
busy = record {
  is_open = true;
  stopped = false;
  recv = win_captured (9 ∷ []) outward ∷ [];
  capacity = 2;
  errs = [];
  sends = [];
}

-- Three packets, an empty one and an error; the context ends before the fourth is in the channel.
abbrev coming : List (WinArrival × Bool × Bool)
coming =
    (received (1 ∷ []) outward, false, false)
    ∷ (received [] outward, false, false)
    ∷ (received (2 ∷ 3 ∷ []) outward, false, false)
    ∷ (received (4 ∷ []) outward, true, false)
    ∷ (receive_failed 6, false, false)
    ∷ []

abbrev second_refused : List (List ℕ × Address) → Option ℕ
second_refused [] = none
second_refused (x ∷ xs) = some 7

abbrev bytes_of : List ℕ × Address → ℕ
bytes_of (bytes, addr) = length bytes

receive_loop-amount_example :
    (lost : List (List ℕ × Address)) × (length lost ≤ 1)
    × (refused second_refused (receive_loop second_refused busy coming).0.sends
        ≡ refused second_refused busy.sends ++ lost)
    × (passed second_refused bytes_of (receive_loop second_refused busy coming).0
          + sum_of bytes_of (packets (receive_loop second_refused busy coming).1)
          + sum_of bytes_of lost
        ≡ passed second_refused bytes_of busy + sum_of bytes_of (packets coming))
receive_loop-amount_example = receive_loop-amount second_refused bytes_of coming busy

flush_recv-carried_example :
    ((flush_recv second_refused busy (some 3)).0.sends ≡ [] ++ carried busy.recv)
    × ((flush_recv second_refused busy (some 3)).0.recv ≡ [])
flush_recv-carried_example = flush_recv-carried second_refused busy (some 3) refl
