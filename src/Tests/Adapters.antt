-- ===== src/Tests/Adapters.antt =====
-- Runs of the reassembly buffer and of the adapters, and their theorems at inputs that meet the
-- hypotheses.
use gov_pass.Prelude.{
  ℕ, true, false, ◌++◌, ◌≡◌, ◌<◌, refl, Option, none, some, List, [], ◌∷◌, arith, length, get_or,
  ltb, inr, if◌then◌else◌, ◌==◌, RefusesOne, errors_from,
}
use gov_pass.Reassembly.{Buffer, PushError, new_buffer, push, sub32}
use gov_pass.Reassembly.Merged.{spread}
use gov_pass.Reassembly.View.{view, IsWellFormed}
use gov_pass.Reassembly.Writes.{
  Refines, push-Refines, push-prefix, push_each, push_each-IsWellFormed, new_buffer-IsWellFormed,
}
use gov_pass.Divert.{
  Divert, Sockaddr, inet4, inet6, Arrival, arrived, interrupted, would_block, recv_failed,
  DivertError, system_error, recv, flush, Received,
}
use gov_pass.Divert.Flushing.{before_stop, stop_error, flush-before_stop}
use gov_pass.Divert.Receiving.{datagrams, AllSenders}
use gov_pass.Divert.Laws.{
  return_address, return_address-inet4, IsSender, inet4_sender, inet6_sender, give_back,
  recv-give_back,
}

-- A buffer with a fragment behind a gap.
abbrev fresh : Buffer
fresh = new_buffer 100 64

abbrev gapped : Buffer
gapped = push_each fresh ((104, 7 ∷ 8 ∷ []) ∷ [])

gapped-IsWellFormed : IsWellFormed gapped
gapped-IsWellFormed =
    push_each-IsWellFormed ((104, 7 ∷ 8 ∷ []) ∷ []) fresh
      (new_buffer-IsWellFormed 100 64 (omega arith)) (omega arith)

push-Refines_example :
    Refines gapped (sub32 102 gapped.base_seq) (1 ∷ 2 ∷ 3 ∷ []) (push gapped 102 (1 ∷ 2 ∷ 3 ∷ []))
push-Refines_example = push-Refines gapped 102 (1 ∷ 2 ∷ 3 ∷ []) gapped-IsWellFormed (omega arith)

-- Two bytes are there, and two wait at offset 4.
abbrev waiting : Buffer
waiting = record {
  base_seq = 100;
  contig = 1 ∷ 2 ∷ [];
  contig_len = 2;
  max_bytes = 64;
  total_bytes = 4;
  segments = record { offset = 4; bytes = 7 ∷ 8 ∷ [] } ∷ [];
  had_out_of_order = true;
  had_overlap = false;
}

waiting-IsWellFormed : IsWellFormed waiting
waiting-IsWellFormed = record {
  counted = refl;
  chain = (omega arith, omega arith, omega arith, tt);
  total = refl;
  within = omega arith;
  small = omega arith;
}

-- The gap is filled, and the fragment overlaps both the prefix and what waits.
abbrev late : List ℕ
late = 9 ∷ 3 ∷ 4 ∷ 5 ∷ []

abbrev filled : Buffer × Option PushError
filled = push waiting 101 late

-- The prefix keeps its second byte, and the fragment's last byte takes the place of the waiting 7.
abbrev merged_byte : ℕ → Option ℕ
merged_byte k = if ltb k 2 then some (get_or (1 ∷ 2 ∷ []) k 0) else spread 1 late k (view waiting k)

push-prefix_example :
    ((k : ℕ) → k < length filled.0.contig → merged_byte k ≡ some (get_or filled.0.contig k 0))
    × (merged_byte (length filled.0.contig) ≡ none)
push-prefix_example = push-prefix waiting 101 late waiting-IsWellFormed (omega arith) (
    (push-Refines waiting 101 late waiting-IsWellFormed (omega arith)).accepts.1
      (inr (omega arith)))

push_each-IsWellFormed_example :
    IsWellFormed (push_each fresh ((104, 7 ∷ 8 ∷ []) ∷ (100, 1 ∷ 2 ∷ 3 ∷ 4 ∷ []) ∷ []))
push_each-IsWellFormed_example =
    push_each-IsWellFormed ((104, 7 ∷ 8 ∷ []) ∷ (100, 1 ∷ 2 ∷ 3 ∷ 4 ∷ []) ∷ []) fresh
      (new_buffer-IsWellFormed 100 64 (omega arith)) (omega arith)

-- A divert socket with datagrams of both families, the first of which cannot be encoded.
abbrev socket : Divert
socket = record { fd_open = true; port = 700; calls = [] }

abbrev incoming : List Arrival
incoming =
    interrupted
    ∷ arrived (1 ∷ 2 ∷ []) (inet6 53 [] 0)
    ∷ would_block
    ∷ arrived (69 ∷ 0 ∷ []) (inet4 40000 (10 ∷ 0 ∷ 0 ∷ 1 ∷ []))
    ∷ arrived (69 ∷ 1 ∷ []) (inet4 80 (10 ∷ 0 ∷ 0 ∷ 2 ∷ []))
    ∷ recv_failed 9
    ∷ []

-- The second call of Sendto fails.
abbrev second_fails : List (List ℕ × Sockaddr) → Option DivertError
second_fails [] = none
second_fails (x ∷ xs) = some (system_error 55)

incoming-senders : AllSenders IsSender incoming
incoming-senders = (
  inet6_sender 53 [] 0,
  (
    inet4_sender 40000 10 0 0 1 (omega arith) (omega arith),
    (inet4_sender 80 10 0 0 2 (omega arith) (omega arith), tt),
  ),
)

return_address-inet4_example : return_address (inet4 40000 (10 ∷ 0 ∷ 0 ∷ 1 ∷ [])) 700 ≡ (
    if 40000 == 0
    then (if 700 == 0 then none else some (inet4 700 (10 ∷ 0 ∷ 0 ∷ 1 ∷ [])))
    else some (inet4 40000 (10 ∷ 0 ∷ 0 ∷ 1 ∷ [])))
return_address-inet4_example = return_address-inet4 40000 10 0 0 1 700 (omega arith)

-- The first call of Recv, whose first datagram is sent on, and the engine's answer.
abbrev first_recv : Divert × List Arrival × Received
first_recv = recv second_fails (λ _. none) socket incoming

abbrev after_first : Divert × Option DivertError
after_first = give_back second_fails first_recv.0 first_recv.2

recv-give_back_example :
    (after_first.0.calls ++ datagrams first_recv.1 ≡ [] ++ datagrams incoming)
    × RefusesOne second_fails [] after_first.0.calls after_first.1
recv-give_back_example =
    recv-give_back second_fails (λ _. none) socket incoming refl incoming-senders

flush-before_stop_example :
    ((flush second_fails (λ _. none) socket incoming).0.calls
      ≡ [] ++ datagrams (before_stop incoming))
    × ((flush second_fails (λ _. none) socket incoming).1
        ≡ errors_from second_fails [] (datagrams (before_stop incoming)) ++ stop_error incoming)
flush-before_stop_example =
    flush-before_stop second_fails (λ _. none) incoming socket refl (λ _. refl)
