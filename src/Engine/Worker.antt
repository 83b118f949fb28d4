-- ===== src/Engine/Worker.antt =====
-- The worker of internal/engine/worker.go: its state, its calls of the adapter, and what it does
-- with the packets that a flow holds.
use gov_pass.Prelude.{
  ◌≡◌, ap, ℕ, ◌+◌, ◌-◌, ◌*◌, Option, none, some, List, [], ◌∷◌, ◌++◌, if◌then◌else◌, length, sum_of,
}
use gov_pass.Prelude.Int.{ℤ, pos, ltb_ℤ, is_pos, pos_part}
use gov_pass.Packet.{Packet}
use gov_pass.Flow.{Key, Table, FlowState, new_table, state_pass_through}
use gov_pass.Engine.Config.{Config, second}

-- What the engine's calls return. `adapter_error` stands for the errors of the platform's calls.
pub data Error : Type 0 where
  canceled deadline_exceeded limit_reached : Error
  config_nil invalid_header : Error
  adapter_error : ℕ → Error
  joined : Error → Error → Error

-- An adapter's answers: the result of a call may depend on when it is made, and CalcChecksums
-- rewrites the packet.
pub record Adapter : Type 0 where
  pub send_result : ℕ → Packet → Option Error
  pub drop_result : ℕ → Packet → Option Error
  pub calc_checksums : ℕ → Packet → Packet × Option Error

-- The calls that succeeded.
pub data Event : Type 0 where
  sent dropped : Packet → Event

-- The channel `in` is `queue` with its capacity, and `touch` is `touched`. `clock` counts the calls
-- of the adapter, and `log` is what it did, oldest first.
pub record Worker : Type 0 where
  pub id : ℕ
  pub cfg : Option Config
  pub queue : List Packet
  pub capacity : ℕ
  pub touched : List Key
  pub flows : Table
  pub held_bytes : ℕ
  pub reassembly_bytes : ℕ
  pub clock : ℕ
  pub log : List Event

abbrev or_default : ℤ → ℤ → ℤ
or_default x d = if is_pos x then x else d

abbrev not_negative : ℤ → ℤ
not_negative x = if ltb_ℤ x (pos 0) then pos 0 else x

-- The defaults and clamps of newWorker.
unfoldable pub clamp_config : Config → Config
clamp_config cfg = record cfg {
  worker_queue_size = or_default cfg.worker_queue_size (pos 1024);
  gc_interval = or_default cfg.gc_interval (pos (5 * second));
  flow_idle_timeout = or_default cfg.flow_idle_timeout (pos (30 * second));
  max_flows_per_worker = not_negative cfg.max_flows_per_worker;
  max_reassembly_bytes_per_worker = not_negative cfg.max_reassembly_bytes_per_worker;
  max_held_bytes_per_worker = not_negative cfg.max_held_bytes_per_worker;
}

unfoldable pub new_worker : ℕ → Config → Worker
new_worker id cfg = record {
  id = id;
  cfg = some (clamp_config cfg);
  queue = [];
  capacity = pos_part (clamp_config cfg).worker_queue_size;
  touched = [];
  flows = new_table;
  held_bytes = 0;
  reassembly_bytes = 0;
  clock = 0;
  log = [];
}

unfoldable pub set_config : Worker → Config → Worker
set_config w cfg = record w { cfg = some cfg }

abbrev pub tick : Worker → Worker
tick w = record w { clock = w.clock + 1 }

abbrev pub record_event : Worker → Event → Worker
record_event w e = record w { clock = w.clock + 1; log = w.log ++ e ∷ [] }

-- The sum of `len(pkt.Data)` over packets.
abbrev pub data_bytes : List Packet → ℕ
data_bytes = sum_of λ p. length p.bytes

module _ (ad : Adapter) where
  -- adapter.Send
  unfoldable pub send : Worker → Packet → Worker × Option Error
  send w p = elim (ad.send_result w.clock p) [
    | none ↦ (record_event w (sent p), none)
    | some e ↦ (tick w, some e)
  ]

  -- adapter.Drop
  unfoldable pub drop_packet : Worker → Packet → Worker × Option Error
  drop_packet w p = elim (ad.drop_result w.clock p) [
    | none ↦ (record_event w (dropped p), none)
    | some e ↦ (tick w, some e)
  ]

-- `for _, x := range xs { if err := f(x); err != nil { return err } }`
unfoldable pub until_error {ℓ κ} :
    {S : Type ℓ} {A : Type κ} → (S → A → S × Option Error) → S → List A → S × Option Error
until_error f s [] = (s, none)
until_error f s (x ∷ xs) =
    let r = f s x in elim r.1 [ none ↦ until_error f r.0 xs | some e ↦ (r.0, some e) ]

module _ {ℓ κ} {S : Type ℓ} {A : Type κ} (f : S → A → S × Option Error) where
  pub until_error-ok :
      {s s' : S} {x : A} (xs : List A)
      → f s x ≡ (s', none)
      → until_error f s (x ∷ xs) ≡ until_error f s' xs
  unfolding until_error
  until_error-ok xs = ap λ r. elim r.1 as (λ _. S × Option Error) [
    | none ↦ until_error f r.0 xs
    | some e ↦ (r.0, some e)
  ]

  pub until_error-failed :
      {s s' : S} {x : A} {e : Error} (xs : List A)
      → f s x ≡ (s', some e)
      → until_error f s (x ∷ xs) ≡ (s', some e)
  unfolding until_error
  until_error-failed xs = ap λ r. elim r.1 as (λ _. S × Option Error) [
    | none ↦ until_error f r.0 xs
    | some e ↦ (r.0, some e)
  ]

-- clearCollectingState: the counters stop at 0.
unfoldable pub clear_collecting_state : Worker → FlowState → Worker × FlowState
clear_collecting_state w st = (
  record w {
    held_bytes = w.held_bytes - data_bytes st.held_packets;
    reassembly_bytes = elim st.reassembler [
      | none ↦ w.reassembly_bytes
      | some b ↦ w.reassembly_bytes - b.total_bytes
    ];
  },
  record st { held_packets = []; template = none; reassembler = none },
)

-- What a step on a flow gives: the worker, the flow's state, and the error.
abbrev pub Outcome : Type 0
Outcome = Worker × FlowState × Option Error

-- The end of failOpen, behind its loop: on an error nothing is cleared.
unfoldable pub pass_flow : FlowState → Worker × Option Error → Outcome
pass_flow st (w, some e) = (w, st, some e)
pass_flow st (w, none) =
    let c = clear_collecting_state w (record st { state = state_pass_through }) in (c.0, c.1, none)

module _ (ad : Adapter) where
  -- failOpen: the held packets go out as they came.
  unfoldable pub fail_open : Worker → FlowState → Outcome
  fail_open w st = pass_flow st (until_error (send ad) w st.held_packets)

  -- dropHeld
  unfoldable pub drop_held : Worker → FlowState → Worker × Option Error
  drop_held w st = until_error (drop_packet ad) w st.held_packets
