-- ===== src/Flow.antt =====
-- internal/flow/flow.go: the flow key, a flow's state and the table of flows.
pub mod Keys
pub mod Tables
pub mod Sharder
use gov_pass.Prelude.{
  ℕ, suc, Bool, true, false, ◌&&◌, Option, none, some, List, [], ◌∷◌, ◌==◌, if◌then◌else◌, length,
}
use gov_pass.Packet.{Packet, Meta}
use gov_pass.Reassembly.{Buffer}

pub record Key : Type 0 where
  pub src_ip : List ℕ
  pub dst_ip : List ℕ
  pub src_port : ℕ
  pub dst_port : ℕ
  pub proto : ℕ

unfoldable pub key_from_meta : Meta → Key
key_from_meta m = record {
  src_ip = m.src_ip;
  dst_ip = m.dst_ip;
  src_port = m.src_port;
  dst_port = m.dst_port;
  proto = m.proto;
}

pub data State : Type 0 where
  state_new state_collecting state_split_ready state_injected state_pass_through : State
  state_closed : State

abbrev pub is_state_new : State → Bool
is_state_new state_new = true
is_state_new _ = false

abbrev pub is_state_collecting : State → Bool
is_state_collecting state_collecting = true
is_state_collecting _ = false

-- Injected or PassThrough: the flow is done with.
abbrev pub is_state_done : State → Bool
is_state_done state_injected = true
is_state_done state_pass_through = true
is_state_done _ = false

-- Times are nanoseconds since the start of the program, 0 the zero time; nil pointers are `none`.
pub record FlowState : Type 0 where
  pub state : State
  pub base_seq : ℕ
  pub last_active : ℕ
  pub collect_start : ℕ
  pub first_payload_len : ℕ
  pub template : Option Packet
  pub held_packets : List Packet
  pub reassembler : Option Buffer
  pub processed : Bool

unfoldable pub new_flow_state : ℕ → FlowState
new_flow_state now = record {
  state = state_new;
  base_seq = 0;
  last_active = now;
  collect_start = 0;
  first_payload_len = 0;
  template = none;
  held_packets = [];
  reassembler = none;
  processed = false;
}

-- Go's `==` on [4]byte arrays and on keys.
unfoldable pub bytes_eq : List ℕ → List ℕ → Bool
bytes_eq [] [] = true
bytes_eq [] (y ∷ ys) = false
bytes_eq (x ∷ xs) [] = false
bytes_eq (x ∷ xs) (y ∷ ys) = x == y && bytes_eq xs ys

pub key_eq : Key → Key → Bool
key_eq a b =
    bytes_eq a.src_ip b.src_ip
    && bytes_eq a.dst_ip b.dst_ip
    && a.src_port == b.src_port
    && a.dst_port == b.dst_port
    && a.proto == b.proto

-- The Go map, with one entry for each key.
abbrev pub Table : Type 0
Table = List (Key × FlowState)

abbrev pub new_table : Table
new_table = []

-- Table.Len
abbrev pub table_len : Table → ℕ
table_len t = length t

-- Table.Get
unfoldable pub table_get : Table → Key → Option FlowState
table_get [] k = none
table_get ((j, st) ∷ t) k = if key_eq j k then some st else table_get t k

-- A write through the pointer that the table holds at `k`; nothing if `k` is not there.
unfoldable pub table_set : Table → Key → FlowState → Table
table_set [] k st = []
table_set ((j, old) ∷ t) k st = if key_eq j k then (j, st) ∷ t else (j, old) ∷ table_set t k st

-- Table.GetOrCreate: the table, and the state that stands in it at `k`.
pub get_or_create : Table → Key → ℕ → Table × FlowState
get_or_create t k now = elim (table_get t k) [
  | some st ↦ (t, st)
  | none ↦ ((k, new_flow_state now) ∷ t, new_flow_state now)
]

-- Table.Delete
unfoldable pub table_delete : Table → Key → Table
table_delete [] k = []
table_delete ((j, st) ∷ t) k = if key_eq j k then t else (j, st) ∷ table_delete t k
