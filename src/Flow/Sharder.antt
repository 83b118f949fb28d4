-- ===== src/Flow/Sharder.antt =====
-- internal/flow/sharder.go: a flow's worker, by the 64-bit FNV-1a hash of its key.
pub mod Laws
use gov_pass.Prelude.{ℕ, ◌+◌, ◌*◌, ◌/◌, ◌%◌, ◌^◌, List, [], ◌∷◌, if◌then◌else◌, bit_xor}
use gov_pass.Prelude.Int.{ℤ, pos, ltb_ℤ, pos_part}
use gov_pass.Flow.{Key}

pub record Sharder : Type 0 where
  pub workers : ℕ

unfoldable pub new_sharder : ℤ → Sharder
new_sharder workers = record { workers = if ltb_ℤ workers (pos 1) then 1 else pos_part workers }

-- hash/fnv's New64a: the offset basis, and for each byte a xor and a product by the prime.
abbrev pub fnv_write : ℕ → List ℕ → ℕ
fnv_write h [] = h
fnv_write h (x ∷ xs) = fnv_write (bit_xor h x * 0x100000001b3 % 2 ^ 64) xs

abbrev pub fnv_offset : ℕ
fnv_offset = 0xcbf29ce484222325

-- The five bytes behind the addresses.
abbrev port_bytes : Key → List ℕ
port_bytes k =
    (k.src_port / 2 ^ 8 % 2 ^ 8)
    ∷ (k.src_port % 2 ^ 8)
    ∷ (k.dst_port / 2 ^ 8 % 2 ^ 8)
    ∷ (k.dst_port % 2 ^ 8)
    ∷ k.proto
    ∷ []

-- The hash of a key, written in the three pieces.
unfoldable pub flow_hash : Key → ℕ
flow_hash k = fnv_write (fnv_write (fnv_write fnv_offset k.src_ip) k.dst_ip) (port_bytes k)

-- Sharder.Index
pub shard_index : Sharder → Key → ℕ
shard_index s k = flow_hash k % s.workers
