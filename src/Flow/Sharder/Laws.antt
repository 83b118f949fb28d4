-- ===== src/Flow/Sharder/Laws.antt =====
-- The choice of a worker in internal/flow/sharder.go.
use native.Mathlib.Nat.{mod-lt}
use gov_pass.Prelude.{◌≤◌, ◌<◌, ◌≡◌, arith}
use gov_pass.Prelude.Int.{ℤ, pos_part}
use gov_pass.Flow.{Key}
use gov_pass.Flow.Sharder.{new_sharder, flow_hash, shard_index}

-- A new sharder has at least one worker, and the number asked for if that is positive.
pub new_sharder_lem :
    (n : ℤ)
    → (1 ≤ (new_sharder n).workers) × (1 ≤ pos_part n → (new_sharder n).workers ≡ pos_part n)
unfolding new_sharder
new_sharder_lem n = ground arith

-- The index of any key is that of a worker that exists.
pub shard_index-lt : (n : ℤ) (k : Key) → shard_index (new_sharder n) k < (new_sharder n).workers
unfolding shard_index
shard_index-lt n k = mod-lt (flow_hash k) (new_sharder_lem n).0
