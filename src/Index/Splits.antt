-- ===== src/Index/Splits.antt =====
-- `Index::InitSplits` of src/index.cc: the directories are cut into shards of about equal weight, one
-- for each task. Sizes and weights stay below 2 ^ 64, so nothing wraps.
pub mod Partition
pub mod Overflow
use gitstatus.Common.Outcome.{◌>>=◌, ◌>>◌, Outcome, check, ok}
use gitstatus.Common.{
  Bool, List, [], if◌then◌else◌, leb, length, ltb, max, true, ℕ, ◌&&◌, ◌*◌, ◌++◌, ◌+◌, ◌/◌, ◌==◌,
  ◌∷◌,
}

-- kMinShardWeight
abbrev pub min_shard_weight : ℕ
min_shard_weight = 512

-- kNumShards
abbrev pub num_shards : ℕ → ℕ
num_shards num_threads = 16 * num_threads

abbrev pub shard_weight : ℕ → ℕ → ℕ
shard_weight num_threads total_weight = max min_shard_weight (total_weight / num_shards num_threads)

-- The `for` loop, from directory i on, with the weight w gathered since the last split.
unfoldable pub split_loop : ℕ → ℕ → ℕ → List ℕ → List ℕ
split_loop shard i w [] = []
split_loop shard i w (x ∷ ws) =
    let cut = (i + 1) ∷ split_loop shard (i + 1) 0 ws in
    let go_on = split_loop shard (i + 1) (w + x) ws in if leb shard (w + x) then cut else go_on

abbrev pub back_or : ℕ → List ℕ → ℕ
back_or d [] = d
back_or d (x ∷ xs) = back_or x xs

-- if (splits_.back() != dirs_.size()) splits_.push_back(dirs_.size());
abbrev pub close_splits : ℕ → List ℕ → List ℕ
close_splits n splits = if back_or 0 splits == n then splits else splits ++ n ∷ []

-- std::is_sorted with std::adjacent_find: each split is below the next.
abbrev pub ascends : List ℕ → Bool
ascends [] = true
ascends (x ∷ []) = true
ascends (x ∷ y ∷ r) = ltb x y && ascends (y ∷ r)

-- splits_, before the CHECKs.
unfoldable pub splits_of : ℕ → List ℕ → List ℕ
unfolding split_loop
splits_of shard weights = close_splits (length weights) (0 ∷ split_loop shard 0 0 weights)

-- Index::InitSplits, given the weights of the directories.
unfoldable pub init_splits : ℕ → ℕ → List ℕ → Outcome (List ℕ)
init_splits num_threads total_weight weights =
    let splits = splits_of (shard_weight num_threads total_weight) weights in
    do check (leb (length splits) (num_shards num_threads + 1)); check (ascends splits); ok splits
