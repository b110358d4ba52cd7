-- ===== src/Index/Splits/Overflow.antt =====
-- Weights of directories at the bound of the CHECK on the number of splits in src/index.cc.
use gitstatus.Index.Splits.{
  shard_weight, back_or, init_splits, min_shard_weight, num_shards, split_loop, splits_of,
}
use gitstatus.Common.{
  List, [], arith, length, length-append, suc, zero, ℕ, ◌*◌, ◌++◌, ◌+◌, ◌/◌, ◌<◌, ◌∷◌, ◌≡◌, ◌≤◌,
}
use gitstatus.Common.Outcome.{aborts}
use gitstatus.Index.Splits.Partition.{sum}

abbrev pub replicate : ℕ → ℕ → List ℕ
replicate zero q = []
replicate (suc n) q = q ∷ replicate n q

-- Directories that each fill a shard, and a light one behind them.
abbrev pub filled : ℕ → ℕ → ℕ → List ℕ
filled n q x = replicate n q ++ x ∷ []

split_loop-filled :
    (n q x i : ℕ)
    → x < q
    → (length (split_loop q i 0 (filled n q x)) ≡ n)
      × (back_or i (split_loop q i 0 (filled n q x)) ≡ i + n)
unfolding split_loop
split_loop-filled zero q x i h = ground arith
split_loop-filled (suc n) q x i h = ground (arith, split_loop-filled n q x (i + 1) h)

length-filled : (n q x : ℕ) → length (filled n q x) ≡ n + 1
length-filled zero q x = omega arith
length-filled (suc n) q x = omega (arith, length-filled n q x)

pub sum-filled : (n q x : ℕ) → sum (filled n q x) ≡ n * q + x
sum-filled zero q x = omega arith
sum-filled (suc n) q x = omega (arith, sum-filled n q x)

div-eq : (n q x : ℕ) → x < n → (n * q + x) / n ≡ q
div-eq n q x h = grind arith

length-splits_filled : (n q x : ℕ) → x < q → length (splits_of q (filled n q x)) ≡ n + 2
unfolding splits_of
length-splits_filled n q x h = ground (
  arith,
  split_loop-filled n q x 0 h,
  length-filled n q x,
  length-append (0 ∷ split_loop q 0 0 (filled n q x)) (length (filled n q x) ∷ []),
)

-- The CHECK on the number of splits, for a given weight of the shards.
init_splits_above :
    (num_threads total shard : ℕ) (ws : List ℕ)
    → shard_weight num_threads total ≡ shard
    → num_shards num_threads + 1 < length (splits_of shard ws)
    → init_splits num_threads total ws ≡ aborts
unfolding init_splits
init_splits_above num_threads total shard ws e h = rw (e, init_splits) (ground arith)

-- If as many directories as there are wanted shards weigh exactly q, at least 512, and one more
-- weighs less than q and less than the number of shards, then `InitSplits` aborts: the last shard is
-- one more than its CHECK on the number of splits allows.
pub init_splits_aborts :
    (num_threads q x : ℕ)
    → min_shard_weight ≤ q
    → x < q
    → x < num_shards num_threads
    → let ws = filled (num_shards num_threads) q x in init_splits num_threads (sum ws) ws ≡ aborts
init_splits_aborts num_threads q x h k l =
    init_splits_above num_threads _ q (filled (num_shards num_threads) q x)
      (rw (sum-filled (num_shards num_threads) q x, div-eq (num_shards num_threads) q x l)
        (omega arith))
      (omega (arith, length-splits_filled (num_shards num_threads) q x k))
