-- ===== src/Index/Splits/Partition.antt =====
-- The splits of `InitSplits` of src/index.cc as a partition of the directories.
use gitstatus.Common.{
  leb→le, Bool-cases, List, [], arith, if◌then◌else◌, inl, inr, leb, length, length-append, refl,
  true, ℕ, ◌*◌, ◌++◌, ◌+◌, ◌<◌, ◌==◌, ◌∷◌, ◌≡◌, ◌≤◌,
}
use gitstatus.Common.Outcome.{ok}
use gitstatus.Index.Splits.{
  ascends, back_or, close_splits, init_splits, min_shard_weight, num_shards, shard_weight,
  split_loop, splits_of,
}

abbrev pub sum : List ℕ → ℕ
sum [] = 0
sum (x ∷ xs) = x + sum xs

-- The numbers go up from i, and end at n.
abbrev pub Climbs : ℕ → ℕ → List ℕ → Type 0
Climbs i n [] = i ≡ n
Climbs i n (x ∷ xs) = (i < x) × Climbs x n xs

-- `close_splits` behind a first split b.
close_from : ℕ → ℕ → List ℕ → List ℕ
close_from b n splits = if back_or b splits == n then splits else splits ++ n ∷ []

close_from-cons : (b n x : ℕ) (l : List ℕ) → close_from b n (x ∷ l) ≡ x ∷ close_from x n l
unfolding close_from
close_from-cons b n x l = ground arith

split_loop-Climbs :
    (shard b i w n : ℕ) (ws : List ℕ)
    → b ≤ i
    → i + length ws ≡ n
    → Climbs b n (close_from b n (split_loop shard i w ws))
unfolding split_loop
split_loop-Climbs shard b i w n [] h e = unfold close_from in ground arith
split_loop-Climbs shard b i w n (x ∷ ws) h e = elim (Bool-cases (leb shard (w + x))) [
  | inl cut ↦
      rw (cut, split_loop, close_from-cons b n (i + 1) (split_loop shard (i + 1) 0 ws))
        (omega arith, split_loop-Climbs shard (i + 1) (i + 1) 0 n ws (omega arith) (omega arith))
  | inr more ↦
      rw (more, split_loop)
        (split_loop-Climbs shard b (i + 1) (w + x) n ws (omega arith) (omega arith))
]

Climbs-ascends : (i n : ℕ) (l : List ℕ) → Climbs i n l → ascends (i ∷ l) ≡ true
Climbs-ascends i n [] c = refl
Climbs-ascends i n (x ∷ l) c = ground (arith, Climbs-ascends x n l c.1)

-- The tail of the splits, behind the 0 that they begin with.
pub tail_splits : ℕ → List ℕ → List ℕ
unfolding close_from
tail_splits shard ws = close_from 0 (length ws) (split_loop shard 0 0 ws)

splits_of-cons : (shard : ℕ) (ws : List ℕ) → splits_of shard ws ≡ 0 ∷ tail_splits shard ws
unfolding splits_of tail_splits
splits_of-cons shard ws = ground arith

-- Whatever the weights, the splits begin with 0, strictly ascend, and end at the number of
-- directories: every task gets at least one directory, and every directory is in one task.
pub splits_of-Climbs :
    (shard : ℕ) (ws : List ℕ)
    → (splits_of shard ws ≡ 0 ∷ tail_splits shard ws)
      × Climbs 0 (length ws) (tail_splits shard ws)
      × (ascends (splits_of shard ws) ≡ true)
splits_of-Climbs shard ws = (
  splits_of-cons shard ws,
  climbs,
  rw (splits_of-cons shard ws) (Climbs-ascends 0 (length ws) (tail_splits shard ws) climbs),
)
  where
    climbs : Climbs 0 (length ws) (tail_splits shard ws)
    climbs =
        unfold tail_splits in
        split_loop-Climbs shard 0 0 0 (length ws) ws (omega arith) (omega arith)

-- Each split that the loop makes closes a shard of at least the wanted weight.
split_loop_weight :
    (shard i w : ℕ) (ws : List ℕ) → length (split_loop shard i w ws) * shard ≤ w + sum ws
unfolding split_loop
split_loop_weight shard i w [] = omega arith
split_loop_weight shard i w (x ∷ ws) = elim (Bool-cases (leb shard (w + x))) [
  | inl cut ↦
      rw (cut, split_loop)
        (omega (arith, split_loop_weight shard (i + 1) 0 ws, leb→le shard (w + x) cut))
  | inr more ↦ rw (more, split_loop) (omega (arith, split_loop_weight shard (i + 1) (w + x) ws))
]

length-close_splits : (n : ℕ) (l : List ℕ) → length (close_splits n l) ≤ length l + 1
length-close_splits n l = elim (Bool-cases (back_or 0 l == n)) [
  | inl e ↦ rw e (omega arith)
  | inr e ↦ rw e (omega (arith, length-append l (n ∷ [])))
]

length-splits_of :
    (shard : ℕ) (ws : List ℕ) → length (splits_of shard ws) ≤ length (split_loop shard 0 0 ws) + 2
unfolding splits_of
length-splits_of shard ws =
    omega (arith, length-close_splits (length ws) (0 ∷ split_loop shard 0 0 ws))

below_of_mul : (l shard n : ℕ) → 512 ≤ shard → l * shard < 512 * n → l < n
below_of_mul l shard n h k = grind arith

-- While the directories weigh less than 512 for each of the wanted shards, the CHECKs of
-- `InitSplits` hold and it returns its splits.
pub init_splits_small :
    (num_threads : ℕ) (ws : List ℕ)
    → sum ws < min_shard_weight * num_shards num_threads
    → init_splits num_threads (sum ws) ws ≡ ok (splits_of (shard_weight num_threads (sum ws)) ws)
unfolding init_splits
init_splits_small num_threads ws h =
    let shard = shard_weight num_threads (sum ws) in
    ground (
      arith,
      splits_of-Climbs shard ws,
      length-splits_of shard ws,
      below_of_mul (length (split_loop shard 0 0 ws)) shard (num_shards num_threads),
      split_loop_weight shard 0 0 ws,
    )
