-- ===== src/Index/Whole.antt =====
-- The constructor of Index in src/index.cc: InitDirs, then InitSplits with its weight. The splits are
-- what GetDirtyCandidates gives to its tasks.
use gitstatus.Common.Outcome.{Outcome, ok, aborts, ◌>>=◌}
use gitstatus.Common.{
  ℕ, ◌+◌, ◌*◌, ◌<◌, ◌≡◌, refl, sym, Bool, true, List, [], ◌∷◌, map, length, leb, All, if◌then◌else◌,
  arith, Bool-cases, inl, inr,
}
use gitstatus.Text.{Bytes}
use gitstatus.Index.Dirs.{Dir, init_dirs, weight}
use gitstatus.Index.Dirs.Preorder.{init_dirs-IsPreorder}
use gitstatus.Index.Dirs.Walk.{IsClean, places}
use gitstatus.Index.Place.{IsPreorder}
use gitstatus.Index.Splits.{init_splits, min_shard_weight, num_shards, shard_weight, splits_of}
use gitstatus.Index.Splits.Partition.{init_splits_small, splits_of-Climbs, sum}
use gitstatus.Index.Candidates.{shards_of}
use gitstatus.Index.Candidates.Shards.{flatten, shards_of-flatten}

-- Index::Index: dirs_ and splits_.
unfoldable pub new_index : Bool → ℕ → List Bytes → Outcome (List Dir × List ℕ)
unfolding init_dirs init_splits
new_index cs num_threads entries = do
  (dirs, total_weight) ← init_dirs cs entries
  splits ← init_splits num_threads total_weight (map weight dirs)
  ok (dirs, splits)

length-map : {A B : Type 0} (f : A → B) (l : List A) → length (map f l) ≡ length l
length-map f [] = refl
length-map f (x ∷ l) = omega (arith, length-map f l)

-- The splits that InitSplits makes for some directories, before its CHECKs.
abbrev pub splits_for : ℕ → List Dir → List ℕ
splits_for num_threads ds =
    splits_of (shard_weight num_threads (sum (map weight ds))) (map weight ds)

init_splits_lem :
    (num_threads total : ℕ) (ws : List ℕ)
    → let splits = splits_of (shard_weight num_threads total) ws in
      init_splits num_threads total ws
      ≡ (if leb (length splits) (num_shards num_threads + 1) then ok splits else aborts)
unfolding init_splits
init_splits_lem num_threads total ws =
    let splits = splits_of (shard_weight num_threads total) ws in
    elim (Bool-cases (leb (length splits) (num_shards num_threads + 1))) [
      | inl e ↦ rw (e, (splits_of-Climbs (shard_weight num_threads total) ws).2)
      | inr e ↦ rw e
    ]

-- For an index whose paths have no directory that is empty or ".", with paths compared byte by byte:
-- the constructor finds the directories in preorder, and splits them so that the tasks of
-- GetDirtyCandidates scan each of them once, in order. It returns these unless there are more than
-- 16 splits for each thread and one more, when a CHECK fails and the process aborts; and it always
-- returns if the directories weigh less than 512 for each of the wanted shards.
pub new_index_lem :
    (num_threads : ℕ) (entries : List Bytes)
    → All IsClean entries
    → (ds : List Dir) × IsPreorder (places ds)
      × (flatten (shards_of (splits_for num_threads ds) ds) ≡ ds)
      × (new_index true num_threads entries ≡ (
          if leb (length (splits_for num_threads ds)) (num_shards num_threads + 1)
          then ok (ds, splits_for num_threads ds)
          else aborts))
      × (sum (map weight ds) < min_shard_weight * num_shards num_threads
          → new_index true num_threads entries ≡ ok (ds, splits_for num_threads ds))
unfolding new_index
new_index_lem num_threads entries clean =
    let (ds, made, order) = init_dirs-IsPreorder entries clean in
    let run : (m : Outcome (List ℕ))
        → init_splits num_threads (sum (map weight ds)) (map weight ds) ≡ m
        → new_index true num_threads entries ≡ (m >>= λ splits. ok (ds, splits)) =
      λ m e. rw (made, e) in
    (
      ds,
      order,
      shards_of-flatten (shard_weight num_threads (sum (map weight ds))) (map weight ds) ds
          (sym (length-map weight ds)),
      elim (Bool-cases (leb (length (splits_for num_threads ds)) (num_shards num_threads + 1))) [
        | inl e ↦ rw (run _ (init_splits_lem num_threads _ (map weight ds)), e)
        | inr e ↦ rw (run _ (init_splits_lem num_threads _ (map weight ds)), e)
      ],
      λ small. run _ (init_splits_small num_threads (map weight ds) small),
    )
