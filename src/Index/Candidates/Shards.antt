-- ===== src/Index/Candidates/Shards.antt =====
-- The directories of the tasks of GetDirtyCandidates of src/index.cc.
use gitstatus.Common.{
  drop_all, drop_further, take-drop_all, List, [], ap, arith, drop, length, sym, take, ℕ, ◌++◌, ◌-◌,
  ◌∙◌, ◌∷◌, ◌≡◌,
}
use mathlib.Core.Path.{subst}
use gitstatus.Index.Candidates.{shards_of}
use gitstatus.Index.Splits.Partition.{Climbs, splits_of-Climbs, tail_splits}
use gitstatus.Index.Splits.{splits_of}

module _ {A : Type 0} where
  abbrev pub flatten : List (List A) → List A
  flatten [] = []
  flatten (xs ∷ rest) = xs ++ flatten rest

  shards_of-Climbs :
      (from : ℕ) (splits : List ℕ) (xs : List A)
      → Climbs from (length xs) splits
      → flatten (shards_of (from ∷ splits) xs) ≡ drop from xs
  unfolding shards_of
  shards_of-Climbs from [] xs c = sym (ap (λ k. drop k xs) c ∙ drop_all xs)
  shards_of-Climbs from (to ∷ splits) xs c =
      ap (λ l. take (to - from) (drop from xs) ++ l)
        (shards_of-Climbs to splits xs c.1
          ∙ ap (λ k. drop k xs) (omega (arith, c.0))
          ∙ sym (drop_further from (to - from) xs))
      ∙ take-drop_all (to - from) (drop from xs)

  -- For as many directories as weights, the tasks scan every directory once: their shards, one behind
  -- the other, are the directories.
  pub shards_of-flatten :
      (shard : ℕ) (weights : List ℕ) (xs : List A)
      → length xs ≡ length weights
      → flatten (shards_of (splits_of shard weights) xs) ≡ xs
  shards_of-flatten shard weights xs e =
      let s = splits_of-Climbs shard weights in
      ap (λ l. flatten (shards_of l xs)) s.0
      ∙ shards_of-Climbs 0 (tail_splits shard weights) xs
          (subst (λ n. Climbs 0 n (tail_splits shard weights)) (sym e) s.1)
