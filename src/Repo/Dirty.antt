-- ===== src/Repo/Dirty.antt =====
-- `Repo::StartDirtyScan` of src/repo.cc: the dirty candidates, sorted, are grouped by shard, and each
-- group becomes one call of git_diff_index_to_workdir. Running off the end of `shards_`, which is
-- undefined in C++, is `none`.
pub mod Seek
pub mod Group
use gitstatus.Common.{
  Bool, List, Option, [], false, if◌then◌else◌, length, none, not, some, suc, true, zero, ℕ, ◌&&◌,
  ◌||◌, ◌∷◌,
}
use gitstatus.Repo.Shards.{is_empty, Shard}
use gitstatus.Text.{Bytes, str_lt}
use mathlib.Core.Option

-- One call of git_diff_index_to_workdir: range_start, range_end and pathspec.
pub record Diff : Type 0 where
  pub range_start : Bytes
  pub range_end : Bytes
  pub pathspec : List Bytes

-- while (str.Lt(*p, shard->start) || (!shard->end.empty() && str.Lt(shard->end, *p))) ++shard;
pub is_outside : Bool → Bytes → Shard → Bool
is_outside cs p s = str_lt cs p s.start || (not (is_empty s.end) && str_lt cs s.end p)

pub seek : Bool → Bytes → List Shard → Option (List Shard)
unfolding is_outside
seek cs p [] = none
seek cs p (s ∷ r) = let rest = seek cs p r in if is_outside cs p s then rest else some (s ∷ r)

-- while (++p != paths.end() && (shard->end.empty() || !str.Lt(shard->end, *p)))
pub same_shard : Bool → Shard → Bytes → Bool
same_shard cs s p = is_empty s.end || not (str_lt cs s.end p)

-- The paths that join the group, and those behind it.
pub span_shard : Bool → Shard → List Bytes → List Bytes × List Bytes
unfolding same_shard
span_shard cs s [] = ([], [])
span_shard cs s (p ∷ ps) =
    let rest = span_shard cs s ps in
    if same_shard cs s p then (p ∷ rest.0, rest.1) else ([], p ∷ ps)

abbrev pub last_or : Bytes → List Bytes → Bytes
last_or d [] = d
last_or d (p ∷ ps) = last_or p ps

-- The loop over the paths, with at most `fuel` rounds; a round takes a path, so as many rounds as
-- paths are enough.
pub dirty_diffs : Bool → ℕ → List Shard → List Bytes → Option (List Diff)
unfolding seek span_shard
dirty_diffs cs zero shards ps = some []
dirty_diffs cs (suc fuel) shards [] = some []
dirty_diffs cs (suc fuel) shards (p ∷ ps) = elim (seek cs p shards) [
  | none ↦ none
  | some [] ↦ none
  | some (s ∷ r) ↦
      let (group, rest) = span_shard cs s ps in
      Option.map
        (◌∷◌ (record { range_start = p; range_end = last_or p group; pathspec = p ∷ group }))
        (dirty_diffs cs fuel (s ∷ r) rest)
]

-- Repo::StartDirtyScan
pub start_dirty_scan : Bool → List Shard → List Bytes → Option (List Diff)
unfolding dirty_diffs
start_dirty_scan cs shards paths = dirty_diffs cs (length paths) shards paths
