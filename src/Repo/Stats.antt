-- ===== src/Repo/Stats.antt =====
-- GetIndexStats, StartStagedScan and RunAsync of src/repo.cc. The results of libgit2 are arguments,
-- and so are the candidates that the index scan gives. A scan that runs on its own is what its
-- callbacks and its end do to the flags, in the order of the shards; Repo/Notify/Interleave is about
-- other orders.
pub mod Held
pub mod Marks
pub mod Flagged
use gitstatus.Common.{
  Bool, List, Option, [], false, if◌then◌else◌, ltb, none, not, some, true, ℕ, ◌∷◌,
}
use gitstatus.Common.Outcome.{Outcome, ok, verify, ◌>>=◌, ◌>>◌}
use gitstatus.Index.Scan.{t_false, t_unknown}
use gitstatus.Repo.{IndexStats}
use gitstatus.Repo.Notify.{Delta, Flags, notify_dirty, notify_staged, skip, stop}
use gitstatus.Repo.Notify.Interleave.{then}
use gitstatus.Text.{Bytes}

-- The end of a scan: 0, GIT_EUSER, or an error, after which the scan throws.
pub data DiffRc : Type 0 where
  diff_ok diff_stopped diff_failed : DiffRc

-- A scan: the differences that libgit2 passes to the callback while it is not stopped, and the end.
pub record DiffRun : Type 0 where
  pub deltas : List Delta
  pub rc : DiffRc

-- The function that RunAsync passes to the pool: an exception sets the error flag.
unfoldable pub run_async : DiffRc → Flags → Flags
run_async diff_ok f = f
run_async diff_stopped f = f
run_async diff_failed f = record f { error = true }

-- The callbacks of one staged scan: the first stops it.
unfoldable pub staged_deltas : List Delta → Flags → Flags
unfolding notify_staged
staged_deltas [] f = f
staged_deltas (d ∷ ds) f = (notify_staged f).0

-- The callbacks of one dirty scan.
unfoldable pub dirty_deltas : List Delta → Flags → Flags
unfolding notify_dirty
dirty_deltas [] f = f
dirty_deltas (d ∷ ds) f = elim (notify_dirty d f).1 [
  | stop ↦ (notify_dirty d f).0
  | skip ↦ dirty_deltas ds (notify_dirty d f).0
]

unfoldable pub run_scans : (List Delta → Flags → Flags) → List DiffRun → Flags → Flags
unfolding run_async
run_scans scan [] f = f
run_scans scan (r ∷ rs) f = run_scans scan rs (run_async r.rc (scan r.deltas f))

-- What libgit2 and the index say while GetIndexStats runs.
pub record StatsEnv : Type 0 where
  -- git_index_read_ex if there is an index already, git_repository_index and git_attr_get if not
  pub index_ok : Bool
  pub index_size : ℕ
  -- git_commit_lookup and git_commit_tree
  pub commit_ok : Bool
  pub tree_ok : Bool
  -- git_diff_tree_to_index for each shard
  pub staged_runs : List DiffRun
  -- GetDirtyCandidates
  pub candidates : Outcome (List Bytes)
  -- git_diff_index_to_workdir for each group of candidates
  pub dirty_runs : List Bytes → List DiffRun

-- Store(…) at the beginning.
abbrev pub reset_flags : Flags
reset_flags = record { error = false; staged = false; unstaged = t_unknown; untracked = t_unknown }

-- StartStagedScan
unfoldable pub start_staged_scan : StatsEnv → Flags → Outcome Flags
unfolding run_scans staged_deltas
start_staged_scan env f = do
  verify env.commit_ok
  verify env.tree_ok
  ok (run_scans staged_deltas env.staged_runs f)

-- if (head) … else if (index_size > 0) …
unfoldable pub staged_part : StatsEnv → Option Bytes → Flags → Outcome Flags
unfolding start_staged_scan
staged_part env (some head) f = start_staged_scan env f
staged_part env none f = ok (if ltb 0 env.index_size then record f { staged = true } else f)

-- StartDirtyScan returns at once if there are no candidates.
unfoldable pub dirty_scans : StatsEnv → List Bytes → Flags → Flags
unfolding run_scans dirty_deltas
dirty_scans env [] f = f
dirty_scans env (p ∷ ps) f = run_scans dirty_deltas (env.dirty_runs (p ∷ ps)) f

-- if (index_size <= dirty_max_index_size)
unfoldable pub dirty_part : StatsEnv → ℕ → Flags → Outcome Flags
unfolding dirty_scans
dirty_part env limit f =
    if ltb limit env.index_size
    then ok f
    else (env.candidates >>= λ ps.
        ok (dirty_scans env ps (record f { unstaged = t_false; untracked = t_false })))

-- GetIndexStats
unfoldable pub get_index_stats : StatsEnv → Option Bytes → ℕ → Outcome IndexStats
unfolding staged_part dirty_part
get_index_stats env head limit = do
  verify env.index_ok
  f ← staged_part env head reset_flags
  g ← dirty_part env limit f
  verify (not g.error)
  ok (record { has_staged = g.staged; has_unstaged = g.unstaged; has_untracked = g.untracked })
