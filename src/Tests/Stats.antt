-- ===== src/Tests/Stats.antt =====
-- Inputs for GetIndexStats, RepoCache and InitDirs.
use gitstatus.Common.{List, [], false, map, none, refl, some, true, ℕ, ◌∷◌, ◌≡◌}
use gitstatus.Text.Sort.{str_sort}
use gitstatus.Index.Dirs.{
  weight, Dir, add_entries, add_entry, common_dir, common_loop, init_dirs, pop_dir, pop_dirs,
  push_dirs,
}
use gitstatus.Index.Dirs.Total.{init_dirs-total}
use gitstatus.Index.Splits.Partition.{sum}
use gitstatus.Cache.{Cache, found, open_cached, set}
use gitstatus.Cache.Open.{open_cached-again}
use gitstatus.Common.{Bool}
use gitstatus.Index.Whole.{new_index}
use gitstatus.Repo.Stats.Held.Current.{Reports, Current, hold_rounds-Current}
use gitstatus.Repo.Stats.Held.{Round, nothing_held, refresh, hold_round, hold_rounds}
use gitstatus.Common.Outcome.{Ensures, Outcome, ok}
use gitstatus.Index.Scan.{t_false, t_true}
use gitstatus.Repo.Notify.{
  exchange_flag, is_tracked, is_untracked, load_other, notify_dirty, notify_staged,
}
use gitstatus.Repo.Stats.{
  StatsEnv, diff_ok, diff_stopped, dirty_deltas, dirty_part, dirty_scans, get_index_stats,
  run_async, run_scans, staged_deltas, staged_part, start_staged_scan,
}
use gitstatus.Repo.Stats.Flagged.{IsStats, get_index_stats-IsStats}
use gitstatus.Text.{Bytes, cmp_prefix, cmp_views, codes, str_eq, str_lt}

abbrev env : StatsEnv
env = record {
  index_ok = true;
  index_size = 2;
  commit_ok = true;
  tree_ok = true;
  staged_runs =
      record { deltas = []; rc = diff_ok }
      ∷ record { deltas = is_tracked ∷ []; rc = diff_stopped }
      ∷ [];
  candidates = ok (codes "a" ∷ []);
  dirty_runs = λ _. record { deltas = is_untracked ∷ []; rc = diff_ok } ∷ [];
}

stats_run :
    get_index_stats env (some (codes "h")) 100
    ≡ ok (record { has_staged = true; has_unstaged = t_false; has_untracked = t_true })
unfolding get_index_stats staged_part start_staged_scan run_scans staged_deltas notify_staged
    run_async dirty_part dirty_scans dirty_deltas notify_dirty exchange_flag load_other
stats_run = refl

get_index_stats-IsStats_example :
    Ensures (IsStats env (some (codes "h")) 100) (get_index_stats env (some (codes "h")) 100)
get_index_stats-IsStats_example = get_index_stats-IsStats env (some (codes "h")) 100

abbrev no_repos : Cache Bytes
no_repos dir = none

abbrev one_repo : Cache Bytes
one_repo = set no_repos (codes "/r/") (some (some (codes "/r/")))

open_cached-again_example :
    open_cached (λ d. d) one_repo (codes "/r/x") (found (some (codes "/r/")) true false false)
    ≡ (one_repo, ok (some (codes "/r/")))
open_cached-again_example =
    open_cached-again (λ d. d) one_repo one_repo (codes "/r") (codes "/r/x") (codes "/r/") false
      true true true false false (codes "/r/") first
  where
    first :
        open_cached (λ d. d) one_repo (codes "/r") (found (some (codes "/r/")) false true true)
        ≡ (one_repo, ok (some (codes "/r/")))
    first = unfold open_cached str_eq cmp_views cmp_prefix in refl

-- The directory a/b is left for a/c, and both have the parent a.
abbrev three : List Bytes
three = codes "a/b/x" ∷ codes "a/c/y" ∷ codes "z" ∷ []

paths_of : Outcome (List Dir × ℕ) → List Bytes
paths_of (ok (ds, w)) = map (λ (d : Dir). d.path) ds
paths_of _ = []

dirs_run : paths_of (init_dirs true three) ≡ [] ∷ codes "a/" ∷ codes "a/c/" ∷ codes "a/b/" ∷ []
unfolding init_dirs add_entries add_entry common_dir common_loop pop_dirs pop_dir push_dirs str_sort
    str_lt cmp_views cmp_prefix paths_of
dirs_run = refl

init_dirs-total_example : (ds : List Dir) × (init_dirs true three ≡ ok (ds, sum (map weight ds)))
init_dirs-total_example = init_dirs-total true three

-- Three calls, of which the second finds other entries.
abbrev call : Bool → List Bytes → Round (List Bytes)
call is_new entries = record {
  read = some is_new;
  open_ok = true;
  attr_ok = true;
  entries = entries;
  staged_ok = true;
  is_small = true;
}

abbrev more_entries : List Bytes
more_entries = codes "a" ∷ codes "b/c" ∷ []

abbrev three_calls : List (Round (List Bytes))
three_calls = call true (codes "a" ∷ []) ∷ call true more_entries ∷ call false more_entries ∷ []

-- An index of the entries alone is made in the first two calls, and kept in the third.
three_calls_run :
    hold_rounds (λ (e : List Bytes). ok e) three_calls nothing_held
    ≡ some (codes "a" ∷ []) ∷ some more_entries ∷ some more_entries ∷ []
unfolding hold_rounds hold_round refresh
three_calls_run = refl

three_calls-Reports : Reports (codes "a" ∷ []) three_calls
three_calls-Reports = (λ n. cc, λ n. cc, (λ n. cc, λ n. cc, (λ n. cc, λ n. refl, tt)))

hold_rounds-Current_example :
    Current (new_index true 4) three_calls (hold_rounds (new_index true 4) three_calls nothing_held)
hold_rounds-Current_example =
    hold_rounds-Current true 4 (codes "a" ∷ []) three_calls three_calls-Reports
