-- ===== src/Tests/Mtimes.antt =====
-- Runs of the check of directory times of src/check_dir_mtime.cc, and of the destructor of Repo.
use gitstatus.Common.{[], false, refl, some, true, ◌∷◌, ◌≡◌}
use gitstatus.Common.Outcome.{ok}
use gitstatus.Mtime.{
  MtimeEnv, mkdtemp, mkdir, lstat, sleep, creat, close_fd, rmdir, unlink, check_dir_mtime,
}
use gitstatus.Mtime.Whole.{IsUndone, check_dir_mtime-IsUndone}
use gitstatus.Index.Entry.{Stat, stat_eq, zero_stat}
use gitstatus.Index.Scan.{t_unknown}
use gitstatus.Repo.Lifetime.{
  Life, draining, testing, asleep, constructed, cache_test, drain_test, LifeSteps, destroys, drains,
  looks, rest, onward,
}
use gitstatus.Repo.Lifetime.Ends.{IsSound, steps-IsSound}
use gitstatus.Repo.Lifetime.Frees.{IsFreed, steps-IsFreed}
use gitstatus.Text.{codes}

abbrev later_stat : Stat
later_stat = record zero_stat { mtim_sec = 1 }

abbrev capable_env : MtimeEnv
capable_env = record {
  temp_dir = some (codes "t");
  mkdir_ok = λ p. true;
  lstat_before = λ p. some zero_stat;
  interrupts = 1;
  lstat_after = λ p. some later_stat;
  creat_ok = λ p. true;
  close_ok = true;
}

abbrev full_env : MtimeEnv
full_env = record capable_env { creat_ok = λ p. false }

capable_runs : check_dir_mtime capable_env (codes ".git/") ≡ (
  mkdtemp (codes "t") true
      ∷ mkdir (codes "t/a") true
      ∷ lstat (codes "t/a")
      ∷ mkdir (codes "t/b") true
      ∷ lstat (codes "t/b")
      ∷ sleep
      ∷ sleep
      ∷ mkdir (codes "t/a/1") true
      ∷ lstat (codes "t/a")
      ∷ creat (codes "t/b/1") true
      ∷ close_fd
      ∷ lstat (codes "t/b")
      ∷ unlink (codes "t/b/1")
      ∷ rmdir (codes "t/a/1")
      ∷ rmdir (codes "t/b")
      ∷ rmdir (codes "t/a")
      ∷ rmdir (codes "t")
      ∷ [],
  ok true,
)
unfolding check_dir_mtime stat_eq
capable_runs = refl

full_runs : (check_dir_mtime full_env (codes ".git/")).1 ≡ ok false
unfolding check_dir_mtime stat_eq
full_runs = refl

check_dir_mtime-IsUndone_example :
    let r = check_dir_mtime full_env (codes ".git/") in IsUndone full_env r.0 r.1
check_dir_mtime-IsUndone_example = check_dir_mtime-IsUndone full_env (codes ".git/")

abbrev destroying : Life
destroying = record { untracked_cache = t_unknown; checked = false; inflight = 0; owner = draining }

abbrev waiting : Life
waiting = record { untracked_cache = t_unknown; checked = false; inflight = 0; owner = testing }

abbrev sleeping : Life
sleeping = record { untracked_cache = t_unknown; checked = false; inflight = 0; owner = asleep }

to_sleeping : LifeSteps capable_env (codes ".git/") constructed sleeping
unfolding drain_test cache_test
to_sleeping =
    onward (onward (onward rest (destroys constructed refl)) (drains destroying refl))
      (looks waiting refl)

steps-IsSound_example : IsSound capable_env (codes ".git/") sleeping
steps-IsSound_example = steps-IsSound capable_env (codes ".git/") to_sleeping

steps-IsFreed_example : IsFreed capable_env (codes ".git/") sleeping
steps-IsFreed_example = steps-IsFreed capable_env (codes ".git/") sleeping refl to_sleeping
