-- ===== src/Repo/Lifetime.antt =====
-- The constructor of Repo in src/repo.cc, which schedules the check of directory times, and the
-- destructor, which waits for it. Each step is what happens while the mutex is held.
pub mod Ends
pub mod Frees
use gitstatus.Common.{ℕ, ◌+◌, ◌-◌, ◌==◌, ltb, Bool, false, if◌then◌else◌, true, ◌≡◌}
use gitstatus.Common.Outcome.{Outcome, check, ok, ◌>>=◌, ◌>>◌}
use gitstatus.Daemon.Serve.Order.{answer}
use gitstatus.Index.Scan.{Tribool, t_true, t_false, t_unknown}
use gitstatus.Mtime.{MtimeEnv, check_dir_mtime}
use gitstatus.Text.{Bytes}

-- The owner of the object: before the destructor; in its Wait, at the test of the loop and in
-- cv_.wait; in the loop behind that, at its test and in cv_.wait; and where the repository is freed.
pub data Owner : Type 0 where
  in_use draining drowsy testing asleep freed : Owner

-- untracked_cache_, whether the scheduled function has ended, inflight_, and the owner.
pub record Life : Type 0 where
  pub untracked_cache : Tribool
  pub checked : Bool
  pub inflight : ℕ
  pub owner : Owner

abbrev pub is_unknown : Tribool → Bool
is_unknown t_true = false
is_unknown t_false = false
is_unknown t_unknown = true

-- cv_.notify_one()
abbrev pub notify_owner : Owner → Owner
notify_owner in_use = in_use
notify_owner draining = draining
notify_owner drowsy = draining
notify_owner testing = testing
notify_owner asleep = testing
notify_owner freed = freed

-- The scheduled function behind CheckDirMtime.
unfoldable pub finish_check : Bool → Life → Outcome Life
finish_check answer s = do
  check (is_unknown s.untracked_cache)
  ok (record s {
    untracked_cache = if answer then t_true else t_false;
    checked = true;
    owner = notify_owner s.owner;
  })

-- DecInflight, at the end of a function that RunAsync has scheduled.
unfoldable pub end_scan : Life → Outcome Life
end_scan s = do
  check (ltb 0 s.inflight)
  ok (record s {
    inflight = s.inflight - 1;
    owner = if s.inflight == 1 then notify_owner s.owner else s.owner;
  })

-- while (inflight_) cv_.wait(lock); of Wait, with what comes behind it.
unfoldable pub drain_test : Life → Life
drain_test s = record s { owner = if s.inflight == 0 then testing else drowsy }

-- while (untracked_cache_ == Tribool::kUnknown) cv_.wait(lock);
unfoldable pub cache_test : Life → Life
cache_test s = record s { owner = if is_unknown s.untracked_cache then asleep else freed }

-- The object behind its constructor.
abbrev pub constructed : Life
constructed = record { untracked_cache = t_unknown; checked = false; inflight = 0; owner = in_use }

-- A wake-up that nobody asked for.
abbrev pub stirred : Owner → Owner
stirred in_use = in_use
stirred draining = draining
stirred drowsy = draining
stirred testing = testing
stirred asleep = testing
stirred freed = freed

module _ (env : MtimeEnv) (path : Bytes) where
  -- The end of the scheduled function; a call of RunAsync, and the end of its function; the start of
  -- the destructor; a test of the loop of Wait, and of the one behind it.
  pub data LifeStep : Life → Life → Type 0 where
    checks :
        (s s' : Life) (answer : Bool)
        → s.checked ≡ false
        → (check_dir_mtime env path).1 ≡ ok answer
        → finish_check answer s ≡ ok s'
        → LifeStep s s'
    runs : (s : Life) → s.owner ≡ in_use → LifeStep s (record s { inflight = s.inflight + 1 })
    ends_scan : (s s' : Life) → end_scan s ≡ ok s' → LifeStep s s'
    destroys : (s : Life) → s.owner ≡ in_use → LifeStep s (record s { owner = draining })
    drains : (s : Life) → s.owner ≡ draining → LifeStep s (drain_test s)
    looks : (s : Life) → s.owner ≡ testing → LifeStep s (cache_test s)

  -- Steps, with wake-ups between them that nobody asked for.
  pub data LifeSteps (s : Life) : Life → Type 0 where
    rest : LifeSteps s s
    onward : {t u : Life} → LifeSteps s t → LifeStep t u → LifeSteps s u
    stirs : {t : Life} → LifeSteps s t → LifeSteps s (record t { owner = stirred t.owner })

  -- Steps without such wake-ups.
  pub data OwnLifeSteps : Life → Life → Type 0 where
    at_rest : {s : Life} → OwnLifeSteps s s
    one_more : {s t u : Life} → LifeStep s t → OwnLifeSteps t u → OwnLifeSteps s u
