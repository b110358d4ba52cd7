-- ===== src/Index/Candidates.antt =====
-- `GetDirtyCandidates` of src/index.cc: a task scans each shard, on any thread, and the caller waits
-- for all of them. Each step is what happens while the mutex is held. A scan is given by what
-- ScanDirs returns, or none for an exception.
pub mod Invariant
pub mod Result
pub mod Root
pub mod Waits
pub mod Shards
use gitstatus.Common.{
  drop, take, Bool, [], false, if◌then◌else◌, length, ltb, map, none, not, some, true, ℕ, ◌++◌, ◌-◌,
  ◌==◌, ◌∷◌, ◌≡◌, List, Option,
}
use gitstatus.Common.Outcome.{Outcome, check, ok, verify, ◌>>=◌, ◌>>◌}
use gitstatus.Text.Sort.{str_sort}
use gitstatus.Text.{Bytes}

-- A task that has not come to the mutex, one that has not left its scope, and one that has.
pub data Phase : Type 0 where
  scanning unwinding gone : Phase

pub record Task : Type 0 where
  pub candidates : Option (List Bytes)
  pub phase : Phase

-- The caller, before the test of `while (inflight)`, in cv.wait, and behind the loop.
pub data Waiter : Type 0 where
  testing asleep returned : Waiter

-- The variables that the tasks share, with the caller.
pub record Tally : Type 0 where
  pub inflight : ℕ
  pub error : Bool
  pub res : List Bytes
  pub waiter : Waiter

-- The body of a task behind ScanDirs: what is inserted into `res`, or the handler of the exception.
unfoldable pub record_found : Option (List Bytes) → Tally → Tally
record_found none s = record s { error = true }
record_found (some []) s = s
record_found (some (c ∷ cs)) s = record s { res = s.res ++ c ∷ cs }

-- cv.notify_one()
abbrev pub notify_one : Waiter → Waiter
notify_one testing = testing
notify_one asleep = testing
notify_one returned = returned

-- The end of the scope of a task.
unfoldable pub leave_scope : Tally → Outcome Tally
leave_scope s = do
  check (ltb 0 s.inflight)
  ok (record s {
    inflight = s.inflight - 1;
    waiter = if s.inflight - 1 == 0 then notify_one s.waiter else s.waiter;
  })

-- while (inflight) cv.wait(lock);
unfoldable pub wait_test : Tally → Tally
wait_test s = record s { waiter = if s.inflight == 0 then returned else asleep }

-- A step of one of the tasks.
pub data TaskStep : Tally → List Task → Tally → List Task → Type 0 where
  records :
      (s : Tally) (found : Option (List Bytes)) (ts : List Task)
      → TaskStep s
          (record { candidates = found; phase = scanning } ∷ ts)
          (record_found found s)
          (record { candidates = found; phase = unwinding } ∷ ts)
  leaves :
      (s s' : Tally) (found : Option (List Bytes)) (ts : List Task)
      → leave_scope s ≡ ok s'
      → TaskStep s
          (record { candidates = found; phase = unwinding } ∷ ts)
          s'
          (record { candidates = found; phase = gone } ∷ ts)
  later :
      (s s' : Tally) (t : Task) (ts ts' : List Task)
      → TaskStep s ts s' ts'
      → TaskStep s (t ∷ ts) s' (t ∷ ts')

-- A step of a task, a test of the caller, or a wake-up without a notification.
pub data PoolStep : Tally × List Task → Tally × List Task → Type 0 where
  task : (s s' : Tally) (ts ts' : List Task) → TaskStep s ts s' ts' → PoolStep (s, ts) (s', ts')
  tests : (s : Tally) (ts : List Task) → s.waiter ≡ testing → PoolStep (s, ts) (wait_test s, ts)
  wakes :
      (s : Tally) (ts : List Task)
      → s.waiter ≡ asleep
      → PoolStep (s, ts) (record s { waiter = testing }, ts)

pub data PoolSteps : Tally × List Task → Tally × List Task → Type 0 where
  start : (r : Tally × List Task) → PoolSteps r r
  also : (r r' r'' : Tally × List Task) → PoolSteps r r' → PoolStep r' r'' → PoolSteps r r''

-- The state when the tasks are scheduled, for what their scans give.
abbrev pub scheduled : List (Option (List Bytes)) → Tally × List Task
scheduled fs = (
  record { inflight = length fs; error = false; res = []; waiter = testing },
  map (λ f. record { candidates = f; phase = scanning }) fs,
)

-- The end of GetDirtyCandidates.
unfoldable pub finish_candidates : Bool → Tally → Outcome (List Bytes)
finish_candidates cs s = do verify (not s.error); ok (str_sort cs s.res)

-- The directories of each task, from a split to the next.
unfoldable pub shards_of {ℓ} : {A : Type ℓ} → List ℕ → List A → List (List A)
shards_of [] dirs = []
shards_of (from ∷ []) dirs = []
shards_of (from ∷ to ∷ splits) dirs =
    take (to - from) (drop from dirs) ∷ shards_of (to ∷ splits) dirs
