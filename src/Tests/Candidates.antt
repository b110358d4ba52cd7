-- ===== src/Tests/Candidates.antt =====
-- Runs of the tasks of GetDirtyCandidates of src/index.cc, and of RunAsync of src/repo.cc.
use gitstatus.Common.{◌⊎◌, map, List, Option, [], false, refl, some, true, ℕ, ◌∷◌, ◌≡◌}
use gitstatus.Index.Candidates.Invariant.{active}
use gitstatus.Index.Candidates.Waits.{OwnSteps, PoolSteps-Ends}
use gitstatus.Repo.Async.{AsyncSteps, AsyncTask, Inflight, at_start, wait_and_verify}
use gitstatus.Repo.Async.Late.{wait_unaware}
use gitstatus.Text.{str_lt, Bytes, codes}
use gitstatus.Common.Outcome.{ok, ◌>>=◌}
use gitstatus.Index.Candidates.{
  Phase, Waiter, asleep, testing, Tally, Task, PoolStep, PoolSteps, scheduled, start, also, task,
  tests, records, leaves, later, scanning, unwinding, gone, returned, finish_candidates,
  record_found, leave_scope, wait_test,
}
use gitstatus.Text.Sort.{str_sort}
use gitstatus.Index.Candidates.Root.{get_dirty_candidates, get_dirty_candidates-in_turn}
use gitstatus.Index.Candidates.Result.{scan_in_turn}

-- Two scans, of which the second comes to the mutex first.
abbrev scans : List (Option (List Bytes))
scans = some (codes "b/x" ∷ []) ∷ some (codes "a/z" ∷ codes "a/y" ∷ []) ∷ []

abbrev a_task : Option (List Bytes) → Phase → Task
a_task f p = record { candidates = f; phase = p }

abbrev f0 : Option (List Bytes)
f0 = some (codes "b/x" ∷ [])

abbrev f1 : Option (List Bytes)
f1 = some (codes "a/z" ∷ codes "a/y" ∷ [])

abbrev tally : ℕ → List Bytes → Waiter → Tally
tally n res w = record { inflight = n; error = false; res = res; waiter = w }

abbrev late : List Bytes
late = codes "a/z" ∷ codes "a/y" ∷ []

abbrev full : List Bytes
full = codes "a/z" ∷ codes "a/y" ∷ codes "b/x" ∷ []

first_step :
    PoolStep (scheduled scans) (tally 2 late testing, a_task f0 scanning ∷ a_task f1 unwinding ∷ [])
unfolding record_found
first_step = task _ _ _ _ (later _ _ _ _ _ (records _ f1 []))

second_step :
    PoolStep
      (tally 2 late testing, a_task f0 scanning ∷ a_task f1 unwinding ∷ [])
      (tally 2 late asleep, a_task f0 scanning ∷ a_task f1 unwinding ∷ [])
unfolding wait_test
second_step = tests _ _ refl

third_step :
    PoolStep
      (tally 2 late asleep, a_task f0 scanning ∷ a_task f1 unwinding ∷ [])
      (tally 2 full asleep, a_task f0 unwinding ∷ a_task f1 unwinding ∷ [])
unfolding record_found
third_step = task _ _ _ _ (records _ f0 _)

fourth_step :
    PoolStep
      (tally 2 full asleep, a_task f0 unwinding ∷ a_task f1 unwinding ∷ [])
      (tally 1 full asleep, a_task f0 gone ∷ a_task f1 unwinding ∷ [])
unfolding leave_scope
fourth_step = task _ _ _ _ (leaves _ _ f0 _ refl)

fifth_step :
    PoolStep
      (tally 1 full asleep, a_task f0 gone ∷ a_task f1 unwinding ∷ [])
      (tally 0 full testing, a_task f0 gone ∷ a_task f1 gone ∷ [])
unfolding leave_scope
fifth_step = task _ _ _ _ (later _ _ _ _ _ (leaves _ _ f1 [] refl))

sixth_step :
    PoolStep
      (tally 0 full testing, a_task f0 gone ∷ a_task f1 gone ∷ [])
      (tally 0 full returned, a_task f0 gone ∷ a_task f1 gone ∷ [])
unfolding wait_test
sixth_step = tests _ _ refl

half :
    PoolSteps
      (scheduled scans)
      (tally 2 full asleep, a_task f0 unwinding ∷ a_task f1 unwinding ∷ [])
half = also _ _ _ (also _ _ _ (also _ _ _ (start _) first_step) second_step) third_step

whole : PoolSteps (scheduled scans) (tally 0 full returned, a_task f0 gone ∷ a_task f1 gone ∷ [])
whole = also _ _ _ (also _ _ _ (also _ _ _ half fourth_step) fifth_step) sixth_step

get_dirty_candidates-in_turn_example :
    get_dirty_candidates true true true (0 ∷ 1 ∷ 2 ∷ []) (tally 0 full returned)
    ≡ (scan_in_turn scans >>= λ found. ok (str_sort true found))
get_dirty_candidates-in_turn_example =
    get_dirty_candidates-in_turn true true 0 (1 ∷ 2 ∷ []) scans (tally 0 full returned)
      (a_task f0 gone ∷ a_task f1 gone ∷ []) whole refl

finish_runs :
    finish_candidates true (tally 0 full returned)
    ≡ ok (codes "a/y" ∷ codes "a/z" ∷ codes "b/x" ∷ [])
unfolding finish_candidates str_sort str_lt
finish_runs = refl

PoolSteps-Ends_example :
    ((active (a_task f0 unwinding ∷ a_task f1 unwinding ∷ []) ≡ 0)
      ⊎ ((s' : Tally) × (leave_scope (tally 2 full asleep) ≡ ok s')))
    × (s : Tally) × (ts : List Task) × OwnSteps
        (tally 2 full asleep, a_task f0 unwinding ∷ a_task f1 unwinding ∷ [])
        (s, ts)
    × (s.waiter ≡ returned)
PoolSteps-Ends_example =
    PoolSteps-Ends scans (tally 2 full asleep, a_task f0 unwinding ∷ a_task f1 unwinding ∷ []) half

-- One function that throws, and one that does not.
wait_unaware_example :
    (s : Inflight) × (ts : List AsyncTask) × AsyncSteps
      (record { inflight = 2; error = false })
      (at_start (true ∷ false ∷ []))
      s
      ts
    × (map (λ (t : AsyncTask). t.fails) ts ≡ true ∷ false ∷ [])
    × (wait_and_verify s ≡ some (ok tt))
wait_unaware_example = wait_unaware (true ∷ false ∷ [])
