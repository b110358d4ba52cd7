-- ===== src/Tests/Queues.antt =====
-- Inputs for the queue of src/thread_pool.cc.
use gitstatus.Common.{◌<◌, ◌⊎◌, All, [], false, refl, true, ℕ, ◌+◌, ◌∷◌, ◌≡◌, ◌≤◌, List}
use gitstatus.Pool.{finish_work, is_idle, Work, Pool, runs, next_turn, ask_exit}
use gitstatus.Pool.Threads.Ends.{ThreadSteps, at_rest, is_joined, Reached-is_joined}
use gitstatus.Pool.Threads.{
  Place, woken, notify_exit, wake_all, rouse_one, busy, idle, new_pool, Reached, created, stepped,
  enters,
}
use gitstatus.Pool.Threads.Counts.{flag, num_busy, num_napping, Reached-counts}
use mathlib.Core.List.{Permᴰ}
use gitstatus.Pool.Runs.{next_turn-runs}

-- Three pieces of work, of which two are due at one time.
abbrev job : ℕ → ℕ → Work ℕ
job due idx = record { due = due; idx = idx; run = idx }

abbrev queue : Pool ℕ
queue = record {
  last_idx = 3;
  num_inflight = 0;
  is_exit = false;
  have_sleeper = false;
  work = job 9 3 ∷ job 5 2 ∷ job 5 1 ∷ [];
}

abbrev queue_after : Pool ℕ
queue_after = record queue { num_inflight = 1; work = job 9 3 ∷ job 5 2 ∷ [] }

queue_runs : next_turn 7 queue ≡ (queue_after, runs (job 5 1) true)
unfolding next_turn
queue_runs = refl

next_turn-runs_example :
    (5 ≤ 7)
    × All (λ v. (5 < v.due) ⊎ ((5 ≡ v.due) × (1 ≤ v.idx))) queue.work
    × Permᴰ queue.work (job 5 1 ∷ queue_after.work)
    × (queue_after.num_inflight ≡ queue.num_inflight + 1)
next_turn-runs_example = next_turn-runs 7 queue queue_after (job 5 1) true queue_runs

abbrev one_idle : Pool ℕ
one_idle = record {
  last_idx = 0;
  num_inflight = 1;
  is_exit = false;
  have_sleeper = false;
  work = [];
}

to_one_idle : Reached 2 one_idle (idle ∷ busy ∷ [])
unfolding next_turn finish_work
to_one_idle =
    stepped (new_pool 2) one_idle (busy ∷ busy ∷ []) (idle ∷ busy ∷ []) created
      (enters (new_pool 2) 0 (busy ∷ []))

Reached-counts_example :
    (one_idle.num_inflight ≡ num_busy (idle ∷ busy ∷ []))
    × (flag one_idle.have_sleeper ≡ num_napping (idle ∷ busy ∷ []))
    × (is_idle one_idle ≡ true → num_busy (idle ∷ busy ∷ []) ≡ 0)
Reached-counts_example = Reached-counts to_one_idle

-- The destructor, while one thread waits and the other one runs a function.
Reached-is_joined_example :
    ◌≡◌ {A = ℕ} (0 + 0 + 2) 2
    × (w : Pool ℕ) × (ws : List Place) × ThreadSteps (ask_exit one_idle) (woken ∷ busy ∷ []) w ws
    × (is_joined ws ≡ true)
    × (w.num_inflight ≡ 0)
unfolding notify_exit wake_all rouse_one
Reached-is_joined_example = Reached-is_joined to_one_idle at_rest at_rest
