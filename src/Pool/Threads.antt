-- ===== src/Pool/Threads.antt =====
-- The threads of the pool of src/thread_pool.cc, which run Loop, with those that schedule work. Each
-- step is what a thread does while it holds the mutex.
pub mod Counts
pub mod Ends
use gitstatus.Common.Outcome.{Outcome, ok, aborts}
use gitstatus.Common.{Option, none, some, List, [], false, suc, zero, ℕ, ◌∷◌}
use gitstatus.Pool.{
  Pool, Turn, quits, waits, sleeps, runs, finish_work, next_turn, schedule, wake_sleeper, ask_exit,
}

-- A thread that runs a function or is in front of Next; one in cv_.wait, not yet notified, and one
-- that is, in front of the mutex; the one in sleeper_cv_.wait_until, and in front of the mutex behind
-- it; and one that has left Loop.
pub data Place : Type 0 where
  busy idle woken napping roused ended : Place

-- The end of a wait.
abbrev pub come_out : Place → Place
come_out busy = busy
come_out idle = woken
come_out woken = woken
come_out napping = roused
come_out roused = roused
come_out ended = ended

-- The end of the wait of one thread: the notify_one of Schedule or of Next chose it, its time has
-- come, or nobody asked for it.
abbrev pub stir : ℕ → List Place → List Place
stir k [] = []
stir zero (t ∷ ts) = come_out t ∷ ts
stir (suc k) (t ∷ ts) = t ∷ stir k ts

-- cv_.notify_all()
unfoldable pub wake_all : List Place → List Place
wake_all [] = []
wake_all (idle ∷ ts) = woken ∷ wake_all ts
wake_all (busy ∷ ts) = busy ∷ wake_all ts
wake_all (woken ∷ ts) = woken ∷ wake_all ts
wake_all (napping ∷ ts) = napping ∷ wake_all ts
wake_all (roused ∷ ts) = roused ∷ wake_all ts
wake_all (ended ∷ ts) = ended ∷ wake_all ts

-- sleeper_cv_.notify_one()
unfoldable pub rouse_one : List Place → List Place
rouse_one [] = []
rouse_one (napping ∷ ts) = roused ∷ ts
rouse_one (busy ∷ ts) = busy ∷ rouse_one ts
rouse_one (idle ∷ ts) = idle ∷ rouse_one ts
rouse_one (woken ∷ ts) = woken ∷ rouse_one ts
rouse_one (roused ∷ ts) = roused ∷ rouse_one ts
rouse_one (ended ∷ ts) = ended ∷ rouse_one ts

-- The notifications of ThreadPool::~ThreadPool, behind its lock_guard.
unfoldable pub notify_exit : List Place → List Place
notify_exit ts = rouse_one (wake_all ts)

-- ThreadPool::ThreadPool
abbrev pub new_pool : {F : Type 0} → ℕ → Pool F
new_pool num_threads = record {
  last_idx = 0;
  num_inflight = num_threads;
  is_exit = false;
  have_sleeper = false;
  work = [];
}

abbrev pub new_threads : ℕ → List Place
new_threads zero = []
new_threads (suc n) = busy ∷ new_threads n

module _ {F : Type 0} where
  -- Where a round of the loop of Next leaves the thread.
  abbrev pub place_of : Turn F → Place
  place_of quits = ended
  place_of waits = idle
  place_of (sleeps t) = napping
  place_of (runs w notify) = busy

  -- A step of one of the threads, at a time: the call of Next behind a function; a round behind
  -- cv_.wait, and one behind wait_until, once the wait has come to its end.
  pub data ThreadStep : Pool F → List Place → Pool F → List Place → Type 0 where
    enters :
        (s : Pool F) (now : ℕ) (ts : List Place)
        → ThreadStep s
            (busy ∷ ts)
            (next_turn now (finish_work s).0).0
            (place_of (next_turn now (finish_work s).0).1 ∷ ts)
    goes_on :
        (s : Pool F) (now : ℕ) (ts : List Place)
        → ThreadStep s (woken ∷ ts) (next_turn now s).0 (place_of (next_turn now s).1 ∷ ts)
    rises :
        (s : Pool F) (now : ℕ) (ts : List Place)
        → ThreadStep s
            (roused ∷ ts)
            (next_turn now (wake_sleeper s)).0
            (place_of (next_turn now (wake_sleeper s)).1 ∷ ts)
    beside :
        (s s' : Pool F) (t : Place) (ts ts' : List Place)
        → ThreadStep s ts s' ts'
        → ThreadStep s (t ∷ ts) s' (t ∷ ts')

  -- What happens to the pool from its construction with a number of threads on.
  pub data Reached (n : ℕ) : Pool F → List Place → Type 0 where
    created : Reached n (new_pool n) (new_threads n)
    stepped :
        (s s' : Pool F) (ts ts' : List Place)
        → Reached n s ts
        → ThreadStep s ts s' ts'
        → Reached n s' ts'
    scheduled :
        (s : Pool F) (ts : List Place) (t : ℕ) (f : F)
        → Reached n s ts
        → Reached n (schedule t f s).0 ts
    exiting : (s : Pool F) (ts : List Place) → Reached n s ts → Reached n (ask_exit s) ts
    notifies : (s : Pool F) (ts : List Place) → Reached n s ts → Reached n s (notify_exit ts)
    stirs : (s : Pool F) (ts : List Place) (k : ℕ) → Reached n s ts → Reached n s (stir k ts)

-- InitGlobalThreadPool, given g_thread_pool.
abbrev pub init_global_thread_pool :
    {F : Type 0} → Option (Pool F) → ℕ → Outcome (Pool F × List Place)
init_global_thread_pool none num_threads = ok (new_pool num_threads, new_threads num_threads)
init_global_thread_pool (some pool) num_threads = aborts
