-- ===== src/Logging/Threads.antt =====
-- Several threads in LogStreamBase::Flush of src/logging.cc. std::localtime leaves its result in
-- memory that all threads share, and std::strftime reads it there; g_log_mutex is what keeps them
-- apart. Any of the calls but the release of the mutex may change the errno of its thread.
-- That a FATAL message ends the process behind Flush is no step here.
pub mod Effects
pub mod Serial
pub mod Advance
pub mod Ends
use gitstatus.Common.{ℕ, ◌≡◌, Bool, true, false, List, [], ◌∷◌, ◌++◌}
use gitstatus.Common.Int.{ℤ}
use gitstatus.Text.{Bytes}
use gitstatus.Logging.{LogStream, message, time_str}

-- Where a thread is: in front of the lock; behind it; behind std::time, with `time`; behind
-- std::localtime; behind the choice of `time_str`; behind std::fprintf; behind the assignment to
-- errno; and behind the release of the mutex.
pub data FlushPhase : Type 0 where
  waits holds : FlushPhase
  asked broke : ℕ → FlushPhase
  stamped : ℕ → Bytes → FlushPhase
  wrote restored finished : ℕ → FlushPhase

-- A call of Flush, the errno of its thread, and where it is.
pub data Thread : Type 0 where
  thread : LogStream → ℤ → FlushPhase → Thread

-- g_log_mutex, the time that the result of std::localtime stands for, and what is on stderr.
pub record Shared : Type 0 where
  pub locked : Bool
  pub local : ℕ
  pub printed : Bytes

module _ (strftime : ℕ → Bytes) where
  -- A step of one thread.
  pub data FlushStep : Shared → Thread → Shared → Thread → Type 0 where
    locks :
        (s : Shared) (l : LogStream) (e e' : ℤ)
        → s.locked ≡ false
        → FlushStep s (thread l e waits) (record s { locked = true }) (thread l e' holds)
    asks_time :
        (s : Shared) (l : LogStream) (e e' : ℤ) (now : ℕ)
        → FlushStep s (thread l e holds) s (thread l e' (asked now))
    breaks_down :
        (s : Shared) (l : LogStream) (e e' : ℤ) (t : ℕ)
        → FlushStep s (thread l e (asked t)) (record s { local = t }) (thread l e' (broke t))
    formats :
        (s : Shared) (l : LogStream) (e e' : ℤ) (t : ℕ)
        → FlushStep s (thread l e (broke t)) s (thread l e' (stamped t (time_str strftime s.local)))
    writes :
        (s : Shared) (l : LogStream) (e e' : ℤ) (t : ℕ) (time : Bytes)
        → FlushStep s
            (thread l e (stamped t time))
            (record s { printed = s.printed ++ message time l })
            (thread l e' (wrote t))
    restores :
        (s : Shared) (l : LogStream) (e : ℤ) (t : ℕ)
        → FlushStep s (thread l e (wrote t)) s (thread l l.stashed_errno (restored t))
    unlocks :
        (s : Shared) (l : LogStream) (e : ℤ) (t : ℕ)
        → FlushStep s
            (thread l e (restored t))
            (record s { locked = false })
            (thread l e (finished t))

  -- Any thread makes a step.
  pub data FlushSteps (s : Shared) (ts : List Thread) : Shared → List Thread → Type 0 where
    here : FlushSteps s ts s ts
    next :
        (u v : Shared) (xs ys : List Thread) (t t' : Thread)
        → FlushSteps s ts u (xs ++ t ∷ ys)
        → FlushStep u t v t'
        → FlushSteps s ts v (xs ++ t' ∷ ys)

-- A call of Flush of the thread that built the stream, in front of the lock.
abbrev pub caller : LogStream × ℤ → Thread
caller (l, e) = thread l e waits

abbrev pub callers : List (LogStream × ℤ) → List Thread
callers [] = []
callers (c ∷ cs) = caller c ∷ callers cs
