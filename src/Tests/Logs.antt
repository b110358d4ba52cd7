-- ===== src/Tests/Logs.antt =====
-- Inputs for src/logging.h and src/logging.cc.
use gitstatus.Common.{length, ◌*◌, ◌≤◌, ℕ, ◌≡◌, refl, true, false, List, [], ◌∷◌, ◌++◌, All, map}
use gitstatus.Common.Int.{ℤ, pos}
use gitstatus.Common.Outcome.{check, verify}
use gitstatus.Response.{show_int}
use gitstatus.Text.{Bytes, codes}
use gitstatus.Logging.{
  LogStream, info, error, fatal, gnu, value, stashed, Console, Site, check_statement,
  verify_statement, flush, message,
}
use gitstatus.Logging.Statement.{line_of, output_of, check_statement-verify_statement}
use gitstatus.Logging.Threads.{
  Thread, thread, waits, holds, Shared, FlushSteps, here, next, locks, caller, callers,
}
use gitstatus.Logging.Threads.Effects.{Sound, stream_of, flush_all}
use gitstatus.Logging.Threads.Serial.{console, Reorders, FlushSteps-Reorders}
use gitstatus.Logging.Threads.Advance.{num_steps}
use gitstatus.Logging.Threads.Ends.{Ended, FlushSteps-Ends}
use mathlib.Core.List.{Perm}

abbrev strftime : ℕ → Bytes
strftime t = codes "2019-04-01 00:00:00"

-- A stat that fails with errno 2, and leaves 22 when it is printed.
abbrev site : Site
site = record {
  least = info;
  strerror = gnu (λ err. codes "No such file or directory");
  strftime = strftime;
  file = codes "dir.cc";
  line = pos 42;
  operands = value (codes "stat: ") ∷ stashed ∷ [];
  now = 1554076800;
  left = pos 22;
}

abbrev before : Console
before = record { errno = pos 2; printed = [] }

failing_check_prints :
    (check_statement site false before).0.printed
    ≡ codes "[2019-04-01 00:00:00 FATAL dir.cc:42] stat: No such file or directory\n"
unfolding check_statement message flush show_int
failing_check_prints = refl

check_statement-verify_statement_example :
    (check_statement site false before
      ≡ (record before { printed = [] ++ line_of site fatal before }, check false))
    × (verify_statement site false before
        ≡ (record before { printed = [] ++ output_of site error before }, verify false))
check_statement-verify_statement_example = check_statement-verify_statement site false before

abbrev stream : ℤ → LogStream
stream line = record {
  stashed_errno = pos 2;
  file = codes "dir.cc";
  line = line;
  severity = error;
  strm = codes "failed";
}

-- Two threads with a message each, of which the second has taken the mutex.
abbrev two : List (LogStream × ℤ)
two = (stream (pos 1), pos 5) ∷ (stream (pos 2), pos 6) ∷ []

abbrev free : Shared
free = record { locked = false; local = 0; printed = [] }

abbrev taken : Shared
taken = record free { locked = true }

abbrev one_behind : List Thread
one_behind = thread (stream (pos 1)) (pos 5) waits ∷ thread (stream (pos 2)) (pos 6) holds ∷ []

to_one_behind : FlushSteps strftime free (callers two) taken one_behind
to_one_behind =
    next free taken (caller (stream (pos 1), pos 5) ∷ []) [] (caller (stream (pos 2), pos 6))
      (thread (stream (pos 2)) (pos 6) holds) here
      (locks free (stream (pos 2)) (pos 6) (pos 6) refl)

FlushSteps-Reorders_example :
    Reorders strftime (console free) taken one_behind
    × (map stream_of one_behind ≡ map (λ (d : LogStream × ℤ). d.0) two)
    × All (Sound strftime taken) one_behind
FlushSteps-Reorders_example = FlushSteps-Reorders strftime two refl to_one_behind

FlushSteps-Ends_example :
    (num_steps strftime to_one_behind ≤ 7 * length two)
    × (w : Shared) × (ts : List Thread) × (order : List (LogStream × ℕ)) × FlushSteps strftime taken
        one_behind w ts
    × All (Ended strftime) ts
    × Perm (map (λ (o : LogStream × ℕ). o.0) order) (map (λ (d : LogStream × ℤ). d.0) two)
    × ((flush_all strftime order (console free)).printed ≡ w.printed)
FlushSteps-Ends_example = FlushSteps-Ends strftime two refl to_one_behind
