-- ===== src/Repo/Async.antt =====
-- RunAsync, DecInflight, Wait and GetTagName of src/repo.cc: the functions that run on the pool, and the counter
-- of those that have not left. Each step is what happens while the mutex is held.
pub mod Late
use gitstatus.Common.{
  [], Option, false, if◌then◌else◌, ltb, map, none, not, some, true, ◌-◌, ◌==◌, ◌∷◌, ◌≡◌, List,
  Bool, ℕ,
}
use gitstatus.Tag.Db.{tag_for_commit}
use gitstatus.Text.{Bytes}
use gitstatus.Common.Outcome.{Outcome, check, ok, verify, ◌>>=◌, ◌>>◌}

-- A function that has not ended, one that has thrown and left its scope, and one whose handler, if any,
-- is through.
pub data Stage : Type 0 where
  at_work thrown over : Stage

pub record AsyncTask : Type 0 where
  pub fails : Bool
  pub stage : Stage

-- inflight_ and error_
pub record Inflight : Type 0 where
  pub inflight : ℕ
  pub error : Bool

-- DecInflight
unfoldable pub dec_inflight : Inflight → Outcome Inflight
dec_inflight s = do check (ltb 0 s.inflight); ok (record s { inflight = s.inflight - 1 })

-- The handler of the exception.
abbrev pub set_error : Inflight → Inflight
set_error s = if s.error then s else record s { error = true }

-- A step of one of the functions: at its end or when it throws, the guard of its scope counts it
-- down; the handler comes after that.
pub data AsyncStep : Inflight → List AsyncTask → Inflight → List AsyncTask → Type 0 where
  returns :
      (s s' : Inflight) (ts : List AsyncTask)
      → dec_inflight s ≡ ok s'
      → AsyncStep s
          (record { fails = false; stage = at_work } ∷ ts)
          s'
          (record { fails = false; stage = over } ∷ ts)
  unwinds :
      (s s' : Inflight) (ts : List AsyncTask)
      → dec_inflight s ≡ ok s'
      → AsyncStep s
          (record { fails = true; stage = at_work } ∷ ts)
          s'
          (record { fails = true; stage = thrown } ∷ ts)
  handles :
      (s : Inflight) (ts : List AsyncTask)
      → AsyncStep s
          (record { fails = true; stage = thrown } ∷ ts)
          (set_error s)
          (record { fails = true; stage = over } ∷ ts)
  others :
      (s s' : Inflight) (t : AsyncTask) (ts ts' : List AsyncTask)
      → AsyncStep s ts s' ts'
      → AsyncStep s (t ∷ ts) s' (t ∷ ts')

pub data AsyncSteps : Inflight → List AsyncTask → Inflight → List AsyncTask → Type 0 where
  stays : (s : Inflight) (ts : List AsyncTask) → AsyncSteps s ts s ts
  moves :
      (s s' s'' : Inflight) (ts ts' ts'' : List AsyncTask)
      → AsyncStep s ts s' ts'
      → AsyncSteps s' ts' s'' ts''
      → AsyncSteps s ts s'' ts''

-- The functions that RunAsync has been called with, by whether they throw.
abbrev pub at_start : List Bool → List AsyncTask
at_start fs = map (λ f. record { fails = f; stage = at_work }) fs

-- Wait, which is through when nothing is in flight, with the test of error_ behind it; none while it
-- blocks.
unfoldable pub wait_and_verify : Inflight → Option (Outcome (Unit {0}))
wait_and_verify s = if s.inflight == 0 then some (verify (not s.error)) else none

-- GetTagName, by what its future gives: the tag of the commit, or an exception.
abbrev pub get_tag_name : {Oid : Type 0} → (Oid → Outcome Bytes) → Option Oid → Outcome Bytes
get_tag_name tag_for_commit none = ok []
get_tag_name tag_for_commit (some target) = tag_for_commit target
