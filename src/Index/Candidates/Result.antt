-- ===== src/Index/Candidates/Result.antt =====
-- What GetDirtyCandidates of src/index.cc returns, against scans one after the other.
use gitstatus.Common.{
  not, Bool, false, true, List, Option, [], ap, arith, if◌then◌else◌, map, none, refl, some, sym,
  ◌++◌, ◌||◌, ◌∙◌, ◌∷◌, ◌≡◌,
}
use gitstatus.Common.Outcome.{verify, Outcome, ok, throws, ◌>>=◌, ◌>>◌}
use gitstatus.Text.Sort.{str_sort_permuted, str_sort}
use gitstatus.Text.{Bytes}
use mathlib.Core.Path.{subst}
use mathlib.Core.List.{Permᴰ}
use mathlib.Core.List.Permᴰ
use gitstatus.Index.Candidates.{
  Phase, scanning, unwinding, gone, Task, returned, Tally, wait_test, TaskStep, PoolStep, task,
  tests, wakes, PoolSteps, start, also, scheduled, finish_candidates,
}
use gitstatus.Index.Candidates.Invariant.{
  active, strings, fails, gathered, has_failed, IsResting, TaskStep-Effect,
}

-- The scans one after the other, up to the first that throws.
unfoldable pub scan_in_turn : List (Option (List Bytes)) → Outcome (List Bytes)
scan_in_turn [] = ok []
scan_in_turn (none ∷ fs) = throws
scan_in_turn (some found ∷ fs) = do rest ← scan_in_turn fs; ok (found ++ rest)

-- What holds in every state of a run.
pub record IsRun (fs : List (Option (List Bytes))) (s : Tally) (ts : List Task) : Type 0 where
  pub same : map (λ (t : Task). t.candidates) ts ≡ fs
  pub counts : s.inflight ≡ active ts
  pub errs : s.error ≡ has_failed ts
  pub finds : Permᴰ s.res (gathered ts)
  pub rests : IsResting s

pub scheduled-IsRun : (fs : List (Option (List Bytes))) → IsRun fs (scheduled fs).0 (scheduled fs).1
scheduled-IsRun [] = record {
  same = refl;
  counts = refl;
  errs = refl;
  finds = Permᴰ.nil;
  rests = record { sleeps = λ e. cc; ends = λ e. cc };
}
scheduled-IsRun (f ∷ fs) =
    let rest = scheduled-IsRun fs in
    record {
      same = ap (◌∷◌ f) rest.same;
      counts = omega (arith, rest.counts);
      errs = rest.errs;
      finds = rest.finds;
      rests = record { sleeps = λ e. cc; ends = λ e. cc };
    }

TaskStep-IsRun :
    (fs : List (Option (List Bytes))) (s s' : Tally) (ts ts' : List Task)
    → IsRun fs s ts
    → TaskStep s ts s' ts'
    → IsRun fs s' ts'
TaskStep-IsRun fs s s' ts ts' run h =
    let change = TaskStep-Effect s s' ts ts' h in
    record {
      same = change.same ∙ run.same;
      counts = omega (arith, change.counts, run.counts);
      errs = change.loses ∙ ap (λ b. b || change.loss) run.errs ∙ sym change.failed;
      finds =
          subst (λ z. Permᴰ z (gathered ts')) (sym change.gains)
            (Permᴰ.trans (Permᴰ.append_right change.gain run.finds) (Permᴰ.symm change.gathers));
      rests = change.waits run.rests;
    }

pub PoolStep-IsRun :
    (fs : List (Option (List Bytes))) (r r' : Tally × List Task)
    → IsRun fs r.0 r.1
    → PoolStep r r'
    → IsRun fs r'.0 r'.1
unfolding wait_test
PoolStep-IsRun fs _ _ run (task s s' ts ts' h) = TaskStep-IsRun fs s s' ts ts' run h
PoolStep-IsRun fs _ _ run (tests s ts e) = record {
  same = run.same;
  counts = run.counts;
  errs = run.errs;
  finds = run.finds;
  rests = record { sleeps = λ k. ground (arith, k); ends = λ k. ground (arith, k) };
}
PoolStep-IsRun fs _ _ run (wakes s ts e) = record {
  same = run.same;
  counts = run.counts;
  errs = run.errs;
  finds = run.finds;
  rests = record { sleeps = λ k. cc; ends = λ k. cc };
}

pub PoolSteps-IsRun :
    (fs : List (Option (List Bytes))) (r r' : Tally × List Task)
    → IsRun fs r.0 r.1
    → PoolSteps r r'
    → IsRun fs r'.0 r'.1
PoolSteps-IsRun fs _ _ run (start _) = run
PoolSteps-IsRun fs r _ run (also _ r' r'' before h) =
    PoolStep-IsRun fs r' r'' (PoolSteps-IsRun fs r r' run before) h

-- A task that has left, in front of others.
gone_first :
    (f : Option (List Bytes)) (fs : List (Option (List Bytes))) (b : Bool) (rest : List Bytes)
    → scan_in_turn fs ≡ (if b then throws else ok rest)
    → scan_in_turn (f ∷ fs) ≡ (if fails f || b then throws else ok (strings f ++ rest))
unfolding scan_in_turn
gone_first none fs b rest h = refl
gone_first (some found) fs true rest h = rw (h) refl
gone_first (some found) fs false rest h = rw (h) refl

-- When no task is left, all have recorded what they found.
all_gone :
    (ts : List Task)
    → active ts ≡ 0
    → scan_in_turn (map (λ (t : Task). t.candidates) ts)
      ≡ (if has_failed ts then throws else ok (gathered ts))
unfolding scan_in_turn
all_gone [] e = refl
all_gone (t ∷ ts) e = left t.phase refl (λ q. all_gone ts (ground (arith, q, e)))
  where
    left :
        (p : Phase)
        → t.phase ≡ p
        → (p ≡ gone
            → scan_in_turn (map (λ (t : Task). t.candidates) ts)
              ≡ (if has_failed ts then throws else ok (gathered ts)))
        → scan_in_turn (t.candidates ∷ map (λ (t : Task). t.candidates) ts)
          ≡ (if has_failed (t ∷ ts) then throws else ok (gathered (t ∷ ts)))
    left scanning q rest = absurd (ground (arith, q, e))
    left unwinding q rest = absurd (ground (arith, q, e))
    left gone q rest = rw (q) (
        gone_first t.candidates (map (λ (t : Task). t.candidates) ts) (has_failed ts) (gathered ts)
          (rest refl))

finished :
    (b e : Bool) (found all : List Bytes)
    → e ≡ b
    → Permᴰ found all
    → (verify (not e) >> ok (str_sort true found))
      ≡ ((if b then throws else ok all) >>= λ l. ok (str_sort true l))
finished true e found all h p = rw (h) refl
finished false e found all h p = rw (h) (ap ok (str_sort_permuted p))

-- However the steps of the tasks and of the caller interleave, when the caller is through with its
-- wait, GetDirtyCandidates gives what the scans one after the other would, for an index that is case
-- sensitive: the sorted candidates of all shards, or an exception if a scan threw one.
pub PoolSteps-in_turn :
    (fs : List (Option (List Bytes))) (s : Tally) (ts : List Task)
    → PoolSteps (scheduled fs) (s, ts)
    → s.waiter ≡ returned
    → finish_candidates true s ≡ (scan_in_turn fs >>= λ found. ok (str_sort true found))
unfolding finish_candidates
PoolSteps-in_turn fs s ts steps e =
    rw (through) (finished (has_failed ts) s.error s.res (gathered ts) run.errs run.finds)
  where
    run : IsRun fs s ts
    run = PoolSteps-IsRun fs (scheduled fs) (s, ts) (scheduled-IsRun fs) steps

    through : scan_in_turn fs ≡ (if has_failed ts then throws else ok (gathered ts))
    through = ap scan_in_turn (sym run.same) ∙ all_gone ts (sym run.counts ∙ run.rests.ends e)
