-- ===== src/Index/Candidates/Waits.antt =====
-- The caller of GetDirtyCandidates of src/index.cc comes to the end of its wait.
use gitstatus.Common.{
  ◌⊎◌, inl, inr, ℕ_discrete, ◌↔◌, List, Option, [], arith, if◌then◌else◌, refl, suc, zero, ℕ, ◌+◌,
  ◌-◌, ◌<◌, ◌==◌, ◌∙◌, ◌∷◌, ◌≡◌,
}
use gitstatus.Common.Outcome.{ok}
use gitstatus.Index.Candidates.{
  notify_one, Phase, scanning, unwinding, gone, Task, Waiter, testing, asleep, returned, Tally,
  record_found, leave_scope, wait_test, TaskStep, records, leaves, later, task, PoolSteps,
  scheduled,
}
use gitstatus.Text.{Bytes}
use gitstatus.Index.Candidates.Invariant.{active}
use gitstatus.Index.Candidates.Result.{IsRun, PoolStep-IsRun, PoolSteps-IsRun, scheduled-IsRun}

-- The steps that the tasks have left.
abbrev work : List Task → ℕ
work [] = 0
work (t ∷ ts) = elim t.phase [ scanning ↦ 2 | unwinding ↦ 1 | gone ↦ 0 ] + work ts

record Next (s : Tally) (ts : List Task) (m : ℕ) : Type 0 where
  after : Tally
  tasks : List Task
  moves : TaskStep s ts after tasks
  less : work tasks ≡ m

leave_scope-runs : (s : Tally) → 0 < s.inflight → (s' : Tally) × (leave_scope s ≡ ok s')
unfolding leave_scope
leave_scope-runs s h = (
  record s {
    inflight = s.inflight - 1;
    waiter = if s.inflight - 1 == 0 then notify_one s.waiter else s.waiter;
  },
  ground (arith, h),
)

-- The step of a first task, or one of the others.
Next-first :
    (s : Tally) (f : Option (List Bytes)) (p : Phase) (ts : List Task) (m : ℕ)
    → 0 < s.inflight
    → work (record { candidates = f; phase = p } ∷ ts) ≡ suc m
    → (work ts ≡ suc m → Next s ts m)
    → Next s (record { candidates = f; phase = p } ∷ ts) m
Next-first s f scanning ts m h e rest = record {
  after = record_found f s;
  tasks = record { candidates = f; phase = unwinding } ∷ ts;
  moves = records s f ts;
  less = omega (arith, e);
}
Next-first s f unwinding ts m h e rest =
    let left = leave_scope-runs s h in
    record {
      after = left.0;
      tasks = record { candidates = f; phase = gone } ∷ ts;
      moves = leaves s left.0 f ts left.1;
      less = omega (arith, e);
    }
Next-first s f gone ts m h e rest =
    let n = rest (omega (arith, e)) in
    record {
      after = n.after;
      tasks = record { candidates = f; phase = gone } ∷ n.tasks;
      moves = later s n.after (record { candidates = f; phase = gone }) ts n.tasks n.moves;
      less = omega (arith, n.less);
    }

Next-suc : (s : Tally) (ts : List Task) (m : ℕ) → 0 < s.inflight → work ts ≡ suc m → Next s ts m
Next-suc s [] m h e = absurd (omega (arith, e))
Next-suc s (t ∷ ts) m h e = Next-first s t.candidates t.phase ts m h e (Next-suc s ts m h)

-- Tasks that have nothing left to do have left, and no others.
phase_work :
    (f : Option (List Bytes)) (p : Phase) (ts : List Task)
    → ((work ts ≡ 0) ↔ (active ts ≡ 0))
    → (work (record { candidates = f; phase = p } ∷ ts) ≡ 0)
      ↔ (active (record { candidates = f; phase = p } ∷ ts) ≡ 0)
phase_work f scanning ts h = (λ e. absurd (omega (arith, e)), λ e. absurd (omega (arith, e)))
phase_work f unwinding ts h = (λ e. absurd (omega (arith, e)), λ e. absurd (omega (arith, e)))
phase_work f gone ts h =
    (λ e. omega (arith, h.0 (omega (arith, e))), λ e. omega (arith, h.1 (omega (arith, e))))

work_iff : (ts : List Task) → (work ts ≡ 0) ↔ (active ts ≡ 0)
work_iff [] = (λ e. refl, λ e. refl)
work_iff (t ∷ ts) = phase_work t.candidates t.phase ts (work_iff ts)

active-work : (ts : List Task) (m : ℕ) → work ts ≡ suc m → 0 < active ts
active-work ts m e = ground (arith, e, work_iff ts)

-- Steps of the tasks and tests of the caller, without wake-ups that nobody asked for.
pub data OwnSteps (r : Tally × List Task) : Tally × List Task → Type 0 where
  none_yet : OwnSteps r r
  by_task :
      (s s' : Tally) (ts ts' : List Task)
      → OwnSteps r (s, ts)
      → TaskStep s ts s' ts'
      → OwnSteps r (s', ts')
  by_test :
      (s : Tally) (ts : List Task)
      → OwnSteps r (s, ts)
      → s.waiter ≡ testing
      → OwnSteps r (wait_test s, ts)

-- The end of the wait, in a state that steps lead to.
record Ends (r : Tally × List Task) : Type 0 where
  tally : Tally
  tasks : List Task
  steps : OwnSteps r (tally, tasks)
  through : tally.waiter ≡ returned

idle-Ends :
    (fs : List (Option (List Bytes))) (r : Tally × List Task) (s : Tally) (ts : List Task)
    → OwnSteps r (s, ts)
    → IsRun fs s ts
    → work ts ≡ 0
    → Ends r
unfolding wait_test
idle-Ends fs r s ts steps run e = go s.waiter refl
  where
    none_left : s.inflight ≡ 0
    none_left = run.counts ∙ (work_iff ts).0 e

    go : (w : Waiter) → s.waiter ≡ w → Ends r
    go testing k = record {
      tally = wait_test s;
      tasks = ts;
      steps = by_test s ts steps k;
      through = ground (arith, none_left);
    }
    go asleep k = absurd (run.rests.sleeps k none_left)
    go returned k = record { tally = s; tasks = ts; steps = steps; through = k }

busy-Ends :
    (m : ℕ) (fs : List (Option (List Bytes))) (r : Tally × List Task) (s : Tally) (ts : List Task)
    → OwnSteps r (s, ts)
    → IsRun fs s ts
    → work ts ≡ m
    → Ends r
busy-Ends zero fs r s ts steps run e = idle-Ends fs r s ts steps run e
busy-Ends (suc m) fs r s ts steps run e =
    let n = Next-suc s ts m (omega (arith, run.counts, active-work ts m e)) e in
    let moved = task s n.after ts n.tasks n.moves in
    busy-Ends m fs r n.after n.tasks (by_task s n.after ts n.tasks steps n.moves)
      (PoolStep-IsRun fs (s, ts) (n.after, n.tasks) run moved) n.less

no_abort :
    (fs : List (Option (List Bytes))) (s : Tally) (ts : List Task)
    → IsRun fs s ts
    → (active ts ≡ 0) ⊎ ((s' : Tally) × (leave_scope s ≡ ok s'))
no_abort fs s ts run = elim (ℕ_discrete (active ts) 0) [
  | yes e ↦ inl e
  | no n ↦ inr (leave_scope-runs s (omega (arith, run.counts)))
]

-- In every state that the steps of the tasks and of the caller can lead to, wake-ups that nobody
-- asked for included: unless all tasks have left, the CHECK at the end of a task holds; and more
-- steps of the tasks and tests of the caller, with no such wake-up, lead to where the caller is
-- through with its wait, so that no notification is missing.
pub PoolSteps-Ends :
    (fs : List (Option (List Bytes))) (r : Tally × List Task)
    → PoolSteps (scheduled fs) r
    → ((active r.1 ≡ 0) ⊎ ((s' : Tally) × (leave_scope r.0 ≡ ok s')))
      × (s : Tally) × (ts : List Task) × OwnSteps r (s, ts)
      × (s.waiter ≡ returned)
PoolSteps-Ends fs r steps =
    let run = PoolSteps-IsRun fs (scheduled fs) r (scheduled-IsRun fs) steps in
    let ends = busy-Ends (work r.1) fs r r.0 r.1 none_yet run refl in
    (no_abort fs r.0 r.1 run, ends.tally, ends.tasks, ends.steps, ends.through)
