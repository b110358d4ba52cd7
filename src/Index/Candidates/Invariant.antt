-- ===== src/Index/Candidates/Invariant.antt =====
-- What the steps of GetDirtyCandidates of src/index.cc keep.
use gitstatus.Common.{
  Bool, List, Option, [], ap, arith, false, if◌then◌else◌, ltb, map, none, refl, some, suc, sym,
  true, ℕ, ◌++◌, ◌+◌, ◌==◌, ◌||◌, ◌∙◌, ◌∷◌, ◌≡◌, ◌≢◌,
}
use gitstatus.Common.Outcome.{>>=-Ensures_eq, Ensures-ok, check, ok, on_ok}
use gitstatus.Text.{Bytes}
use mathlib.Core.List.{append-nil, append_assoc, Permᴰ}
use mathlib.Core.Path.{subst}
use mathlib.Core.List.Permᴰ
use gitstatus.Index.Candidates.{
  Phase, scanning, unwinding, gone, Task, Waiter, testing, asleep, returned, Tally, record_found,
  notify_one, leave_scope, TaskStep, records, leaves, later,
}

-- How many tasks have not left.
abbrev pub active : List Task → ℕ
active [] = 0
active (t ∷ ts) = elim t.phase [ scanning ↦ 1 | unwinding ↦ 1 | gone ↦ 0 ] + active ts

abbrev pub strings : Option (List Bytes) → List Bytes
strings none = []
strings (some s) = s

abbrev pub fails : Option (List Bytes) → Bool
fails none = true
fails (some s) = false

abbrev pub passed : {A : Type 0} → A → Phase → A → A
passed before scanning x = before
passed before unwinding x = x
passed before gone x = x

-- What the tasks that have recorded their results have found, and whether one of them failed.
abbrev pub gathered : List Task → List Bytes
gathered [] = []
gathered (t ∷ ts) = passed [] t.phase (strings t.candidates) ++ gathered ts

abbrev pub has_failed : List Task → Bool
has_failed [] = false
has_failed (t ∷ ts) = passed false t.phase (fails t.candidates) || has_failed ts

-- The caller waits only for tasks, and is through only when there are none.
pub record IsResting (s : Tally) : Type 0 where
  pub sleeps : s.waiter ≡ asleep → s.inflight ≢ 0
  pub ends : s.waiter ≡ returned → s.inflight ≡ 0

-- What a step of a task changes.
pub record Effect (s : Tally) (ts : List Task) (s' : Tally) (ts' : List Task) : Type 0 where
  pub gain : List Bytes
  pub loss : Bool
  pub same : map (λ (t : Task). t.candidates) ts' ≡ map (λ (t : Task). t.candidates) ts
  pub counts : s.inflight + active ts' ≡ s'.inflight + active ts
  pub gains : s'.res ≡ s.res ++ gain
  pub gathers : Permᴰ (gathered ts') (gathered ts ++ gain)
  pub loses : s'.error ≡ (s.error || loss)
  pub failed : has_failed ts' ≡ (has_failed ts || loss)
  pub waits : IsResting s → IsResting s'

records-Effect :
    (s : Tally) (found : Option (List Bytes)) (ts : List Task)
    → Effect s
        (record { candidates = found; phase = scanning } ∷ ts)
        (record_found found s)
        (record { candidates = found; phase = unwinding } ∷ ts)
unfolding record_found
records-Effect s none ts = record {
  gain = [];
  loss = true;
  same = refl;
  counts = omega arith;
  gains = sym (append-nil s.res);
  gathers = Permᴰ.symm (Permᴰ.append-nil (gathered ts));
  loses = ground arith;
  failed = ground arith;
  waits = λ h. record { sleeps = h.sleeps; ends = h.ends };
}
records-Effect s (some []) ts = record {
  gain = [];
  loss = false;
  same = refl;
  counts = omega arith;
  gains = sym (append-nil s.res);
  gathers = Permᴰ.symm (Permᴰ.append-nil (gathered ts));
  loses = ground arith;
  failed = ground arith;
  waits = λ h. record { sleeps = h.sleeps; ends = h.ends };
}
records-Effect s (some (c ∷ cs)) ts = record {
  gain = c ∷ cs;
  loss = false;
  same = refl;
  counts = omega arith;
  gains = refl;
  gathers = Permᴰ.append_comm (c ∷ cs) (gathered ts);
  loses = ground arith;
  failed = ground arith;
  waits = λ h. record { sleeps = h.sleeps; ends = h.ends };
}

leave_scope-ok :
    (s s' : Tally)
    → leave_scope s ≡ ok s'
    → (s.inflight ≡ suc s'.inflight)
      × (s'.error ≡ s.error)
      × (s'.res ≡ s.res)
      × (s'.waiter ≡ (if s'.inflight == 0 then notify_one s.waiter else s.waiter))
unfolding leave_scope
leave_scope-ok s s' e =
    Ensures-ok Left (leave_scope s)
      (>>=-Ensures_eq Left (check (ltb 0 s.inflight)) _
        (λ a f. on_ok (ground (arith, f), refl, refl, refl)))
      e
  where
    Left : Tally → Type 0
    Left s' =
        (s.inflight ≡ suc s'.inflight)
        × (s'.error ≡ s.error)
        × (s'.res ≡ s.res)
        × (s'.waiter ≡ (if s'.inflight == 0 then notify_one s.waiter else s.waiter))

notify_one-awake : (w : Waiter) → notify_one w ≢ asleep
notify_one-awake testing e = cc
notify_one-awake asleep e = cc
notify_one-awake returned e = cc

leaves-Effect :
    (s s' : Tally) (found : Option (List Bytes)) (ts : List Task)
    → leave_scope s ≡ ok s'
    → Effect s
        (record { candidates = found; phase = unwinding } ∷ ts)
        s'
        (record { candidates = found; phase = gone } ∷ ts)
leaves-Effect s s' found ts e =
    let left = leave_scope-ok s s' e in
    record {
      gain = [];
      loss = false;
      same = refl;
      counts = omega (arith, left.0);
      gains = left.2 ∙ sym (append-nil s.res);
      gathers = Permᴰ.symm (Permᴰ.append-nil (strings found ++ gathered ts));
      loses = ground (arith, left.1);
      failed = ground arith;
      waits = λ h. record {
        sleeps = λ k. λ z. notify_one-awake s.waiter (ground (arith, left.3));
        ends = λ k. ground (arith, left.0, left.3, h.ends);
      };
    }

later-Effect :
    (s s' : Tally) (t : Task) (ts ts' : List Task)
    → Effect s ts s' ts'
    → Effect s (t ∷ ts) s' (t ∷ ts')
later-Effect s s' t ts ts' h = record {
  gain = h.gain;
  loss = h.loss;
  same = ap (◌∷◌ t.candidates) h.same;
  counts = omega (arith, h.counts);
  gains = h.gains;
  gathers =
      subst (Permᴰ (passed [] t.phase (strings t.candidates) ++ gathered ts'))
        (sym (append_assoc (passed [] t.phase (strings t.candidates)) (gathered ts) h.gain))
        (Permᴰ.append_left (passed [] t.phase (strings t.candidates)) h.gathers);
  loses = h.loses;
  failed = ground (arith, h.failed);
  waits = h.waits;
}

pub TaskStep-Effect :
    (s s' : Tally) (ts ts' : List Task) → TaskStep s ts s' ts' → Effect s ts s' ts'
TaskStep-Effect _ _ _ _ (records s found ts) = records-Effect s found ts
TaskStep-Effect _ _ _ _ (leaves s s' found ts e) = leaves-Effect s s' found ts e
TaskStep-Effect _ _ _ _ (later s s' t ts ts' h) =
    later-Effect s s' t ts ts' (TaskStep-Effect s s' ts ts' h)
