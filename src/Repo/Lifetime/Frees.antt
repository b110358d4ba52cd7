-- ===== src/Repo/Lifetime/Frees.antt =====
-- The destructor of Repo in src/repo.cc comes to its end.
use gitstatus.Common.{
  ℕ, ◌<◌, ◌-◌, ◌==◌, lt→ltb, arith, zero, suc, if◌then◌else◌, Bool, Bool-cases, List, false, inl,
  inr, refl, sym, true, ◌∙◌, ◌≡◌,
}
use gitstatus.Common.Outcome.{Outcome, aborts, exits, ok, throws}
use mathlib.Core.Path.{subst}
use gitstatus.Mtime.{MtimeEnv, SysCall, check_dir_mtime}
use gitstatus.Mtime.Capable.{IsCapable}
use gitstatus.Mtime.Whole.{IsUndone, check_dir_mtime-IsUndone}
use gitstatus.Repo.Lifetime.{
  Owner, in_use, draining, drowsy, testing, asleep, freed, end_scan, drain_test, notify_owner,
  drains, ends_scan, OwnLifeSteps, at_rest, one_more, Life, is_unknown, cache_test, constructed,
  LifeStep, checks, destroys, looks, LifeSteps,
}
use gitstatus.Repo.Lifetime.Ends.{
  Waits, IsSound, step-IsSound, steps-IsSound, finished, finish_check_ok, freed_of, unknown_of,
}
use gitstatus.Text.{Bytes}

answers :
    (env : MtimeEnv) (l : List SysCall) (r : Outcome Bool)
    → IsUndone env l r
    → env.close_ok ≡ true
    → (b : Bool) × (r ≡ ok b)
answers env l (ok b) h e = (b, refl)
answers env l throws h e = absurd h
answers env l aborts h e = let q = sym h ∙ e in absurd (cc)
answers env l (exits n) h e = absurd h

tested_freed : (s : Life) → is_unknown s.untracked_cache ≡ false → (cache_test s).owner ≡ freed
unfolding cache_test
tested_freed s e = rw e

drained_testing : (s : Life) → s.inflight ≡ 0 → (drain_test s).owner ≡ testing
unfolding drain_test
drained_testing s e = ground (arith, e)

drained_rest :
    (s : Life) → ((drain_test s).checked ≡ s.checked) × ((drain_test s).inflight ≡ s.inflight)
unfolding drain_test
drained_rest s = (refl, refl)

module _ (env : MtimeEnv) (path : Bytes) where
  -- More steps, without wake-ups that nobody asked for, at whose end the repository is freed.
  pub record IsFreed (s : Life) : Type 0 where
    pub last_state : Life
    pub more : OwnLifeSteps env path s last_state
    pub is_freed : last_state.owner ≡ freed

  after_step : {s t : Life} → LifeStep env path s t → IsFreed t → IsFreed s
  after_step st f = record {
    last_state = f.last_state;
    more = one_more st f.more;
    is_freed = f.is_freed;
  }

  tested-IsFreed :
      (s : Life) → IsSound env path s → s.checked ≡ true → s.owner ≡ testing → IsFreed s
  tested-IsFreed s h e o =
      let known = freed_of (IsCapable env) s.untracked_cache s.checked h.agrees e in
      after_step (looks s o)
        (record { last_state = cache_test s; more = at_rest; is_freed = tested_freed s known })

  drained-IsFreed :
      (s : Life)
      → IsSound env path s
      → s.checked ≡ true
      → s.inflight ≡ 0
      → s.owner ≡ draining
      → IsFreed s
  drained-IsFreed s h e z o = after_step (drains s o) (
      tested-IsFreed (drain_test s) (step-IsSound env path (drains s o) h) ((drained_rest s).0 ∙ e)
        (drained_testing s z))

  checked-IsFreed :
      (s : Life) (o : Owner)
      → s.owner ≡ o
      → IsSound env path s
      → s.checked ≡ true
      → s.inflight ≡ 0
      → IsFreed s
  checked-IsFreed s in_use o h e z =
      let st = destroys s o in
      after_step st
        (drained-IsFreed (record s { owner = draining }) (step-IsSound env path st h) e z refl)
  checked-IsFreed s draining o h e z = drained-IsFreed s h e z o
  checked-IsFreed s drowsy o h e z =
      let w : 0 < s.inflight = subst (λ (x : Owner). Waits x s.checked s.inflight) o h.waits in
      absurd (omega (arith, z))
  checked-IsFreed s testing o h e z = tested-IsFreed s h e o
  checked-IsFreed s asleep o h e z =
      let w = subst (λ (x : Owner). Waits x s.checked s.inflight) o h.waits in
      let q = sym w.0 ∙ e in absurd (cc)
  checked-IsFreed s freed o h e z = record { last_state = s; more = at_rest; is_freed = o }

  idle-IsFreed : (s : Life) → env.close_ok ≡ true → IsSound env path s → s.inflight ≡ 0 → IsFreed s
  idle-IsFreed s ends h z = elim (Bool-cases s.checked) [
    | inl e ↦ checked-IsFreed s s.owner refl h e z
    | inr e ↦
        let r = check_dir_mtime env path in
        let said = answers env r.0 r.1 (check_dir_mtime-IsUndone env path) ends in
        let fin =
          finish_check_ok said.0 s
            (unknown_of (IsCapable env) s.untracked_cache s.checked h.agrees e) in
        let t = finished said.0 s in
        let st : LifeStep env path s t = checks s t said.0 e said.1 fin in
        after_step st (checked-IsFreed t t.owner refl (step-IsSound env path st h) refl z)
  ]

  scan_ends :
      (s : Life) → 0 < s.inflight → (t : Life) × (end_scan s ≡ ok t) × (t.inflight ≡ s.inflight - 1)
  unfolding end_scan
  scan_ends s h = (
    record s {
      inflight = s.inflight - 1;
      owner = if s.inflight == 1 then notify_owner s.owner else s.owner;
    },
    rw (lt→ltb 0 s.inflight h),
    refl,
  )

  sound-IsFreed :
      (n : ℕ) (s : Life) → s.inflight ≡ n → env.close_ok ≡ true → IsSound env path s → IsFreed s
  sound-IsFreed zero s z ends h = idle-IsFreed s ends h z
  sound-IsFreed (suc n) s z ends h =
      let (t, e, less) = scan_ends s (omega (arith, z)) in
      let st : LifeStep env path s t = ends_scan s t e in
      after_step st (sound-IsFreed n t (omega (arith, z, less)) ends (step-IsSound env path st h))

  -- If close does not fail in the check of directory times, then from every state that the check, the
  -- scans and the destructor reach, more steps lead to the end of the destructor, in which it wakes
  -- only when it is notified: no notification is missing. Scans are taken to end.
  pub steps-IsFreed :
      (s : Life) → env.close_ok ≡ true → LifeSteps env path constructed s → IsFreed s
  steps-IsFreed s ends r = sound-IsFreed s.inflight s refl ends (steps-IsSound env path r)
