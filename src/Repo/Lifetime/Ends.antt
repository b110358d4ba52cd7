-- ===== src/Repo/Lifetime/Ends.antt =====
-- The destructor of Repo in src/repo.cc and the check of directory times that it waits for.
use gitstatus.Common.{
  ℕ, ◌<◌, ◌+◌, ◌-◌, ◌==◌, ltb, ltb→lt, arith, Bool-cases, inl, inr, if◌then◌else◌, refl, sym, ◌∙◌,
  ◌≢◌, Bool, false, true, ◌≡◌,
}
use gitstatus.Common.Outcome.{aborts, ok}
use gitstatus.Daemon.Serve.Order.{answer}
use mathlib.Core.Path.{subst}
use gitstatus.Index.Scan.{Tribool, t_true, t_false, t_unknown}
use gitstatus.Mtime.{MtimeEnv, check_dir_mtime}
use gitstatus.Mtime.Capable.{IsCapable}
use gitstatus.Mtime.Answer.{check_dir_mtime_iff}
use gitstatus.Repo.Lifetime.{
  Owner, in_use, draining, drowsy, testing, asleep, freed, Life, is_unknown, notify_owner,
  finish_check, cache_test, end_scan, drain_test, stirred, runs, ends_scan, drains, constructed,
  LifeStep, checks, destroys, looks, stirs, LifeSteps, rest, onward,
}
use gitstatus.Text.{Bytes}

-- The members tell how far the check is, and what it found.
abbrev pub Agrees : (capable : Type 0) → Tribool → Bool → Type 0
Agrees capable t_unknown checked = checked ≡ false
Agrees capable t_true checked = (checked ≡ true) × capable
Agrees capable t_false checked = (checked ≡ true) × ¬ capable

-- The owner sleeps in Wait only while something is in flight, and goes on when nothing is; then it
-- sleeps only before the end of the check, and frees the object only behind it.
abbrev pub Waits : Owner → Bool → ℕ → Type 0
Waits in_use checked n = Unit
Waits draining checked n = Unit
Waits drowsy checked n = 0 < n
Waits testing checked n = n ≡ 0
Waits asleep checked n = (checked ≡ false) × (n ≡ 0)
Waits freed checked n = (checked ≡ true) × (n ≡ 0)

pub checked-Waits : (o : Owner) (b : Bool) (n : ℕ) → Waits o b n → Waits (notify_owner o) true n
checked-Waits in_use b n h = tt
checked-Waits draining b n h = tt
checked-Waits drowsy b n h = tt
checked-Waits testing b n h = h
checked-Waits asleep b n h = h.1
checked-Waits freed b n h = (refl, h.1)

stirred-Waits : (o : Owner) (b : Bool) (n : ℕ) → Waits o b n → Waits (stirred o) b n
stirred-Waits in_use b n h = tt
stirred-Waits draining b n h = tt
stirred-Waits drowsy b n h = tt
stirred-Waits testing b n h = h
stirred-Waits asleep b n h = h.1
stirred-Waits freed b n h = h

ended-Waits :
    (o : Owner) (b : Bool) (n : ℕ)
    → Waits o b n
    → 0 < n
    → Waits (if n == 1 then notify_owner o else o) b (n - 1)
ended-Waits in_use b n h k = ground arith
ended-Waits draining b n h k = ground arith
ended-Waits drowsy b n h k = ground arith
ended-Waits testing b n h k = absurd (omega arith)
ended-Waits asleep b n h k = absurd (omega arith)
ended-Waits freed b n h k = absurd (omega arith)

drained-Waits : (b : Bool) (n : ℕ) → Waits (if n == 0 then testing else drowsy) b n
drained-Waits b n = ground arith

pub unknown_of :
    (P : Type 0) (c : Tribool) (b : Bool) → Agrees P c b → b ≡ false → is_unknown c ≡ true
unknown_of P t_unknown b h e = refl
unknown_of P t_true b h e = let q = sym h.0 ∙ e in cc
unknown_of P t_false b h e = let q = sym h.0 ∙ e in cc

-- The test of the loop: the owner sleeps exactly before the end of the check.
tested-Waits :
    (P : Type 0) (c : Tribool) (b : Bool) (n : ℕ)
    → Agrees P c b
    → n ≡ 0
    → Waits (if is_unknown c then asleep else freed) b n
tested-Waits P t_unknown b n h z = (h, z)
tested-Waits P t_true b n h z = (h.0, z)
tested-Waits P t_false b n h z = (h.0, z)

pub freed_of :
    (P : Type 0) (c : Tribool) (b : Bool) → Agrees P c b → b ≡ true → is_unknown c ≡ false
freed_of P t_unknown b h e = let q = sym h ∙ e in cc
freed_of P t_true b h e = refl
freed_of P t_false b h e = refl

abbrev pub finished : Bool → Life → Life
finished answer s = record s {
  untracked_cache = if answer then t_true else t_false;
  checked = true;
  owner = notify_owner s.owner;
}

pub finish_check_ok :
    (answer : Bool) (s : Life)
    → is_unknown s.untracked_cache ≡ true
    → finish_check answer s ≡ ok (finished answer s)
unfolding finish_check
finish_check_ok answer s e = rw e

ok_injective : (s t : Life) → ok s ≡ ok t → s ≡ t
ok_injective s t e = cc

module _ (env : MtimeEnv) (path : Bytes) where
  -- The CHECK of the scheduled function does not fail, and the members are as they should be.
  pub record IsSound (s : Life) : Type 0 where
    pub agrees : Agrees (IsCapable env) s.untracked_cache s.checked
    pub waits : Waits s.owner s.checked s.inflight
    pub no_abort : (answer : Bool) → s.checked ≡ false → finish_check answer s ≢ aborts

  sound :
      (s : Life)
      → Agrees (IsCapable env) s.untracked_cache s.checked
      → Waits s.owner s.checked s.inflight
      → IsSound s
  sound s a w = record {
    agrees = a;
    waits = w;
    no_abort = λ answer e p.
        let q =
          sym
            (finish_check_ok answer s (unknown_of (IsCapable env) s.untracked_cache s.checked a e))
          ∙ p in
        cc;
  }

  answer-Agrees :
      (answer : Bool)
      → (check_dir_mtime env path).1 ≡ ok answer
      → Agrees (IsCapable env) (if answer then t_true else t_false) true
  answer-Agrees true e = (refl, (check_dir_mtime_iff env path).0 e)
  answer-Agrees false e = (refl, λ c. let q = sym e ∙ (check_dir_mtime_iff env path).1 c in cc)

  looked-IsSound : (s : Life) → s.owner ≡ testing → IsSound s → IsSound (cache_test s)
  unfolding cache_test
  looked-IsSound s o h =
      let none_left : s.inflight ≡ 0 =
        subst (λ (x : Owner). Waits x s.checked s.inflight) o h.waits in
      sound _ h.agrees
        (tested-Waits (IsCapable env) s.untracked_cache s.checked s.inflight h.agrees none_left)

  drained-IsSound : (s : Life) → IsSound s → IsSound (drain_test s)
  unfolding drain_test
  drained-IsSound s h = sound _ h.agrees (drained-Waits s.checked s.inflight)

  ended-IsSound : (s s' : Life) → end_scan s ≡ ok s' → IsSound s → IsSound s'
  unfolding end_scan
  ended-IsSound s s' e h = elim (Bool-cases (ltb 0 s.inflight)) [
    | inl some_left ↦
        let after : Life = record s {
          inflight = s.inflight - 1;
          owner = if s.inflight == 1 then notify_owner s.owner else s.owner;
        } in
        let fin : end_scan s ≡ ok after = rw (some_left, end_scan) in
        subst IsSound (ok_injective after s' (sym fin ∙ e)) (
          sound after h.agrees
            (ended-Waits s.owner s.checked s.inflight h.waits (ltb→lt 0 s.inflight some_left)))
    | inr none_left ↦
        let fin : end_scan s ≡ aborts = rw (none_left, end_scan) in
        let q = sym fin ∙ e in absurd (cc)
  ]

  pub step-IsSound : {s t : Life} → LifeStep env path s t → IsSound s → IsSound t
  step-IsSound (checks s t answer before said e) h =
      let fin =
        finish_check_ok answer s
          (unknown_of (IsCapable env) s.untracked_cache s.checked h.agrees before) in
      let same : finished answer s ≡ t = ok_injective _ _ (sym fin ∙ e) in
      subst IsSound same (
        sound (finished answer s) (answer-Agrees answer said)
          (checked-Waits s.owner s.checked s.inflight h.waits))
  step-IsSound (runs s o) h =
      sound _ h.agrees (subst (λ (x : Owner). Waits x s.checked (s.inflight + 1)) (sym o) tt)
  step-IsSound (ends_scan s t e) h = ended-IsSound s t e h
  step-IsSound (destroys s e) h = sound _ h.agrees tt
  step-IsSound (drains s e) h = drained-IsSound s h
  step-IsSound (looks s e) h = looked-IsSound s e h

  -- However the check, the scans and the destructor interleave: untracked_cache_ is unknown until the
  -- check has ended, and from then on true exactly if CheckDirMtime found the file system capable;
  -- its CHECK does not fail; the destructor sleeps in Wait only while something is in flight, and
  -- behind it only before the end of the check; and it frees the repository only when nothing is in
  -- flight and the check has ended.
  pub steps-IsSound : {s : Life} → LifeSteps env path constructed s → IsSound s
  steps-IsSound rest = sound constructed refl tt
  steps-IsSound (onward r st) = step-IsSound st (steps-IsSound r)
  steps-IsSound (stirs {t} r) =
      let h = steps-IsSound r in
      sound _ h.agrees (stirred-Waits t.owner t.checked t.inflight h.waits)
