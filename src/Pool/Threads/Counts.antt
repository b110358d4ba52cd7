-- ===== src/Pool/Threads/Counts.antt =====
-- The counters of the pool of src/thread_pool.cc and its threads.
use gitstatus.Common.{
  ==_iff, ◌==◌, ◌∙◌, if◌then◌else◌, ap, suc, sym, zero, ◌-◌, ◌≤◌, ◌⊎◌, Bool, List, [], arith, false,
  inl, inr, refl, true, ℕ, ◌+◌, ◌∷◌, ◌≡◌,
}
use gitstatus.Pool.{
  is_idle, Work, Pool, Turn, quits, waits, finish_work, next_turn, schedule, wake_sleeper, take_top,
  top_turn,
}
use mathlib.Core.Path.{subst}
use gitstatus.Pool.Threads.{
  wake_all, rouse_one, notify_exit, stir, notifies, stirs, woken, roused, Place, busy, idle,
  napping, ended, new_threads, place_of, ThreadStep, enters, goes_on, rises, beside, Reached,
  created, stepped, scheduled, exiting,
}

abbrev pub is_busy : Place → ℕ
is_busy busy = 1
is_busy idle = 0
is_busy woken = 0
is_busy napping = 0
is_busy roused = 0
is_busy ended = 0

abbrev pub is_napping : Place → ℕ
is_napping busy = 0
is_napping idle = 0
is_napping woken = 0
is_napping napping = 1
is_napping roused = 1
is_napping ended = 0

abbrev pub num_busy : List Place → ℕ
num_busy [] = 0
num_busy (t ∷ ts) = is_busy t + num_busy ts

abbrev pub num_napping : List Place → ℕ
num_napping [] = 0
num_napping (t ∷ ts) = is_napping t + num_napping ts

-- have_sleeper_ as a number.
abbrev pub flag : Bool → ℕ
flag true = 1
flag false = 0

pub flag_le : (b : Bool) → flag b ≤ 1
flag_le true = omega arith
flag_le false = omega arith

new_busy : (n : ℕ) → num_busy (new_threads n) ≡ n
new_busy zero = refl
new_busy (suc n) = omega (arith, new_busy n)

new_napping : (n : ℕ) → num_napping (new_threads n) ≡ 0
new_napping zero = refl
new_napping (suc n) = omega (arith, new_napping n)

-- The end of a wait counts for nothing.
SameCounts : List Place → List Place → Type 0
SameCounts ts us = (num_busy us ≡ num_busy ts) × (num_napping us ≡ num_napping ts)

SameCounts-cons : (t : Place) (ts us : List Place) → SameCounts ts us → SameCounts (t ∷ ts) (t ∷ us)
unfolding SameCounts
SameCounts-cons t ts us h = (omega (arith, h.0), omega (arith, h.1))

stir-SameCounts : (k : ℕ) (ts : List Place) → SameCounts ts (stir k ts)
unfolding SameCounts
stir-SameCounts k [] = (refl, refl)
stir-SameCounts zero (busy ∷ ts) = (refl, refl)
stir-SameCounts zero (idle ∷ ts) = (refl, refl)
stir-SameCounts zero (woken ∷ ts) = (refl, refl)
stir-SameCounts zero (napping ∷ ts) = (refl, refl)
stir-SameCounts zero (roused ∷ ts) = (refl, refl)
stir-SameCounts zero (ended ∷ ts) = (refl, refl)
stir-SameCounts (suc k) (t ∷ ts) = SameCounts-cons t ts (stir k ts) (stir-SameCounts k ts)

wake_all-SameCounts : (ts : List Place) → SameCounts ts (wake_all ts)
unfolding SameCounts wake_all
wake_all-SameCounts [] = (refl, refl)
wake_all-SameCounts (busy ∷ ts) = SameCounts-cons busy ts (wake_all ts) (wake_all-SameCounts ts)
wake_all-SameCounts (idle ∷ ts) =
    let h = wake_all-SameCounts ts in (omega (arith, h.0), omega (arith, h.1))
wake_all-SameCounts (woken ∷ ts) = SameCounts-cons woken ts (wake_all ts) (wake_all-SameCounts ts)
wake_all-SameCounts (napping ∷ ts) =
    SameCounts-cons napping ts (wake_all ts) (wake_all-SameCounts ts)
wake_all-SameCounts (roused ∷ ts) = SameCounts-cons roused ts (wake_all ts) (wake_all-SameCounts ts)
wake_all-SameCounts (ended ∷ ts) = SameCounts-cons ended ts (wake_all ts) (wake_all-SameCounts ts)

rouse_one-SameCounts : (ts : List Place) → SameCounts ts (rouse_one ts)
unfolding SameCounts rouse_one
rouse_one-SameCounts [] = (refl, refl)
rouse_one-SameCounts (busy ∷ ts) = SameCounts-cons busy ts (rouse_one ts) (rouse_one-SameCounts ts)
rouse_one-SameCounts (idle ∷ ts) = SameCounts-cons idle ts (rouse_one ts) (rouse_one-SameCounts ts)
rouse_one-SameCounts (woken ∷ ts) =
    SameCounts-cons woken ts (rouse_one ts) (rouse_one-SameCounts ts)
rouse_one-SameCounts (napping ∷ ts) = (refl, refl)
rouse_one-SameCounts (roused ∷ ts) =
    SameCounts-cons roused ts (rouse_one ts) (rouse_one-SameCounts ts)
rouse_one-SameCounts (ended ∷ ts) =
    SameCounts-cons ended ts (rouse_one ts) (rouse_one-SameCounts ts)

notify_exit-SameCounts : (ts : List Place) → SameCounts ts (notify_exit ts)
unfolding SameCounts notify_exit
notify_exit-SameCounts ts =
    let (a, b) = wake_all-SameCounts ts in
    let (c, d) = rouse_one-SameCounts (wake_all ts) in (c ∙ a, d ∙ b)

module _ {F : Type 0} where
  record IsTurn (s : Pool F) (r : Pool F × Turn F) : Type 0 where
    inflight_grows : r.0.num_inflight ≡ s.num_inflight + is_busy (place_of r.1)
    sleeper_grows : flag r.0.have_sleeper ≡ flag s.have_sleeper + is_napping (place_of r.1)

  top_turn-IsTurn :
      (now : ℕ) (s : Pool F) (top : Work F × List (Work F)) → IsTurn s (top_turn now s top)
  top_turn-IsTurn now s top = record { inflight_grows = ground arith; sleeper_grows = ground arith }

  stays :
      (s : Pool F) (t : Turn F)
      → is_busy (place_of t) ≡ 0
      → is_napping (place_of t) ≡ 0
      → IsTurn s (s, t)
  stays s t b n = record { inflight_grows = omega arith; sleeper_grows = omega arith }

  branches :
      (b : Bool) (l : List (Work F)) (now : ℕ) (s : Pool F)
      → let r : Pool F × Turn F =
          if b
          then (s, quits)
          else (elim l [ [] ↦ (s, waits) | w ∷ ws ↦ top_turn now s (take_top w ws) ]) in
        (r ≡ (s, quits))
        ⊎ ((r ≡ (s, waits)) ⊎ ((top : Work F × List (Work F)) × (r ≡ top_turn now s top)))
  branches true l now s = inl refl
  branches false [] now s = inr (inl refl)
  branches false (w ∷ ws) now s = inr (inr (take_top w ws, refl))

  next_turn_eq :
      (now : ℕ) (s : Pool F)
      → (next_turn now s ≡ (s, quits))
        ⊎ ((next_turn now s ≡ (s, waits))
            ⊎ ((top : Work F × List (Work F)) × (next_turn now s ≡ top_turn now s top)))
  unfolding next_turn
  next_turn_eq now s = branches s.is_exit s.work now s

  next_turn-IsTurn : (now : ℕ) (s : Pool F) → IsTurn s (next_turn now s)
  next_turn-IsTurn now s = elim (next_turn_eq now s) [
    | inl e ↦ subst (IsTurn s) (sym e) (stays s quits refl refl)
    | inr (inl e) ↦ subst (IsTurn s) (sym e) (stays s waits refl refl)
    | inr (inr (top, e)) ↦ subst (IsTurn s) (sym e) (top_turn-IsTurn now s top)
  ]

  -- Both counters change with the threads, if they were not behind them.
  record IsCounted (s s' : Pool F) (ts ts' : List Place) : Type 0 where
    inflight_moves : s'.num_inflight + num_busy ts ≡ s.num_inflight + num_busy ts'
    sleeper_moves : flag s'.have_sleeper + num_napping ts ≡ flag s.have_sleeper + num_napping ts'

  finished_inflight : (s : Pool F) → (finish_work s).0.num_inflight ≡ s.num_inflight - 1
  unfolding finish_work
  finished_inflight s = refl

  finished_sleeper : (s : Pool F) → (finish_work s).0.have_sleeper ≡ s.have_sleeper
  unfolding finish_work
  finished_sleeper s = refl

  step-IsCounted :
      {s s' : Pool F} {ts ts' : List Place}
      → ThreadStep s ts s' ts'
      → num_busy ts ≤ s.num_inflight
      → num_napping ts ≤ flag s.have_sleeper
      → IsCounted s s' ts ts'
  step-IsCounted (enters s now ts) b n =
      let h = next_turn-IsTurn now (finish_work s).0 in
      let e = ap flag (finished_sleeper s) in
      record {
        inflight_moves = omega (arith, h.inflight_grows, finished_inflight s);
        sleeper_moves = omega (arith, h.sleeper_grows);
      }
  step-IsCounted (goes_on s now ts) b n =
      let h = next_turn-IsTurn now s in
      record {
        inflight_moves = omega (arith, h.inflight_grows);
        sleeper_moves = omega (arith, h.sleeper_grows);
      }
  step-IsCounted (rises s now ts) b n =
      let h = next_turn-IsTurn now (wake_sleeper s) in
      record {
        inflight_moves = omega (arith, h.inflight_grows);
        sleeper_moves = omega (arith, h.sleeper_grows, flag_le s.have_sleeper);
      }
  step-IsCounted (beside s s' t ts ts' st) b n =
      let h = step-IsCounted st (omega arith) (omega arith) in
      record {
        inflight_moves = omega (arith, h.inflight_moves);
        sleeper_moves = omega (arith, h.sleeper_moves);
      }

  idle_inflight :
      (s : Pool F) (l : List (Work F))
      → (elim l [ [] ↦ s.num_inflight == 0 | w ∷ ws ↦ false ]) ≡ true
      → s.num_inflight ≡ 0
  idle_inflight s [] e = (==_iff s.num_inflight 0).0 e
  idle_inflight s (w ∷ ws) e = cc

  counters :
      {n : ℕ} {s : Pool F} {ts : List Place}
      → Reached n s ts
      → (s.num_inflight ≡ num_busy ts) × (flag s.have_sleeper ≡ num_napping ts)
  unfolding schedule SameCounts
  counters {n} created = (sym (new_busy n), sym (new_napping n))
  counters (stepped s s' ts ts' r st) =
      let before = counters r in
      let h = step-IsCounted st (omega arith) (omega arith) in
      (omega (arith, h.inflight_moves), omega (arith, h.sleeper_moves))
  counters (scheduled s ts t f r) = counters r
  counters (exiting s ts r) = counters r
  counters (notifies s ts r) =
      let (b, n) = notify_exit-SameCounts ts in let c = counters r in (c.0 ∙ sym b, c.1 ∙ sym n)
  counters (stirs s ts k r) =
      let (b, n) = stir-SameCounts k ts in let c = counters r in (c.0 ∙ sym b, c.1 ∙ sym n)

  -- However the threads of a pool, the callers of Schedule and the destructor interleave: num_inflight_
  -- is the number of threads that run a function or are in front of Next, and have_sleeper_ tells
  -- whether a thread is in wait_until, which is never so for two at a time. Where the predicate of
  -- Wait holds, no thread runs a function or is in front of Next.
  pub Reached-counts :
      {n : ℕ} {s : Pool F} {ts : List Place}
      → Reached n s ts
      → (s.num_inflight ≡ num_busy ts)
        × (flag s.have_sleeper ≡ num_napping ts)
        × (is_idle s ≡ true → num_busy ts ≡ 0)
  Reached-counts {s} r = let c = counters r in (c.0, c.1, λ e. sym c.0 ∙ idle_inflight s s.work e)
