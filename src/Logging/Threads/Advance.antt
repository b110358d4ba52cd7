-- ===== src/Logging/Threads/Advance.antt =====
-- A thread in Flush can go on, or another one, unless all have returned (src/logging.cc).
use gitstatus.Common.{
  ◌*◌, length, ℕ, ◌+◌, ◌≡◌, ◌≢◌, refl, ap, ◌∙◌, Bool, true, false, List, [], ◌∷◌, ◌++◌, arith, ◌⊎◌,
  inl, inr, suc, ℕ_discrete,
}
use gitstatus.Common.Int.{ℤ}
use gitstatus.Text.{Bytes}
use gitstatus.Logging.{LogStream}
use gitstatus.Logging.Threads.{
  waits, holds, asked, broke, stamped, wrote, restored, finished, Thread, thread, Shared, FlushStep,
  locks, asks_time, breaks_down, formats, writes, restores, unlocks, FlushSteps, here, next,
  callers,
}
use gitstatus.Logging.Threads.Effects.{critical, criticals, flag}

-- The steps that a thread has in front of it.
abbrev pub ahead : Thread → ℕ
ahead (thread l e waits) = 7
ahead (thread l e holds) = 6
ahead (thread l e (asked t)) = 5
ahead (thread l e (broke t)) = 4
ahead (thread l e (stamped t time)) = 3
ahead (thread l e (wrote t)) = 2
ahead (thread l e (restored t)) = 1
ahead (thread l e (finished t)) = 0

abbrev pub all_ahead : List Thread → ℕ
all_ahead [] = 0
all_ahead (t ∷ ts) = ahead t + all_ahead ts

pub all_ahead-append : (xs ys : List Thread) → all_ahead (xs ++ ys) ≡ all_ahead xs + all_ahead ys
all_ahead-append [] ys = omega arith
all_ahead-append (x ∷ xs) ys = omega (arith, all_ahead-append xs ys)

module _ (strftime : ℕ → Bytes) where
  abbrev pub Advances : Shared → Thread → Type 0
  Advances s t =
      (s' : Shared) × (t' : Thread) × FlushStep strftime s t s' t' × (suc (ahead t') ≡ ahead t)

  -- A thread that holds the mutex goes on, and any other one when the mutex is free.
  advance :
      (s : Shared) (t : Thread) → (critical t ≡ 1) ⊎ (s.locked ≡ false) → ahead t ≢ 0 → Advances s t
  advance s (thread l e waits) o n =
      (_, _, locks s l e e (elim o [ inl c ↦ absurd (omega arith) | inr f ↦ f ]), refl)
  advance s (thread l e holds) o n = (_, _, asks_time s l e e 0, refl)
  advance s (thread l e (asked t)) o n = (_, _, breaks_down s l e e t, refl)
  advance s (thread l e (broke t)) o n = (_, _, formats s l e e t, refl)
  advance s (thread l e (stamped t time)) o n = (_, _, writes s l e e t time, refl)
  advance s (thread l e (wrote t)) o n = (_, _, restores s l e t, refl)
  advance s (thread l e (restored t)) o n = (_, _, unlocks s l e t, refl)
  advance s (thread l e (finished t)) o n = absurd (n refl)

  abbrev pub Among : (Thread → Type 0) → List Thread → Type 0
  Among P ts = (xs ys : List Thread) × (t : Thread) × (ts ≡ xs ++ t ∷ ys) × P t

  Among-cons : (P : Thread → Type 0) (x : Thread) (ts : List Thread) → Among P ts → Among P (x ∷ ts)
  Among-cons P x ts (xs, ys, t, e, p) = (x ∷ xs, ys, t, ap (λ (l : List Thread). x ∷ l) e, p)

  -- The thread that holds the mutex.
  find_holder : (ts : List Thread) → criticals ts ≡ 1 → Among (λ t. critical t ≡ 1) ts
  find_holder [] h = absurd (omega arith)
  find_holder (t ∷ ts) h = elim (ℕ_discrete (critical t) 1) [
    | yes c ↦ ([], ts, t, refl, c)
    | no c ↦ Among-cons _ t ts (find_holder ts (omega arith))
  ]

  -- A thread that has not ended.
  find_unfinished : (ts : List Thread) → (all_ahead ts ≡ 0) ⊎ Among (λ t. ahead t ≢ 0) ts
  find_unfinished [] = inl refl
  find_unfinished (t ∷ ts) = elim (ℕ_discrete (ahead t) 0) [
    | yes c ↦ elim (find_unfinished ts) [
      | inl z ↦ inl (omega arith)
      | inr a ↦ inr (Among-cons _ t ts a)
    ]
    | no c ↦ inr ([], ts, t, refl, c)
  ]

  critical-ahead : (t : Thread) → critical t ≡ 1 → ahead t ≢ 0
  critical-ahead (thread l e waits) c z = absurd (omega arith)
  critical-ahead (thread l e (finished t)) c z = absurd (omega arith)
  critical-ahead (thread l e holds) c z = absurd (omega arith)
  critical-ahead (thread l e (asked t)) c z = absurd (omega arith)
  critical-ahead (thread l e (broke t)) c z = absurd (omega arith)
  critical-ahead (thread l e (stamped t time)) c z = absurd (omega arith)
  critical-ahead (thread l e (wrote t)) c z = absurd (omega arith)
  critical-ahead (thread l e (restored t)) c z = absurd (omega arith)

  -- Either all have ended or one can go on.
  pub some_advance :
      (s : Shared) (ts : List Thread)
      → criticals ts ≡ flag s.locked
      → (all_ahead ts ≡ 0) ⊎ Among (Advances s) ts
  some_advance s ts h = elim (held s.locked refl) [
    | inl free ↦ elim (find_unfinished ts) [
      | inl z ↦ inl z
      | inr (xs, ys, t, e, n) ↦ inr (xs, ys, t, e, advance s t (inr free) n)
    ]
    | inr one ↦
        let (xs, ys, t, e, c) = find_holder ts (h ∙ one) in
        inr (xs, ys, t, e, advance s t (inl c) (critical-ahead t c))
  ]
    where
      held : (b : Bool) → s.locked ≡ b → (s.locked ≡ false) ⊎ (flag s.locked ≡ 1)
      held true e = inr (ap flag e)
      held false e = inl e

  FlushStep-ahead :
      {s s' : Shared} {t t' : Thread} → FlushStep strftime s t s' t' → ahead t ≡ suc (ahead t')
  FlushStep-ahead (locks s l e e' free) = refl
  FlushStep-ahead (asks_time s l e e' now) = refl
  FlushStep-ahead (breaks_down s l e e' t) = refl
  FlushStep-ahead (formats s l e e' t) = refl
  FlushStep-ahead (writes s l e e' t time) = refl
  FlushStep-ahead (restores s l e t) = refl
  FlushStep-ahead (unlocks s l e t) = refl

  abbrev pub num_steps :
      {s : Shared} {ts : List Thread} {u : Shared} {us : List Thread}
      → FlushSteps strftime s ts u us
      → ℕ
  num_steps here = 0
  num_steps (next u v xs ys t t' r st) = suc (num_steps r)

  pub num_steps-all_ahead :
      {s : Shared} {ts : List Thread} {u : Shared} {us : List Thread}
      (r : FlushSteps strftime s ts u us)
      → num_steps r + all_ahead us ≡ all_ahead ts
  num_steps-all_ahead here = omega arith
  num_steps-all_ahead (next u v xs ys t t' r st) = omega (
    arith,
    num_steps-all_ahead r,
    FlushStep-ahead st,
    all_ahead-append xs (t ∷ ys),
    all_ahead-append xs (t' ∷ ys),
  )

  pub callers-ahead : (cs : List (LogStream × ℤ)) → all_ahead (callers cs) ≡ 7 * length cs
  callers-ahead [] = omega arith
  callers-ahead (d ∷ cs) = omega (arith, callers-ahead cs)
