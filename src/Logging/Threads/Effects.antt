-- ===== src/Logging/Threads/Effects.antt =====
-- What a step of a thread in Flush does to the mutex, to the other threads and to stderr
-- (src/logging.cc).
use gitstatus.Common.{
  ℕ, ◌+◌, ◌≤◌, ◌≡◌, refl, ap, sym, ◌∙◌, Bool, true, false, List, [], ◌∷◌, ◌++◌, arith, All, ◌⊎◌,
  inl, inr,
}
use gitstatus.Text.{Bytes}
use gitstatus.Logging.{LogStream, message, time_str, Console, flush}
use gitstatus.Logging.Threads.{
  waits, holds, asked, broke, stamped, wrote, restored, finished, Thread, thread, Shared, FlushStep,
  locks, asks_time, breaks_down, formats, writes, restores, unlocks,
}
use mathlib.Core.List.{append_assoc}

-- Whether a thread holds the mutex.
abbrev pub critical : Thread → ℕ
critical (thread l e waits) = 0
critical (thread l e holds) = 1
critical (thread l e (asked t)) = 1
critical (thread l e (broke t)) = 1
critical (thread l e (stamped t time)) = 1
critical (thread l e (wrote t)) = 1
critical (thread l e (restored t)) = 1
critical (thread l e (finished t)) = 0

abbrev pub criticals : List Thread → ℕ
criticals [] = 0
criticals (t ∷ ts) = critical t + criticals ts

abbrev pub flag : Bool → ℕ
flag true = 1
flag false = 0

-- The message that a thread has printed, with the time that it had asked for.
abbrev pub printed_by : Thread → List (LogStream × ℕ)
printed_by (thread l e waits) = []
printed_by (thread l e holds) = []
printed_by (thread l e (asked t)) = []
printed_by (thread l e (broke t)) = []
printed_by (thread l e (stamped t time)) = []
printed_by (thread l e (wrote t)) = (l, t) ∷ []
printed_by (thread l e (restored t)) = (l, t) ∷ []
printed_by (thread l e (finished t)) = (l, t) ∷ []

abbrev pub printed_of : List Thread → List (LogStream × ℕ)
printed_of [] = []
printed_of (t ∷ ts) = printed_by t ++ printed_of ts

abbrev pub stream_of : Thread → LogStream
stream_of (thread l e p) = l

pub criticals-append : (xs ys : List Thread) → criticals (xs ++ ys) ≡ criticals xs + criticals ys
criticals-append [] ys = omega arith
criticals-append (x ∷ xs) ys = omega (arith, criticals-append xs ys)

pub printed_of-append :
    (xs ys : List Thread) → printed_of (xs ++ ys) ≡ printed_of xs ++ printed_of ys
printed_of-append [] ys = refl
printed_of-append (x ∷ xs) ys =
    ap (λ (l : List (LogStream × ℕ)). printed_by x ++ l) (printed_of-append xs ys)
    ∙ sym (append_assoc (printed_by x) (printed_of xs) (printed_of ys))

module _ (strftime : ℕ → Bytes) where
  -- Flushes of one thread, one after another.
  unfoldable pub flush_all : List (LogStream × ℕ) → Console → Console
  flush_all [] c = c
  flush_all ((l, t) ∷ os) c = flush_all os (flush strftime t l c)

  pub flush_all-append :
      (os : List (LogStream × ℕ)) (l : LogStream) (t : ℕ) (c : Console)
      → (flush_all (os ++ (l, t) ∷ []) c).printed
        ≡ (flush_all os c).printed ++ message (time_str strftime t) l
  unfolding flush_all flush
  flush_all-append [] l t c = refl
  flush_all-append (o ∷ os) l t c = flush_all-append os l t (flush strftime o.1 o.0 c)

  -- What the variables of a thread are, where it is.
  abbrev pub Sound : Shared → Thread → Type 0
  Sound s (thread l e waits) = Unit {0}
  Sound s (thread l e holds) = Unit {0}
  Sound s (thread l e (asked t)) = Unit {0}
  Sound s (thread l e (broke t)) = s.local ≡ t
  Sound s (thread l e (stamped t time)) = time ≡ time_str strftime t
  Sound s (thread l e (wrote t)) = Unit {0}
  Sound s (thread l e (restored t)) = e ≡ l.stashed_errno
  Sound s (thread l e (finished t)) = e ≡ l.stashed_errno

  -- What a step does: to the mutex, to what the other threads read, and to stderr.
  pub record IsEffect (s : Shared) (t : Thread) (s' : Shared) (t' : Thread) : Type 0 where
    pub count : critical t' + flag s.locked ≡ critical t + flag s'.locked
    pub sound : Sound s' t'
    pub beside : (s'.local ≡ s.local) ⊎ (critical t ≡ 1)
    pub stream : stream_of t' ≡ stream_of t
    pub output :
        ((printed_by t' ≡ printed_by t) × (s'.printed ≡ s.printed))
        ⊎ ((now : ℕ) × (printed_by t ≡ [])
            × (printed_by t' ≡ (stream_of t, now) ∷ [])
            × (s'.printed ≡ s.printed ++ message (time_str strftime now) (stream_of t)))

  flag-eq_one : (b : Bool) → 1 ≤ flag b → flag b ≡ 1
  flag-eq_one true h = refl
  flag-eq_one false h = absurd (omega arith)

  pub step-IsEffect :
      {s s' : Shared} {t t' : Thread}
      → FlushStep strftime s t s' t'
      → critical t ≤ flag s.locked
      → Sound s t
      → IsEffect s t s' t'
  step-IsEffect (locks s l e e' free) c h = record {
    count = omega (arith, ap flag free);
    sound = tt;
    beside = inl refl;
    stream = refl;
    output = inl (refl, refl);
  }
  step-IsEffect (asks_time s l e e' now) c h = record {
    count = refl;
    sound = tt;
    beside = inl refl;
    stream = refl;
    output = inl (refl, refl);
  }
  step-IsEffect (breaks_down s l e e' t) c h = record {
    count = refl;
    sound = refl;
    beside = inr refl;
    stream = refl;
    output = inl (refl, refl);
  }
  step-IsEffect (formats s l e e' t) c h = record {
    count = refl;
    sound = ap (time_str strftime) h;
    beside = inl refl;
    stream = refl;
    output = inl (refl, refl);
  }
  step-IsEffect (writes s l e e' t time) c h = record {
    count = refl;
    sound = tt;
    beside = inl refl;
    stream = refl;
    output = inr (t, refl, refl, ap (λ (b : Bytes). s.printed ++ message b l) h);
  }
  step-IsEffect (restores s l e t) c h = record {
    count = refl;
    sound = refl;
    beside = inl refl;
    stream = refl;
    output = inl (refl, refl);
  }
  step-IsEffect (unlocks s l e t) c h = record {
    count = omega (arith, flag-eq_one s.locked c);
    sound = h;
    beside = inl refl;
    stream = refl;
    output = inl (refl, refl);
  }

  -- A thread beside the one that steps stays sound: the step does not write what it reads, or it is
  -- not behind the lock.
  Sound-beside :
      (s s' : Shared) (t : Thread)
      → (s'.local ≡ s.local) ⊎ (critical t ≡ 0)
      → Sound s t
      → Sound s' t
  Sound-beside s s' (thread l e waits) o h = h
  Sound-beside s s' (thread l e holds) o h = h
  Sound-beside s s' (thread l e (asked t)) o h = h
  Sound-beside s s' (thread l e (broke t)) o h = elim o [
    | inl k ↦ k ∙ h
    | inr z ↦ absurd (omega arith)
  ]
  Sound-beside s s' (thread l e (stamped t time)) o h = h
  Sound-beside s s' (thread l e (wrote t)) o h = h
  Sound-beside s s' (thread l e (restored t)) o h = h
  Sound-beside s s' (thread l e (finished t)) o h = h

  pub All-beside :
      (s s' : Shared) (zs : List Thread)
      → (s'.local ≡ s.local) ⊎ (criticals zs ≡ 0)
      → All (Sound s) zs
      → All (Sound s') zs
  All-beside s s' [] o h = tt
  All-beside s s' (z ∷ zs) o h = (
    Sound-beside s s' z (elim o [ inl k ↦ inl k | inr n ↦ inr (omega arith) ]) h.0,
    All-beside s s' zs (elim o [ inl k ↦ inl k | inr n ↦ inr (omega arith) ]) h.1,
  )
