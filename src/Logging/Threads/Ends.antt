-- ===== src/Logging/Threads/Ends.antt =====
-- Flushes of several threads come to an end (src/logging.cc).
use gitstatus.Common.{
  ◌≤◌, ◌*◌, length, ℕ, ◌<◌, ◌≡◌, refl, ap, ◌∙◌, false, List, [], ◌∷◌, ◌++◌, arith, All, inl, inr,
  map, zero, suc,
}
use gitstatus.Logging.Threads.Advance.{
  ahead, all_ahead, all_ahead-append, some_advance, num_steps, num_steps-all_ahead, callers-ahead,
}
use gitstatus.Logging.Threads.Serial.{reached, console}
use gitstatus.Common.Int.{ℤ}
use gitstatus.Text.{Bytes}
use gitstatus.Logging.{LogStream}
use gitstatus.Logging.Threads.{
  waits, holds, asked, broke, stamped, wrote, restored, finished, Thread, thread, Shared,
  FlushSteps, here, next, callers,
}
use gitstatus.Logging.Threads.Effects.{Sound, printed_by, printed_of, stream_of, flush_all}
use mathlib.Core.Path.{subst}
use mathlib.Core.List.{map-append, Perm}
use mathlib.Core.List.Perm

module _ (strftime : ℕ → Bytes) where
  -- A thread that has left Flush, with the errno that was stashed when its stream was built.
  abbrev pub Ended : Thread → Type 0
  Ended (thread l e waits) = ⊥
  Ended (thread l e holds) = ⊥
  Ended (thread l e (asked t)) = ⊥
  Ended (thread l e (broke t)) = ⊥
  Ended (thread l e (stamped t time)) = ⊥
  Ended (thread l e (wrote t)) = ⊥
  Ended (thread l e (restored t)) = ⊥
  Ended (thread l e (finished t)) = e ≡ l.stashed_errno

  Sound-Ended :
      (s : Shared) (t : Thread)
      → ahead t ≡ 0
      → Sound strftime s t
      → Ended t × (map (λ (o : LogStream × ℕ). o.0) (printed_by t) ≡ stream_of t ∷ [])
  Sound-Ended s (thread l e waits) z h = absurd (omega arith)
  Sound-Ended s (thread l e holds) z h = absurd (omega arith)
  Sound-Ended s (thread l e (asked t)) z h = absurd (omega arith)
  Sound-Ended s (thread l e (broke t)) z h = absurd (omega arith)
  Sound-Ended s (thread l e (stamped t time)) z h = absurd (omega arith)
  Sound-Ended s (thread l e (wrote t)) z h = absurd (omega arith)
  Sound-Ended s (thread l e (restored t)) z h = absurd (omega arith)
  Sound-Ended s (thread l e (finished t)) z h = (h, refl)

  All-Ended :
      (s : Shared) (ts : List Thread)
      → all_ahead ts ≡ 0
      → All (Sound strftime s) ts
      → All Ended ts × (map (λ (o : LogStream × ℕ). o.0) (printed_of ts) ≡ map stream_of ts)
  All-Ended s [] z h = (tt, refl)
  All-Ended s (t ∷ ts) z h =
      let one = Sound-Ended s t (omega arith) h.0 in
      let rest = All-Ended s ts (omega arith) h.1 in
      (
        (one.0, rest.0),
        map-append (λ (o : LogStream × ℕ). o.0) (printed_by t) (printed_of ts)
            ∙ ap (λ (l : List LogStream). l ++ map (λ (o : LogStream × ℕ). o.0) (printed_of ts))
                one.1
            ∙ ap (λ (l : List LogStream). stream_of t ∷ l) rest.1,
      )

  -- More steps lead to where no thread has one in front of it.
  reach_end :
      {s u : Shared} {ts : List Thread} (cs : List (LogStream × ℤ)) (fuel : ℕ) (v : Shared)
      (ts' : List Thread)
      → s.locked ≡ false
      → all_ahead ts' < fuel
      → FlushSteps strftime s (callers cs) v ts'
      → FlushSteps strftime u ts v ts'
      → (w : Shared) × (ts'' : List Thread) × FlushSteps strftime s (callers cs) w ts''
        × FlushSteps strftime u ts w ts''
        × (all_ahead ts'' ≡ 0)
  reach_end cs zero v ts' free h r m = absurd (omega arith)
  reach_end {u} {ts} cs (suc fuel) v ts' free h r m =
      elim (some_advance strftime v ts' (reached strftime cs free r).count) [
        | inl z ↦ (v, ts', r, m, z)
        | inr (xs, ys, t, e, (w, t', st, less)) ↦
            reach_end cs fuel w (xs ++ t' ∷ ys) free
              (omega (
                arith,
                all_ahead-append xs (t ∷ ys),
                all_ahead-append xs (t' ∷ ys),
                ap all_ahead e,
              ))
              (next v w xs ys t t' (subst (FlushSteps strftime _ (callers cs) v) e r) st)
              (next v w xs ys t t' (subst (FlushSteps strftime u ts v) e m) st)
      ]

  -- When calls of Flush by several threads interleave, from a state in which the mutex is free on, there
  -- are at most seven steps for each call; and from every state that they reach, more steps lead to
  -- one in which all have returned, each with the errno that was stashed when its stream was built,
  -- and stderr holds what flushes one after another print: of each message of the callers once, in
  -- some order, with some times.
  pub FlushSteps-Ends :
      {s u : Shared} {ts : List Thread} (cs : List (LogStream × ℤ))
      → s.locked ≡ false
      → (r : FlushSteps strftime s (callers cs) u ts)
      → (num_steps strftime r ≤ 7 * length cs)
        × (w : Shared) × (ts' : List Thread) × (order : List (LogStream × ℕ)) × FlushSteps strftime
            u ts w ts'
        × All Ended ts'
        × Perm (map (λ (o : LogStream × ℕ). o.0) order) (map (λ (d : LogStream × ℤ). d.0) cs)
        × ((flush_all strftime order (console s)).printed ≡ w.printed)
  FlushSteps-Ends {u} {ts} cs free st =
      let (w, ts', r, m, z) = reach_end cs (suc (all_ahead ts)) u ts free (omega arith) st here in
      let h = reached strftime cs free r in
      let e = All-Ended w ts' z h.sound in
      (
        omega (arith, num_steps-all_ahead strftime st, callers-ahead strftime cs),
        w,
        ts',
        h.order,
        m,
        e.0,
        subst (Perm (map (λ (o : LogStream × ℕ). o.0) h.order)) (e.1 ∙ h.streams)
            (Perm.map (λ (o : LogStream × ℕ). o.0) h.same),
        h.output,
      )
