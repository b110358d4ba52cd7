-- ===== src/Logging/Threads/Serial.antt =====
-- Flushes of several threads are those of one thread after another (src/logging.cc).
use mathlib.Core.Path.{subst}
use gitstatus.Common.{
  ℕ, ◌+◌, ◌≤◌, ◌≡◌, refl, ap, sym, ◌∙◌, Bool, true, false, List, [], ◌∷◌, ◌++◌, arith, All,
  All-append, inl, inr, map,
}
use gitstatus.Common.Int.{ℤ, pos}
use gitstatus.Text.{Bytes}
use gitstatus.Logging.{LogStream, message, time_str, Console}
use gitstatus.Logging.Threads.{Thread, Shared, FlushStep, FlushSteps, here, next, callers}
use gitstatus.Logging.Threads.Effects.{
  critical, criticals, flag, printed_by, printed_of, stream_of, criticals-append, printed_of-append,
  flush_all, flush_all-append, Sound, IsEffect, step-IsEffect, All-beside,
}
use mathlib.Core.List.{map-append, Perm, perm_append_singleton, perm_middle}
use mathlib.Core.List.Perm

All-left : (P : Thread → Type 0) (xs ys : List Thread) → All P (xs ++ ys) → All P xs
All-left P [] ys h = tt
All-left P (x ∷ xs) ys h = (h.0, All-left P xs ys h.1)

All-right : (P : Thread → Type 0) (xs ys : List Thread) → All P (xs ++ ys) → All P ys
All-right P [] ys h = h
All-right P (x ∷ xs) ys h = All-right P xs ys h.1

-- One more message, in the middle of the threads and behind those that are printed.
perm_printed :
    (order : List (LogStream × ℕ)) (a : LogStream × ℕ) (xs ys : List (LogStream × ℕ))
    → Perm order (xs ++ ys)
    → Perm (order ++ a ∷ []) (xs ++ a ∷ ys)
perm_printed order a xs ys p =
    Perm.trans (perm_append_singleton a order)
      (Perm.trans (Perm.cons a p) (Perm.symm (perm_middle xs ys)))

flag-le_one : (b : Bool) → flag b ≤ 1
flag-le_one true = omega arith
flag-le_one false = omega arith

-- stderr as one thread sees it at the start.
abbrev pub console : Shared → Console
console s = record { errno = pos 0; printed = s.printed }

module _ (strftime : ℕ → Bytes) where
  -- What stderr holds is what flushes of one thread print, in an order of the messages that the
  -- threads have printed.
  pub record IsSerial (c : Console) (ls : List LogStream) (s : Shared) (ts : List Thread)
      : Type 0 where
    pub count : criticals ts ≡ flag s.locked
    pub sound : All (Sound strftime s) ts
    pub streams : map stream_of ts ≡ ls
    pub order : List (LogStream × ℕ)
    pub same : Perm order (printed_of ts)
    pub output : (flush_all strftime order c).printed ≡ s.printed

  abbrev pub Reorders : Console → Shared → List Thread → Type 0
  Reorders c s ts =
      (order : List (LogStream × ℕ)) × Perm order (printed_of ts)
      × ((flush_all strftime order c).printed ≡ s.printed)

  -- What the step of a thread between others does to the order.
  step-Reorders :
      (c : Console) {s s' : Shared} (xs ys : List Thread) {t t' : Thread}
      → IsEffect strftime s t s' t'
      → Reorders c s (xs ++ t ∷ ys)
      → Reorders c s' (xs ++ t' ∷ ys)
  step-Reorders c {s} {s'} xs ys {t} {t'} h (order, p, e) = elim h.output [
    | inl (same, quiet) ↦
        (order, subst (Perm order) (before ∙ ap middle (sym same) ∙ sym after) p, e ∙ sym quiet)
    | inr (now, none_yet, one, more) ↦ (
      order ++ (stream_of t, now) ∷ [],
      subst (Perm (order ++ (stream_of t, now) ∷ [])) (ap middle (sym one) ∙ sym after) (
          perm_printed order (stream_of t, now) (printed_of xs) (printed_of ys)
            (subst (Perm order) (before ∙ ap middle none_yet) p)),
      flush_all-append strftime order (stream_of t) now c
          ∙ ap (λ (b : Bytes). b ++ message (time_str strftime now) (stream_of t)) e
          ∙ sym more,
    )
  ]
    where
      middle : List (LogStream × ℕ) → List (LogStream × ℕ)
      middle l = printed_of xs ++ (l ++ printed_of ys)

      before : printed_of (xs ++ t ∷ ys) ≡ middle (printed_by t)
      before = printed_of-append xs (t ∷ ys)

      after : printed_of (xs ++ t' ∷ ys) ≡ middle (printed_by t')
      after = printed_of-append xs (t' ∷ ys)

  step-IsSerial :
      (c : Console) (ls : List LogStream) {s s' : Shared} (xs ys : List Thread) {t t' : Thread}
      → FlushStep strftime s t s' t'
      → IsSerial c ls s (xs ++ t ∷ ys)
      → IsSerial c ls s' (xs ++ t' ∷ ys)
  step-IsSerial c ls {s} {s'} xs ys {t} {t'} st r =
      let before = criticals-append xs (t ∷ ys) in
      let after = criticals-append xs (t' ∷ ys) in
      let few = flag-le_one s.locked in
      let mid = All-right _ xs (t ∷ ys) r.sound in
      let h = step-IsEffect strftime st (omega (arith, r.count)) mid.0 in
      let o = step-Reorders c xs ys h (r.order, r.same, r.output) in
      let away : (zs : List Thread)
          → criticals zs + critical t ≤ 1
          → All (Sound strftime s) zs
          → All (Sound strftime s') zs =
        λ zs k.
          All-beside strftime s s' zs
            (elim h.beside [ inl e ↦ inl e | inr e ↦ inr (omega arith) ]) in
      record {
        count = omega (arith, h.count, r.count);
        sound =
            All-append _ xs (t' ∷ ys)
              (away xs (omega (arith, r.count)) (All-left _ xs (t ∷ ys) r.sound))
              (h.sound, away ys (omega (arith, r.count)) mid.1);
        streams =
            map-append stream_of xs (t' ∷ ys)
            ∙ ap (λ (l : LogStream). map stream_of xs ++ l ∷ map stream_of ys) h.stream
            ∙ sym (map-append stream_of xs (t ∷ ys))
            ∙ r.streams;
        order = o.0;
        same = o.1;
        output = o.2;
      }

  callers-outside : (cs : List (LogStream × ℤ)) → criticals (callers cs) ≡ 0
  callers-outside [] = refl
  callers-outside (d ∷ cs) = omega (arith, callers-outside cs)

  callers-Sound : (s : Shared) (cs : List (LogStream × ℤ)) → All (Sound strftime s) (callers cs)
  callers-Sound s [] = tt
  callers-Sound s (d ∷ cs) = (tt, callers-Sound s cs)

  callers-streams : (cs : List (LogStream × ℤ)) → map stream_of (callers cs) ≡ map (λ d. d.0) cs
  callers-streams [] = refl
  callers-streams (d ∷ cs) = ap (λ (l : List LogStream). d.0 ∷ l) (callers-streams cs)

  callers-printed : (cs : List (LogStream × ℤ)) → printed_of (callers cs) ≡ []
  callers-printed [] = refl
  callers-printed (d ∷ cs) = callers-printed cs

  pub reached :
      {s : Shared} (cs : List (LogStream × ℤ)) {s' : Shared} {ts : List Thread}
      → s.locked ≡ false
      → FlushSteps strftime s (callers cs) s' ts
      → IsSerial (console s) (map (λ d. d.0) cs) s' ts
  unfolding flush_all
  reached {s} cs free here = record {
    count = omega (arith, callers-outside cs, ap flag free);
    sound = callers-Sound s cs;
    streams = callers-streams cs;
    order = [];
    same = subst (Perm []) (sym (callers-printed cs)) (Perm.refl []);
    output = refl;
  }
  reached {s} cs free (next u v xs ys t t' r st) =
      step-IsSerial (console s) _ xs ys st (reached cs free r)

  -- However calls of Flush by several threads interleave, from a state in which the mutex is free on:
  -- the threads still have the messages of the callers, in their places; each message that is printed
  -- is printed once, whole, and with the time that its own thread asked for, so that stderr is what
  -- flushes one after another print, in an order of those messages; and a thread behind the
  -- assignment to errno has the errno that was stashed when its stream was built.
  pub FlushSteps-Reorders :
      {s : Shared} (cs : List (LogStream × ℤ)) {s' : Shared} {ts : List Thread}
      → s.locked ≡ false
      → FlushSteps strftime s (callers cs) s' ts
      → Reorders (console s) s' ts
        × (map stream_of ts ≡ map (λ d. d.0) cs)
        × All (Sound strftime s') ts
  FlushSteps-Reorders cs free st =
      let r = reached cs free st in ((r.order, r.same, r.output), r.streams, r.sound)
