-- ===== src/Pool/Threads/Ends.antt =====
-- The destructor of ThreadPool in src/thread_pool.cc joins its threads, behind exit_ = true.
use gitstatus.Common.{◌≤◌, ap, suc, ◌+◌, ℕ, ◌≡◌, refl, ◌∙◌, Bool, true, false, List, [], ◌∷◌, arith}
use mathlib.Core.Path.{subst}
use gitstatus.Pool.{ask_exit, Pool, Turn, quits, finish_work, next_turn, wake_sleeper}
use gitstatus.Pool.Threads.{
  wake_all, rouse_one, notify_exit, notifies, exiting, woken, roused, Place, busy, idle, napping,
  ended, place_of, ThreadStep, enters, goes_on, rises, beside, Reached, stepped,
}
use gitstatus.Pool.Threads.Counts.{flag_le, num_napping, num_busy, Reached-counts}

-- for (std::thread& t : threads_) t.join(): whether it returns.
abbrev pub is_joined : List Place → Bool
is_joined [] = true
is_joined (busy ∷ ts) = false
is_joined (idle ∷ ts) = false
is_joined (woken ∷ ts) = false
is_joined (napping ∷ ts) = false
is_joined (roused ∷ ts) = false
is_joined (ended ∷ ts) = is_joined ts

num_busy-joined : (ts : List Place) → is_joined ts ≡ true → num_busy ts ≡ 0
num_busy-joined [] j = refl
num_busy-joined (busy ∷ ts) j = cc
num_busy-joined (idle ∷ ts) j = cc
num_busy-joined (woken ∷ ts) j = cc
num_busy-joined (napping ∷ ts) j = cc
num_busy-joined (roused ∷ ts) j = cc
num_busy-joined (ended ∷ ts) j = omega (arith, num_busy-joined ts j)

-- The threads that have not left Loop.
abbrev pub left : Place → ℕ
left busy = 1
left idle = 1
left woken = 1
left napping = 1
left roused = 1
left ended = 0

abbrev pub num_left : List Place → ℕ
num_left [] = 0
num_left (t ∷ ts) = left t + num_left ts

-- The threads in a wait.
abbrev in_wait : Place → ℕ
in_wait busy = 0
in_wait idle = 1
in_wait woken = 0
in_wait napping = 1
in_wait roused = 0
in_wait ended = 0

abbrev num_in_wait : List Place → ℕ
num_in_wait [] = 0
num_in_wait (t ∷ ts) = in_wait t + num_in_wait ts

wake_all-in_wait : (ts : List Place) → num_napping ts ≡ 0 → num_in_wait (wake_all ts) ≡ 0
unfolding wake_all
wake_all-in_wait [] e = refl
wake_all-in_wait (busy ∷ ts) e = omega (arith, wake_all-in_wait ts (omega (arith, e)))
wake_all-in_wait (idle ∷ ts) e = omega (arith, wake_all-in_wait ts (omega (arith, e)))
wake_all-in_wait (woken ∷ ts) e = omega (arith, wake_all-in_wait ts (omega (arith, e)))
wake_all-in_wait (napping ∷ ts) e = absurd (omega (arith, e))
wake_all-in_wait (roused ∷ ts) e = absurd (omega (arith, e))
wake_all-in_wait (ended ∷ ts) e = omega (arith, wake_all-in_wait ts (omega (arith, e)))

-- Since there is one sleeper at most, the notifications end every wait.
notify_exit-in_wait : (ts : List Place) → num_napping ts ≤ 1 → num_in_wait (notify_exit ts) ≡ 0
unfolding notify_exit wake_all rouse_one
notify_exit-in_wait [] h = refl
notify_exit-in_wait (busy ∷ ts) h = omega (arith, notify_exit-in_wait ts (omega (arith, h)))
notify_exit-in_wait (idle ∷ ts) h = omega (arith, notify_exit-in_wait ts (omega (arith, h)))
notify_exit-in_wait (woken ∷ ts) h = omega (arith, notify_exit-in_wait ts (omega (arith, h)))
notify_exit-in_wait (napping ∷ ts) h = omega (arith, wake_all-in_wait ts (omega (arith, h)))
notify_exit-in_wait (roused ∷ ts) h = omega (arith, notify_exit-in_wait ts (omega (arith, h)))
notify_exit-in_wait (ended ∷ ts) h = omega (arith, notify_exit-in_wait ts (omega (arith, h)))

wake_all-num_left : (ts : List Place) → num_left (wake_all ts) ≡ num_left ts
unfolding wake_all
wake_all-num_left [] = refl
wake_all-num_left (busy ∷ ts) = omega (arith, wake_all-num_left ts)
wake_all-num_left (idle ∷ ts) = omega (arith, wake_all-num_left ts)
wake_all-num_left (woken ∷ ts) = omega (arith, wake_all-num_left ts)
wake_all-num_left (napping ∷ ts) = omega (arith, wake_all-num_left ts)
wake_all-num_left (roused ∷ ts) = omega (arith, wake_all-num_left ts)
wake_all-num_left (ended ∷ ts) = omega (arith, wake_all-num_left ts)

rouse_one-num_left : (ts : List Place) → num_left (rouse_one ts) ≡ num_left ts
unfolding rouse_one
rouse_one-num_left [] = refl
rouse_one-num_left (busy ∷ ts) = omega (arith, rouse_one-num_left ts)
rouse_one-num_left (idle ∷ ts) = omega (arith, rouse_one-num_left ts)
rouse_one-num_left (woken ∷ ts) = omega (arith, rouse_one-num_left ts)
rouse_one-num_left (napping ∷ ts) = refl
rouse_one-num_left (roused ∷ ts) = omega (arith, rouse_one-num_left ts)
rouse_one-num_left (ended ∷ ts) = omega (arith, rouse_one-num_left ts)

notify_exit-num_left : (ts : List Place) → num_left (notify_exit ts) ≡ num_left ts
unfolding notify_exit
notify_exit-num_left ts = rouse_one-num_left (wake_all ts) ∙ wake_all-num_left ts

module _ {F : Type 0} where
  -- Steps of the threads alone, as while the destructor joins them.
  pub data ThreadSteps (s : Pool F) (ts : List Place) : Pool F → List Place → Type 0 where
    at_rest : ThreadSteps s ts s ts
    one_more :
        (u v : Pool F) (us vs : List Place)
        → ThreadSteps s ts u us
        → ThreadStep u us v vs
        → ThreadSteps s ts v vs

  ThreadSteps-beside :
      (t : Place) {s : Pool F} {ts : List Place} {v : Pool F} {vs : List Place}
      → ThreadSteps s ts v vs
      → ThreadSteps s (t ∷ ts) v (t ∷ vs)
  ThreadSteps-beside t at_rest = at_rest
  ThreadSteps-beside t (one_more u v us vs r st) =
      one_more u v (t ∷ us) (t ∷ vs) (ThreadSteps-beside t r) (beside u v t us vs st)

  ThreadSteps-ThreadSteps :
      {s : Pool F} {ts : List Place} {u : Pool F} {us : List Place} {v : Pool F} {vs : List Place}
      → ThreadSteps s ts u us
      → ThreadSteps u us v vs
      → ThreadSteps s ts v vs
  ThreadSteps-ThreadSteps r at_rest = r
  ThreadSteps-ThreadSteps r (one_more w v ws vs q st) =
      one_more w v ws vs (ThreadSteps-ThreadSteps r q) st

  next_turn-quits : (now : ℕ) (s : Pool F) → s.is_exit ≡ true → next_turn now s ≡ (s, quits)
  unfolding next_turn
  next_turn-quits now s e = rw (e, next_turn)

  quit_with :
      (s : Pool F) (t : Place) (ts : List Place) (r : Pool F × Turn F) (w : Pool F)
      → ThreadStep s (t ∷ ts) r.0 (place_of r.1 ∷ ts)
      → r ≡ (w, quits)
      → w.is_exit ≡ true
      → (v : Pool F) × ThreadSteps s (t ∷ ts) v (ended ∷ ts) × (v.is_exit ≡ true)
  quit_with s t ts r w st e x = (
    w,
    one_more s w (t ∷ ts) (ended ∷ ts) at_rest
        (subst (λ (q : Pool F × Turn F). ThreadStep s (t ∷ ts) q.0 (place_of q.1 ∷ ts)) e st),
    x,
  )

  finish_work-exit : (s : Pool F) → s.is_exit ≡ true → (finish_work s).0.is_exit ≡ true
  unfolding finish_work
  finish_work-exit s e = e

  -- A thread leaves Loop.
  quit :
      (s : Pool F) (t : Place) (ts : List Place)
      → s.is_exit ≡ true
      → in_wait t ≡ 0
      → (v : Pool F) × ThreadSteps s (t ∷ ts) v (ended ∷ ts) × (v.is_exit ≡ true)
  quit s busy ts e f =
      quit_with s busy ts (next_turn 0 (finish_work s).0) (finish_work s).0 (enters s 0 ts)
        (next_turn-quits 0 (finish_work s).0 (finish_work-exit s e)) (finish_work-exit s e)
  quit s idle ts e f = absurd (omega (arith, f))
  quit s napping ts e f = absurd (omega (arith, f))
  quit s woken ts e f =
      quit_with s woken ts (next_turn 0 s) s (goes_on s 0 ts) (next_turn-quits 0 s e) e
  quit s roused ts e f =
      quit_with s roused ts (next_turn 0 (wake_sleeper s)) (wake_sleeper s) (rises s 0 ts)
        (next_turn-quits 0 (wake_sleeper s) e) e
  quit s ended ts e f = (s, at_rest, e)

  quit_all :
      (s : Pool F) (ts : List Place)
      → s.is_exit ≡ true
      → num_in_wait ts ≡ 0
      → (v : Pool F) × (vs : List Place) × ThreadSteps s ts v vs × (is_joined vs ≡ true)
  quit_all s [] e w = (s, [], at_rest, refl)
  quit_all s (t ∷ ts) e w =
      let (u, first, x) = quit s t ts e (omega (arith, w)) in
      let (v, vs, rest, j) = quit_all u ts x (omega (arith, w)) in
      (v, ended ∷ vs, ThreadSteps-ThreadSteps first (ThreadSteps-beside ended rest), j)

  ThreadSteps-Reached :
      {n : ℕ} {s : Pool F} {ts : List Place} {v : Pool F} {vs : List Place}
      → Reached n s ts
      → ThreadSteps s ts v vs
      → Reached n v vs
  ThreadSteps-Reached r at_rest = r
  ThreadSteps-Reached r (one_more u v us vs q st) = stepped u v us vs (ThreadSteps-Reached r q) st

  abbrev pub num_steps :
      {s : Pool F} {ts : List Place} {v : Pool F} {vs : List Place} → ThreadSteps s ts v vs → ℕ
  num_steps at_rest = 0
  num_steps (one_more u v us vs q st) = suc (num_steps q)

  turn_left :
      (r : Pool F × Turn F) (w : Pool F)
      → r ≡ (w, quits)
      → w.is_exit ≡ true
      → (left (place_of r.1) ≡ 0) × (in_wait (place_of r.1) ≡ 0) × (r.0.is_exit ≡ true)
  turn_left r w e x = (
    ap (λ (q : Pool F × Turn F). left (place_of q.1)) e,
    ap (λ (q : Pool F × Turn F). in_wait (place_of q.1)) e,
    ap (λ (q : Pool F × Turn F). q.0.is_exit) e ∙ x,
  )

  -- Behind exit_ = true each step of a thread is its last one.
  ThreadStep-num_left :
      {s : Pool F} {ts : List Place} {v : Pool F} {vs : List Place}
      → ThreadStep s ts v vs
      → s.is_exit ≡ true
      → (num_left ts ≡ suc (num_left vs)) × (num_in_wait vs ≡ num_in_wait ts) × (v.is_exit ≡ true)
  ThreadStep-num_left (enters s now ts) e =
      let f = finish_work-exit s e in
      let q =
        turn_left (next_turn now (finish_work s).0) (finish_work s).0
          (next_turn-quits now (finish_work s).0 f) f in
      (omega (arith, q.0), omega (arith, q.1), q.2)
  ThreadStep-num_left (goes_on s now ts) e =
      let q = turn_left (next_turn now s) s (next_turn-quits now s e) e in
      (omega (arith, q.0), omega (arith, q.1), q.2)
  ThreadStep-num_left (rises s now ts) e =
      let q =
        turn_left (next_turn now (wake_sleeper s)) (wake_sleeper s)
          (next_turn-quits now (wake_sleeper s) e) e in
      (omega (arith, q.0), omega (arith, q.1), q.2)
  ThreadStep-num_left (beside s s' t ts ts' st) e =
      let h = ThreadStep-num_left st e in (omega (arith, h.0), omega (arith, h.1), h.2)

  num_steps-num_left :
      {s : Pool F} {ts : List Place} {v : Pool F} {vs : List Place} (q : ThreadSteps s ts v vs)
      → s.is_exit ≡ true
      → (num_steps q + num_left vs ≡ num_left ts)
        × (num_in_wait vs ≡ num_in_wait ts)
        × (v.is_exit ≡ true)
  num_steps-num_left at_rest e = (omega arith, refl, e)
  num_steps-num_left (one_more u v us vs q st) e =
      let before = num_steps-num_left q e in
      let last = ThreadStep-num_left st before.2 in
      (omega (arith, before.0, last.0), last.1 ∙ before.1, last.2)

  -- The destructor of a pool in any state, whatever is in the queue: exit_ is set, the threads may
  -- take steps, it notifies cv_ and sleeper_cv_, and the threads take more steps. Without a wake-up
  -- that nobody asked for, and without a time that comes: each step is the last one of its thread, so
  -- that there are at most as many as threads that have not left Loop; and from where they are, more
  -- steps lead to where all have left it, so that the joins return, with num_inflight_ zero. Functions
  -- that the threads run are taken to return.
  pub Reached-is_joined :
      {n : ℕ} {s : Pool F} {ts : List Place} {u : Pool F} {us : List Place} {v : Pool F}
      {vs : List Place}
      → Reached n s ts
      → (p : ThreadSteps (ask_exit s) ts u us) → (q : ThreadSteps u (notify_exit us) v vs)
      → (num_steps p + num_steps q + num_left vs ≡ num_left ts)
        × (w : Pool F) × (ws : List Place) × ThreadSteps v vs w ws
        × (is_joined ws ≡ true)
        × (w.num_inflight ≡ 0)
  Reached-is_joined {s} {ts} {u} {us} {v} {vs} r p q =
      let before = ThreadSteps-Reached (exiting s ts r) p in
      let first = num_steps-num_left p refl in
      let later = num_steps-num_left q first.2 in
      let counted = (Reached-counts before).1 in
      let woken_up = notify_exit-in_wait us (omega (arith, counted, flag_le u.have_sleeper)) in
      let (w, ws, m, j) = quit_all v vs later.2 (later.1 ∙ woken_up) in
      let behind = ThreadSteps-Reached (ThreadSteps-Reached (notifies u us before) q) m in
      (
        omega (arith, first.0, later.0, notify_exit-num_left us),
        w,
        ws,
        m,
        j,
        (Reached-counts behind).0 ∙ num_busy-joined ws j,
      )
