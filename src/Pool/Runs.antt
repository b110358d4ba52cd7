-- ===== src/Pool/Runs.antt =====
-- Which function a thread of src/thread_pool.cc runs next.
use gitstatus.Common.{
  ◌<◌, ◌⊎◌, ap, if◌then◌else◌, leb, not, sym, true, ◌&&◌, ◌∙◌, All, Bool, Bool-cases, List, [],
  arith, false, inl, inr, refl, ℕ, ◌+◌, ◌∷◌, ◌≡◌, ◌≤◌,
}
use mathlib.Core.Bool.{true≢false}
use gitstatus.Pool.{
  is_some_left, top_turn, Work, Pool, Turn, quits, waits, sleeps, runs, is_before, take_top,
  next_turn,
}
use mathlib.Core.Path.{subst}
use mathlib.Core.List.{Permᴰ}
use mathlib.Core.List.Permᴰ

module _ {F : Type 0} where
  is_before_irrefl : (v : Work F) → is_before v v ≡ false
  is_before_irrefl v = ground arith

  is_before_trans :
      (u v w : Work F) → is_before v u ≡ false → is_before w v ≡ false → is_before w u ≡ false
  is_before_trans u v w h k = ground (arith, h, k)

  is_before_asymm : (v w : Work F) → is_before v w ≡ true → is_before w v ≡ false
  is_before_asymm v w h = ground (arith, h)

  none_before :
      (w r : Work F) (ws : List (Work F))
      → is_before r w ≡ false
      → All (λ u. is_before u r ≡ false) ws
      → All (λ u. is_before u w ≡ false) ws
  none_before w r [] e h = tt
  none_before w r (u ∷ ws) e h = (is_before_trans w r u e h.0, none_before w r ws e h.1)

  take_top-least :
      (w : Work F) (ws : List (Work F)) → All (λ v. is_before v (take_top w ws).0 ≡ false) (w ∷ ws)
  unfolding take_top
  take_top-least w [] = (is_before_irrefl w, tt)
  take_top-least w (v ∷ ws) = elim (Bool-cases (is_before (take_top v ws).0 w)) [
    | inl e ↦
        subst (λ (r : Work F × List (Work F)). All (λ u. is_before u r.0 ≡ false) (w ∷ v ∷ ws))
          (sym (ap (λ b. if b then ((take_top v ws).0, w ∷ (take_top v ws).1) else (w, v ∷ ws)) e))
          (is_before_asymm (take_top v ws).0 w e, take_top-least v ws)
    | inr e ↦
        subst (λ (r : Work F × List (Work F)). All (λ u. is_before u r.0 ≡ false) (w ∷ v ∷ ws))
          (sym (ap (λ b. if b then ((take_top v ws).0, w ∷ (take_top v ws).1) else (w, v ∷ ws)) e))
          (is_before_irrefl w, none_before w (take_top v ws).0 (v ∷ ws) e (take_top-least v ws))
  ]

  take_top-permutes :
      (w : Work F) (ws : List (Work F)) → Permᴰ (w ∷ ws) ((take_top w ws).0 ∷ (take_top w ws).1)
  unfolding take_top
  take_top-permutes w [] = Permᴰ.refl (w ∷ [])
  take_top-permutes w (v ∷ ws) = elim (Bool-cases (is_before (take_top v ws).0 w)) [
    | inl e ↦
        rw (take_top, e)
          (Permᴰ.trans (Permᴰ.cons refl (take_top-permutes v ws)) (Permᴰ.swap refl refl))
    | inr e ↦ rw (take_top, e) (Permᴰ.refl (w ∷ v ∷ ws))
  ]

  ran : Work F → Turn F → Work F
  ran w (runs v notify) = v
  ran w quits = w
  ran w waits = w
  ran w (sleeps t) = w

  is_run : Turn F → Bool
  is_run (runs v notify) = true
  is_run quits = false
  is_run waits = false
  is_run (sleeps t) = false

  top_turn-runs :
      (now : ℕ) (s s' : Pool F) (top : Work F × List (Work F)) (w : Work F) (notify : Bool)
      → top_turn now s top ≡ (s', runs w notify)
      → (top.0.due ≤ now) × (top.0 ≡ w) × (top.1 ≡ s'.work) × (s'.num_inflight ≡ s.num_inflight + 1)
  unfolding ran is_run
  top_turn-runs now s s' top w notify e = elim (Bool-cases (leb top.0.due now)) [
    | inl h ↦
        let f =
          sym (
            ap
              (λ b.
                if b
                then (
                  record s { work = top.1; num_inflight = s.num_inflight + 1 },
                  runs top.0 (is_some_left top.1 && not s.have_sleeper),
                )
                else (if s.have_sleeper
                    then (s, waits)
                    else (record s { have_sleeper = true }, sleeps top.0.due)))
              h)
          ∙ e in
        (
          ground (arith, h),
          ap (λ r. ran top.0 r.1) f,
          ap (λ r. r.0.work) f,
          sym (ap (λ r. r.0.num_inflight) f),
        )
    | inr h ↦
        absurd (true≢false (sym (ap (λ r. is_run r.1) (sym (held h) ∙ e)) ∙ not_run s.have_sleeper))
  ]
    where
      waiting : Bool → Pool F × Turn F
      waiting b = if b then (s, waits) else (record s { have_sleeper = true }, sleeps top.0.due)

      not_run : (b : Bool) → is_run (waiting b).1 ≡ false
      not_run true = refl
      not_run false = refl

      held : leb top.0.due now ≡ false → top_turn now s top ≡ waiting s.have_sleeper
      held h = rw (h) refl

  -- What is_before refuses.
  is_before-later :
      (v w : Work F) → is_before v w ≡ false → (w.due < v.due) ⊎ ((w.due ≡ v.due) × (w.idx ≤ v.idx))
  is_before-later v w h = grind (arith, h)

  later-All :
      (w : Work F) (ws : List (Work F))
      → All (λ v. is_before v w ≡ false) ws
      → All (λ v. (w.due < v.due) ⊎ ((w.due ≡ v.due) × (w.idx ≤ v.idx))) ws
  later-All w [] h = tt
  later-All w (v ∷ ws) h = (is_before-later v w h.0, later-All w ws h.1)

  -- When a thread runs a function, it is due, every other in the queue is due later or, at the same
  -- time, was scheduled later; it alone has left the queue, and it is counted.
  pub next_turn-runs :
      (now : ℕ) (s s' : Pool F) (w : Work F) (notify : Bool)
      → next_turn now s ≡ (s', runs w notify)
      → (w.due ≤ now)
        × All (λ v. (w.due < v.due) ⊎ ((w.due ≡ v.due) × (w.idx ≤ v.idx))) s.work
        × Permᴰ s.work (w ∷ s'.work)
        × (s'.num_inflight ≡ s.num_inflight + 1)
  unfolding next_turn
  next_turn-runs now s s' w notify e = of s.is_exit s.work e
    where
      turn : Bool → List (Work F) → Pool F × Turn F
      turn b l =
          if b
          then (s, quits)
          else (elim l [ [] ↦ (s, waits) | v ∷ ws ↦ top_turn now s (take_top v ws) ])

      of :
          (b : Bool) (l : List (Work F))
          → turn b l ≡ (s', runs w notify)
          → (w.due ≤ now)
            × All (λ v. (w.due < v.due) ⊎ ((w.due ≡ v.due) × (w.idx ≤ v.idx))) l
            × Permᴰ l (w ∷ s'.work)
            × (s'.num_inflight ≡ s.num_inflight + 1)
      of true l h = absurd (true≢false (sym (unfold is_run in ap (λ r. is_run r.1) h)))
      of false [] h = absurd (true≢false (sym (unfold is_run in ap (λ r. is_run r.1) h)))
      of false (v ∷ ws) h =
          let t = top_turn-runs now s s' (take_top v ws) w notify h in
          (
            subst (λ (u : Work F). u.due ≤ now) t.1 t.0,
            later-All w (v ∷ ws)
                (subst (λ u. All (λ v. is_before v u ≡ false) (v ∷ ws)) t.1 (take_top-least v ws)),
            subst (λ u. Permᴰ (v ∷ ws) (u ∷ s'.work)) t.1
                (subst (λ l. Permᴰ (v ∷ ws) ((take_top v ws).0 ∷ l)) t.2 (take_top-permutes v ws)),
            t.3,
          )
