-- ===== src/Repo/Async/Late.antt =====
-- The order of the counter and the error flag in src/repo.cc.
use gitstatus.Common.{
  ap, arith, ◌∙◌, Bool, List, [], false, length, map, refl, some, suc, true, ℕ, ◌∷◌, ◌≡◌,
}
use gitstatus.Common.Outcome.{ok}
use gitstatus.Repo.Async.{
  at_work, thrown, over, AsyncTask, Inflight, dec_inflight, AsyncStep, returns, unwinds, others,
  AsyncSteps, stays, moves, at_start, wait_and_verify,
}

-- A function that has left its scope.
abbrev pub left_scope : Bool → AsyncTask
left_scope false = record { fails = false; stage = over }
left_scope true = record { fails = true; stage = thrown }

below_first :
    (s s' : Inflight) (t : AsyncTask) (ts ts' : List AsyncTask)
    → AsyncSteps s ts s' ts'
    → AsyncSteps s (t ∷ ts) s' (t ∷ ts')
below_first _ _ t _ _ (stays s ts) = stays s (t ∷ ts)
below_first _ _ t _ _ (moves s s' s'' ts ts' ts'' h rest) =
    moves s s' s'' (t ∷ ts) (t ∷ ts') (t ∷ ts'') (others s s' t ts ts' h)
      (below_first s' s'' t ts' ts'' rest)

counted_down :
    (n : ℕ)
    → dec_inflight (record { inflight = suc n; error = false })
      ≡ ok (record { inflight = n; error = false })
unfolding dec_inflight
counted_down n = ground arith

leaves_first :
    (n : ℕ) (f : Bool) (ts : List AsyncTask)
    → AsyncStep
        (record { inflight = suc n; error = false })
        (record { fails = f; stage = at_work } ∷ ts)
        (record { inflight = n; error = false })
        (left_scope f ∷ ts)
leaves_first n false ts = returns _ _ ts (counted_down n)
leaves_first n true ts = unwinds _ _ ts (counted_down n)

all_leave :
    (fs : List Bool)
    → AsyncSteps
        (record { inflight = length fs; error = false })
        (at_start fs)
        (record { inflight = 0; error = false })
        (map left_scope fs)
all_leave [] = stays _ []
all_leave (f ∷ fs) =
    moves _ _ _ _ _ _ (leaves_first (length fs) f (at_start fs))
      (below_first _ _ (left_scope f) _ _ (all_leave fs))

-- Whichever of the functions that RunAsync was called with throw, there is a run in which Wait ends,
-- and the test of error_ passes, before any handler has set it.
pub wait_unaware :
    (fs : List Bool)
    → (s : Inflight) × (ts : List AsyncTask) × AsyncSteps
        (record { inflight = length fs; error = false })
        (at_start fs)
        s
        ts
      × (map (λ (t : AsyncTask). t.fails) ts ≡ fs)
      × (wait_and_verify s ≡ some (ok tt))
unfolding wait_and_verify
wait_unaware fs =
    (record { inflight = 0; error = false }, map left_scope fs, all_leave fs, same fs, refl)
  where
    first : (f : Bool) → (left_scope f).fails ≡ f
    first false = refl
    first true = refl

    same : (fs : List Bool) → map (λ (t : AsyncTask). t.fails) (map left_scope fs) ≡ fs
    same [] = refl
    same (f ∷ fs) =
        ap (λ b. b ∷ map (λ (t : AsyncTask). t.fails) (map left_scope fs)) (first f)
        ∙ ap (◌∷◌ f) (same fs)
