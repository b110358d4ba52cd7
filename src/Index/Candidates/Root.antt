-- ===== src/Index/Candidates/Root.antt =====
-- GetDirtyCandidates of src/index.cc as a whole, with the descriptor of the root.
use gitstatus.Common.{
  Bool, List, Option, [], false, if◌then◌else◌, not, refl, true, ℕ, ◌∙◌, ◌∷◌, ◌≡◌,
}
use gitstatus.Common.Outcome.{Outcome, ok, throws, aborts, exits, check, verify, ◌>>=◌, ◌>>◌}
use gitstatus.Index.Candidates.{Task, Tally, PoolSteps, scheduled, finish_candidates, returned}
use gitstatus.Index.Candidates.Result.{scan_in_turn, PoolSteps-in_turn}
use gitstatus.Text.{Bytes}
use gitstatus.Text.Sort.{str_sort}

-- ON_SCOPE_EXIT(&) { CHECK(!close(root_fd)); }
unfoldable pub close_root : {A : Type 0} → Bool → Outcome A → Outcome A
close_root close_ok (ok a) = check close_ok >> ok a
close_root close_ok throws = check close_ok >> throws
close_root close_ok aborts = aborts
close_root close_ok (exits n) = exits n

abbrev pub has_splits : List ℕ → Bool
has_splits [] = false
has_splits (k ∷ ks) = true

-- GetDirtyCandidates, where `s` is what the tasks and the wait leave.
unfoldable pub get_dirty_candidates :
    (open_ok close_ok cs : Bool) → List ℕ → Tally → Outcome (List Bytes)
unfolding close_root finish_candidates
get_dirty_candidates open_ok close_ok cs splits s = do
  verify open_ok
  close_root close_ok (do check (has_splits splits); finish_candidates cs s)

closed :
    (error : Bool) (l : List Bytes)
    → close_root true (verify (not error) >> ok l) ≡ (verify (not error) >> ok l)
unfolding close_root
closed true l = refl
closed false l = refl

not_closed :
    (error : Bool) (l : List Bytes) → close_root false (verify (not error) >> ok l) ≡ aborts
unfolding close_root
not_closed true l = refl
not_closed false l = refl

in_turn :
    (fs : List (Option (List Bytes))) (s : Tally) (ts : List Task)
    → PoolSteps (scheduled fs) (s, ts)
    → s.waiter ≡ returned
    → (verify (not s.error) >> ok (str_sort true s.res))
      ≡ (scan_in_turn fs >>= λ found. ok (str_sort true found))
unfolding finish_candidates
in_turn fs s ts steps e = PoolSteps-in_turn fs s ts steps e

-- However the steps of the tasks and of the caller interleave, when the caller is through with its
-- wait and there are splits, GetDirtyCandidates for a case-sensitive index throws if the root cannot
-- be opened, aborts if it cannot be closed, and otherwise gives what the scans one after the other would:
-- the sorted candidates of all shards, or an exception if a scan threw one.
pub get_dirty_candidates-in_turn :
    (open_ok close_ok : Bool) (k : ℕ) (ks : List ℕ) (fs : List (Option (List Bytes))) (s : Tally)
    (ts : List Task)
    → PoolSteps (scheduled fs) (s, ts)
    → s.waiter ≡ returned
    → get_dirty_candidates open_ok close_ok true (k ∷ ks) s ≡ (
        if not open_ok
        then throws
        else if not close_ok
        then aborts
        else (scan_in_turn fs >>= λ found. ok (str_sort true found)))
unfolding get_dirty_candidates
get_dirty_candidates-in_turn false c k ks fs s ts steps e = refl
get_dirty_candidates-in_turn true false k ks fs s ts steps e =
    not_closed s.error (str_sort true s.res)
get_dirty_candidates-in_turn true true k ks fs s ts steps e =
    closed s.error (str_sort true s.res) ∙ in_turn fs s ts steps e
