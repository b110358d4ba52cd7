-- ===== src/Repo/Stats/Flagged.antt =====
-- The three answers of GetIndexStats of src/repo.cc.
use gitstatus.Common.Outcome.{ok, >>=-Ensures, >>=-Ensures_eq, Ensures, Ensures-ok, on_ok, verify}
use gitstatus.Common.{
  ap, ◌⊎◌, Option, ltb, none, not, some, sym, ℕ, ◌<◌, ◌≤◌, Bool, Bool-cases, List, [], arith, false,
  inl, inr, refl, true, ◌||◌, ◌∙◌, ◌∷◌, ◌≡◌,
}
use gitstatus.Repo.Notify.{
  Verdict, skip, stop, Delta, Flags, exchange_flag, is_tracked, is_untracked, notify_dirty,
  notify_staged,
}
use gitstatus.Index.Scan.{t_false, t_unknown}
use gitstatus.Repo.{IndexStats}
use gitstatus.Repo.Stats.{
  StatsEnv, dirty_deltas, dirty_part, dirty_scans, get_index_stats, reset_flags, staged_part,
  start_staged_scan, DiffRc, DiffRun, diff_failed, diff_ok, diff_stopped, run_async, run_scans,
  staged_deltas,
}
use gitstatus.Repo.Stats.Marks.{any_of_kind, mark, mark_false, run_scans-Marks, tribool_of}
use gitstatus.Text.{Bytes}

abbrev pub any_delta : List DiffRun → Bool
any_delta [] = false
any_delta (r ∷ rs) = elim r.deltas [ [] ↦ any_delta rs | d ∷ ds ↦ true ]

-- The flags of the dirty scan are those of another state.
abbrev SameDirty : Flags → Flags → Type 0
SameDirty f g = (g.unstaged ≡ f.unstaged) × (g.untracked ≡ f.untracked)

staged_deltas-SameDirty : (ds : List Delta) (f : Flags) → SameDirty f (staged_deltas ds f)
unfolding staged_deltas
staged_deltas-SameDirty [] f = (refl, refl)
staged_deltas-SameDirty (d ∷ ds) f = unfold notify_staged in (refl, refl)

run_async-same :
    (rc : DiffRc) (f : Flags) → SameDirty f (run_async rc f) × ((run_async rc f).staged ≡ f.staged)
unfolding run_async
run_async-same diff_ok f = ((refl, refl), refl)
run_async-same diff_stopped f = ((refl, refl), refl)
run_async-same diff_failed f = ((refl, refl), refl)

staged-SameDirty : (rs : List DiffRun) (f : Flags) → SameDirty f (run_scans staged_deltas rs f)
unfolding run_scans
staged-SameDirty [] f = (refl, refl)
staged-SameDirty (r ∷ rs) f =
    let rest = staged-SameDirty rs (run_async r.rc (staged_deltas r.deltas f)) in
    let own = (run_async-same r.rc (staged_deltas r.deltas f)).0 in
    let first = staged_deltas-SameDirty r.deltas f in
    (rest.0 ∙ own.0 ∙ first.0, rest.1 ∙ own.1 ∙ first.1)

staged_deltas-staged :
    (ds : List Delta) (f : Flags)
    → (staged_deltas ds f).staged ≡ elim ds [ [] ↦ f.staged | d ∷ ds ↦ true ]
unfolding staged_deltas
staged_deltas-staged [] f = refl
staged_deltas-staged (d ∷ ds) f = unfold notify_staged in refl

staged-any :
    (rs : List DiffRun) (f : Flags)
    → (run_scans staged_deltas rs f).staged ≡ (f.staged || any_delta rs)
unfolding run_scans
staged-any [] f = ground arith
staged-any (r ∷ rs) f = ground (
  arith,
  staged-any rs (run_async r.rc (staged_deltas r.deltas f)),
  (run_async-same r.rc (staged_deltas r.deltas f)).1,
  staged_deltas-staged r.deltas f,
)

notify_dirty-staged : (d : Delta) (f : Flags) → (notify_dirty d f).0.staged ≡ f.staged
unfolding notify_dirty exchange_flag
notify_dirty-staged is_untracked f = ground arith
notify_dirty-staged is_tracked f = ground arith

Verdict-cases : (v : Verdict) → (v ≡ stop) ⊎ (v ≡ skip)
Verdict-cases stop = inl refl
Verdict-cases skip = inr refl

dirty_deltas-staged : (ds : List Delta) (f : Flags) → (dirty_deltas ds f).staged ≡ f.staged
unfolding dirty_deltas
dirty_deltas-staged [] f = refl
dirty_deltas-staged (d ∷ ds) f = elim (Verdict-cases (notify_dirty d f).1) [
  | inl e ↦ rw (dirty_deltas, e) (notify_dirty-staged d f)
  | inr e ↦
      rw (dirty_deltas, e) (dirty_deltas-staged ds (notify_dirty d f).0 ∙ notify_dirty-staged d f)
]

dirty-staged : (rs : List DiffRun) (f : Flags) → (run_scans dirty_deltas rs f).staged ≡ f.staged
unfolding run_scans
dirty-staged [] f = refl
dirty-staged (r ∷ rs) f =
    dirty-staged rs (run_async r.rc (dirty_deltas r.deltas f))
    ∙ (run_async-same r.rc (dirty_deltas r.deltas f)).1
    ∙ dirty_deltas-staged r.deltas f

-- The scans of StartDirtyScan, of which there are none without a candidate.
abbrev pub scans_of : StatsEnv → List Bytes → List DiffRun
scans_of env [] = []
scans_of env (p ∷ ps) = env.dirty_runs (p ∷ ps)

dirty_scans-scans_of :
    (env : StatsEnv) (ps : List Bytes) (f : Flags)
    → dirty_scans env ps f ≡ run_scans dirty_deltas (scans_of env ps) f
unfolding dirty_scans run_scans
dirty_scans-scans_of env [] f = refl
dirty_scans-scans_of env (p ∷ ps) f = refl

-- Are there staged changes: with a head, if a scan finds one, and without, if the index has entries.
abbrev pub expect_staged : StatsEnv → Option Bytes → Bool
expect_staged env (some head) = any_delta env.staged_runs
expect_staged env none = ltb 0 env.index_size

-- The part of the flags that the staged scan decides, with those of the dirty scan still unknown.
StagedPart : StatsEnv → Option Bytes → Flags → Type 0
StagedPart env head f =
    (f.staged ≡ expect_staged env head) × (f.unstaged ≡ t_unknown) × (f.untracked ≡ t_unknown)

staged_part-StagedPart :
    (env : StatsEnv) (head : Option Bytes)
    → Ensures (StagedPart env head) (staged_part env head reset_flags)
unfolding staged_part start_staged_scan StagedPart
staged_part-StagedPart env none = elim (Bool-cases (ltb 0 env.index_size)) [
  | inl e ↦ rw (staged_part, e) (on_ok (sym e, refl, refl))
  | inr e ↦ rw (staged_part, e) (on_ok (sym e, refl, refl))
]
staged_part-StagedPart env (some head) = >>=-Ensures _ (verify env.commit_ok) _ λ _.
    >>=-Ensures _ (verify env.tree_ok) _ λ _. on_ok (
      staged-any env.staged_runs reset_flags,
      (staged-SameDirty env.staged_runs reset_flags).0,
      (staged-SameDirty env.staged_runs reset_flags).1,
    )

pub record IsStats (env : StatsEnv) (head : Option Bytes) (limit : ℕ) (s : IndexStats)
    : Type 0 where
  pub staged : s.has_staged ≡ expect_staged env head
  pub skipped :
      limit < env.index_size → (s.has_unstaged ≡ t_unknown) × (s.has_untracked ≡ t_unknown)
  pub scanned :
      env.index_size ≤ limit
      → (ps : List Bytes) × (env.candidates ≡ ok ps)
        × (s.has_unstaged ≡ tribool_of (any_of_kind is_tracked (scans_of env ps)))
        × (s.has_untracked ≡ tribool_of (any_of_kind is_untracked (scans_of env ps)))

stats_of : Flags → IndexStats
stats_of g = record {
  has_staged = g.staged;
  has_unstaged = g.unstaged;
  has_untracked = g.untracked;
}

scanned_flags :
    (env : StatsEnv) (ps : List Bytes) (f : Flags)
    → f.unstaged ≡ t_false
    → f.untracked ≡ t_false
    → (dirty_scans env ps f).error ≡ false
    → ((dirty_scans env ps f).unstaged ≡ tribool_of (any_of_kind is_tracked (scans_of env ps)))
      × ((dirty_scans env ps f).untracked ≡ tribool_of (any_of_kind is_untracked (scans_of env ps)))
scanned_flags env ps f u v e =
    let same = dirty_scans-scans_of env ps f in
    let m = (run_scans-Marks (scans_of env ps) f (sym (ap (λ (g : Flags). g.error) same) ∙ e)).0 in
    (
      ap (λ (g : Flags). g.unstaged) same ∙ m.unstaged_is ∙ ap (mark _) u ∙ mark_false _,
      ap (λ (g : Flags). g.untracked) same ∙ m.untracked_is ∙ ap (mark _) v ∙ mark_false _,
    )

dirty_part-IsStats :
    (env : StatsEnv) (head : Option Bytes) (limit : ℕ) (f : Flags)
    → StagedPart env head f
    → Ensures (λ g. g.error ≡ false → IsStats env head limit (stats_of g)) (dirty_part env limit f)
unfolding dirty_part StagedPart stats_of
dirty_part-IsStats env head limit f h = elim (Bool-cases (ltb limit env.index_size)) [
  | inl e ↦
      rw (dirty_part, e)
        (on_ok λ _. record {
          staged = h.0;
          skipped = λ _. (h.1, h.2);
          scanned = λ k. absurd (ground arith);
        })
  | inr e ↦
      rw (dirty_part, e)
        (>>=-Ensures_eq _ env.candidates _ λ ps c.
          let start = record f { unstaged = t_false; untracked = t_false } in
          on_ok {a = dirty_scans env ps start} λ unfailed.
            let (unstaged, untracked) = scanned_flags env ps start refl refl unfailed in
            record {
              staged =
                  ap (λ (g : Flags). g.staged) (dirty_scans-scans_of env ps start)
                  ∙ dirty-staged (scans_of env ps) start
                  ∙ h.0;
              skipped = λ k. absurd (ground arith);
              scanned = λ _. (ps, c, unstaged, untracked);
            })
]

unfailed_of : (b : Bool) → verify (not b) ≡ ok tt → b ≡ false
unfailed_of true e = absurd (cc)
unfailed_of false e = refl

-- When GetIndexStats returns: the staged flag says whether a scan of the index against the head passed
-- a difference to its callback or, without a head, whether the index has entries; unstaged changes
-- and untracked files are both unknown if the index is larger than the limit, and if it is not, the
-- candidates were found, and there are unstaged changes exactly if one of the scans of the candidates
-- passed a difference that is not an untracked file to its callback, and untracked files exactly if
-- one of them passed an untracked file.
pub get_index_stats-IsStats :
    (env : StatsEnv) (head : Option Bytes) (limit : ℕ)
    → Ensures (IsStats env head limit) (get_index_stats env head limit)
unfolding get_index_stats stats_of
get_index_stats-IsStats env head limit = >>=-Ensures _ (verify env.index_ok) _ λ _.
    >>=-Ensures_eq _ (staged_part env head reset_flags) _ λ f e.
      >>=-Ensures_eq _ (dirty_part env limit f) _ λ g d.
        >>=-Ensures_eq _ (verify (not g.error)) _ λ _ v. on_ok (
          Ensures-ok (λ x. x.error ≡ false → IsStats env head limit (stats_of x))
            (dirty_part env limit f)
            (dirty_part-IsStats env head limit f
              (Ensures-ok _ (staged_part env head reset_flags) (staged_part-StagedPart env head) e))
            d (unfailed_of g.error v))
