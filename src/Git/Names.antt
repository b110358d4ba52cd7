-- ===== src/Git/Names.antt =====
-- The names of src/git.cc that are cut out of references, and the counts of commits.
use gitstatus.Common.{
  Bool-cases, inl, inr, ◌<◌, [], ap, arith, drop, length, refl, some, suc, true, zero, ℕ, ◌++◌, ◌+◌,
  ◌↔◌, ◌∙◌, ◌∷◌, ◌≡◌, ◌≢◌,
}
use gitstatus.Text.{starts_with, Bytes}
use gitstatus.Text.Compare.{starts_with-append, starts_with-cut}
use gitstatus.Text.Find.{drop-append}
use gitstatus.Common.Outcome.{ok, throws}
use gitstatus.Git.{
  Reference, Remote, Walk, char_is, commit, count_range, count_walk, failed, get_remote,
  head_prefix, local_branch_name, over, symbolic,
}

-- A walk over n commits.
abbrev pub commits : ℕ → Walk → Walk
commits zero w = w
commits (suc n) w = commit (commits n w)

count_walk-commits : (n res : ℕ) → count_walk (commits n over) res ≡ ok (res + n)
unfolding count_walk
count_walk-commits zero res = ap ok (omega arith)
count_walk-commits (suc n) res = count_walk-commits n (res + 1) ∙ ap ok (omega arith)

count_walk-failed : (n res : ℕ) → count_walk (commits n failed) res ≡ throws
unfolding count_walk
count_walk-failed zero res = refl
count_walk-failed (suc n) res = count_walk-failed n (res + 1)

-- `CountRange` counts the commits of a walk that ends, and throws if the walk fails on the way.
pub count_range-commits :
    (n : ℕ)
    → (count_range (record { is_new = true; is_pushed = true; walk = commits n over }) ≡ ok n)
      × (count_range (record { is_new = true; is_pushed = true; walk = commits n failed }) ≡ throws)
unfolding count_range
count_range-commits n = (count_walk-commits n 0 ∙ ap ok (omega arith), count_walk-failed n 0)

char_is-some : (s : Bytes) (i c : ℕ) → c ≢ 0 → char_is s i c ≡ true → drop i s ≡ c ∷ drop (suc i) s
char_is-some [] i c h e = ground arith
char_is-some (b ∷ s) zero c h e = ground arith
char_is-some (b ∷ s) (suc i) c h e = char_is-some s i c h e

char_is-append : (s t : Bytes) (c : ℕ) → char_is (s ++ c ∷ t) (length s) c ≡ true
char_is-append [] t c = ground arith
char_is-append (b ∷ s) t c = char_is-append s t c

-- `GetRemote` splits the name of the upstream branch at the slash behind the remote's name, and
-- throws for every other name.
pub get_remote_iff :
    (branch remote : Bytes) (r : Remote)
    → (get_remote (some branch) (some remote) ≡ ok r)
      ↔ ((r.name ≡ remote) × (branch ≡ remote ++ b'/' ∷ r.branch))
unfolding get_remote
get_remote_iff branch remote r = (there, back)
  where
    there :
        get_remote (some branch) (some remote) ≡ ok r
        → (r.name ≡ remote) × (branch ≡ remote ++ b'/' ∷ r.branch)
    there h = elim (Bool-cases (starts_with branch remote)) [
      | inr e ↦ cc (rw (e, get_remote) at h)
      | inl e ↦ elim (Bool-cases (char_is branch (length remote) b'/')) [
        | inr f ↦ cc (rw (e, get_remote, f) at h)
        | inl f ↦ ground (
          arith,
          starts_with-cut branch remote e,
          char_is-some branch (length remote) b'/' (omega arith) f,
        )
      ]
    ]

    back :
        (r.name ≡ remote) × (branch ≡ remote ++ b'/' ∷ r.branch)
        → get_remote (some branch) (some remote) ≡ ok r
    back (e, f) = rw f (
        ground (
          arith,
          starts_with-append remote (b'/' ∷ r.branch),
          char_is-append remote r.branch b'/',
          drop-append remote b'/' r.branch,
        ))

length-ne_nil : (s : Bytes) → s ≢ [] → 0 < length s
length-ne_nil [] h = absurd (h refl)
length-ne_nil (b ∷ s) h = omega arith

-- For a symbolic HEAD whose target is `refs/heads/` and a name, the local branch is that name.
local_branch_name-head :
    (ref : Reference) (name : Bytes)
    → ref.type ≡ symbolic
    → ref.symbolic_target ≡ some (head_prefix ++ name)
    → name ≢ []
    → local_branch_name ref ≡ ok name
unfolding local_branch_name
local_branch_name-head ref name h e k =
    rw (h, local_branch_name, e)
      (ground (arith, length-ne_nil name k, starts_with-append head_prefix name))

-- For a symbolic HEAD, `LocalBranchName` gives a non-empty name exactly when the target is
-- `refs/heads/` followed by that name.
pub local_branch_name_symbolic :
    (ref : Reference) (target name : Bytes)
    → ref.type ≡ symbolic
    → ref.symbolic_target ≡ some target
    → name ≢ []
    → (local_branch_name ref ≡ ok name) ↔ (target ≡ head_prefix ++ name)
unfolding local_branch_name
local_branch_name_symbolic ref target name h e k = (there, back)
  where
    back : target ≡ head_prefix ++ name → local_branch_name ref ≡ ok name
    back f = local_branch_name-head ref name h (rw f at e) k

    there : local_branch_name ref ≡ ok name → target ≡ head_prefix ++ name
    there g = elim (Bool-cases (starts_with target head_prefix)) [
      | inl f ↦ ground (arith, starts_with-cut target head_prefix f)
      | inr f ↦ ground arith
    ]
