-- ===== src/Cache.antt =====
-- RepoCache of src/repo_cache.cc: the repositories that were opened, by their working directory.
-- `R` stands for Repo. The map is a function; an entry that holds null is `some none`.
pub mod Open
use gitstatus.Common.{Bool, Option, [], if◌then◌else◌, none, not, some, true, ◌++◌, ◌∷◌}
use gitstatus.Common.Outcome.{Outcome, ok, throws}
use gitstatus.Repo.Notify.Interleave.{then}
use gitstatus.Text.{Bytes, str_eq}

pub data Opened : Type 0 where
  -- OpenRepo found nothing.
  not_found : Opened
  -- It raised an exception.
  open_throws : Opened
  -- A repository: git_repository_workdir, git_repository_is_bare, and whether the object and the
  -- reference database open.
  found : Option Bytes → Bool → Bool → Bool → Opened

abbrev pub Cache : Type 0 → Type 0
Cache R = Bytes → Option (Option R)

module _ {R : Type 0} where
  -- cache_[dir] = entry, and erase for none
  abbrev pub set : Cache R → Bytes → Option (Option R) → Cache R
  set cache dir entry d = if str_eq true d dir then entry else cache d

  -- cache_.erase(dir + '/') || cache_.erase(dir);
  unfoldable pub erase : Cache R → Bytes → Cache R
  erase cache dir = elim (cache (dir ++ b'/' ∷ [])) [
    | some _ ↦ set cache (dir ++ b'/' ∷ []) none
    | none ↦ set cache dir none
  ]

  -- The null entry that emplace left, filled unless the repository is bare or a database fails.
  unfoldable pub fill :
      (Bytes → R) → Cache R → Bytes → Bool → Bool → Bool → Cache R × Outcome (Option R)
  fill make cache work_dir is_bare odb refdb =
      let with_null = set cache work_dir (some none) in
      if is_bare
      then (with_null, ok none)
      else if not odb
      then (with_null, throws)
      else if not refdb
      then (with_null, throws)
      else (set cache work_dir (some (some (make work_dir))), ok (some (make work_dir)))

  -- RepoCache::Open, with std::make_unique<Repo> as `make`.
  unfoldable pub open_cached : (Bytes → R) → Cache R → Bytes → Opened → Cache R × Outcome (Option R)
  unfolding erase fill
  open_cached make cache dir not_found = (erase cache dir, ok none)
  open_cached make cache dir open_throws = (cache, throws)
  open_cached make cache dir (found none is_bare odb refdb) = (cache, ok none)
  open_cached make cache dir (found (some work_dir) is_bare odb refdb) = elim (cache work_dir) [
    | none ↦ fill make cache work_dir is_bare odb refdb
    | some none ↦ fill make cache work_dir is_bare odb refdb
    | some (some repo) ↦ (cache, ok (some repo))
  ]
