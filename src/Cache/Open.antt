-- ===== src/Cache/Open.antt =====
-- Opening a repository twice, with RepoCache of src/repo_cache.cc.
use gitstatus.Common.{
  Option, arith, Bool, Option-cases, false, inl, inr, none, refl, some, sym, true, ◌∙◌, ◌≡◌,
}
use gitstatus.Text.Compare.{str_eq_refl}
use gitstatus.Cache.{Cache, fill, found, open_cached}
use gitstatus.Common.Outcome.{ok}
use gitstatus.Text.{Bytes}

module _ {R : Type 0} (make : Bytes → R) where
  fill-some :
      (cache cache' : Cache R) (work_dir : Bytes) (is_bare odb refdb : Bool) (repo : R)
      → fill make cache work_dir is_bare odb refdb ≡ (cache', ok (some repo))
      → cache' work_dir ≡ some (some repo)
  unfolding fill
  fill-some cache cache' work_dir true odb refdb repo h = cc
  fill-some cache cache' work_dir false false refdb repo h = cc
  fill-some cache cache' work_dir false true false repo h = cc
  fill-some cache cache' work_dir false true true repo h = ground (arith, str_eq_refl true work_dir)

  -- A working directory that led to a repository leads to the same one again, whatever the request
  -- and libgit2 say of it, and the cache stays as it is.
  pub open_cached-again :
      (cache cache' : Cache R) (dir dir' work_dir : Bytes)
      (is_bare odb refdb is_bare' odb' refdb' : Bool) (repo : R)
      → open_cached make cache dir (found (some work_dir) is_bare odb refdb)
        ≡ (cache', ok (some repo))
      → open_cached make cache' dir' (found (some work_dir) is_bare' odb' refdb')
        ≡ (cache', ok (some repo))
  unfolding open_cached
  open_cached-again cache cache' dir dir' work_dir is_bare odb refdb is_bare' odb' refdb' repo h =
      rw (open_cached, kept) refl
    where
      looked :
          (o : Option (Option R))
          → cache work_dir ≡ o
          → open_cached make cache dir (found (some work_dir) is_bare odb refdb) ≡ elim o [
            | none ↦ fill make cache work_dir is_bare odb refdb
            | some none ↦ fill make cache work_dir is_bare odb refdb
            | some (some r) ↦ (cache, ok (some r))
          ]
      looked o e = rw (open_cached, e) refl

      kept : cache' work_dir ≡ some (some repo)
      kept = elim (Option-cases (cache work_dir)) [
        | inl e ↦ fill-some cache cache' work_dir is_bare odb refdb repo (sym (looked none e) ∙ h)
        | inr (none, e) ↦
            fill-some cache cache' work_dir is_bare odb refdb repo (sym (looked (some none) e) ∙ h)
        | inr (some r, e) ↦ cc (sym (looked (some (some r)) e) ∙ h, e)
      ]
