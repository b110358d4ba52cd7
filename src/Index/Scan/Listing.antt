-- ===== src/Index/Scan/Listing.antt =====
-- The names of a listing in `ScanDirs` of src/index.cc that match nothing in the index.
use gitstatus.Common.{
  Bool-cases, In-right, if◌then◌else◌, inl, inr, All, Bool, In, List, [], ap, arith, false, refl,
  true, ◌++◌, ◌∷◌, ◌≡◌, ◌≢◌, ◌⊎◌,
}
use mathlib.Core.Path.{subst}
use Prim.Native.Nat.{Ordering}
use gitstatus.Common.Int.{sign}
use gitstatus.Index.Entry.{Entry}
use gitstatus.Index.Scan.{
  Dirent, Env, FileMatch, IndexDir, Report, basename_of, deleted, dot_git, match_entries,
  match_files, match_subdirs, modified, new, new_paths, racy, report_new, report_same,
  unmatched_name,
}
use gitstatus.Text.{Bytes, cmp_strs, cmp_view_str, str_eq}

new_paths-append : (xs ys : List Report) → new_paths (xs ++ ys) ≡ new_paths xs ++ new_paths ys
new_paths-append [] ys = refl
new_paths-append (deleted e ∷ xs) ys = new_paths-append xs ys
new_paths-append (racy e ∷ xs) ys = new_paths-append xs ys
new_paths-append (modified e ∷ xs) ys = new_paths-append xs ys
new_paths-append (new p ∷ xs) ys = ap (◌∷◌ p) (new_paths-append xs ys)

-- No tracked file compares equal to the name.
abbrev pub NoFile : Env → IndexDir → Bytes → List Entry → Type 0
NoFile env dir name =
    All (λ f. sign (cmp_strs env.case_sensitive (basename_of dir f) name) ≢ Ordering.eq)

-- No tracked subdirectory does.
abbrev pub NoSubdir : Bool → Bytes → List Bytes → Type 0
NoSubdir cs name = All (λ s. sign (cmp_view_str cs s name) ≢ Ordering.eq)

match_files_miss :
    (env : Env) (dir : IndexDir) (name : Bytes) (fs : List Entry)
    → NoFile env dir name fs
    → (match_files env dir name fs).matched ≡ false
unfolding match_files
match_files_miss env dir name [] h = refl
match_files_miss env dir name (f ∷ fs) h = ground (arith, match_files_miss env dir name fs h.1)

match_files_rest :
    (P : Entry → Type 0) (env : Env) (dir : IndexDir) (name : Bytes) (fs : List Entry)
    → All P fs
    → All P (match_files env dir name fs).rest
unfolding match_files
match_files_rest P env dir name [] h = tt
match_files_rest P env dir name (f ∷ fs) h =
    elim (sign (cmp_strs env.case_sensitive (basename_of dir f) name))
      as (λ o.
        All P
          (elim o as (λ _. FileMatch) [
            | Ordering.lt ↦ record (match_files env dir name fs) {
              reports = deleted f ∷ (match_files env dir name fs).reports;
            }
            | Ordering.eq ↦ record { reports = report_same env f name; rest = fs; matched = true }
            | Ordering.gt ↦ record { reports = []; rest = f ∷ fs; matched = false }
          ]).rest) [
            | Ordering.lt ↦ match_files_rest P env dir name fs h.1
            | Ordering.eq ↦ h.1
            | Ordering.gt ↦ h
          ]

match_subdirs_miss :
    (cs : Bool) (name : Bytes) (ss : List Bytes)
    → NoSubdir cs name ss
    → (match_subdirs cs name ss).1 ≡ false
unfolding match_subdirs
match_subdirs_miss cs name [] h = refl
match_subdirs_miss cs name (s ∷ ss) h = ground (arith, match_subdirs_miss cs name ss h.1)

match_subdirs_rest :
    (P : Bytes → Type 0) (cs : Bool) (name : Bytes) (ss : List Bytes)
    → All P ss
    → All P (match_subdirs cs name ss).0
unfolding match_subdirs
match_subdirs_rest P cs name [] h = tt
match_subdirs_rest P cs name (s ∷ ss) h =
    elim (sign (cmp_view_str cs s name))
      as (λ o.
        All P
          (elim o as (λ _. List Bytes × Bool) [
            | Ordering.lt ↦ match_subdirs cs name ss
            | Ordering.eq ↦ (ss, true)
            | Ordering.gt ↦ (s ∷ ss, false)
          ]).0) [
            | Ordering.lt ↦ match_subdirs_rest P cs name ss h.1
            | Ordering.eq ↦ h.1
            | Ordering.gt ↦ h
          ]

match_entries_unmatched :
    (env : Env) (dir : IndexDir) (d : Dirent) (ds : List Dirent) (files : List Entry)
    (subdirs : List Bytes)
    → (match_files env dir d.name files).matched ≡ false
    → (match_subdirs env.case_sensitive d.name subdirs).1 ≡ false
    → str_eq env.case_sensitive (unmatched_name d) dot_git ≡ false
    → match_entries env dir (d ∷ ds) files subdirs
      ≡ (match_files env dir d.name files).reports
        ++ new (dir.path ++ unmatched_name d)
          ∷ match_entries env dir ds
              (match_files env dir d.name files).rest
              (match_subdirs env.case_sensitive d.name subdirs).0
unfolding match_entries report_new
match_entries_unmatched env dir d ds files subdirs f s g =
    rw (f, s, g, match_entries, report_new) refl

match_entries_later :
    (p : Bytes) (env : Env) (dir : IndexDir) (d : Dirent) (ds : List Dirent) (files : List Entry)
    (subdirs : List Bytes)
    → ((ss : List Bytes)
        → (ss ≡ subdirs) ⊎ (ss ≡ (match_subdirs env.case_sensitive d.name subdirs).0)
        → In p (new_paths (match_entries env dir ds (match_files env dir d.name files).rest ss)))
    → In p (new_paths (match_entries env dir (d ∷ ds) files subdirs))
unfolding match_entries
match_entries_later p env dir d ds files subdirs h =
    rw (new_paths-append (match_files env dir d.name files).reports _)
      (In-right p (new_paths (match_files env dir d.name files).reports) _ behind)
  where
    later : List Bytes → List Report
    later = match_entries env dir ds (match_files env dir d.name files).rest

    here : List Report
    here =
        if (match_subdirs env.case_sensitive d.name subdirs).1
        then []
        else report_new env.case_sensitive dir (unmatched_name d)

    behind : In p (
        new_paths (
          if (match_files env dir d.name files).matched
          then later subdirs
          else here ++ later (match_subdirs env.case_sensitive d.name subdirs).0))
    behind = elim (Bool-cases (match_files env dir d.name files).matched) [
      | inl e ↦ rw e (h subdirs (inl refl))
      | inr e ↦
          rw (e, new_paths-append here (later (match_subdirs env.case_sensitive d.name subdirs).0))
            (In-right p (new_paths here) _ (h _ (inr refl)))
    ]

-- Every name of the listing that is no tracked file and no tracked subdirectory, and is not `.git/`,
-- is reported as new, whatever else the directory holds and in whatever order.
pub match_entries_new :
    (env : Env) (dir : IndexDir) (d : Dirent) (ds : List Dirent) (files : List Entry)
    (subdirs : List Bytes)
    → In d ds
    → NoFile env dir d.name files
    → NoSubdir env.case_sensitive d.name subdirs
    → str_eq env.case_sensitive (unmatched_name d) dot_git ≡ false
    → In (dir.path ++ unmatched_name d) (new_paths (match_entries env dir ds files subdirs))
match_entries_new env dir d [] files subdirs i f s g = absurd i
match_entries_new env dir d (x ∷ ds) files subdirs (inl e) f s g =
    subst
      (λ y.
        In (dir.path ++ unmatched_name d)
          (new_paths (match_entries env dir (y ∷ ds) files subdirs)))
      e
      (rw
        (
          match_entries_unmatched env dir d ds files subdirs
              (match_files_miss env dir d.name files f)
              (match_subdirs_miss env.case_sensitive d.name subdirs s) g,
          new_paths-append (match_files env dir d.name files).reports _,
        )
        (In-right _ (new_paths (match_files env dir d.name files).reports) _ (inl refl)))
match_entries_new env dir d (x ∷ ds) files subdirs (inr i) f s g =
    match_entries_later _ env dir x ds files subdirs (λ ss h.
      match_entries_new env dir d ds (match_files env dir x.name files).rest ss i
        (match_files_rest _ env dir x.name files f)
        (elim h [
          | inl e ↦ rw e s
          | inr e ↦ rw e (match_subdirs_rest _ env.case_sensitive x.name subdirs s)
        ])
        g)
