-- ===== src/Index/Scan/Missed.antt =====
-- Changes that a scan in `ScanDirs` of src/index.cc does not report.
use Prim.Native.Nat.{Ordering}
use gitstatus.Common.{All, List, [], arith, false, refl, ◌∷◌, ◌≡◌}
use gitstatus.Common.Int.{sign}
use gitstatus.Index.Entry.{Entry}
use gitstatus.Index.Scan.{
  Dirent, Env, IndexDir, basename_of, match_entries, match_files, match_subdirs,
}
use gitstatus.Text.{Bytes, cmp_strs}

-- The names that stand before a file in the order of the listing.
abbrev pub AllBefore : Env → IndexDir → Entry → List Dirent → Type 0
AllBefore env dir f ds =
    All (λ d. sign (cmp_strs env.case_sensitive (basename_of dir f) d.name) ≡ Ordering.gt) ds

match_files_gt :
    (env : Env) (dir : IndexDir) (name : Bytes) (f : Entry) (fs : List Entry)
    → sign (cmp_strs env.case_sensitive (basename_of dir f) name) ≡ Ordering.gt
    → match_files env dir name (f ∷ fs) ≡ record { reports = []; rest = f ∷ fs; matched = false }
unfolding match_files
match_files_gt env dir name f fs h = rw (h, match_files)

match_files_nil :
    (env : Env) (dir : IndexDir) (name : Bytes)
    → match_files env dir name [] ≡ record { reports = []; rest = []; matched = false }
unfolding match_files
match_files_nil env dir name = refl

-- A tracked file whose name sorts behind every name of the listing is not reported: the scan goes
-- as if that file, and those behind it, were not in the index. So when it is deleted, the deletion
-- is missed.
pub match_entries_behind :
    (env : Env) (dir : IndexDir) (ds : List Dirent) (f : Entry) (fs : List Entry)
    (subdirs : List Bytes)
    → AllBefore env dir f ds
    → match_entries env dir ds (f ∷ fs) subdirs ≡ match_entries env dir ds [] subdirs
unfolding match_entries
match_entries_behind env dir [] f fs subdirs h = refl
match_entries_behind env dir (d ∷ ds) f fs subdirs h = ground (
  arith,
  match_files_gt env dir d.name f fs h.0,
  match_files_nil env dir d.name,
  match_entries_behind env dir ds f fs (match_subdirs env.case_sensitive d.name subdirs).0 h.1,
  match_entries_behind env dir ds f fs subdirs h.1,
)
