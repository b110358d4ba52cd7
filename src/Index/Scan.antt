-- ===== src/Index/Scan.antt =====
-- The scan of one directory in `ScanDirs` of src/index.cc, once its descriptor is open or not: what
-- is compared, what is reported, and what the directory remembers. The results of the system calls
-- and of git_index_entry_newer_than_index are the fields of `Env`.
pub mod Listing
pub mod Missed
use Prim.Native.Nat.{Ordering}
use gitstatus.Common.{
  Bool, List, Option, [], drop, false, if◌then◌else◌, length, map, none, not, some, true, ℕ, ◌&&◌,
  ◌++◌, ◌∷◌,
}
use gitstatus.Common.Int.{sign}
use gitstatus.Index.Entry.{Entry, Stat, is_modified, stat_eq, zero_stat}
use gitstatus.Text.{Bytes, cmp_strs, cmp_view_str, str_eq}

-- enum class Tribool
pub data Tribool : Type 0 where
  t_false t_true t_unknown : Tribool

-- IndexDir, without the arenas that hold its strings.
pub record IndexDir : Type 0 where
  pub path : Bytes
  pub basename : Bytes
  pub depth : ℕ
  pub st : Stat
  pub files : List Entry
  pub subdirs : List Bytes
  pub unmatched : List Bytes

-- An entry of `ListDir`: its name, and whether the byte before it says DT_DIR.
pub record Dirent : Type 0 where
  pub name : Bytes
  pub is_dir : Bool

pub record Env : Type 0 where
  pub case_sensitive : Bool
  -- *dir_fd >= 0
  pub is_open : Bool
  -- fstat(*dir_fd)
  pub dir_stat : Option Stat
  -- ListDir(*dir_fd), with its result
  pub listing : Option (List Dirent)
  -- fstatat(*dir_fd, name)
  pub file_stat : Bytes → Option Stat
  -- git_index_entry_newer_than_index
  pub is_racy : Entry → Bool

-- A path that is pushed to `res`, and why.
pub data Report : Type 0 where
  deleted racy modified : Entry → Report
  new : Bytes → Report

-- Basename: e->path + dir.path.len
abbrev pub basename_of : IndexDir → Entry → Bytes
basename_of dir e = drop (length dir.path) e.path

-- if (fstatat(…)) st = {};
abbrev pub stat_or_zero : Option Stat → Stat
stat_or_zero none = zero_stat
stat_or_zero (some st) = st

-- The case cmp == 0.
unfoldable pub report_same : Env → Entry → Bytes → List Report
unfolding is_modified
report_same env f name =
    if env.is_racy f
    then racy f ∷ []
    else if is_modified f (stat_or_zero (env.file_stat name))
    then modified f ∷ []
    else []

pub record FileMatch : Type 0 where
  pub reports : List Report
  pub rest : List Entry
  pub matched : Bool

-- for (; file != file_end; ++file)
unfoldable pub match_files : Env → IndexDir → Bytes → List Entry → FileMatch
match_files env dir name [] = record { reports = []; rest = []; matched = false }
match_files env dir name (f ∷ fs) =
    let later = match_files env dir name fs in
    elim (sign (cmp_strs env.case_sensitive (basename_of dir f) name)) [
      | Ordering.lt ↦ record later { reports = deleted f ∷ later.reports }
      | Ordering.eq ↦ record { reports = report_same env f name; rest = fs; matched = true }
      | Ordering.gt ↦ record { reports = []; rest = f ∷ fs; matched = false }
    ]

-- for (; subdir != subdir_end; ++subdir)
unfoldable pub match_subdirs : Bool → Bytes → List Bytes → List Bytes × Bool
match_subdirs cs name [] = ([], false)
match_subdirs cs name (s ∷ ss) =
    let later = match_subdirs cs name ss in
    elim (sign (cmp_view_str cs s name)) [
      | Ordering.lt ↦ later
      | Ordering.eq ↦ (ss, true)
      | Ordering.gt ↦ (s ∷ ss, false)
    ]

-- if (entry[-1] == DT_DIR) entry[basename.len++] = '/';
abbrev pub unmatched_name : Dirent → Bytes
unmatched_name d = if d.is_dir then d.name ++ b'/' ∷ [] else d.name

-- ".git/"
abbrev pub dot_git : Bytes
dot_git = b'.' ∷ b'g' ∷ b'i' ∷ b't' ∷ b'/' ∷ []

-- AddUnmached with a basename
unfoldable pub report_new : Bool → IndexDir → Bytes → List Report
unfolding str_eq
report_new cs dir base = if str_eq cs base dot_git then [] else new (dir.path ++ base) ∷ []

-- for (char* entry : entries)
unfoldable pub match_entries : Env → IndexDir → List Dirent → List Entry → List Bytes → List Report
unfolding match_files match_subdirs report_new
match_entries env dir [] files subdirs = []
match_entries env dir (d ∷ ds) files subdirs =
    let f = match_files env dir d.name files in
    let s = match_subdirs env.case_sensitive d.name subdirs in
    let as_file = match_entries env dir ds f.rest subdirs in
    let as_dir = match_entries env dir ds f.rest s.0 in
    f.reports
    ++ (if f.matched
        then as_file
        else (if s.1 then [] else report_new env.case_sensitive dir (unmatched_name d)) ++ as_dir)

abbrev pub report_path : Report → Bytes
report_path (deleted e) = e.path
report_path (racy e) = e.path
report_path (modified e) = e.path
report_path (new p) = p

abbrev pub new_paths : List Report → List Bytes
new_paths [] = []
new_paths (new p ∷ rs) = p ∷ new_paths rs
new_paths (_ ∷ rs) = new_paths rs

-- AddUnmached(""): the directory itself becomes a candidate.
abbrev pub give_up : IndexDir → IndexDir × List Bytes
give_up dir = (record dir { st = zero_stat; unmatched = dir.path ∷ [] }, dir.path ∷ [])

-- The loop over dir.files where the directory has not changed.
unfoldable pub modified_files : Env → IndexDir → List Entry → List Bytes
unfolding is_modified
modified_files env dir [] = []
modified_files env dir (f ∷ fs) =
    let later = modified_files env dir fs in
    if is_modified f (stat_or_zero (env.file_stat (basename_of dir f)))
    then f.path ∷ later
    else later

-- From ListDir to the end of the body.
unfoldable pub scan_listing : Env → IndexDir → IndexDir × List Bytes
unfolding match_entries
scan_listing env dir = elim env.listing [
  | none ↦ give_up dir
  | some entries ↦
      let reports = match_entries env dir entries dir.files dir.subdirs in
      (record dir { unmatched = new_paths reports }, map report_path reports)
]

-- if (untracked_cache != Tribool::kFalse), for the result of fstat
unfoldable pub scan_cached : Bool → Env → IndexDir → Stat → IndexDir × List Bytes
unfolding stat_eq modified_files scan_listing
scan_cached cache env dir st =
    if cache && stat_eq st dir.st
    then (dir, modified_files env dir dir.files)
    else scan_listing env (record dir { st = st })

-- The body of the loop over the directories: the directory afterwards, and what it adds to `res`.
unfoldable pub scan_dir : Tribool → Env → IndexDir → IndexDir × List Bytes
unfolding scan_cached
scan_dir cache env dir = if not env.is_open then give_up dir else elim cache [
  | t_false ↦ scan_listing env dir
  | t_true ↦ elim env.dir_stat [ none ↦ give_up dir | some st ↦ scan_cached true env dir st ]
  | t_unknown ↦ elim env.dir_stat [ none ↦ give_up dir | some st ↦ scan_cached false env dir st ]
]
