-- ===== src/Index/Dirs.antt =====
-- InitDirs of src/index.cc, with CommonDir and Weight: the directories of the index, from its sorted
-- entries. The directory is the part of IndexDir that is set here; strings are copies, where the code
-- keeps pointers into the entries.
pub mod Stack
pub mod Push
pub mod Prefix
pub mod Walk
pub mod Preorder
pub mod Total
use gitstatus.Text.Sort.{str_sort}
use gitstatus.Common.{
  drop, leb, ltb, take, ◌++◌, ◌-◌, Bool, List, [], if◌then◌else◌, length, suc, zero, ℕ, ◌+◌, ◌==◌,
  ◌∷◌,
}
use gitstatus.Common.Outcome.{Outcome, aborts, check, ok, ◌>>=◌, ◌>>◌}
use gitstatus.Text.{Bytes, key, str_lt}

pub record Dir : Type 0 where
  pub path : Bytes
  pub basename : Bytes
  pub depth : ℕ
  pub files : List Bytes
  pub subdirs : List Bytes

-- The first directory, the root.
abbrev pub root_dir : Dir
root_dir = record { path = []; basename = []; depth = 0; files = []; subdirs = [] }

-- The loop of CommonDir at index i, with dir_len and dir_depth so far.
unfoldable pub common_loop : Bool → ℕ → ℕ × ℕ → Bytes → Bytes → ℕ × ℕ
common_loop cs i acc [] b = acc
common_loop cs i acc (a ∷ xs) [] = acc
common_loop cs i acc (a ∷ xs) (b ∷ bs) =
    let deeper = common_loop cs (i + 1) (i, acc.1 + 1) xs bs in
    let same = common_loop cs (i + 1) acc xs bs in
    if key cs a == key cs b then (if a == b'/' then deeper else same) else acc

-- CommonDir: dir_len and dir_depth
unfoldable pub common_dir : Bool → Bytes → Bytes → ℕ × ℕ
unfolding common_loop
common_dir cs a b = common_loop cs 1 (0, 0) a b

-- Weight
abbrev pub weight : Dir → ℕ
weight d = 1 + length d.subdirs + length d.files

-- The state of InitDirs: the stack with its top first, dirs_ with the last one first, and the weight.
pub record Build : Type 0 where
  pub stack : List Dir
  pub dirs : List Dir
  pub total_weight : ℕ

-- PopDir
unfoldable pub pop_dir : Bool → Build → Outcome Build
pop_dir cs b = elim b.stack [
  | [] ↦ aborts
  | top ∷ below ↦ do
    check (top.depth + 1 == length b.stack)
    ok (record {
      stack = below;
      dirs = record top { subdirs = str_sort cs top.subdirs } ∷ b.dirs;
      total_weight = b.total_weight + weight top;
    })
]

-- for (size_t i = common_depth; i != prev->depth; ++i) PopDir();
unfoldable pub pop_dirs : Bool → ℕ → Build → Outcome Build
unfolding pop_dir
pop_dirs cs zero b = ok b
pop_dirs cs (suc n) b = pop_dir cs b >>= pop_dirs cs n

-- The body of the loop over the slashes of an entry, at the slash at position `at`.
abbrev pub push_dir : Bytes → ℕ → List Dir → List Dir
push_dir path at [] = []
push_dir path at (top ∷ below) =
    let subdir = drop (length top.path) (take at path) in
    record {
      path = take (suc at) path;
      basename = subdir;
      depth = length (top ∷ below);
      files = [];
      subdirs = [];
    }
    ∷ record top { subdirs = top.subdirs ++ subdir ∷ [] }
    ∷ below

-- for (const char* p = entry->path + common_len; (p = std::strchr(p, '/')); ++p)
unfoldable pub push_dirs : Bytes → ℕ → Bytes → List Dir → List Dir
push_dirs path at [] stack = stack
push_dirs path at (c ∷ s) stack =
    push_dirs path (suc at) s (if c == b'/' then push_dir path at stack else stack)

abbrev pub last_byte : Bytes → ℕ
last_byte [] = 0
last_byte (c ∷ []) = c
last_byte (c ∷ d ∷ s) = last_byte (d ∷ s)

-- The loop with the CHECK of each directory: dir->path ends in a slash.
unfoldable pub checked_push : Bytes → ℕ → Bytes → List Dir → Outcome (List Dir)
unfolding push_dirs
checked_push path at [] stack = ok stack
checked_push path at (c ∷ s) stack =
    let skip = checked_push path (suc at) s stack in
    let push =
      check (last_byte (take (suc at) path) == b'/')
      >> checked_push path (suc at) s (push_dir path at stack) in
    if c == b'/' then push else skip

-- dir->files.push_back(entry);
abbrev pub add_file : Bytes → List Dir → Outcome (List Dir)
add_file path [] = aborts
add_file path (top ∷ below) = ok (record top { files = top.files ++ path ∷ [] } ∷ below)

-- The body of the loop over the entries.
unfoldable pub add_entry : Bool → Bytes → Build → Outcome Build
unfolding common_dir pop_dirs checked_push
add_entry cs path b = elim b.stack [
  | [] ↦ aborts
  | prev ∷ below ↦ do
    check (leb (common_dir cs prev.path path).1 prev.depth)
    b' ← pop_dirs cs (prev.depth - (common_dir cs prev.path path).1) b
    pushed ←
        checked_push path (common_dir cs prev.path path).0
          (drop (common_dir cs prev.path path).0 path) b'.stack
    stack ← add_file path pushed
    ok (record b' { stack = stack })
]

unfoldable pub add_entries : Bool → List Bytes → Build → Outcome Build
unfolding add_entry
add_entries cs [] b = ok b
add_entries cs (p ∷ ps) b = add_entry cs p b >>= add_entries cs ps

-- InitDirs, for the paths of the entries: the directories and their total weight.
unfoldable pub init_dirs : Bool → List Bytes → Outcome (List Dir × ℕ)
unfolding add_entries pop_dirs
init_dirs cs paths = do
  b ← add_entries cs paths (record { stack = root_dir ∷ []; dirs = []; total_weight = 0 })
  check (ltb 0 (length b.stack))
  done ← pop_dirs cs (length b.stack) b
  ok (done.dirs, done.total_weight)
