-- ===== src/Index/Entry.antt =====
-- Index entries, `struct stat`, and the comparison of the two in src/index.cc and src/stat.h.
-- The fields of an entry and of `struct stat` are natural numbers: the code compares them after
-- widening. A `stat` that failed is all zeroes, `st = {}`.
use Prim.Native.Nat.{bit_and, bit_or}
use gitstatus.Common.{Bool, arith, false, if◌then◌else◌, not, ℕ, ◌&&◌, ◌==◌, ◌||◌, ◌↔◌, ◌≡◌}
use gitstatus.Text.{Bytes}

-- The fields of git_index_entry that the code reads.
pub record Entry : Type 0 where
  pub path : Bytes
  pub mtime_seconds : ℕ
  pub mtime_nanoseconds : ℕ
  pub ino : ℕ
  pub mode : ℕ
  pub gid : ℕ
  pub file_size : ℕ

pub record Stat : Type 0 where
  pub mtim_sec : ℕ
  pub mtim_nsec : ℕ
  pub size : ℕ
  pub ino : ℕ
  pub mode : ℕ
  pub gid : ℕ

-- struct stat st = {}
abbrev pub zero_stat : Stat
zero_stat = record { mtim_sec = 0; mtim_nsec = 0; size = 0; ino = 0; mode = 0; gid = 0 }

-- StatEq of src/stat.h
unfoldable pub stat_eq : Stat → Stat → Bool
stat_eq x y =
    x.mtim_sec == y.mtim_sec
    && x.mtim_nsec == y.mtim_nsec
    && x.size == y.size
    && x.ino == y.ino
    && x.mode == y.mode

-- S_IFMT and S_IFREG of Linux.
abbrev pub s_ifmt : ℕ
s_ifmt = 0o170000

abbrev pub s_ifreg : ℕ
s_ifreg = 0o100000

-- Mode
unfoldable pub mode_of : ℕ → ℕ
mode_of mode =
    if bit_and mode s_ifmt == s_ifreg
    then (if bit_and mode 0o111 == 0 then bit_or s_ifreg 0o644 else bit_or s_ifreg 0o755)
    else bit_and mode s_ifmt

-- IsModified
unfoldable pub is_modified : Entry → Stat → Bool
unfolding mode_of
is_modified e st =
    not (e.mtime_seconds == st.mtim_sec)
    || not (e.mtime_nanoseconds == st.mtim_nsec)
    || not (e.ino == st.ino)
    || not (e.mode == mode_of st.mode)
    || not (e.gid == st.gid)
    || not (e.file_size == st.size)

-- An entry counts as unmodified exactly when modification time, inode, normalised mode, group and
-- size are all those of the file.
pub is_modified_iff :
    (e : Entry) (st : Stat)
    → (is_modified e st ≡ false) ↔ (
        (e.mtime_seconds ≡ st.mtim_sec)
        × (e.mtime_nanoseconds ≡ st.mtim_nsec)
        × (e.ino ≡ st.ino)
        × (e.mode ≡ mode_of st.mode)
        × (e.gid ≡ st.gid)
        × (e.file_size ≡ st.size))
unfolding is_modified
is_modified_iff e st = (λ h. ground arith, λ h. ground arith)
