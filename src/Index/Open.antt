-- ===== src/Index/Open.antt =====
-- The descriptors of `ScanDirs` of src/index.cc: OpenTail, the stack `dir_fd` of open directories, and
-- the loop over the directories. `H` is an open descriptor, and none stands for -1. The calls of
-- openat are an argument, `open_dir`, which may answer otherwise for each directory.
pub mod Close
pub mod Lineage
pub mod Ancestors
pub mod Tail
pub mod Fds
pub mod Slot
pub mod Order
pub mod Next
pub mod Paths
pub mod Shard
use gitstatus.Common.{
  Bool, map, true, length-append, List, Option, [], drop, get_elem?, if◌then◌else◌, leb, length,
  ltb, none, not, some, suc, take, zero, ℕ, ◌++◌, ◌+◌, ◌-◌, ◌==◌, ◌∷◌,
}
use gitstatus.Common.Outcome.{Outcome, aborts, check, ok, throws, ◌>>=◌, ◌>>◌}
use gitstatus.Index.Dirs.{last_byte}
use gitstatus.Index.Scan.{Env, IndexDir, Tribool, give_up, scan_dir}
use gitstatus.Text.{Bytes, codes}
use gitstatus.Text.Find.{find_last}

-- kDirStackSize
abbrev pub dir_stack_size : ℕ
dir_stack_size = 5

-- The strings of `subdirs`, for `k` places left, where `s` runs from `begin` to `sep`. A lone "." goes
-- behind the last, if there is a place.
unfoldable pub split_tail : ℕ → Bytes → List Bytes
split_tail zero s = s ∷ []
split_tail (suc k) s =
    let sep = find_last s (length s) b'/' in
    let rest = drop (suc sep) s ∷ split_tail k (take sep s) in
    if sep == 0 then s ∷ codes "." ∷ [] else rest

-- Where the parent's descriptor would be: 0 for the first directory, which has none before it, and
-- none if the subtraction is negative.
unfoldable pub parent_slot : Option IndexDir → IndexDir → Option ℕ
parent_slot none dir = some 0
parent_slot (some prev) dir =
    if ltb (prev.depth + 1) dir.depth then none else some (prev.depth + 1 - dir.depth)

module _ {H : Type 0} where
  -- std::fill with -1
  abbrev pub no_fds : ℕ → List (Option H)
  no_fds zero = []
  no_fds (suc n) = none ∷ no_fds n

  -- CHECK(!close(fd)) for each of these descriptors that is open.
  unfoldable pub close_fds : (H → Bool) → List (Option H) → Outcome (Unit {0})
  close_fds close_ok [] = ok tt
  close_fds close_ok (none ∷ fds) = close_fds close_ok fds
  close_fds close_ok (some h ∷ fds) = check (close_ok h) >> close_fds close_ok fds

  -- The first descriptor of the chain, or `root_fd`.
  abbrev pub head_or : H → List H → H
  head_or root [] = root
  head_or root (h ∷ hs) = h

  -- OpenDir for each of the names, from the last to the first, if none fails.
  unfoldable pub open_chain : (H → Bytes → Option H) → H → List Bytes → Option (List H)
  open_chain open_dir root [] = some []
  open_chain open_dir root (s ∷ ss) = elim (open_chain open_dir root ss) [
    | none ↦ none
    | some hs ↦ elim (open_dir (head_or root hs) s) [ none ↦ none | some h ↦ some (h ∷ hs) ]
  ]

  -- The descriptors that are open where one of the names fails, the last one first.
  unfoldable pub open_until : (H → Bytes → Option H) → H → List Bytes → List (Option H)
  unfolding open_chain
  open_until open_dir root [] = []
  open_until open_dir root (s ∷ ss) = elim (open_chain open_dir root ss) [
    | none ↦ open_until open_dir root ss
    | some hs ↦ map some hs
  ]

  -- `fds`, filled from its beginning.
  abbrev pub pad : ℕ → List H → List (Option H)
  pad zero hs = []
  pad (suc n) [] = none ∷ pad n []
  pad (suc n) (h ∷ hs) = some h ∷ pad n hs

  -- The loop of OpenTail over `subdirs`, which starts behind the first. Where a name fails, the
  -- descriptors that were opened are closed.
  abbrev pub open_names :
      (H → Bool) → ℕ → (H → Bytes → Option H) → H → List Bytes → Outcome (List (Option H))
  open_names close_ok nfds open_dir root names = do
    check (leb (length names) (nfds + 1))
    elim (open_chain open_dir root (drop 1 names)) [
      | none ↦ (close_fds close_ok (open_until open_dir root (drop 1 names)) >> ok (no_fds nfds))
      | some hs ↦ ok (pad nfds hs)
    ]

  -- OpenTail
  unfoldable pub open_tail :
      (H → Bool) → ℕ → (H → Bytes → Option H) → H → Bytes → Outcome (List (Option H))
  unfolding split_tail open_chain open_until close_fds
  open_tail close_ok nfds open_dir root [] = ok (no_fds nfds)
  open_tail close_ok nfds open_dir root (c ∷ s) = do
    check (ltb 1 (length (c ∷ s)))
    check (not (c == b'/'))
    check (last_byte (c ∷ s) == b'/')
    open_names close_ok nfds open_dir root (split_tail nfds (take (length s) (c ∷ s)))

  -- dir_fd[d] >= 0
  abbrev pub fd_at : List (Option H) → ℕ → Option H
  fd_at fds d = elim (get_elem? fds d) [ none ↦ none | some fd ↦ fd ]

  -- What for (ssize_t i = 0; i != d; ++i) Close(dir_fd[i]); leaves.
  abbrev pub close_first : ℕ → List (Option H) → List (Option H)
  close_first zero fds = fds
  close_first (suc d) [] = []
  close_first (suc d) (x ∷ fds) = none ∷ close_first d fds

  -- std::rotate
  abbrev pub rotate : ℕ → List (Option H) → List (Option H)
  rotate n fds = drop n fds ++ take n fds

  -- *dir_fd = fd;
  abbrev pub set_first : Option H → List (Option H) → List (Option H)
  set_first fd [] = []
  set_first fd (x ∷ fds) = fd ∷ fds

  -- The branch that opens the directory from its parent's descriptor, at place d.
  unfoldable pub push_fd : ℕ → Option H → List (Option H) → List (Option H)
  push_fd d fd fds =
      set_first fd (rotate ((if d == 0 then dir_stack_size else d) - 1) (close_first d fds))

  -- The calls of Close of that branch, with their CHECKs.
  unfoldable pub close_moved : (H → Bool) → ℕ → List (Option H) → Outcome (Unit {0})
  unfolding close_fds
  close_moved close_ok d fds = do
    close_fds close_ok (take d fds)
    close_fds close_ok
        (take 1 (rotate ((if d == 0 then dir_stack_size else d) - 1) (close_first d fds)))

  -- The other branch behind CloseAll: open the directory by its whole path. `dup_fd` is what dup
  -- gives for the root.
  unfoldable pub open_path :
      (H → Bytes → Option H) → H → Option H → Bytes → Outcome (List (Option H))
  open_path open_dir root none [] = throws
  open_path open_dir root (some h) [] = ok (set_first (some h) (no_fds dir_stack_size))
  open_path open_dir root dup_fd (c ∷ s) = do
    check (not (c == b'/'))
    check (last_byte (c ∷ s) == b'/')
    ok (set_first (open_dir root (take (length s) (c ∷ s))) (no_fds dir_stack_size))

  -- The condition of the branches: the descriptor in the slot, if it is one of the stack and open.
  unfoldable pub slot_fd : ℕ → List (Option H) → Option H
  slot_fd d fds = if ltb d dir_stack_size then fd_at fds d else none

  -- dir_fd when the directory is scanned. Reading `dir_fd[d]` for a negative d is no defined
  -- behaviour, which the CHECK behind it means to catch.
  unfoldable pub open_next :
      (H → Bool)
      → (H → Bytes → Option H)
      → H
      → Option H
      → Option IndexDir
      → List (Option H)
      → IndexDir
      → Outcome (List (Option H))
  unfolding push_fd open_path parent_slot slot_fd close_moved close_fds
  open_next close_ok open_dir root dup_fd prev fds dir = elim (parent_slot prev dir) [
    | none ↦ aborts
    | some d ↦ elim (slot_fd d fds) [
      | some parent ↦
          (close_moved close_ok d fds >> ok (push_fd d (open_dir parent dir.basename) fds))
      | none ↦ (close_fds close_ok fds >> open_path open_dir root dup_fd dir.path)
    ]
  ]

  -- The calls of Close of if (*dir_fd < 0) CloseAll();, and what that leaves.
  abbrev pub close_failed : (H → Bool) → List (Option H) → Outcome (Unit {0})
  close_failed close_ok fds = elim (fd_at fds 0) [ none ↦ close_fds close_ok fds | some h ↦ ok tt ]

  abbrev pub after_scan : List (Option H) → List (Option H)
  after_scan fds = elim (fd_at fds 0) [ none ↦ no_fds dir_stack_size | some h ↦ fds ]

-- What the system answers while one directory is scanned, by the descriptor that it is scanned with.
pub record Sys (H : Type 0) : Type 0 where
  pub open_dir : H → Bytes → Option H
  pub dup_fd : Option H
  pub env : H → Env

module _ {H : Type 0} where
  -- The body of the loop behind the opening: the branch of `*dir_fd < 0`, or the scan.
  unfoldable pub scan_at : Tribool → Sys H → IndexDir → Option H → IndexDir × List Bytes
  unfolding scan_dir
  scan_at cache sys dir fd = elim fd [
    | none ↦ give_up dir
    | some h ↦ scan_dir cache (record (sys.env h) { is_open = true }) dir
  ]

  -- The loop of ScanDirs, with the directory before it, and the descriptors as they stand. At its end
  -- those that are open are closed.
  unfoldable pub scan_loop :
      (H → Bool)
      → Tribool
      → H
      → Option IndexDir
      → List (Option H)
      → List (IndexDir × Sys H)
      → Outcome (List IndexDir × List Bytes)
  unfolding open_next scan_at close_fds
  scan_loop close_ok cache root prev fds [] = close_fds close_ok fds >> ok ([], [])
  scan_loop close_ok cache root prev fds ((dir, sys) ∷ dirs) = do
    now ← open_next close_ok sys.open_dir root sys.dup_fd prev fds dir
    close_failed close_ok now
    let done = scan_at cache sys dir (fd_at now 0)
    rest ← scan_loop close_ok cache root (some dir) (after_scan now) dirs
    ok (done.0 ∷ rest.0, done.1 ++ rest.1)

  -- ScanDirs, with the calls of OpenTail as `open_dir`, and whether close succeeds.
  unfoldable pub scan_dirs :
      (H → Bool)
      → Tribool
      → H
      → (H → Bytes → Option H)
      → List (IndexDir × Sys H)
      → Outcome (List IndexDir × List Bytes)
  unfolding scan_loop open_tail
  scan_dirs close_ok cache root open_dir [] = ok ([], [])
  scan_dirs close_ok cache root open_dir ((dir, sys) ∷ dirs) = do
    fds ← open_tail close_ok dir_stack_size open_dir root dir.path
    scan_loop close_ok cache root none fds ((dir, sys) ∷ dirs)
