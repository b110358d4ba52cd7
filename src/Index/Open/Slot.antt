-- ===== src/Index/Open/Slot.antt =====
-- The branches of ScanDirs of src/index.cc on the descriptor of the parent.
use gitstatus.Common.{Bool, true, refl, List, Option, arith, none, some, ℕ, ◌+◌, ◌<◌, ◌≡◌, ◌≤◌}
use gitstatus.Common.Outcome.{ok}
use gitstatus.Index.Open.Close.{close_fds-ok, close_moved-ok}
use gitstatus.Index.Open.{
  dir_stack_size, fd_at, open_next, open_path, parent_slot, push_fd, slot_fd,
}
use gitstatus.Index.Scan.{IndexDir}
use gitstatus.Text.{Bytes}

-- What is in the slot of the parent.
pub parent_slot-some :
    (prev dir : IndexDir) (n : ℕ)
    → n ≤ prev.depth
    → dir.depth + n ≡ prev.depth + 1
    → parent_slot (some prev) dir ≡ some n
unfolding parent_slot
parent_slot-some prev dir n h e = ground arith

pub parent_slot-none : (dir : IndexDir) → parent_slot none dir ≡ some 0
unfolding parent_slot
parent_slot-none dir = refl

module _ {H : Type 0} where
  pub slot_fd-some :
      (n : ℕ) (fds : List (Option H)) (h : H)
      → slot_fd n fds ≡ some h
      → (n < dir_stack_size) × (fd_at fds n ≡ some h)
  unfolding slot_fd
  slot_fd-some n fds h e = ground arith

  module _ {close_ok : H → Bool} (closes : (h : H) → close_ok h ≡ true)
      (open_dir : H → Bytes → Option H) (root : H) (dup_fd : Option H) (prev : Option IndexDir)
      (fds : List (Option H)) (dir : IndexDir) where
    pub open_next-path :
        (n : ℕ)
        → parent_slot prev dir ≡ some n
        → slot_fd n fds ≡ none
        → open_next close_ok open_dir root dup_fd prev fds dir
          ≡ open_path open_dir root dup_fd dir.path
    unfolding open_next
    open_next-path n e f = rw (open_next, e, f, close_fds-ok closes fds)

    pub open_next-near :
        (n : ℕ) (h : H)
        → parent_slot prev dir ≡ some n
        → slot_fd n fds ≡ some h
        → open_next close_ok open_dir root dup_fd prev fds dir
          ≡ ok (push_fd n (open_dir h dir.basename) fds)
    unfolding open_next
    open_next-near n h e f = rw (open_next, e, f, close_moved-ok closes n fds)
