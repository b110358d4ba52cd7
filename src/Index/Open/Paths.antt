-- ===== src/Index/Open/Paths.antt =====
-- The whole of ScanDirs of src/index.cc, over directories in the order of InitDirs.
use gitstatus.Index.Place.{Follows, IsPreorder, place}
use gitstatus.Common.{
  ◌∙◌, All, List, Option, [], ap, arith, drop, length, none, refl, some, suc, zero, ℕ, ◌++◌, ◌+◌,
  ◌∷◌, ◌≡◌, map,
}
use gitstatus.Index.Open.Close.{close_failed-ok, close_fds-ok}
use gitstatus.Common.{Bool, true}
use gitstatus.Index.Open.{
  no_fds, open_path, open_tail, scan_dirs, parent_slot, slot_fd, Sys, after_scan, dir_stack_size,
  fd_at, open_next, scan_at, scan_loop,
}
use gitstatus.Index.Open.Next.{open_path-holds, StandsAt, open_next-holds}
use gitstatus.Index.Open.Slot.{open_next-path, parent_slot-none, parent_slot-some}
use gitstatus.Index.Open.Lineage.{IsSound, IsLineage, StackHolds, no_fds-StackHolds}
use gitstatus.Index.Open.Order.{Scanned, SysHolds}
use gitstatus.Index.Open.Tail.{StandsBehind, open_tail-holds}
use gitstatus.Text.{Bytes}
use gitstatus.Index.Open.Ancestors.{IsLineage-drop}
use gitstatus.Common.Outcome.{Outcome, ok}
use gitstatus.Index.Scan.{IndexDir, Tribool}

module _ {H : Type 0} (Refers : Bytes → H → Type 0) where
  after_scan-StackHolds :
      (ps : List Bytes) (fds : List (Option H))
      → StackHolds Refers ps fds
      → length fds ≡ dir_stack_size
      → StackHolds Refers ps (after_scan fds) × (length (after_scan fds) ≡ dir_stack_size)
  after_scan-StackHolds ps [] h l = absurd (omega (arith, l))
  after_scan-StackHolds ps (none ∷ fds) h l = (no_fds-StackHolds Refers 5 ps, refl)
  after_scan-StackHolds ps (some x ∷ fds) h l = (h, l)

  first_fd-Refers :
      (p : Bytes) (ps : List Bytes) (fds : List (Option H))
      → StackHolds Refers (p ∷ ps) fds
      → (h : H) → fd_at fds 0 ≡ some h
      → Refers p h
  first_fd-Refers p ps [] holds h e = cc
  first_fd-Refers p ps (x ∷ fds) holds h e = holds.0 h e

  length-drop :
      (n : ℕ) (ps qs : List Bytes) (q : Bytes)
      → drop n ps ≡ q ∷ qs
      → length ps ≡ n + length (q ∷ qs)
  length-drop zero ps qs q e = ground (arith, ap (λ z. length z) e)
  length-drop (suc n) [] qs q e = cc
  length-drop (suc n) (p ∷ ps) qs q e = ground (arith, length-drop n ps qs q e)

  abbrev Done : Tribool → List (IndexDir × Sys H) → Outcome (List IndexDir × List Bytes) → Type 0
  Done cache dirs m =
      (res : List IndexDir × List Bytes) × (m ≡ ok res) × Scanned Refers cache dirs res

  module _ {close_ok : H → Bool} (closes : (h : H) → close_ok h ≡ true) (cache : Tribool) (root : H)
      (at_root : Refers [] root) where
    scan_loop-cons :
        (prev : Option IndexDir) (fds now : List (Option H)) (dir : IndexDir) (sys : Sys H)
        (dirs : List (IndexDir × Sys H))
        → open_next close_ok sys.open_dir root sys.dup_fd prev fds dir ≡ ok now
        → ((h : H) → fd_at now 0 ≡ some h → Refers dir.path h)
        → Done cache dirs (scan_loop close_ok cache root (some dir) (after_scan now) dirs)
        → Done cache
            ((dir, sys) ∷ dirs)
            (scan_loop close_ok cache root prev fds ((dir, sys) ∷ dirs))
    unfolding scan_loop
    scan_loop-cons prev fds now dir sys dirs e here rest = (
      (
        (scan_at cache sys dir (fd_at now 0)).0 ∷ rest.0.0,
        (scan_at cache sys dir (fd_at now 0)).1 ++ rest.0.1,
      ),
      rw (scan_loop, e, close_failed-ok closes now, rest.1),
      Scanned.scanned dir sys dirs rest.0 (fd_at now 0) here rest.2,
    )

    -- The loop behind a directory, whose descriptor is the first of the stack.
    scan_loop-Done :
        (prev : IndexDir) (ps : List Bytes) (fds : List (Option H)) (dirs : List (IndexDir × Sys H))
        → IsLineage ps
        → length ps ≡ prev.depth + 1
        → StackHolds Refers ps fds
        → length fds ≡ dir_stack_size
        → Follows ps (map (λ d. place d.0) dirs)
        → All (λ d. SysHolds Refers d.1) dirs
        → Done cache dirs (scan_loop close_ok cache root (some prev) fds dirs)
    unfolding scan_loop
    scan_loop-Done prev ps fds [] l deep stack five order holds =
        (([], []), rw (close_fds-ok closes fds), Scanned.finished)
    scan_loop-Done prev ps fds ((dir, sys) ∷ dirs) l deep stack five (n, q, qs, e, child, d, order)
          holds =
        scan_loop-cons (some prev) fds opened.0 dir sys dirs opened.1
          (first_fd-Refers dir.path (q ∷ qs) opened.0 opened.2)
          (scan_loop-Done dir (dir.path ∷ q ∷ qs) (after_scan opened.0) dirs
            ((dir.basename, child), IsLineage-drop n ps qs q l e) (omega (arith, d)) kept.0 kept.1
            order holds.1)
      where
        long : length ps ≡ n + length (q ∷ qs)
        long = length-drop n ps qs q e

        slot : parent_slot (some prev) dir ≡ some n
        slot =
            parent_slot-some prev dir n (omega (arith, long, deep)) (omega (arith, long, deep, d))

        opened :
            StandsAt Refers dir.path
              (q ∷ qs)
              (open_next close_ok sys.open_dir root sys.dup_fd (some prev) fds dir)
        opened =
            open_next-holds Refers closes root sys (some prev) dir fds n q ps qs at_root holds.0 l
              slot e child stack five

        kept :
            StackHolds Refers (dir.path ∷ q ∷ qs) (after_scan opened.0)
            × (length (after_scan opened.0) ≡ dir_stack_size)
        kept = after_scan-StackHolds (dir.path ∷ q ∷ qs) opened.0 opened.2 opened.3

    -- The first directory, with the stack of OpenTail.
    scan_loop-first :
        (dir : IndexDir) (sys : Sys H) (dirs : List (IndexDir × Sys H)) (ps : List Bytes)
        (fds now : List (Option H))
        → open_next close_ok sys.open_dir root sys.dup_fd none fds dir ≡ ok now
        → StackHolds Refers (dir.path ∷ ps) now
        → length now ≡ dir_stack_size
        → IsLineage (dir.path ∷ ps)
        → dir.depth ≡ length ps
        → Follows (dir.path ∷ ps) (map (λ d. place d.0) dirs)
        → All (λ d. SysHolds Refers d.1) dirs
        → Done cache
            ((dir, sys) ∷ dirs)
            (scan_loop close_ok cache root none fds ((dir, sys) ∷ dirs))
    scan_loop-first dir sys dirs ps fds now e stack five l d order holds =
        scan_loop-cons none fds now dir sys dirs e (first_fd-Refers dir.path ps now stack) (
          scan_loop-Done dir (dir.path ∷ ps) (after_scan now) dirs l (omega (arith, d)) kept.0
            kept.1 order holds)
      where
        kept :
            StackHolds Refers (dir.path ∷ ps) (after_scan now)
            × (length (after_scan now) ≡ dir_stack_size)
        kept = after_scan-StackHolds (dir.path ∷ ps) now stack five

    scan_dirs-tail :
        (open_dir : H → Bytes → Option H) (dir : IndexDir) (sys : Sys H)
        (dirs : List (IndexDir × Sys H)) (fds : List (Option H))
        → open_tail close_ok dir_stack_size open_dir root dir.path ≡ ok fds
        → Done cache
            ((dir, sys) ∷ dirs)
            (scan_loop close_ok cache root none fds ((dir, sys) ∷ dirs))
        → Done cache
            ((dir, sys) ∷ dirs)
            (scan_dirs close_ok cache root open_dir ((dir, sys) ∷ dirs))
    unfolding scan_dirs
    scan_dirs-tail open_dir dir sys dirs fds e done = (done.0, rw (scan_dirs, e) done.1, done.2)

    open_tail-nil :
        (open_dir : H → Bytes → Option H) (n : ℕ) (p : Bytes)
        → p ≡ []
        → open_tail close_ok n open_dir root p ≡ ok (no_fds n)
    unfolding open_tail
    open_tail-nil open_dir n p e = rw (e)

    pub scan_dirs-Scanned :
        (open_dir : H → Bytes → Option H) (dirs : List (IndexDir × Sys H))
        → IsSound Refers open_dir
        → IsPreorder (map (λ d. place d.0) dirs)
        → All (λ d. SysHolds Refers d.1) dirs
        → (res : List IndexDir × List Bytes) × (scan_dirs close_ok cache root open_dir dirs
            ≡ ok res)
          × Scanned Refers cache dirs res
    unfolding scan_dirs slot_fd
    scan_dirs-Scanned open_dir [] sound order holds = (([], []), refl, Scanned.finished)
    scan_dirs-Scanned open_dir ((dir, sys) ∷ dirs) sound ([], top, deep, order) holds =
        scan_dirs-tail open_dir dir sys dirs (no_fds 5) (open_tail-nil open_dir 5 dir.path top) (
          scan_loop-first dir sys dirs [] (no_fds 5) by_path.0
            (open_next-path closes sys.open_dir root sys.dup_fd none (no_fds 5) dir 0
                (parent_slot-none dir) refl
              ∙ by_path.1)
            by_path.2 by_path.3 top deep order holds.1)
      where
        by_path : StandsAt Refers dir.path [] (open_path sys.open_dir root sys.dup_fd dir.path)
        by_path = open_path-holds Refers root sys dir.path [] at_root holds.0 top
    scan_dirs-Scanned open_dir ((dir, sys) ∷ dirs) sound (q ∷ qs, (child, l), deep, order) holds =
        scan_dirs-tail open_dir dir sys dirs tail.0 tail.1 (
          scan_loop-first dir sys dirs (q ∷ qs) tail.0 opened.0 opened.1 opened.2 opened.3
            ((dir.basename, child), l) deep order holds.1)
      where
        tail :
            StandsBehind Refers root open_dir closes sound at_root dir_stack_size
              (q ∷ qs)
              (open_tail close_ok dir_stack_size open_dir root dir.path)
        tail =
            open_tail-holds Refers root open_dir closes sound at_root dir_stack_size
              (q ++ dir.basename) dir.path q qs child.0 ((dir.basename, child), l)

        opened :
            StandsAt Refers dir.path
              (q ∷ qs)
              (open_next close_ok sys.open_dir root sys.dup_fd none tail.0 dir)
        opened =
            open_next-holds Refers closes root sys none dir tail.0 0 q (q ∷ qs) qs at_root holds.0 l
              (parent_slot-none dir) refl child tail.2 tail.3
