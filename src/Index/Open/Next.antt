-- ===== src/Index/Open/Next.antt =====
-- How ScanDirs of src/index.cc opens the next directory.
use gitstatus.Common.{
  Bool, true, List, ◌<◌, Option-cases, inl, inr, sym, take, Option, [], arith, drop, length, refl,
  some, ℕ, ◌++◌, ◌∷◌, ◌≡◌, ◌≢◌,
}
use gitstatus.Index.Dirs.{last_byte}
use gitstatus.Index.Open.{
  parent_slot, slot_fd, push_fd, fd_at, open_next, no_fds, set_first, dir_stack_size, open_path,
  Sys,
}
use gitstatus.Text.{Bytes}
use gitstatus.Index.Open.Ancestors.{IsLineage-drop, lineage-first, behind-IsName, without_slash}
use gitstatus.Index.Open.Order.{SysHolds}
use gitstatus.Index.Open.Slot.{open_next-near, open_next-path, slot_fd-some}
use gitstatus.Index.Open.Fds.{fd_at-Refers, push_fd-StackHolds}
use gitstatus.Index.Open.Lineage.{no_fds-StackHolds, IsChild, IsLineage, StackHolds}
use mathlib.Core.Option.{some-injective}
use mathlib.Core.Path.{subst}
use gitstatus.Common.Outcome.{Outcome, ok}
use gitstatus.Index.Scan.{IndexDir}

module _ {H : Type 0} (Refers : Bytes → H → Type 0) where
  abbrev pub StandsAt : Bytes → List Bytes → Outcome (List (Option H)) → Type 0
  StandsAt p ps m =
      (fds : List (Option H)) × (m ≡ ok fds)
      × StackHolds Refers (p ∷ ps) fds
      × (length fds ≡ dir_stack_size)

  pub open_path-holds :
      (root : H) (sys : Sys H) (p : Bytes) (ps : List Bytes)
      → Refers [] root
      → SysHolds Refers sys
      → IsLineage (p ∷ ps)
      → StandsAt p ps (open_path sys.open_dir root sys.dup_fd p)
  unfolding open_path
  open_path-holds root sys [] ps r holds l = (
    set_first (some holds.dups.0) (no_fds dir_stack_size),
    rw (holds.dups.1),
    (
      (λ h e. subst (Refers []) (some-injective holds.dups.0 h e) holds.dups.2),
      no_fds-StackHolds Refers 4 ps,
    ),
    refl,
  )
  open_path-holds root sys (c ∷ s) [] r holds l = absurd (cc)
  open_path-holds root sys (c ∷ s) (q ∷ ps) r holds l = (
    set_first (sys.open_dir root (take (length s) (c ∷ s))) (no_fds dir_stack_size),
    ground (arith, first, bare.0),
    (
      (λ h e.
          subst (λ z. Refers z h) (sym l.0.1.0)
            (holds.opens.named [] (q ++ l.0.0) root h r (behind-IsName q l.0.0 l.0.1.2)
              (subst (λ z. sys.open_dir root z ≡ some h) bare.1 e))),
      no_fds-StackHolds Refers 4 (q ∷ ps),
    ),
    refl,
  )
    where
      bare : (last_byte (c ∷ s) ≡ b'/') × (take (length s) (c ∷ s) ≡ q ++ l.0.0)
      bare = without_slash (c ∷ s) (q ++ l.0.0) (length s) l.0.1.0 refl

      first : c ≢ b'/'
      first = lineage-first (c ∷ s) (q ∷ ps) c s l refl

  -- Opening the next directory leaves its own descriptor first, and those above it behind.
  pub open_next-holds :
      {close_ok : H → Bool} (closes : (h : H) → close_ok h ≡ true) (root : H) (sys : Sys H)
      (prev : Option IndexDir) (dir : IndexDir) (fds : List (Option H))
      → (n : ℕ) (q : Bytes) (ps qs : List Bytes) → Refers [] root
      → SysHolds Refers sys
      → IsLineage ps
      → parent_slot prev dir ≡ some n
      → drop n ps ≡ q ∷ qs
      → IsChild q dir.path dir.basename
      → StackHolds Refers ps fds
      → length fds ≡ dir_stack_size
      → StandsAt dir.path (q ∷ qs) (open_next close_ok sys.open_dir root sys.dup_fd prev fds dir)
  open_next-holds {close_ok} closes root sys prev dir fds n q ps qs r holds l slot e child stack
        five =
      elim (Option-cases (slot_fd n fds)) [
        | inl g ↦
            subst (StandsAt dir.path (q ∷ qs))
              (sym (open_next-path closes sys.open_dir root sys.dup_fd prev fds dir n slot g))
              by_path
        | inr (h, g) ↦
            let moved = near_holds h (slot_fd-some n fds h g).0 (slot_fd-some n fds h g).1 in
            (
              push_fd n (sys.open_dir h dir.basename) fds,
              open_next-near closes sys.open_dir root sys.dup_fd prev fds dir n h slot g,
              moved.0,
              moved.1,
            )
      ]
    where
      lineage : IsLineage (dir.path ∷ q ∷ qs)
      lineage = ((dir.basename, child), IsLineage-drop n ps qs q l e)

      by_path : StandsAt dir.path (q ∷ qs) (open_path sys.open_dir root sys.dup_fd dir.path)
      by_path = open_path-holds root sys dir.path (q ∷ qs) r holds lineage

      here :
          (h h' : H)
          → fd_at fds n ≡ some h
          → sys.open_dir h dir.basename ≡ some h'
          → Refers dir.path h'
      here h h' f o =
          subst (λ z. Refers z h') (sym child.0)
            (holds.opens.named q dir.basename h h' (fd_at-Refers Refers n ps qs q fds h stack e f)
              child.2 o)

      near_holds :
          (h : H)
          → n < dir_stack_size
          → fd_at fds n ≡ some h
          → StackHolds Refers (dir.path ∷ q ∷ qs) (push_fd n (sys.open_dir h dir.basename) fds)
            × (length (push_fd n (sys.open_dir h dir.basename) fds) ≡ dir_stack_size)
      near_holds h k f =
          subst
            (λ z.
              StackHolds Refers (dir.path ∷ z) (push_fd n (sys.open_dir h dir.basename) fds)
              × (length (push_fd n (sys.open_dir h dir.basename) fds) ≡ dir_stack_size))
            e
            (push_fd-StackHolds Refers n (sys.open_dir h dir.basename) dir.path ps fds k five
              (λ h' o. here h h' f o) stack)
