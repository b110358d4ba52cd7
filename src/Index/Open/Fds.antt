-- ===== src/Index/Open/Fds.antt =====
-- The descriptors that ScanDirs of src/index.cc keeps, when it opens a directory.
use gitstatus.Common.{
  List, Option, [], arith, drop, length, refl, some, suc, take, zero, ℕ, ◌++◌, ◌<◌, ◌∷◌, ◌≡◌,
}
use gitstatus.Index.Open.{dir_stack_size, fd_at, no_fds, push_fd}
use gitstatus.Index.Open.Lineage.{no_fds-StackHolds, StackHolds}
use gitstatus.Text.{Bytes}
use mathlib.Core.Path.{subst}

module _ {H : Type 0} (Refers : Bytes → H → Type 0) where
  StackHolds-nil : (ps : List Bytes) → StackHolds Refers ps []
  StackHolds-nil [] = tt
  StackHolds-nil (p ∷ ps) = tt

  StackHolds-drop :
      (d : ℕ) (ps : List Bytes) (fds : List (Option H))
      → StackHolds Refers ps fds
      → StackHolds Refers (drop d ps) (drop d fds)
  StackHolds-drop zero ps fds h = h
  StackHolds-drop (suc d) [] [] h = tt
  StackHolds-drop (suc d) [] (x ∷ fds) h = nothing-drop d fds h.1
    where
      nothing-drop :
          (d : ℕ) (fds : List (Option H))
          → StackHolds Refers [] fds
          → StackHolds Refers [] (drop d fds)
      nothing-drop zero fds h = h
      nothing-drop (suc d) [] h = tt
      nothing-drop (suc d) (x ∷ fds) h = nothing-drop d fds h.1
  StackHolds-drop (suc d) (p ∷ ps) [] h = StackHolds-nil (drop d ps)
  StackHolds-drop (suc d) (p ∷ ps) (x ∷ fds) h = StackHolds-drop d ps fds h.1

  StackHolds-append :
      (ps : List Bytes) (fds : List (Option H)) (n : ℕ)
      → StackHolds Refers ps fds
      → StackHolds Refers ps (fds ++ no_fds n)
  StackHolds-append ps [] n h = no_fds-StackHolds Refers n ps
  StackHolds-append [] (x ∷ fds) n h = (h.0, StackHolds-append [] fds n h.1)
  StackHolds-append (p ∷ ps) (x ∷ fds) n h = (h.0, StackHolds-append ps fds n h.1)

  StackHolds-take :
      (n : ℕ) (ps : List Bytes) (fds : List (Option H))
      → StackHolds Refers ps fds
      → StackHolds Refers ps (take n fds)
  StackHolds-take zero ps fds h = StackHolds-nil ps
  StackHolds-take (suc n) ps [] h = StackHolds-nil ps
  StackHolds-take (suc n) [] (x ∷ fds) h = (h.0, StackHolds-take n [] fds h.1)
  StackHolds-take (suc n) (p ∷ ps) (x ∷ fds) h = (h.0, StackHolds-take n ps fds h.1)

  -- A descriptor of the stack is open at the directory in its place.
  pub fd_at-Refers :
      (d : ℕ) (ps qs : List Bytes) (q : Bytes) (fds : List (Option H)) (h : H)
      → StackHolds Refers ps fds
      → drop d ps ≡ q ∷ qs
      → fd_at fds d ≡ some h
      → Refers q h
  fd_at-Refers d [] qs q [] h holds e f = cc
  fd_at-Refers d (p ∷ ps) qs q [] h holds e f = cc
  fd_at-Refers zero [] qs q (x ∷ fds) h holds e f = cc
  fd_at-Refers (suc d) [] qs q (x ∷ fds) h holds e f = cc
  fd_at-Refers zero (p ∷ ps) qs q (x ∷ fds) h holds e f =
      subst (λ z. Refers z h) (ground arith) (holds.0 h f)
  fd_at-Refers (suc d) (p ∷ ps) qs q (x ∷ fds) h holds e f =
      fd_at-Refers d ps qs q fds h holds.1 e f

  -- The stack after the branch that opens from a descriptor of the stack.
  pub push_fd-StackHolds :
      (d : ℕ) (fd : Option H) (p : Bytes) (ps : List Bytes) (fds : List (Option H))
      → d < dir_stack_size
      → length fds ≡ dir_stack_size
      → ((h : H) → fd ≡ some h → Refers p h)
      → StackHolds Refers ps fds
      → StackHolds Refers (p ∷ drop d ps) (push_fd d fd fds)
        × (length (push_fd d fd fds) ≡ dir_stack_size)
  unfolding push_fd
  push_fd-StackHolds d fd p ps [] k l here h = absurd (omega arith)
  push_fd-StackHolds d fd p ps (x ∷ []) k l here h = absurd (omega arith)
  push_fd-StackHolds d fd p ps (x ∷ y ∷ []) k l here h = absurd (omega arith)
  push_fd-StackHolds d fd p ps (x ∷ y ∷ z ∷ []) k l here h = absurd (omega arith)
  push_fd-StackHolds d fd p ps (x ∷ y ∷ z ∷ u ∷ []) k l here h = absurd (omega arith)
  push_fd-StackHolds d fd p ps (x ∷ y ∷ z ∷ u ∷ v ∷ w ∷ fds) k l here h = absurd (omega arith)
  push_fd-StackHolds zero fd p ps (x ∷ y ∷ z ∷ u ∷ v ∷ []) k l here h =
      ((here, StackHolds-take 4 ps _ h), refl)
  push_fd-StackHolds (suc zero) fd p ps (x ∷ y ∷ z ∷ u ∷ v ∷ []) k l here h =
      ((here, StackHolds-append _ _ 0 (StackHolds-drop 1 ps _ h)), refl)
  push_fd-StackHolds (suc (suc zero)) fd p ps (x ∷ y ∷ z ∷ u ∷ v ∷ []) k l here h =
      ((here, StackHolds-append _ _ 1 (StackHolds-drop 2 ps _ h)), refl)
  push_fd-StackHolds (suc (suc (suc zero))) fd p ps (x ∷ y ∷ z ∷ u ∷ v ∷ []) k l here h =
      ((here, StackHolds-append _ _ 2 (StackHolds-drop 3 ps _ h)), refl)
  push_fd-StackHolds (suc (suc (suc (suc zero)))) fd p ps (x ∷ y ∷ z ∷ u ∷ v ∷ []) k l here h =
      ((here, StackHolds-append _ _ 3 (StackHolds-drop 4 ps _ h)), refl)
  push_fd-StackHolds (suc (suc (suc (suc (suc d))))) fd p ps (x ∷ y ∷ z ∷ u ∷ v ∷ []) k l here h =
      absurd (omega arith)
