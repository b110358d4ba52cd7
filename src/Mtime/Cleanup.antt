-- ===== src/Mtime/Cleanup.antt =====
-- What CheckDirMtime of src/check_dir_mtime.cc leaves in the file system.
use gitstatus.Common.{
  if◌then◌else◌, not, suc, zero, ℕ, Bool, List, Option, [], false, none, refl, some, sym, true,
  ◌++◌, ◌∷◌, ◌≡◌,
}
use gitstatus.Common.Outcome.{check, Outcome, aborts, exits, ok, throws}
use mathlib.Core.Path.{subst}
use gitstatus.Mtime.{
  SysCall, mkdtemp, mkdir, lstat, sleep, creat, close_fd, rmdir, unlink, MtimeEnv, Traced, ◌>>◌,
  then_run, verify_call, verify_some, end_scope, on_scope_exit, touch, stat_changed, sleep_loop,
  check_times,
}
use gitstatus.Index.Entry.{Stat}
use gitstatus.Text.{Bytes, codes}

-- What a call has created.
pub data Made : Type 0 where
  directory : Bytes → Made
  regular : Bytes → Made

-- The calls, where `made` is what there is before them, the last one first, and `left` what there is after
-- them. What is removed is what was created last, so that a removed directory is empty.
abbrev pub Undone : (made : List Made) (calls : List SysCall) (left : List Made) → Type 0
Undone made [] left = made ≡ left
Undone made (mkdtemp p true ∷ cs) left = Undone (directory p ∷ made) cs left
Undone made (mkdir p true ∷ cs) left = Undone (directory p ∷ made) cs left
Undone made (creat p true ∷ cs) left = Undone (regular p ∷ made) cs left
Undone made (mkdtemp p false ∷ cs) left = Undone made cs left
Undone made (mkdir p false ∷ cs) left = Undone made cs left
Undone made (creat p false ∷ cs) left = Undone made cs left
Undone made (lstat p ∷ cs) left = Undone made cs left
Undone made (sleep ∷ cs) left = Undone made cs left
Undone made (close_fd ∷ cs) left = Undone made cs left
Undone [] (rmdir p ∷ cs) left = ⊥
Undone (m ∷ made) (rmdir p ∷ cs) left = (m ≡ directory p) × Undone made cs left
Undone [] (unlink p ∷ cs) left = ⊥
Undone (m ∷ made) (unlink p ∷ cs) left = (m ≡ regular p) × Undone made cs left

Undone-append :
    (cs ds : List SysCall) (made mid left : List Made)
    → Undone made cs mid
    → Undone mid ds left
    → Undone made (cs ++ ds) left
Undone-append [] ds made mid left e k = subst (λ (m : List Made). Undone m ds left) (sym e) k
Undone-append (mkdtemp p true ∷ cs) ds made mid left h k =
    Undone-append cs ds (directory p ∷ made) mid left h k
Undone-append (mkdir p true ∷ cs) ds made mid left h k =
    Undone-append cs ds (directory p ∷ made) mid left h k
Undone-append (creat p true ∷ cs) ds made mid left h k =
    Undone-append cs ds (regular p ∷ made) mid left h k
Undone-append (mkdtemp p false ∷ cs) ds made mid left h k = Undone-append cs ds made mid left h k
Undone-append (mkdir p false ∷ cs) ds made mid left h k = Undone-append cs ds made mid left h k
Undone-append (creat p false ∷ cs) ds made mid left h k = Undone-append cs ds made mid left h k
Undone-append (lstat p ∷ cs) ds made mid left h k = Undone-append cs ds made mid left h k
Undone-append (sleep ∷ cs) ds made mid left h k = Undone-append cs ds made mid left h k
Undone-append (close_fd ∷ cs) ds made mid left h k = Undone-append cs ds made mid left h k
Undone-append (rmdir p ∷ cs) ds [] mid left h k = absurd h
Undone-append (rmdir p ∷ cs) ds (m ∷ made) mid left h k =
    (h.0, Undone-append cs ds made mid left h.1 k)
Undone-append (unlink p ∷ cs) ds [] mid left h k = absurd h
Undone-append (unlink p ∷ cs) ds (m ∷ made) mid left h k =
    (h.0, Undone-append cs ds made mid left h.1 k)

module _ (env : MtimeEnv) where
  -- A return and an exception leave nothing behind. The process aborts only if close fails.
  abbrev pub IsClean : {A : Type 0} → List SysCall → Outcome A → Type 0
  IsClean l (ok a) = (made : List Made) → Undone made l made
  IsClean l throws = (made : List Made) → Undone made l made
  IsClean l aborts = env.close_ok ≡ false
  IsClean l (exits n) = ⊥

  pub then_clean :
      {A : Type 0} (l ds : List SysCall) (r : Outcome A)
      → ((made : List Made) → Undone made l made)
      → IsClean ds r
      → IsClean (l ++ ds) r
  then_clean l ds (ok a) h k = λ made. Undone-append l ds made made made (h made) (k made)
  then_clean l ds throws h k = λ made. Undone-append l ds made made made (h made) (k made)
  then_clean l ds aborts h k = k
  then_clean l ds (exits n) h k = k

  pub then_run-IsClean :
      {A B : Type 0} (l : List SysCall) (m : Outcome A) (f : A → Traced B)
      → IsClean l m
      → ((a : A) → IsClean (f a).0 (f a).1)
      → IsClean (then_run l m f).0 (then_run l m f).1
  then_run-IsClean l (ok a) f h k = then_clean l (f a).0 (f a).1 h (k a)
  then_run-IsClean l throws f h k = h
  then_run-IsClean l aborts f h k = h
  then_run-IsClean l (exits n) f h k = h

  -- A scope whose guard removes what was created in front of it.
  module _ (p : Made) (remove : SysCall)
      (closes : (made : List Made) → Undone (p ∷ made) (remove ∷ []) made) where
    abbrev pub IsScope : {A : Type 0} → List SysCall → Outcome A → Type 0
    IsScope l (ok a) = (made : List Made) → Undone (p ∷ made) l made
    IsScope l throws = (made : List Made) → Undone (p ∷ made) l made
    IsScope l aborts = env.close_ok ≡ false
    IsScope l (exits n) = ⊥

    pub end_scope-IsScope :
        {A : Type 0} (l : List SysCall) (r : Outcome A)
        → IsClean l r
        → IsScope (end_scope remove l r).0 (end_scope remove l r).1
    unfolding end_scope
    end_scope-IsScope l (ok a) h = λ made.
        Undone-append l (remove ∷ []) (p ∷ made) (p ∷ made) made (h (p ∷ made)) (closes made)
    end_scope-IsScope l throws h = λ made.
        Undone-append l (remove ∷ []) (p ∷ made) (p ∷ made) made (h (p ∷ made)) (closes made)
    end_scope-IsScope l aborts h = h
    end_scope-IsScope l (exits n) h = h

    pub opened :
        {A : Type 0} (cs l : List SysCall) (r : Outcome A)
        → ((made left : List Made) → Undone (p ∷ made) l left → Undone made (cs ++ l) left)
        → IsScope l r
        → IsClean (cs ++ l) r
    opened cs l (ok a) opens h = λ made. opens made made (h made)
    opened cs l throws opens h = λ made. opens made made (h made)
    opened cs l aborts opens h = h
    opened cs l (exits n) opens h = h

  pub verify_some-IsClean :
      {A : Type 0} (c : SysCall) (o : Option A)
      → ((made : List Made) → Undone made (c ∷ []) made)
      → IsClean (verify_some c o).0 (verify_some c o).1
  verify_some-IsClean c none h = h
  verify_some-IsClean c (some a) h = h

  -- mkdir with the guard behind it.
  pub dir_scope-IsClean :
      {A : Type 0} (p : Bytes) (b : Bool) (m : Traced A)
      → IsClean m.0 m.1
      → let r = verify_call (mkdir p b) b >> on_scope_exit (rmdir p) m in IsClean r.0 r.1
  unfolding on_scope_exit
  dir_scope-IsClean p false m h = λ made. refl
  dir_scope-IsClean p true m h =
      let scope = end_scope-IsScope (directory p) (rmdir p) (λ made. (refl, refl)) m.0 m.1 h in
      opened (directory p) (rmdir p) (λ made. (refl, refl)) (mkdir p true ∷ [])
        (end_scope (rmdir p) m.0 m.1).0 (end_scope (rmdir p) m.0 m.1).1 (λ made left u. u) scope

  stat_changed-IsClean :
      (path : Bytes) (prev : Stat) → let r = stat_changed env path prev in IsClean r.0 r.1
  unfolding stat_changed
  stat_changed-IsClean path prev =
      then_run-IsClean _ _ _
        (verify_some-IsClean (lstat path) (env.lstat_after path) (λ made. refl)) (λ a made. refl)

  -- Touch with the guard behind it.
  opened_file :
      {A : Type 0} (p : Bytes) (b c : Bool) (m : Traced A)
      → env.close_ok ≡ c
      → IsClean m.0 m.1
      → let r =
          (verify_call (creat p b) b >> (close_fd ∷ [], check c)) >> on_scope_exit (unlink p) m in
        IsClean r.0 r.1
  unfolding on_scope_exit
  opened_file p false c m e h = λ made. refl
  opened_file p true false m e h = e
  opened_file p true true m e h =
      let closes : (made : List Made) → Undone (regular p ∷ made) (unlink p ∷ []) made =
        λ made. (refl, refl) in
      let scope = end_scope-IsScope (regular p) (unlink p) closes m.0 m.1 h in
      opened (regular p) (unlink p) closes (creat p true ∷ close_fd ∷ [])
        (end_scope (unlink p) m.0 m.1).0 (end_scope (unlink p) m.0 m.1).1 (λ made left u. u) scope

  file_scope-IsClean :
      {A : Type 0} (p : Bytes) (m : Traced A)
      → IsClean m.0 m.1
      → let r = touch env p >> on_scope_exit (unlink p) m in IsClean r.0 r.1
  unfolding touch
  file_scope-IsClean p m h = opened_file p (env.creat_ok p) env.close_ok m refl h

  pub sleep_loop-Undone : (n : ℕ) (made : List Made) → Undone made (sleep_loop n) made
  unfolding sleep_loop
  sleep_loop-Undone zero made = refl
  sleep_loop-Undone (suc n) made = sleep_loop-Undone n made

  second_test-IsClean :
      (b : Bool) (b_dir b1 : Bytes) (b_st : Stat)
      → let r : Traced Bool =
          if not b
          then ([], ok false)
          else (touch env b1 >> on_scope_exit (unlink b1) (stat_changed env b_dir b_st)) in
        IsClean r.0 r.1
  second_test-IsClean false b_dir b1 b_st = λ made. refl
  second_test-IsClean true b_dir b1 b_st = file_scope-IsClean b1 _ (stat_changed-IsClean b_dir b_st)

  pub check_times-IsClean :
      (a_dir b_dir : Bytes) (a_st b_st : Stat)
      → let r = check_times env a_dir b_dir a_st b_st in IsClean r.0 r.1
  unfolding check_times
  check_times-IsClean a_dir b_dir a_st b_st =
      let a1 = a_dir ++ codes "/1" in
      let b1 = b_dir ++ codes "/1" in
      dir_scope-IsClean a1 (env.mkdir_ok a1) _ (
        then_run-IsClean (stat_changed env a_dir a_st).0 (stat_changed env a_dir a_st).1 _
          (stat_changed-IsClean a_dir a_st) (λ b. second_test-IsClean b b_dir b1 b_st))
