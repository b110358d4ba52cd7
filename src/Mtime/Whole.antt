-- ===== src/Mtime/Whole.antt =====
-- CheckDirMtime of src/check_dir_mtime.cc as a whole: what is left in the file system at its end.
use gitstatus.Common.{Bool, List, Option-cases, [], false, inl, inr, refl, true, ◌++◌, ◌∷◌, ◌≡◌}
use gitstatus.Common.Outcome.{Outcome, ok, throws, aborts, exits}
use gitstatus.Index.Entry.{Stat}
use gitstatus.Mtime.{
  SysCall, mkdtemp, lstat, rmdir, MtimeEnv, on_scope_exit, sleep_loop, check_times, check_in,
  try_check, catch_false, check_dir_mtime,
}
use gitstatus.Mtime.Cleanup.{
  directory, Undone, IsClean, IsScope, dir_scope-IsClean, then_run-IsClean, check_times-IsClean,
  sleep_loop-Undone, verify_some-IsClean, end_scope-IsScope, opened, then_clean,
}
use gitstatus.Text.{Bytes, codes}

module _ (env : MtimeEnv) where
  slept-IsClean :
      (a_dir b_dir : Bytes) (a_st b_st : Stat)
      → let r = check_times env a_dir b_dir a_st b_st in
        IsClean env (sleep_loop env.interrupts ++ r.0) r.1
  slept-IsClean a_dir b_dir a_st b_st =
      let r = check_times env a_dir b_dir a_st b_st in
      then_clean env (sleep_loop env.interrupts) r.0 r.1 (sleep_loop-Undone env env.interrupts)
        (check_times-IsClean env a_dir b_dir a_st b_st)

  check_in-IsScope :
      (tmp : Bytes)
      → let r = check_in env tmp in
        IsScope env (directory tmp) (rmdir tmp) (λ made. (refl, refl)) r.0 r.1
  unfolding check_in on_scope_exit
  check_in-IsScope tmp =
      let a_dir = tmp ++ codes "/a" in
      let b_dir = tmp ++ codes "/b" in
      end_scope-IsScope env (directory tmp) (rmdir tmp) (λ made. (refl, refl)) _ _
        (dir_scope-IsClean env a_dir (env.mkdir_ok a_dir) _ (
          then_run-IsClean env _ _ _
            (verify_some-IsClean env (lstat a_dir) (env.lstat_before a_dir) (λ made. refl))
            (λ a_st. dir_scope-IsClean env b_dir (env.mkdir_ok b_dir) _ (
              then_run-IsClean env _ _ _
                (verify_some-IsClean env (lstat b_dir) (env.lstat_before b_dir) (λ made. refl))
                (λ b_st. slept-IsClean a_dir b_dir a_st b_st)))))

  try_check-IsClean : (template : Bytes) → let r = try_check env template in IsClean env r.0 r.1
  unfolding try_check
  try_check-IsClean template = elim (Option-cases env.temp_dir) [
    | inl e ↦ rw e (λ made. refl)
    | inr (tmp, e) ↦ rw e (
        opened env (directory tmp) (rmdir tmp) (λ made. (refl, refl)) (mkdtemp tmp true ∷ [])
          (check_in env tmp).0 (check_in env tmp).1 (λ made left u. u) (check_in-IsScope tmp))
  ]

  -- How CheckDirMtime ends: nothing is left, or it aborts at close.
  abbrev pub IsUndone : List SysCall → Outcome Bool → Type 0
  IsUndone l (ok b) = Undone [] l []
  IsUndone l throws = ⊥
  IsUndone l aborts = env.close_ok ≡ false
  IsUndone l (exits n) = ⊥

  caught : (l : List SysCall) (r : Outcome Bool) → IsClean env l r → IsUndone l (catch_false r)
  unfolding catch_false
  caught l (ok b) h = h []
  caught l throws h = h []
  caught l aborts h = h
  caught l (exits n) h = absurd h

  -- Whatever the system calls answer, CheckDirMtime either returns, and has then removed each
  -- directory and file that it created, the last one first, or it aborts, and then close has failed.
  -- It does not throw.
  pub check_dir_mtime-IsUndone :
      (root : Bytes) → let r = check_dir_mtime env root in IsUndone r.0 r.1
  unfolding check_dir_mtime
  check_dir_mtime-IsUndone root =
      let template = root ++ codes ".gitstatus.XXXXXX" in
      caught (try_check env template).0 (try_check env template).1 (try_check-IsClean template)
