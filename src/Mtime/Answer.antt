-- ===== src/Mtime/Answer.antt =====
-- The answer of CheckDirMtime of src/check_dir_mtime.cc.
use gitstatus.Common.{
  ap, none, refl, some, sym, ◌++◌, ◌∙◌, ◌≢◌, Bool, Option-cases, inl, inr, true, ◌↔◌, ◌≡◌,
}
use gitstatus.Common.Outcome.{Outcome, ok, throws, aborts, exits}
use gitstatus.Index.Entry.{Stat}
use gitstatus.Mtime.{
  MtimeEnv, touch, stat_changed, check_times, check_in, try_check, catch_false, check_dir_mtime,
}
use gitstatus.Mtime.Capable.{IsCapable, IsChanged, on_scope_exit_result, check_in_ok}
use gitstatus.Text.{Bytes, codes}

catch_true : (r : Outcome Bool) → catch_false r ≡ ok true → r ≡ ok true
unfolding catch_false
catch_true (ok b) e = e
catch_true throws e = cc
catch_true aborts e = cc
catch_true (exits n) e = cc

catch_ok : (b : Bool) → catch_false (ok b) ≡ ok b
unfolding catch_false
catch_ok b = refl

module _ (env : MtimeEnv) where
  check_times-true :
      (a_dir b_dir : Bytes) (a_st b_st : Stat)
      → IsChanged env a_dir b_dir a_st b_st
      → (check_times env a_dir b_dir a_st b_st).1 ≡ ok true
  unfolding check_times stat_changed touch
  check_times-true a_dir b_dir a_st b_st h = rw (
    h.a1_made, on_scope_exit_result, h.a_after, h.a_differs, h.b1_made, h.b1_closed,
    on_scope_exit_result, h.b_after, h.b_differs,
  )

  check_in-true : (c : IsCapable env) → (check_in env c.tmp).1 ≡ ok true
  unfolding check_in
  check_in-true c =
      rw
        (
          on_scope_exit_result, c.a_made, on_scope_exit_result, c.a_before, c.b_made,
          on_scope_exit_result, c.b_before,
        )
        (check_times-true _ _ c.a_st c.b_st c.changed)

  try_check-some :
      (template tmp : Bytes)
      → env.temp_dir ≡ some tmp
      → (try_check env template).1 ≡ (check_in env tmp).1
  unfolding try_check
  try_check-some template tmp s = rw s

  none_throws : (template : Bytes) → env.temp_dir ≡ none → (try_check env template).1 ≢ ok true
  unfolding try_check
  none_throws template n e = let q : ◌≡◌ {A = Outcome Bool} throws (ok true) = rw n at e in cc

  try_check_ok : (template : Bytes) → (try_check env template).1 ≡ ok true → IsCapable env
  try_check_ok template e = elim (Option-cases env.temp_dir) [
    | inl n ↦ absurd (none_throws template n e)
    | inr (tmp, s) ↦ check_in_ok env tmp s (sym (try_check-some template tmp s) ∙ e)
  ]

  -- CheckDirMtime returns true exactly if all system calls succeed and each of the two directories
  -- has other stat data after an entry was created in it than before.
  pub check_dir_mtime_iff :
      (root : Bytes) → ((check_dir_mtime env root).1 ≡ ok true) ↔ IsCapable env
  unfolding check_dir_mtime
  check_dir_mtime_iff root =
      let template = root ++ codes ".gitstatus.XXXXXX" in
      (
        λ e. try_check_ok template (catch_true (try_check env template).1 e),
        λ c.
            let r = try_check-some template c.tmp c.temp_made ∙ check_in-true c in
            ap catch_false r ∙ catch_ok true,
      )
