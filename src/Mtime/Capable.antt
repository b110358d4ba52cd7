-- ===== src/Mtime/Capable.antt =====
-- When CheckDirMtime of src/check_dir_mtime.cc answers yes.
use gitstatus.Common.{
  [], if◌then◌else◌, ◌∷◌, Bool, List, Option, false, none, not, refl, some, sym, true, ◌++◌, ◌∙◌,
  ◌≡◌,
}
use gitstatus.Common.Outcome.{Outcome, check, verify, ok, throws, aborts, exits}
use gitstatus.Mtime.{
  SysCall, mkdir, lstat, creat, close_fd, rmdir, unlink, MtimeEnv, Traced, ◌>>◌, then_run,
  verify_some, end_scope, on_scope_exit, touch, stat_changed, check_times, check_in,
}
use gitstatus.Index.Entry.{Stat, stat_eq}
use gitstatus.Text.{Bytes, codes}

-- The tests from the mkdir of `a1` on succeed.
pub record IsChanged (env : MtimeEnv) (a_dir b_dir : Bytes) (a_st b_st : Stat) : Type 0 where
  pub a_cur : Stat
  pub b_cur : Stat
  pub a1_made : env.mkdir_ok (a_dir ++ codes "/1") ≡ true
  pub a_after : env.lstat_after a_dir ≡ some a_cur
  pub a_differs : stat_eq a_st a_cur ≡ false
  pub b1_made : env.creat_ok (b_dir ++ codes "/1") ≡ true
  pub b1_closed : env.close_ok ≡ true
  pub b_after : env.lstat_after b_dir ≡ some b_cur
  pub b_differs : stat_eq b_st b_cur ≡ false

-- All calls succeed, and the times of both directories change.
pub record IsCapable (env : MtimeEnv) : Type 0 where
  pub tmp : Bytes
  pub a_st : Stat
  pub b_st : Stat
  pub temp_made : env.temp_dir ≡ some tmp
  pub a_made : env.mkdir_ok (tmp ++ codes "/a") ≡ true
  pub a_before : env.lstat_before (tmp ++ codes "/a") ≡ some a_st
  pub b_made : env.mkdir_ok (tmp ++ codes "/b") ≡ true
  pub b_before : env.lstat_before (tmp ++ codes "/b") ≡ some b_st
  pub changed : IsChanged env (tmp ++ codes "/a") (tmp ++ codes "/b") a_st b_st

pub then_run_ok :
    {A B : Type 0} (l : List SysCall) (m : Outcome A) (f : A → Traced B) {b : B}
    → (then_run l m f).1 ≡ ok b
    → (a : A) × (m ≡ ok a) × ((f a).1 ≡ ok b)
then_run_ok l (ok a) f e = (a, refl, e)
then_run_ok l throws f e = cc
then_run_ok l aborts f e = cc
then_run_ok l (exits n) f e = cc

end_scope_result :
    {A : Type 0} (c : SysCall) (l : List SysCall) (r : Outcome A) → (end_scope c l r).1 ≡ r
unfolding end_scope
end_scope_result c l (ok a) = refl
end_scope_result c l throws = refl
end_scope_result c l aborts = refl
end_scope_result c l (exits n) = refl

on_scope_exit_ok :
    {A : Type 0} (c : SysCall) (m : Traced A) {a : A} → (on_scope_exit c m).1 ≡ ok a → m.1 ≡ ok a
unfolding on_scope_exit
on_scope_exit_ok c m e = sym (end_scope_result c m.0 m.1) ∙ e

pub on_scope_exit_result : {A : Type 0} (c : SysCall) (m : Traced A) → (on_scope_exit c m).1 ≡ m.1
unfolding on_scope_exit
on_scope_exit_result c m = end_scope_result c m.0 m.1

verify_ok : (b : Bool) {u : Unit {0}} → verify b ≡ ok u → b ≡ true
verify_ok true e = refl
verify_ok false e = cc

check_ok : (b : Bool) {u : Unit {0}} → check b ≡ ok u → b ≡ true
check_ok true e = refl
check_ok false e = cc

verify_some_ok :
    {A : Type 0} (c : SysCall) (o : Option A) {a : A} → (verify_some c o).1 ≡ ok a → o ≡ some a
verify_some_ok c none e = cc
verify_some_ok c (some b) e = cc

changed_of : (b c : Bool) → ◌≡◌ {A = Outcome Bool} (ok b) (ok c) → b ≡ c
changed_of b c e = cc

not-false : (b : Bool) → not b ≡ true → b ≡ false
not-false true e = cc
not-false false e = refl

module _ (env : MtimeEnv) where
  stat_changed_ok :
      (path : Bytes) (prev : Stat) {b : Bool}
      → (stat_changed env path prev).1 ≡ ok b
      → (cur : Stat) × (env.lstat_after path ≡ some cur) × (not (stat_eq prev cur) ≡ b)
  unfolding stat_changed
  stat_changed_ok path prev e =
      let h = then_run_ok _ _ _ e in
      (h.0, verify_some_ok (lstat path) (env.lstat_after path) h.1, changed_of _ _ h.2)

  touch_ok :
      (path : Bytes) {u : Unit {0}}
      → (touch env path).1 ≡ ok u
      → (env.creat_ok path ≡ true) × (env.close_ok ≡ true)
  unfolding touch
  touch_ok path e =
      let h =
        then_run_ok (creat path (env.creat_ok path) ∷ []) (verify (env.creat_ok path))
          (λ x. (close_fd ∷ [], check env.close_ok)) e in
      (verify_ok _ h.1, check_ok _ h.2)

  second_ok :
      (b : Bool) (b_dir b1 : Bytes) (b_st : Stat)
      → (if not b
          then ([], ok false)
          else (touch env b1 >> on_scope_exit (unlink b1) (stat_changed env b_dir b_st))).1
        ≡ ok true
      → (b ≡ true) × ((touch env b1).1 ≡ ok tt) × ((stat_changed env b_dir b_st).1 ≡ ok true)
  second_ok false b_dir b1 b_st e = absurd (cc)
  second_ok true b_dir b1 b_st e =
      let h =
        then_run_ok (touch env b1).0 (touch env b1).1
          (λ x. on_scope_exit (unlink b1) (stat_changed env b_dir b_st)) e in
      (refl, h.1, on_scope_exit_ok (unlink b1) (stat_changed env b_dir b_st) h.2)

  check_times_ok :
      (a_dir b_dir : Bytes) (a_st b_st : Stat)
      → (check_times env a_dir b_dir a_st b_st).1 ≡ ok true
      → IsChanged env a_dir b_dir a_st b_st
  unfolding check_times
  check_times_ok a_dir b_dir a_st b_st e =
      let a1 = a_dir ++ codes "/1" in
      let b1 = b_dir ++ codes "/1" in
      let first = then_run_ok (mkdir a1 (env.mkdir_ok a1) ∷ []) (verify (env.mkdir_ok a1)) _ e in
      let inner = on_scope_exit_ok (rmdir a1) _ first.2 in
      let a_test =
        then_run_ok (stat_changed env a_dir a_st).0 (stat_changed env a_dir a_st).1 _ inner in
      let second = second_ok a_test.0 b_dir b1 b_st a_test.2 in
      let a_h = stat_changed_ok a_dir a_st a_test.1 in
      let t = touch_ok b1 second.1 in
      let b_h = stat_changed_ok b_dir b_st second.2 in
      record {
        a_cur = a_h.0;
        b_cur = b_h.0;
        a1_made = verify_ok (env.mkdir_ok a1) first.1;
        a_after = a_h.1;
        a_differs = not-false _ (a_h.2 ∙ second.0);
        b1_made = t.0;
        b1_closed = t.1;
        b_after = b_h.1;
        b_differs = not-false _ b_h.2;
      }

  pub check_in_ok :
      (tmp : Bytes) → env.temp_dir ≡ some tmp → (check_in env tmp).1 ≡ ok true → IsCapable env
  unfolding check_in
  check_in_ok tmp at e =
      let a_dir = tmp ++ codes "/a" in
      let b_dir = tmp ++ codes "/b" in
      let body = on_scope_exit_ok (rmdir tmp) _ e in
      let a_dir_made =
        then_run_ok (mkdir a_dir (env.mkdir_ok a_dir) ∷ []) (verify (env.mkdir_ok a_dir)) _ body in
      let a_stat =
        then_run_ok _ (verify_some (lstat a_dir) (env.lstat_before a_dir)).1 _
          (on_scope_exit_ok (rmdir a_dir) _ a_dir_made.2) in
      let b_dir_made =
        then_run_ok (mkdir b_dir (env.mkdir_ok b_dir) ∷ []) (verify (env.mkdir_ok b_dir)) _
          a_stat.2 in
      let b_stat =
        then_run_ok _ (verify_some (lstat b_dir) (env.lstat_before b_dir)).1 _
          (on_scope_exit_ok (rmdir b_dir) _ b_dir_made.2) in
      record {
        tmp = tmp;
        a_st = a_stat.0;
        b_st = b_stat.0;
        temp_made = at;
        a_made = verify_ok (env.mkdir_ok a_dir) a_dir_made.1;
        a_before = verify_some_ok (lstat a_dir) (env.lstat_before a_dir) a_stat.1;
        b_made = verify_ok (env.mkdir_ok b_dir) b_dir_made.1;
        b_before = verify_some_ok (lstat b_dir) (env.lstat_before b_dir) b_stat.1;
        changed = check_times_ok a_dir b_dir a_stat.0 b_stat.0 b_stat.2;
      }
