-- ===== src/Mtime.antt =====
-- CheckDirMtime of src/check_dir_mtime.cc with the scope guards of src/scope_guard.h: whether the
-- file system changes the times of a directory when an entry is created in it. The answers of the
-- system calls are an argument, and the calls are recorded.
pub mod Cleanup
pub mod Whole
pub mod Capable
pub mod Answer
use gitstatus.Common.{
  Bool, List, Option, [], false, if◌then◌else◌, none, not, some, suc, true, zero, ℕ, ◌++◌, ◌∷◌,
}
use gitstatus.Common.Outcome.{Outcome, aborts, check, exits, ok, throws, verify}
use gitstatus.Index.Entry.{Stat, stat_eq}
use gitstatus.Text.{Bytes, codes}

-- The system calls, with their success where something is created.
pub data SysCall : Type 0 where
  mkdtemp : Bytes → Bool → SysCall
  mkdir : Bytes → Bool → SysCall
  lstat : Bytes → SysCall
  sleep : SysCall
  creat : Bytes → Bool → SysCall
  close_fd : SysCall
  rmdir : Bytes → SysCall
  unlink : Bytes → SysCall

-- The answers: the directory that mkdtemp makes, which calls succeed, and how often sleep is
-- interrupted before it returns 0.
pub record MtimeEnv : Type 0 where
  pub temp_dir : Option Bytes
  pub mkdir_ok : Bytes → Bool
  pub lstat_before : Bytes → Option Stat
  pub interrupts : ℕ
  pub lstat_after : Bytes → Option Stat
  pub creat_ok : Bytes → Bool
  pub close_ok : Bool

-- What a function does: the calls that it makes, and its end.
abbrev pub Traced : Type 0 → Type 0
Traced A = List SysCall × Outcome A

abbrev pub then_run : {A B : Type 0} → List SysCall → Outcome A → (A → Traced B) → Traced B
then_run l (ok a) f = (l ++ (f a).0, (f a).1)
then_run l throws f = (l, throws)
then_run l aborts f = (l, aborts)
then_run l (exits n) f = (l, exits n)

infixl 5 ◌>>=◌ ◌>>◌
abbrev pub ◌>>=◌ : {A B : Type 0} → Traced A → (A → Traced B) → Traced B
m >>= f = then_run m.0 m.1 f

abbrev pub ◌>>◌ : {B : Type 0} → Traced (Unit {0}) → Traced B → Traced B
m >> k = m >>= λ _. k

-- VERIFY of a call.
abbrev pub verify_call : SysCall → Bool → Traced (Unit {0})
verify_call c b = (c ∷ [], verify b)

abbrev pub verify_some : {A : Type 0} → SysCall → Option A → Traced A
verify_some c none = (c ∷ [], throws)
verify_some c (some a) = (c ∷ [], ok a)

-- The destructor of a scope guard runs on a return and on an exception.
unfoldable pub end_scope : {A : Type 0} → SysCall → List SysCall → Outcome A → Traced A
end_scope c l (ok a) = (l ++ c ∷ [], ok a)
end_scope c l throws = (l ++ c ∷ [], throws)
end_scope c l aborts = (l, aborts)
end_scope c l (exits n) = (l, exits n)

-- ON_SCOPE_EXIT, with the rest of the scope.
unfoldable pub on_scope_exit : {A : Type 0} → SysCall → Traced A → Traced A
unfolding end_scope
on_scope_exit c m = end_scope c m.0 m.1

-- Touch
unfoldable pub touch : MtimeEnv → Bytes → Traced (Unit {0})
touch env path = do
  verify_call (creat path (env.creat_ok path)) (env.creat_ok path)
  (close_fd ∷ [], check env.close_ok)

-- StatChanged
unfoldable pub stat_changed : MtimeEnv → Bytes → Stat → Traced Bool
stat_changed env path prev = do
  cur ← verify_some (lstat path) (env.lstat_after path)
  ([], ok (not (stat_eq prev cur)))

-- while (sleep(1))
unfoldable pub sleep_loop : ℕ → List SysCall
sleep_loop zero = sleep ∷ []
sleep_loop (suc n) = sleep ∷ sleep_loop n

-- The tests from the mkdir of `a1` on.
unfoldable pub check_times : MtimeEnv → (a_dir b_dir : Bytes) → (a_st b_st : Stat) → Traced Bool
unfolding on_scope_exit touch stat_changed
check_times env a_dir b_dir a_st b_st = do
  let a1 = a_dir ++ codes "/1"
  let b1 = b_dir ++ codes "/1"
  verify_call (mkdir a1 (env.mkdir_ok a1)) (env.mkdir_ok a1)
  on_scope_exit (rmdir a1) (do
    a_changed ← stat_changed env a_dir a_st
    if not a_changed
        then ([], ok false)
        else (do touch env b1; on_scope_exit (unlink b1) (stat_changed env b_dir b_st)))

-- The body of the try block, behind mkdtemp.
unfoldable pub check_in : MtimeEnv → Bytes → Traced Bool
unfolding on_scope_exit sleep_loop check_times
check_in env tmp = on_scope_exit (rmdir tmp) (do
  let a_dir = tmp ++ codes "/a"
  let b_dir = tmp ++ codes "/b"
  verify_call (mkdir a_dir (env.mkdir_ok a_dir)) (env.mkdir_ok a_dir)
  on_scope_exit (rmdir a_dir) (do
    a_st ← verify_some (lstat a_dir) (env.lstat_before a_dir)
    verify_call (mkdir b_dir (env.mkdir_ok b_dir)) (env.mkdir_ok b_dir)
    on_scope_exit (rmdir b_dir) (do
      b_st ← verify_some (lstat b_dir) (env.lstat_before b_dir)
      (sleep_loop env.interrupts, ok tt)
      check_times env a_dir b_dir a_st b_st)))

-- The try block. `template` is the name with XXXXXX, which mkdtemp replaces.
unfoldable pub try_check : MtimeEnv → Bytes → Traced Bool
unfolding check_in
try_check env template = elim env.temp_dir [
  | none ↦ (mkdtemp template false ∷ [], throws)
  | some tmp ↦ do (mkdtemp tmp true ∷ [], ok tt); check_in env tmp
]

-- The handler of Exception.
unfoldable pub catch_false : Outcome Bool → Outcome Bool
catch_false (ok b) = ok b
catch_false throws = ok false
catch_false aborts = aborts
catch_false (exits n) = exits n

-- CheckDirMtime
unfoldable pub check_dir_mtime : MtimeEnv → Bytes → Traced Bool
unfolding try_check catch_false
check_dir_mtime env root =
    let r = try_check env (root ++ codes ".gitstatus.XXXXXX") in (r.0, catch_false r.1)
