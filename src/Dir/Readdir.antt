-- ===== src/Dir/Readdir.antt =====
-- ListDir of src/dir.cc for systems other than Linux, over the answers of dup, fdopendir, readdir,
-- close and closedir.
pub mod Same
use gitstatus.Common.{Bool, List, [], false, if◌then◌else◌, true}
use gitstatus.Common.Outcome.{Outcome, ok, check, verify, ◌>>=◌, ◌>>◌}
use gitstatus.Dir.{keep_entries}
use gitstatus.Text.{Bytes}
use gitstatus.Text.Sort.{str_sort}

-- The answers: which calls succeed, the names that readdir gives, and whether errno is set when it
-- gives no more.
pub record ReaddirEnv : Type 0 where
  pub dup_ok : Bool
  pub fdopendir_ok : Bool
  pub close_ok : Bool
  pub d_names : List Bytes
  pub is_error : Bool
  pub closedir_ok : Bool

-- `return -1`, in a function that returns a bool, returns true.
abbrev pub minus_one : Bool
minus_one = true

-- The entries, where `old` are those that the vector holds before.
unfoldable pub list_dir_readdir : Bool → ReaddirEnv → List Bytes → Outcome (Bool × List Bytes)
list_dir_readdir cs env old = do
  verify env.dup_ok
  if env.fdopendir_ok
      then (do
        check env.closedir_ok
        ok (if env.is_error then (false, []) else (true, str_sort cs (keep_entries env.d_names))))
      else (do check env.close_ok; ok (minus_one, old))
