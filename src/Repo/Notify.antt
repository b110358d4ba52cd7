-- ===== src/Repo/Notify.antt =====
-- The callbacks that libgit2 calls for each difference, in `StartDirtyScan` and `StartStagedScan` of
-- src/repo.cc, and the flags that they set.
pub mod Interleave
use gitstatus.Common.{Bool, false, if◌then◌else◌, true}
use gitstatus.Index.Scan.{Tribool, t_true}

pub record Flags : Type 0 where
  pub error : Bool
  pub staged : Bool
  pub unstaged : Tribool
  pub untracked : Tribool

-- The status of a difference, as far as the code asks: GIT_DELTA_UNTRACKED or another.
pub data Delta : Type 0 where
  is_untracked is_tracked : Delta

-- What a callback returns: 1, to go on without recording the difference, or GIT_EUSER, to stop.
pub data Verdict : Type 0 where
  skip stop : Verdict

abbrev pub is_true : Tribool → Bool
is_true t_true = true
is_true _ = false

-- The first step of the callback of StartDirtyScan: Exchange.
unfoldable pub exchange_flag : Delta → Flags → Flags
exchange_flag is_untracked f = record f { untracked = t_true }
exchange_flag is_tracked f = record f { unstaged = t_true }

-- Its second step: Load the other flag, and decide.
unfoldable pub load_other : Delta → Flags → Verdict
load_other is_untracked f = if is_true f.unstaged then stop else skip
load_other is_tracked f = if is_true f.untracked then stop else skip

-- opt.notify_cb of StartDirtyScan, with nothing between its steps.
unfoldable pub notify_dirty : Delta → Flags → Flags × Verdict
unfolding exchange_flag load_other
notify_dirty d f =
    if f.error then (f, stop) else (exchange_flag d f, load_other d (exchange_flag d f))

-- opt.notify_cb of StartStagedScan
unfoldable pub notify_staged : Flags → Flags × Verdict
notify_staged f = (record f { staged = true }, stop)
