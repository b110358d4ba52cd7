-- ===== src/Repo.antt =====
-- src/repo.h and src/repo.cc: one repository, its shards of the index and its scans.
pub mod Shards
pub mod Dirty
pub mod Notify
pub mod Stats
pub mod Async
pub mod Lifetime
use gitstatus.Common.{Bool}
use gitstatus.Index.Scan.{Tribool}

pub record IndexStats : Type 0 where
  pub has_staged : Bool
  pub has_unstaged : Tribool
  pub has_untracked : Tribool
