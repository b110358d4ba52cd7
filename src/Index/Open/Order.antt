-- ===== src/Index/Open/Order.antt =====
-- The order in which ScanDirs of src/index.cc visits directories, and what it may return.
use gitstatus.Common.{List, Option, [], some, ◌++◌, ◌∷◌, ◌≡◌}
use gitstatus.Index.Open.{Sys, scan_at}
use gitstatus.Index.Open.Lineage.{IsSound}
use gitstatus.Index.Scan.{IndexDir, Tribool}
use gitstatus.Text.{Bytes}

-- What a scan of the directories may return: each is scanned with no descriptor, or with one that is
-- open at its path.
pub data Scanned {H : Type 0} (Refers : Bytes → H → Type 0) (cache : Tribool)
    : List (IndexDir × Sys H) → List IndexDir × List Bytes → Type 0 where
  finished : Scanned Refers cache [] ([], [])
  scanned :
      (dir : IndexDir) (sys : Sys H) (dirs : List (IndexDir × Sys H))
      (rest : List IndexDir × List Bytes) (fd : Option H)
      → ((h : H) → fd ≡ some h → Refers dir.path h)
      → Scanned Refers cache dirs rest
      → Scanned Refers cache
          ((dir, sys) ∷ dirs)
          ((scan_at cache sys dir fd).0 ∷ rest.0, (scan_at cache sys dir fd).1 ++ rest.1)

-- The answers of openat name what they opened, and dup gives the root again.
pub record SysHolds {H : Type 0} (Refers : Bytes → H → Type 0) (sys : Sys H) : Type 0 where
  pub opens : IsSound Refers sys.open_dir
  pub dups : (h : H) × (sys.dup_fd ≡ some h) × Refers [] h
