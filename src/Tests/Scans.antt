-- ===== src/Tests/Scans.antt =====
-- Inputs for `InitSplits` and `ScanDirs` of src/index.cc.
use gitstatus.Common.{List, [], arith, false, refl, some, true, ℕ, ◌++◌, ◌∷◌, ◌≡◌}
use gitstatus.Common.Outcome.{aborts}
use gitstatus.Index.Entry.{Entry, Stat}
use gitstatus.Index.Scan.{Dirent, Env, IndexDir, report_same, scan_dir, t_false}
use gitstatus.Index.Splits.{init_splits, splits_of}
use gitstatus.Index.Splits.Overflow.{filled, init_splits_aborts}
use gitstatus.Index.Splits.Partition.{sum}
use gitstatus.Text.{Bytes, cmp_prefix, cmp_strs, cmp_view_str, cmp_views, codes, str_eq}

abbrev weights : List ℕ
weights = 300 ∷ 300 ∷ 5 ∷ []

splits_runs : splits_of 512 weights ≡ 0 ∷ 2 ∷ 3 ∷ []
unfolding splits_of
splits_runs = refl

-- One thread, sixteen directories of weight 512 and one of weight 2.
init_splits_aborts_example : init_splits 1 (sum (filled 16 512 2)) (filled 16 512 2) ≡ aborts
init_splits_aborts_example = init_splits_aborts 1 512 2 (omega arith) (omega arith) (omega arith)

abbrev file : Bytes → Entry
file name = record {
  path = codes "d/" ++ name;
  mtime_seconds = 1;
  mtime_nanoseconds = 0;
  ino = 7;
  mode = 0o100644;
  gid = 0;
  file_size = 3;
}

abbrev stat_of_file : Stat
stat_of_file = record { mtim_sec = 1; mtim_nsec = 0; size = 3; ino = 7; mode = 0o100600; gid = 0 }

abbrev dir : IndexDir
dir = record {
  path = codes "d/";
  basename = codes "d";
  depth = 1;
  st = stat_of_file;
  files = file (codes "b") ∷ file (codes "z") ∷ [];
  subdirs = codes "sub" ∷ [];
  unmatched = codes "d/new" ∷ [];
}

abbrev listed : List Dirent
listed =
    record { name = codes "b"; is_dir = false }
    ∷ record { name = codes "new"; is_dir = true }
    ∷ record { name = codes "sub"; is_dir = true }
    ∷ []

abbrev env : Env
env = record {
  case_sensitive = true;
  is_open = true;
  dir_stat = some stat_of_file;
  listing = some listed;
  file_stat = λ _. some stat_of_file;
  is_racy = λ _. false;
}

-- The file z is gone, and the listing scan reports the new directory only.
scan_runs : (scan_dir t_false env dir).1 ≡ codes "d/new/" ∷ []
unfolding scan_dir report_same cmp_strs cmp_view_str str_eq cmp_views cmp_prefix
scan_runs = refl
