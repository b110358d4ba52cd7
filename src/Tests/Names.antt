-- ===== src/Tests/Names.antt =====
-- Inputs for src/git.cc, src/string_cmp.h and src/algorithm.h.
use gitstatus.Common.{[], false, none, refl, some, ◌≡◌}
use gitstatus.Text.{codes}
use gitstatus.Index.Entry.{Entry, Stat, is_modified}
use gitstatus.Git.{Reference, symbolic}

abbrev unborn : Reference
unborn = record {
  type = symbolic;
  is_branch = false;
  shorthand = [];
  symbolic_target = some (codes "refs/heads/main");
  target = none;
}

abbrev tracked : Entry
tracked = record {
  path = codes "a";
  mtime_seconds = 1;
  mtime_nanoseconds = 2;
  ino = 3;
  mode = 0o100755;
  gid = 4;
  file_size = 5;
}

abbrev on_disk : Stat
on_disk = record { mtim_sec = 1; mtim_nsec = 2; size = 5; ino = 3; mode = 0o100711; gid = 4 }

unmodified : is_modified tracked on_disk ≡ false
unfolding is_modified
unmodified = refl
