-- ===== src/Tests/Descriptors.antt =====
-- Inputs for the directories of InitDirs and the descriptors of ScanDirs of src/index.cc.
use gitstatus.Index.Open.Lineage.{IsName, IsSound}
use gitstatus.Text.Find.{find_last}
use gitstatus.Index.Open.Order.{Scanned, SysHolds}
use gitstatus.Common.{
  leb, length, ◌+◌, ◌*◌, ◌<◌, List, arith, drop, map, sym, take, ℕ, ◌∙◌, ◌≢◌, ==_iff, Bool,
  Bool-cases, Option, [], ap, false, if◌then◌else◌, inl, inr, none, refl, some, true, ◌++◌, ◌==◌,
  ◌∷◌, ◌≡◌,
}
use gitstatus.Common.Outcome.{ok, aborts}
use gitstatus.Index.Dirs.{Dir, weight}
use gitstatus.Index.Dirs.Walk.{EndsDir, IsClean, places}
use gitstatus.Index.Entry.{zero_stat}
use gitstatus.Index.Place.{IsPreorder, place}
use gitstatus.Index.Splits.Partition.{sum}
use gitstatus.Index.Splits.{num_shards, min_shard_weight}
use gitstatus.Index.Whole.{new_index, splits_for, new_index_lem}
use gitstatus.Index.Candidates.{shards_of}
use gitstatus.Index.Candidates.Shards.{flatten}
use mathlib.Core.Option.{some-injective}
use gitstatus.Index.Scan.{Env, IndexDir, t_false}
use gitstatus.Text.{Bytes, codes}
use gitstatus.Index.Open.{Sys, scan_dirs, split_tail}
use gitstatus.Index.Open.Shard.{scan_shard-Scanned}

-- A descriptor is the path that it is open at.
abbrev is_dot : Bytes → Bool
is_dot (c ∷ []) = c == b'.'
is_dot s = false

abbrev open_in : Bytes → Bytes → Option Bytes
open_in h name = some (if is_dot name then h else h ++ name ++ b'/' ∷ [])

is_dot-undotted : (name : Bytes) → IsName name → is_dot name ≡ false
is_dot-undotted [] h = refl
is_dot-undotted (c ∷ []) h = elim (Bool-cases (c == b'.')) [
  | inl e ↦ absurd (h.undotted (ap (λ z. z ∷ []) ((==_iff c b'.').0 e)))
  | inr e ↦ e
]
is_dot-undotted (c ∷ d ∷ s) h = refl

open_in-IsSound : IsSound (λ (p h : Bytes). p ≡ h) open_in
open_in-IsSound = record {
  named = λ p name h h' at n o.
      ap (λ q. q ++ name ++ b'/' ∷ []) at
      ∙ ap (λ (b : Bool). if b then h else h ++ name ++ b'/' ∷ []) (sym (is_dot-undotted name n))
      ∙ some-injective (if is_dot name then h else h ++ name ++ b'/' ∷ []) h' o;
  dot = λ p h h' at o. at ∙ some-injective h h' o;
}

abbrev no_env : Env
no_env = record {
  case_sensitive = true;
  is_open = true;
  dir_stat = none;
  listing = some [];
  file_stat = λ name. none;
  is_racy = λ e. false;
}

abbrev sys : Sys Bytes
sys = record { open_dir = open_in; dup_fd = some []; env = λ h. no_env }

abbrev index_dir : Bytes → Bytes → ℕ → IndexDir
index_dir path basename depth = record {
  path = path;
  basename = basename;
  depth = depth;
  st = zero_stat;
  files = [];
  subdirs = [];
  unmatched = [];
}

-- The root, two directories in it, and one in the second of them.
abbrev dirs : List (IndexDir × Sys Bytes)
dirs =
    (index_dir [] [] 0, sys)
    ∷ (index_dir (codes "b/") (codes "b") 1, sys)
    ∷ (index_dir (codes "a/") (codes "a") 1, sys)
    ∷ (index_dir (codes "a/c/") (codes "c") 2, sys)
    ∷ []

letter-IsName : (c : ℕ) → c ≢ b'.' → IsName (c ∷ [])
letter-IsName c n = record { full = λ e. cc; undotted = λ e. n (ground (arith, e)) }

dirs-IsPreorder : IsPreorder (map (λ d. place d.0) dirs)
dirs-IsPreorder = (
  [],
  refl,
  refl,
  (
    0,
    [],
    [],
    refl,
    (refl, (omega arith, tt), letter-IsName b'b' (omega arith)),
    refl,
    (
      1,
      [],
      [],
      refl,
      (refl, (omega arith, tt), letter-IsName b'a' (omega arith)),
      refl,
      (
        0,
        codes "a/",
        [] ∷ [],
        refl,
        (refl, (omega arith, tt), letter-IsName b'c' (omega arith)),
        refl,
        tt,
      ),
    ),
  ),
)

sys-SysHolds : SysHolds (λ (p h : Bytes). p ≡ h) sys
sys-SysHolds = record { opens = open_in-IsSound; dups = ([], refl, refl) }

-- The task of the last three directories.
scan_shard-Scanned_example :
    (res : List IndexDir × List Bytes) × (scan_dirs
        (λ h. true)
        t_false
        []
        open_in
        (take 3 (drop 1 dirs))
      ≡ ok res)
    × Scanned (λ (p h : Bytes). p ≡ h) t_false (take 3 (drop 1 dirs)) res
scan_shard-Scanned_example =
    scan_shard-Scanned (λ (p h : Bytes). p ≡ h) (λ h. true) t_false [] open_in dirs 1 3 (λ h. refl)
      refl open_in-IsSound (sys-SysHolds, (sys-SysHolds, (sys-SysHolds, (sys-SysHolds, tt))))
      dirs-IsPreorder

abbrev entries : List Bytes
entries = codes "a/c" ∷ codes "b" ∷ []

first-IsClean : IsClean (codes "a/c")
first-IsClean = record { full = full; undotted = undotted }
  where
    full : (s t : Bytes) → codes "a/c" ≡ s ++ b'/' ∷ t → ¬ EndsDir s
    full [] t e h = ground (arith, e)
    full (x ∷ []) t e h = ground (arith, e, h)
    full (x ∷ y ∷ []) t e h = ground (arith, e, h)
    full (x ∷ y ∷ z ∷ s) t e h = ground (arith, e)

    undotted : (s t : Bytes) → codes "a/c" ≡ s ++ b'.' ∷ b'/' ∷ t → ¬ EndsDir s
    undotted [] t e h = ground (arith, e)
    undotted (x ∷ []) t e h = ground (arith, e)
    undotted (x ∷ y ∷ []) t e h = ground (arith, e)
    undotted (x ∷ y ∷ z ∷ s) t e h = ground (arith, e)

second-IsClean : IsClean (codes "b")
second-IsClean = record { full = full; undotted = undotted }
  where
    full : (s t : Bytes) → codes "b" ≡ s ++ b'/' ∷ t → ¬ EndsDir s
    full [] t e h = ground (arith, e)
    full (x ∷ s) t e h = ground (arith, e)

    undotted : (s t : Bytes) → codes "b" ≡ s ++ b'.' ∷ b'/' ∷ t → ¬ EndsDir s
    undotted [] t e h = ground (arith, e)
    undotted (x ∷ s) t e h = ground (arith, e)

new_index_lem_example :
    (ds : List Dir) × IsPreorder (places ds)
    × (flatten (shards_of (splits_for 2 ds) ds) ≡ ds)
    × (new_index true 2 entries ≡ (
        if leb (length (splits_for 2 ds)) (num_shards 2 + 1)
        then ok (ds, splits_for 2 ds)
        else aborts))
    × (sum (map weight ds) < min_shard_weight * num_shards 2
        → new_index true 2 entries ≡ ok (ds, splits_for 2 ds))
new_index_lem_example = new_index_lem 2 entries (first-IsClean, (second-IsClean, tt))

split_tail_runs : split_tail 5 (codes "a/b/c") ≡ codes "c" ∷ codes "b" ∷ codes "a" ∷ codes "." ∷ []
unfolding split_tail find_last
split_tail_runs = refl
