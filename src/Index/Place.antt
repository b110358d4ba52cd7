-- ===== src/Index/Place.antt =====
-- The order of the directories that InitDirs of src/index.cc leaves and ScanDirs follows.
use gitstatus.Common.{List, [], drop, length, ℕ, ◌∷◌, ◌≡◌}
use gitstatus.Text.{Bytes}
use gitstatus.Index.Open.Lineage.{IsChild, IsLineage}
use gitstatus.Index.Scan.{IndexDir}
use gitstatus.Index.Dirs.{Dir}

-- What the order is about, of a directory.
pub record Place : Type 0 where
  pub path : Bytes
  pub basename : Bytes
  pub depth : ℕ

abbrev pub place : IndexDir → Place
place dir = record { path = dir.path; basename = dir.basename; depth = dir.depth }

abbrev pub dir_place : Dir → Place
dir_place dir = record { path = dir.path; basename = dir.basename; depth = dir.depth }

-- Each directory is in the one before it, or in one above that. `ps` are the paths of the one before
-- and of those above it.
abbrev pub Follows : List Bytes → List Place → Type 0
Follows ps [] = Unit
Follows ps (dir ∷ dirs) =
    ((n : ℕ) × (q : Bytes) × (qs : List Bytes) × (drop n ps ≡ q ∷ qs)
      × IsChild q dir.path dir.basename
      × (dir.depth ≡ length (q ∷ qs))
      × Follows (dir.path ∷ q ∷ qs) dirs)

-- A directory in the first of the directories above it; the root is in none.
abbrev pub IsPlaced : Place → List Bytes → Type 0
IsPlaced dir [] = dir.path ≡ []
IsPlaced dir (q ∷ qs) = IsChild q dir.path dir.basename × IsLineage (q ∷ qs)

-- The first directory is anywhere, and the others follow.
abbrev pub IsPreorder : List Place → Type 0
IsPreorder [] = Unit
IsPreorder (dir ∷ dirs) =
    (ps : List Bytes) × IsPlaced dir ps × (dir.depth ≡ length ps) × Follows (dir.path ∷ ps) dirs
