-- ===== src/Tests/Shards.antt =====
-- Inputs for `UpdateShards` and `StartDirtyScan` of src/repo.cc.
use gitstatus.Repo.Shards.Chain.{FirstStart, IsChain, update_shards-IsChain}
use gitstatus.Common.{
  ℕ, zero, suc, ◌++◌, All, List, [], false, inl, inr, length, max, none, refl, true, ◌∷◌, ◌≡◌, ◌≤◌,
  ◌⊎◌,
}
use gitstatus.Repo.Dirty.{seek, start_dirty_scan}
use gitstatus.Repo.Dirty.Group.{Covers, SortedFrom, start_dirty_scan-Covers}
use gitstatus.Repo.Dirty.Seek.{Finds, InGap, seek_cases}
use gitstatus.Repo.Shards.{
  Shard, cut_shards, dec_back, dir_of, shard_count, update_shards, checked_shards,
}
use gitstatus.Common.Outcome.{ok}
use gitstatus.Text.{Bytes, cmp_prefix, cmp_views, codes, str_lt}

-- Two shards cut at `src/`.
abbrev first : Shard
first = record { start = []; end = codes "src." }

abbrev second : Shard
second = record { start = codes "src/"; end = [] }

both-IsChain : IsChain true (first ∷ second ∷ [])
unfolding str_lt cmp_views cmp_prefix
both-IsChain = (refl, refl, refl)

abbrev copies : ℕ → Bytes → List Bytes
copies zero path = []
copies (suc n) path = path ∷ copies n path

-- An index of two pieces.
abbrev long_index : List Bytes
long_index = copies 300 (codes "a/b") ++ copies 300 (codes "src/c")

update_shards-IsChain_example :
    FirstStart (update_shards true 4 long_index) []
    × IsChain true (update_shards true 4 long_index)
    × (length (update_shards true 4 long_index) ≤ max 1 (shard_count (length long_index) 4))
    × (checked_shards true 4 long_index ≡ ok (update_shards true 4 long_index))
update_shards-IsChain_example = update_shards-IsChain true 4 long_index

-- The loop cuts at the directory of the path that it lands on.
cut_runs :
    cut_shards true (codes "a" ∷ codes "src/x" ∷ codes "src/y" ∷ []) 2 1 0 [] ≡ first ∷ second ∷ []
unfolding cut_shards dir_of dec_back str_lt cmp_views cmp_prefix
cut_runs = refl

lib_before : str_lt true (codes "lib/x") [] ≡ false
unfolding str_lt cmp_views cmp_prefix
lib_before = refl

seek_cases_example :
    (InGap true (codes "lib/x") (first ∷ second ∷ [])
      × (seek true (codes "lib/x") (first ∷ second ∷ []) ≡ none))
    ⊎ Finds true (codes "lib/x") (first ∷ second ∷ [])
seek_cases_example = seek_cases true (codes "lib/x") first (second ∷ []) both-IsChain lib_before

abbrev candidates : List Bytes
candidates = codes "lib/x" ∷ codes "src/a" ∷ codes "src/b" ∷ []

sorted : SortedFrom true [] candidates
unfolding str_lt cmp_views cmp_prefix
sorted = (refl, (refl, (refl, tt)))

no_gap : All (λ p. ¬ InGap true p (first ∷ second ∷ [])) candidates
unfolding str_lt cmp_views cmp_prefix
no_gap = (
  elim [ inl h ↦ cc (h.0) | inr h ↦ h ],
  (elim [ inl h ↦ cc (h.1) | inr h ↦ h ], (elim [ inl h ↦ cc (h.1) | inr h ↦ h ], tt)),
)

start_dirty_scan-Covers_example :
    Covers true
      (first ∷ second ∷ [])
      candidates
      (start_dirty_scan true (first ∷ second ∷ []) candidates)
start_dirty_scan-Covers_example =
    start_dirty_scan-Covers true first (second ∷ []) candidates both-IsChain refl sorted no_gap
