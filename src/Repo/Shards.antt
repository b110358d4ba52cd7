-- ===== src/Repo/Shards.antt =====
-- `Repo::UpdateShards` of src/repo.cc: the index, sorted by path, is cut into ranges at directory
-- names. `paths` are the paths of the index entries, in the order of the index.
pub mod Chain
use gitstatus.Response.Fields.{split}
use gitstatus.Common.{
  ℕ, zero, suc, ◌+◌, ◌-◌, ◌*◌, ◌/◌, min, Bool, true, false, ◌||◌, List, [], ◌∷◌, Option, none, some,
  length, get_elem?, leb, ltb, ◌==◌, if◌then◌else◌,
}
use gitstatus.Common.Outcome.{Outcome, ok, check, ◌>>=◌, ◌>>◌}
use gitstatus.Text.{Bytes, str_lt}

pub record Shard : Type 0 where
  pub start : Bytes
  pub end : Bytes

-- kEntriesPerShard
abbrev pub entries_per_shard : ℕ
entries_per_shard = 512

-- git_index_get_byindex(git_index_, i)->path; the loop never asks past the end.
abbrev pub path_at : List Bytes → ℕ → Bytes
path_at paths i = elim (get_elem? paths i) [ none ↦ [] | some path ↦ path ]

-- split.substr(0, split.find_last_of('/') + 1), or none if there is no slash.
unfoldable pub dir_of : Bytes → Option Bytes
dir_of [] = none
dir_of (c ∷ s) = elim (dir_of s) [
  | some d ↦ some (c ∷ d)
  | none ↦ if c == b'/' then some (c ∷ []) else none
]

-- --s.back()
unfoldable pub dec_back : Bytes → Bytes
dec_back [] = []
dec_back (c ∷ []) = (c - 1) ∷ []
dec_back (c ∷ d ∷ s) = c ∷ dec_back (d ∷ s)

-- The `for` loop over i with `n` rounds left, and the last `push_back`.
unfoldable pub cut_shards : Bool → List Bytes → ℕ → ℕ → ℕ → Bytes → List Shard
unfolding dir_of dec_back
cut_shards cs paths shards zero i last = record { start = last; end = [] } ∷ []
cut_shards cs paths shards (suc n) i last =
    elim (dir_of (path_at paths ((i + 1) * length paths / shards))) [
      | none ↦ cut_shards cs paths shards n (i + 1) last
      | some split ↦ elim (str_lt cs last (dec_back split)) [
        | true ↦
            record { start = last; end = dec_back split }
            ∷ cut_shards cs paths shards n (i + 1) split
        | false ↦ cut_shards cs paths shards n (i + 1) last
      ]
    ]

-- The number of shards to aim for.
abbrev pub shard_count : ℕ → ℕ → ℕ
shard_count index_size num_threads = min (index_size / entries_per_shard + 1) (2 * num_threads)

-- Repo::UpdateShards
unfoldable pub update_shards : Bool → ℕ → List Bytes → List Shard
unfolding cut_shards
update_shards cs num_threads paths =
    let shards = shard_count (length paths) num_threads in
    if leb (length paths) entries_per_shard || ltb num_threads 2
    then record { start = []; end = [] } ∷ []
    else cut_shards cs paths shards (shards - 1) 0 []

abbrev pub is_empty : Bytes → Bool
is_empty [] = true
is_empty (c ∷ s) = false

abbrev front_starts : List Shard → Bool
front_starts [] = false
front_starts (s ∷ r) = is_empty s.start

abbrev back_ends : List Shard → Bool
back_ends [] = false
back_ends (s ∷ []) = is_empty s.end
back_ends (s ∷ t ∷ r) = back_ends (t ∷ r)

-- The loop of CHECKs over the shards.
unfoldable pub check_order : Bool → List Shard → Outcome (Unit {0})
check_order cs [] = ok tt
check_order cs (s ∷ []) = ok tt
check_order cs (s ∷ t ∷ r) =
    check (str_lt cs s.start s.end) >> (check (str_lt cs s.end t.start) >> check_order cs (t ∷ r))

-- The CHECKs behind the loop.
unfoldable pub check_shards : Bool → ℕ → List Shard → Outcome (Unit {0})
unfolding check_order
check_shards cs shards l = do
  check (ltb 0 (length l))
  check (leb (length l) shards)
  check (front_starts l)
  check (back_ends l)
  check_order cs l

-- Repo::UpdateShards with its CHECKs, which an index that is not split does not come to.
unfoldable pub checked_shards : Bool → ℕ → List Bytes → Outcome (List Shard)
checked_shards cs num_threads paths =
    let l = update_shards cs num_threads paths in
    if leb (length paths) entries_per_shard || ltb num_threads 2
    then ok l
    else check_shards cs (shard_count (length paths) num_threads) l >> ok l
