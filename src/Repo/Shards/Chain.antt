-- ===== src/Repo/Shards/Chain.antt =====
-- The `CHECK`s at the end of `UpdateShards` of src/repo.cc.
use gitstatus.Common.{
  leb, ltb, ◌||◌, ◌≢◌, Bool, Bool-cases, List, Option-cases, [], ap, arith, false, inl, inr, length,
  map, max, refl, some, suc, true, zero, ℕ, ◌*◌, ◌++◌, ◌+◌, ◌-◌, ◌/◌, ◌∷◌, ◌≡◌, ◌≤◌,
}
use Prim.Native.Nat.{Ordering}
use gitstatus.Repo.Shards.{
  check_order, check_shards, checked_shards, back_ends, is_empty, entries_per_shard, Shard,
  cut_shards, dec_back, dir_of, path_at, shard_count, update_shards,
}
use gitstatus.Text.{Bytes, key, str_lt}
use gitstatus.Common.Outcome.{ok}
use gitstatus.Text.Compare.{str_lt-lex}
use gitstatus.Text.Lex.{lex}

-- The string ends in a slash.
IsDir : Bytes → Type 0
IsDir d = (s : Bytes) × (d ≡ s ++ b'/' ∷ [])

dir_of-IsDir : (s d : Bytes) → dir_of s ≡ some d → (p : Bytes) × (d ≡ p ++ b'/' ∷ [])
unfolding dir_of
dir_of-IsDir [] d h = cc
dir_of-IsDir (c ∷ s) d h = elim (Option-cases (dir_of s)) [
  | inl e ↦ ([], ground arith)
  | inr (d', e) ↦ let (p, f) = dir_of-IsDir s d' e in (c ∷ p, ground arith)
]

pub dec_back-slash : (p : Bytes) → dec_back (p ++ b'/' ∷ []) ≡ p ++ b'.' ∷ []
unfolding dec_back
dec_back-slash [] = refl
dec_back-slash (c ∷ []) = refl
dec_back-slash (c ∷ d ∷ p) = ap (◌∷◌ c) (dec_back-slash (d ∷ p))

-- A directory's name and its file of the same name with a dot, in either order of characters.
lex-dot_slash :
    (cs : Bool) (p x : Bytes)
    → lex (map (key cs) (p ++ b'.' ∷ x)) (map (key cs) (p ++ b'/' ∷ [])) ≡ Ordering.lt
unfolding lex
lex-dot_slash true [] x = refl
lex-dot_slash false [] x = refl
lex-dot_slash cs (c ∷ p) x = ground (arith, lex-dot_slash cs p x)

pub str_lt-dot_slash : (cs : Bool) (p x : Bytes) → str_lt cs (p ++ b'.' ∷ x) (p ++ b'/' ∷ []) ≡ true
str_lt-dot_slash cs p x = (str_lt-lex cs _ _).1 (lex-dot_slash cs p x)

-- The loop of `CHECK`s over neighbours.
abbrev pub IsChain : Bool → List Shard → Type 0
IsChain cs [] = ⊥
IsChain cs (s ∷ []) = s.end ≡ []
IsChain cs (s ∷ t ∷ r) =
    (str_lt cs s.start s.end ≡ true) × (str_lt cs s.end t.start ≡ true) × IsChain cs (t ∷ r)

abbrev pub FirstStart : List Shard → Bytes → Type 0
FirstStart [] b = ⊥
FirstStart (s ∷ r) b = s.start ≡ b

IsChain-cons :
    (cs : Bool) (s : Shard) (r : List Shard) (b : Bytes)
    → FirstStart r b
    → str_lt cs s.start s.end ≡ true
    → str_lt cs s.end b ≡ true
    → IsChain cs r
    → IsChain cs (s ∷ r)
IsChain-cons cs s [] b f h k c = absurd f
IsChain-cons cs s (t ∷ r) b f h k c = (h, rw f k, c)

cut_shards-IsChain :
    (cs : Bool) (paths : List Bytes) (shards n i : ℕ) (last : Bytes)
    → FirstStart (cut_shards cs paths shards n i last) last
      × IsChain cs (cut_shards cs paths shards n i last)
      × (length (cut_shards cs paths shards n i last) ≤ n + 1)
unfolding cut_shards
cut_shards-IsChain cs paths shards zero i last = (refl, refl, omega arith)
cut_shards-IsChain cs paths shards (suc n) i last =
    elim (Option-cases (dir_of (path_at paths ((i + 1) * length paths / shards)))) [
      | inl e ↦
          let (f, c, l) = cut_shards-IsChain cs paths shards n (i + 1) last in
          rw (e, cut_shards) (f, c, omega arith)
      | inr (d, e) ↦ elim (Bool-cases (str_lt cs last (dec_back d))) [
        | inl lt ↦
            let (f, c, l) = cut_shards-IsChain cs paths shards n (i + 1) d in
            let (p, q) = dir_of-IsDir (path_at paths ((i + 1) * length paths / shards)) d e in
            rw (e, cut_shards, lt)
              (
                refl,
                IsChain-cons cs _ _ d f lt (rw (q, dec_back-slash p) (str_lt-dot_slash cs p [])) c,
                omega arith,
              )
        | inr ge ↦
            let (f, c, l) = cut_shards-IsChain cs paths shards n (i + 1) last in
            rw (e, cut_shards, ge) (f, c, omega arith)
      ]
    ]

check_order-ok : (cs : Bool) (l : List Shard) → IsChain cs l → check_order cs l ≡ ok tt
unfolding check_order
check_order-ok cs [] h = refl
check_order-ok cs (s ∷ []) h = refl
check_order-ok cs (s ∷ t ∷ r) h = rw (h.0, h.1, check_order) (check_order-ok cs (t ∷ r) h.2)

IsChain-back_ends : (cs : Bool) (l : List Shard) → IsChain cs l → back_ends l ≡ true
IsChain-back_ends cs [] h = absurd h
IsChain-back_ends cs (s ∷ []) h = ap is_empty h
IsChain-back_ends cs (s ∷ t ∷ r) h = IsChain-back_ends cs (t ∷ r) h.2

check_shards-ok :
    (cs : Bool) (shards : ℕ) (l : List Shard)
    → FirstStart l []
    → IsChain cs l
    → length l ≤ shards
    → check_shards cs shards l ≡ ok tt
unfolding check_shards
check_shards-ok cs shards [] f c k = absurd f
check_shards-ok cs shards (s ∷ r) f c k =
    let some : ltb 0 (suc (length r)) ≡ true = ground arith in
    let few : leb (suc (length r)) shards ≡ true = ground arith in
    rw (some, few, ap is_empty f, IsChain-back_ends cs (s ∷ r) c) (check_order-ok cs (s ∷ r) c)

shards-IsChain :
    (cs : Bool) (num_threads : ℕ) (paths : List Bytes)
    → FirstStart (update_shards cs num_threads paths) []
      × IsChain cs (update_shards cs num_threads paths)
      × (length (update_shards cs num_threads paths)
          ≤ max 1 (shard_count (length paths) num_threads))
unfolding update_shards
shards-IsChain cs num_threads paths = ground (
  arith,
  cut_shards-IsChain cs paths (shard_count (length paths) num_threads)
      (shard_count (length paths) num_threads - 1) 0 [],
)

shard_count-split :
    (n num_threads : ℕ)
    → (leb n entries_per_shard || ltb num_threads 2) ≡ false
    → max 1 (shard_count n num_threads) ≡ shard_count n num_threads
shard_count-split n num_threads h = ground arith

-- For every index and number of threads the CHECKs behind the loop of UpdateShards hold, so that it
-- returns its shards: there is a first shard, it starts at the beginning, the last one has no end,
-- each of the others starts before its end and ends before the start of the next, and no more shards
-- come out than were asked for, or one.
pub update_shards-IsChain :
    (cs : Bool) (num_threads : ℕ) (paths : List Bytes)
    → FirstStart (update_shards cs num_threads paths) []
      × IsChain cs (update_shards cs num_threads paths)
      × (length (update_shards cs num_threads paths)
          ≤ max 1 (shard_count (length paths) num_threads))
      × (checked_shards cs num_threads paths ≡ ok (update_shards cs num_threads paths))
unfolding checked_shards
update_shards-IsChain cs num_threads paths =
    let (f, c, l) = shards-IsChain cs num_threads paths in
    (
      f,
      c,
      l,
      elim (Bool-cases (leb (length paths) entries_per_shard || ltb num_threads 2)) [
        | inl e ↦ rw e
        | inr e ↦ rw (
          e,
          check_shards-ok cs (shard_count (length paths) num_threads)
              (update_shards cs num_threads paths) f c
              (omega (arith, shard_count-split (length paths) num_threads e)),
        )
      ],
    )

lex-dot_append :
    (cs : Bool) (p x : Bytes)
    → x ≢ []
    → lex (map (key cs) (p ++ b'.' ∷ [])) (map (key cs) (p ++ b'.' ∷ x)) ≡ Ordering.lt
unfolding lex
lex-dot_append cs [] [] h = absurd (h refl)
lex-dot_append cs [] (b ∷ x) h = ground arith
lex-dot_append cs (c ∷ p) x h = ground (arith, lex-dot_append cs p x h)

pub str_lt-dot_append :
    (cs : Bool) (p x : Bytes) → x ≢ [] → str_lt cs (p ++ b'.' ∷ []) (p ++ b'.' ∷ x) ≡ true
str_lt-dot_append cs p x h = (str_lt-lex cs _ _).1 (lex-dot_append cs p x h)
