-- ===== src/Tag/Db.antt =====
-- TagDb of src/tag_db.cc: TagHasTarget, UpdatePack and TagForCommit. The results of libgit2 and of
-- the system calls are arguments. Each method first waits for the sorting on the other thread, so
-- that the tags are sorted wherever they are read.
pub mod Greatest
pub mod Symbolic
use gitstatus.Common.{
  Bool, List, Option, [], false, if◌then◌else◌, length, none, not, reverse, some, suc, true, zero,
  ℕ, ◌++◌, ◌==◌, ◌||◌, ◌∷◌,
}
use gitstatus.Common.Outcome.{Outcome, aborts, exits, ok, throws, ◌>>=◌}
use gitstatus.Index.Entry.{Stat, stat_eq, zero_stat}
use gitstatus.Tag.{Parsed, Tag, parse_pack, strip_tag, tag_prefix}
use gitstatus.Text.{Bytes, str_eq, str_lt}
use mathlib.Core.Option

pub record TagDb : Type 0 where
  pub pack_stat : Stat
  pub pack : Bytes
  pub unpeeled_tags : List Bytes
  pub peeled_tags : List Tag

-- A new database, and what Reset leaves.
abbrev pub empty_db : TagDb
empty_db = record { pack_stat = zero_stat; pack = []; unpeeled_tags = []; peeled_tags = [] }

-- What git_refdb_lookup returns: a reference, symbolic or with its target.
pub record Ref : Type 0 where
  pub name : Bytes
  pub is_symbolic : Bool
  pub target : Bytes
  pub target_peel : Option Bytes

pub record TagObject : Type 0 where
  pub is_commit : Bool
  pub target_id : Bytes

pub record Refdb : Type 0 where
  -- git_refdb_lookup
  pub lookup : Bytes → Option Ref
  -- git_tag_lookup
  pub tag_lookup : Bytes → Option TagObject

-- kMaxDerefCount
abbrev pub max_deref_count : ℕ
max_deref_count = 10

-- The loop that follows symbolic references: it looks up the name of the reference itself.
unfoldable pub follow_refs : Refdb → ℕ → Ref → Option Ref
follow_refs db zero ref = some ref
follow_refs db (suc n) ref = elim ref.is_symbolic [
  | false ↦ some ref
  | true ↦ elim (db.lookup ref.name) [ none ↦ none | some dst ↦ follow_refs db n dst ]
]

-- The loop that follows tags of tags.
unfoldable pub follow_tags : Refdb → ℕ → Bytes → Bytes → Bool
follow_tags db zero oid wanted = false
follow_tags db (suc n) oid wanted = elim (db.tag_lookup oid) [
  | none ↦ false
  | some tag ↦ elim tag.is_commit [
    | true ↦ str_eq true tag.target_id wanted
    | false ↦ follow_tags db n tag.target_id wanted
  ]
]

-- The reference that the loop ends at.
unfoldable pub ref_has_target : Refdb → Bytes → Ref → Bool
unfolding follow_tags
ref_has_target db wanted ref =
    let oid : Bytes = elim ref.target_peel [ none ↦ ref.target | some o ↦ o ] in
    let through_tags = follow_tags db max_deref_count oid wanted in
    if ref.is_symbolic then false else if str_eq true oid wanted then true else through_tags

-- TagHasTarget
unfoldable pub tag_has_target : Refdb → Bytes → Bytes → Bool
unfolding follow_refs ref_has_target
tag_has_target db name wanted = elim (db.lookup name) [
  | none ↦ false
  | some ref ↦ elim (follow_refs db max_deref_count ref) [
    | none ↦ false
    | some r ↦ ref_has_target db wanted r
  ]
]

-- A round of the loop of UpdatePack: does open succeed, what read gives, and what fstat says.
pub record Attempt : Type 0 where
  pub is_open : Bool
  pub content : Option Bytes
  pub stat : Option Stat

-- while (true) of UpdatePack, over the rounds to come; none if they all saw the file change.
unfoldable pub read_pack : Stat → List Attempt → Option (Outcome (Stat × Bytes))
read_pack st [] = none
read_pack st (a ∷ more) = elim a.is_open [
  | false ↦ some throws
  | true ↦ elim a.content [
    | none ↦ some throws
    | some content ↦ elim a.stat [
      | none ↦ some throws
      | some now ↦ elim (stat_eq st now) [
        | false ↦ read_pack now more
        | true ↦ if length content == now.size then some (ok (now, content)) else some throws
      ]
    ]
  ]
]

-- What the pointers into pack_ that the last parse left read once pack_ is filled again, by the
-- places of the tags: nothing keeps what they pointed to.
pub record Stale : Type 0 where
  pub unpeeled : ℕ → Bytes
  pub peeled : ℕ → Bytes

abbrev pub read_refs : (ℕ → Bytes) → List Bytes → List Bytes
read_refs f [] = []
read_refs f (r ∷ rs) = f 0 ∷ read_refs (λ i. f (suc i)) rs

abbrev pub read_tags : (ℕ → Bytes) → List Tag → List Tag
read_tags f [] = []
read_tags f (t ∷ ts) = record t { ref = f 0 } ∷ read_tags (λ i. f (suc i)) ts

-- std::sort by `key`, in the order of memcmp.
unfoldable pub insert_by {ℓ} : {A : Type ℓ} → (A → Bytes) → A → List A → List A
insert_by f a [] = a ∷ []
insert_by f a (b ∷ bs) =
    let rest = insert_by f a bs in if str_lt true (f b) (f a) then b ∷ rest else a ∷ b ∷ bs

unfoldable pub sort_by {ℓ} : {A : Type ℓ} → (A → Bytes) → List A → List A
unfolding insert_by
sort_by f [] = []
sort_by f (a ∷ more) = insert_by f a (sort_by f more)

-- The sorting at the end of ParsePack, here and on the other thread.
abbrev pub sorted_db : Stat → Bytes → Parsed → TagDb
sorted_db st content p = record {
  pack_stat = st;
  pack = content;
  unpeeled_tags = sort_by (λ r. r) p.unpeeled_tags;
  peeled_tags = sort_by (λ t. t.commit) p.peeled_tags;
}

-- The try block of UpdatePack, with its handler: Reset and throw.
unfoldable pub reparse :
    Bytes → Stat → List Attempt → Stale → TagDb → Option (TagDb × Outcome (Option (List Bytes)))
unfolding read_pack parse_pack
reparse wanted st attempts stale db = elim (read_pack st attempts) [
  | none ↦ none
  | some (ok (now, content)) ↦
      elim (parse_pack wanted content (record {
        unpeeled_tags = read_refs stale.unpeeled db.unpeeled_tags;
        peeled_tags = read_tags stale.peeled db.peeled_tags;
        res = [];
      })) [
        | none ↦ none
        | some (ok p) ↦ some (sorted_db now content p, ok (some p.res))
        | some throws ↦ some (empty_db, throws)
        | some aborts ↦ some (db, aborts)
        | some (exits n) ↦ some (db, exits n)
      ]
  | some throws ↦ some (empty_db, throws)
  | some aborts ↦ some (db, aborts)
  | some (exits n) ↦ some (db, exits n)
]

-- UpdatePack, given what lstat says: the matches if it parsed the file, none if it did not.
unfoldable pub update_pack :
    Bytes
    → Option Stat
    → List Attempt
    → Stale
    → TagDb
    → Option (TagDb × Outcome (Option (List Bytes)))
unfolding reparse
update_pack wanted none attempts stale db = some (empty_db, ok none)
update_pack wanted (some st) attempts stale db =
    if stat_eq db.pack_stat st then some (db, ok none) else reparse wanted st attempts stale db

-- std::binary_search over the sorted loose tags.
unfoldable pub is_loose : Bytes → List Bytes → Bool
is_loose t [] = false
is_loose t (l ∷ ls) = str_eq true l t || is_loose t ls

-- if (res < tag) res = tag;
abbrev pub greater : Bytes → Bytes → Bytes
greater res tag = if str_lt true res tag then tag else res

-- The loop over the loose tags.
unfoldable pub best_loose : Refdb → Bytes → List Bytes → Bytes → Bytes
unfolding tag_has_target
best_loose db wanted [] res = res
best_loose db wanted (t ∷ ts) res =
    let hit = best_loose db wanted ts (greater res t) in
    let miss = best_loose db wanted ts res in
    if tag_has_target db (tag_prefix ++ t) wanted then hit else miss

-- The loop over the matches of a new parse, from the back.
unfoldable pub best_match : List Bytes → List Bytes → Bytes → Bytes
unfolding is_loose
best_match loose [] res = res
best_match loose (t ∷ ts) res =
    let later = best_match loose ts res in if not (is_loose t loose) then greater res t else later

-- The loop over std::equal_range: peeled_tags_ is sorted by commit, so that these are all tags with
-- that commit; unpeeled_tags_ is not looked at. Every tag that was kept has the prefix that StripTag takes off.
unfoldable pub best_packed : List Bytes → Bytes → List Tag → Bytes → Bytes
unfolding is_loose strip_tag
best_packed loose wanted [] res = res
best_packed loose wanted (t ∷ ts) res = elim (str_eq true t.commit wanted) [
  | false ↦ best_packed loose wanted ts res
  | true ↦ elim (strip_tag t.ref) [
    | none ↦ best_packed loose wanted ts res
    | some tag ↦ elim (is_loose tag loose) [
      | true ↦ best_packed loose wanted ts res
      | false ↦ best_packed loose wanted ts (greater res tag)
    ]
  ]
]

-- The result, from what UpdatePack left and returned.
unfoldable pub choose_tag : Refdb → Bytes → List Bytes → TagDb → Option (List Bytes) → Bytes
unfolding best_loose best_match best_packed
choose_tag refdb wanted loose db (some ms) =
    best_match loose (reverse ms) (best_loose refdb wanted loose [])
choose_tag refdb wanted loose db none =
    best_packed loose wanted db.peeled_tags (best_loose refdb wanted loose [])

-- TagForCommit, given whether there is a refdb and what GetLooseTags lists, nothing if it fails.
unfoldable pub tag_for_commit :
    Option Refdb
    → Bytes
    → List Bytes
    → Option Stat
    → List Attempt
    → Stale
    → TagDb
    → Option (TagDb × Outcome Bytes)
unfolding update_pack choose_tag
tag_for_commit none wanted loose st attempts stale db = some (db, throws)
tag_for_commit (some refdb) wanted loose st attempts stale db =
    Option.map (λ (db', m). (db', m >>= λ ms. ok (choose_tag refdb wanted loose db' ms)))
      (update_pack wanted st attempts stale db)
