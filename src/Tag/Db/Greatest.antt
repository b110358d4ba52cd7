-- ===== src/Tag/Db/Greatest.antt =====
-- The tag that TagForCommit of src/tag_db.cc chooses, and the order of tags.
use gitstatus.Common.{
  Option, All, In, List, [], false, if◌then◌else◌, none, some, true, ◌++◌, ◌∷◌, ◌≡◌, ◌⊎◌,
}
use gitstatus.Tag.{Tag, strip_tag, tag_prefix}
use gitstatus.Tag.Db.{Refdb, greater, is_loose, tag_has_target}
use gitstatus.Text.{Bytes, str_eq, str_lt}

-- Nothing, or one of the tags; and none of the tags is greater.
abbrev pub IsGreatest : Bytes → List Bytes → Type 0
IsGreatest r ts = ((r ≡ []) ⊎ In r ts) × All (λ t. str_lt true r t ≡ false) ts

-- The loose tags that lead to the commit.
abbrev pub loose_hits : Refdb → Bytes → List Bytes → List Bytes
loose_hits db wanted [] = []
loose_hits db wanted (t ∷ ts) =
    if tag_has_target db (tag_prefix ++ t) wanted
    then t ∷ loose_hits db wanted ts
    else loose_hits db wanted ts

-- The name of a packed tag of the commit, unless a loose tag hides it.
unfoldable pub packed_name : List Bytes → Bytes → Tag → Option Bytes
packed_name loose wanted t = elim (str_eq true t.commit wanted) [
  | false ↦ none
  | true ↦ elim (strip_tag t.ref) [
    | none ↦ none
    | some tag ↦ elim (is_loose tag loose) [ true ↦ none | false ↦ some tag ]
  ]
]

abbrev pub prepend : Option Bytes → List Bytes → List Bytes
prepend none ts = ts
prepend (some tag) ts = tag ∷ ts

abbrev pub packed_hits : List Bytes → Bytes → List Tag → List Bytes
packed_hits loose wanted [] = []
packed_hits loose wanted (t ∷ ts) =
    prepend (packed_name loose wanted t) (packed_hits loose wanted ts)

abbrev pub best_of : List Bytes → Bytes → Bytes
best_of [] res = res
best_of (t ∷ ts) res = best_of ts (greater res t)

abbrev greater_of : Option Bytes → Bytes → Bytes
greater_of none res = res
greater_of (some tag) res = greater res tag
