-- ===== src/Tests/Tags.antt =====
-- Inputs for src/tag_db.cc.
use gitstatus.Common.{
  ltb, ◌<◌, ◌≢◌, All, Bool, List, [], arith, false, if◌then◌else◌, none, not, refl, some, true, ℕ,
  ◌&&◌, ◌++◌, ◌==◌, ◌∷◌, ◌≡◌,
}
use gitstatus.Tag.{tag_prefix, parse_pack, unhex_pairs}
use gitstatus.Tag.Print.{
  IsId, IsPackedRef, PackedRef, hex, names, nothing_parsed, parse_pack-print, print_pack, tags,
}
use gitstatus.Common.Outcome.{ok}
use gitstatus.Index.Entry.{Stat}
use gitstatus.Tag.Db.{Attempt, Stale, Ref, Refdb, TagDb, tag_has_target}
use gitstatus.Tag.Db.Symbolic.{tag_has_target_symbolic}
use gitstatus.Tag.Render.{IsRef}
use gitstatus.Text.{Bytes, cmp_prefix, cmp_views, codes, str_eq}
use gitstatus.Text.Find.{Lacks}

abbrev oid_a : Bytes
oid_a = codes "00ff10000000000000000000000000000000000a"

abbrev oid_b : Bytes
oid_b = codes "b000000000000000000000000000000000000001"

-- Object ids as bytes.
abbrev id_a : Bytes
id_a = 0 ∷ 255 ∷ 16 ∷ 0 ∷ 0 ∷ 0 ∷ 0 ∷ 0 ∷ 0 ∷ 0 ∷ 0 ∷ 0 ∷ 0 ∷ 0 ∷ 0 ∷ 0 ∷ 0 ∷ 0 ∷ 0 ∷ 10 ∷ []

abbrev id_b : Bytes
id_b = 176 ∷ 0 ∷ 0 ∷ 0 ∷ 0 ∷ 0 ∷ 0 ∷ 0 ∷ 0 ∷ 0 ∷ 0 ∷ 0 ∷ 0 ∷ 0 ∷ 0 ∷ 0 ∷ 0 ∷ 0 ∷ 0 ∷ 1 ∷ []

abbrev packed : List PackedRef
packed =
    record { oid = id_b; is_tag = false; name = codes "refs/heads/main"; peel = none }
    ∷ record { oid = id_b; is_tag = true; name = codes "v1"; peel = some id_a }
    ∷ record { oid = id_a; is_tag = true; name = codes "v2"; peel = none }
    ∷ []

prints_run : hex id_a ≡ oid_a
prints_run = refl

bytes_all : Bytes → Bool
bytes_all [] = true
bytes_all (c ∷ s) = ltb c 256 && bytes_all s

bytes_all-All : (s : Bytes) → bytes_all s ≡ true → All (λ b. b < 256) s
unfolding bytes_all
bytes_all-All [] h = tt
bytes_all-All (c ∷ s) h = (ground arith, bytes_all-All s (ground arith))

lacks : ℕ → Bytes → Bool
lacks c [] = true
lacks c (d ∷ s) = not (d == c) && lacks c s

lacks-Lacks : (c : ℕ) (s : Bytes) → lacks c s ≡ true → Lacks c s
unfolding lacks
lacks-Lacks c [] h = tt
lacks-Lacks c (d ∷ s) h = (ground arith, lacks-Lacks c s (ground arith))

id_a-IsId : IsId id_a
id_a-IsId = (refl, bytes_all-All id_a (unfold bytes_all in refl))

id_b-IsId : IsId id_b
id_b-IsId = (refl, bytes_all-All id_b (unfold bytes_all in refl))

IsRef-of_lacks : (r : Bytes) → lacks 0 r ≡ true → lacks 10 r ≡ true → lacks 13 r ≡ true → IsRef r
IsRef-of_lacks r a b c = (lacks-Lacks 0 r a, lacks-Lacks 10 r b, lacks-Lacks 13 r c)

no_tag : (t : Bytes) → codes "refs/heads/main" ≢ tag_prefix ++ t
no_tag t e = absurd (ground (arith, e))

packed-IsPackedRef : All IsPackedRef packed
unfolding lacks
packed-IsPackedRef = (
  record {
    id = id_b-IsId;
    named = IsRef-of_lacks (codes "refs/heads/main") refl refl refl;
    peels = tt;
    untagged = λ f. no_tag;
  },
  (
    record {
      id = id_b-IsId;
      named = IsRef-of_lacks (codes "refs/tags/v1") refl refl refl;
      peels = id_a-IsId;
      untagged = λ f. cc;
    },
    (
      record {
        id = id_a-IsId;
        named = IsRef-of_lacks (codes "refs/tags/v2") refl refl refl;
        peels = tt;
        untagged = λ f. cc;
      },
      tt,
    ),
  ),
)

parse_pack-print_example :
    parse_pack id_a (print_pack packed) nothing_parsed
    ≡ some (ok (record { unpeeled_tags = []; peeled_tags = tags packed; res = names id_a packed }))
parse_pack-print_example = parse_pack-print id_a packed packed-IsPackedRef

-- Both tags lead to the commit, the first through an annotated tag.
names_run : names id_a packed ≡ codes "v1" ∷ codes "v2" ∷ []
unfolding str_eq cmp_views cmp_prefix
names_run = refl

abbrev file_stat : Stat
file_stat = record { mtim_sec = 9; mtim_nsec = 0; size = 3; ino = 1; mode = 0o100644; gid = 0 }

abbrev attempt : Attempt
attempt = record { is_open = true; content = some (codes "abc"); stat = some file_stat }

abbrev tag_ref : Ref
tag_ref = record {
  name = codes "refs/tags/v3";
  is_symbolic = false;
  target = unhex_pairs oid_a;
  target_peel = none;
}

abbrev alias : Ref
alias = record { name = codes "refs/tags/v9"; is_symbolic = true; target = []; target_peel = none }

abbrev refdb : Refdb
refdb = record {
  lookup = λ name. if str_eq true name (codes "refs/tags/v9") then some alias else some tag_ref;
  tag_lookup = λ _. none;
}

tag_has_target_symbolic_example :
    tag_has_target refdb (codes "refs/tags/v9") (unhex_pairs oid_a) ≡ false
tag_has_target_symbolic_example =
    tag_has_target_symbolic refdb (codes "refs/tags/v9") (unhex_pairs oid_a) alias found refl refl
  where
    found : refdb.lookup (codes "refs/tags/v9") ≡ some alias
    found = unfold str_eq cmp_views cmp_prefix in refl

abbrev stale : Stale
stale = record { unpeeled = λ i. []; peeled = λ i. [] }

abbrev known : TagDb
known = record {
  pack_stat = file_stat;
  pack = [];
  unpeeled_tags = [];
  peeled_tags = record { ref = codes "refs/tags/v1"; commit = unhex_pairs oid_a } ∷ [];
}
