-- ===== src/Tag/Print.antt =====
-- A file `packed-refs` of git as bytes of object ids and names, which ParsePack of src/tag_db.cc reads.
use gitstatus.Common.{
  All, Bool, List, Option, Option-cases, [], ap, arith, false, if◌then◌else◌, inl, inr, length, ltb,
  map, none, refl, some, true, ℕ, ◌%◌, ◌&&◌, ◌*◌, ◌++◌, ◌+◌, ◌-◌, ◌/◌, ◌<◌, ◌∙◌, ◌∷◌, ◌≡◌, ◌≢◌,
}
use gitstatus.Common.Outcome.{ok}
use gitstatus.Tag.{Parsed, Tag, parse_pack, strip_chars, strip_tag, tag_prefix, unhex, unhex_pairs}
use gitstatus.Tag.Render.{
  IsLine, IsOid, IsPeel, IsRef, Line, header, is_hex, names_of, parse_pack-hex, render, tags_of,
  target_hex,
}
use gitstatus.Text.{Bytes, str_eq}
use mathlib.Core.Option

-- A reference: its name, behind refs/tags/ if it is a tag, the bytes of its object's id and, for an
-- annotated tag, those of the object that the tag points to.
pub record PackedRef : Type 0 where
  pub oid : Bytes
  pub is_tag : Bool
  pub name : Bytes
  pub peel : Option Bytes

abbrev pub ref_of : PackedRef → Bytes
ref_of r = if r.is_tag then tag_prefix ++ r.name else r.name

-- Twenty bytes.
abbrev pub IsId : Bytes → Type 0
IsId s = (length s ≡ 20) × All (λ b. b < 256) s

abbrev pub IsPeelId : Option Bytes → Type 0
IsPeelId none = Unit
IsPeelId (some s) = IsId s

pub record IsPackedRef (r : PackedRef) : Type 0 where
  pub id : IsId r.oid
  pub named : IsRef (ref_of r)
  pub peels : IsPeelId r.peel
  pub untagged : r.is_tag ≡ false → (t : Bytes) → r.name ≢ tag_prefix ++ t

-- A digit from 0 to 9 or from a to f.
abbrev pub hex_digit : ℕ → ℕ
hex_digit n = if ltb n 10 then b'0' + n else b'a' + (n - 10)

-- Each byte as two digits.
abbrev pub hex : Bytes → Bytes
hex [] = []
hex (b ∷ s) = hex_digit (b / 16) ∷ hex_digit (b % 16) ∷ hex s

abbrev pub line_of : PackedRef → Line
line_of r = record { oid = hex r.oid; ref = ref_of r; peel = Option.map hex r.peel }

abbrev pub print_pack : List PackedRef → Bytes
print_pack rs = header ++ 10 ∷ render (map line_of rs)

abbrev pub object_of : PackedRef → Bytes
object_of r = elim r.peel [ none ↦ r.oid | some o ↦ o ]

-- The tags of the file, and the names of those that lead to a commit.
abbrev pub tags : List PackedRef → List Tag
tags [] = []
tags (r ∷ rs) =
    if r.is_tag
    then record { ref = tag_prefix ++ r.name; commit = object_of r } ∷ tags rs
    else tags rs

abbrev pub names : Bytes → List PackedRef → List Bytes
names wanted [] = []
names wanted (r ∷ rs) =
    if r.is_tag && str_eq true (object_of r) wanted
    then r.name ∷ names wanted rs
    else names wanted rs

abbrev pub nothing_parsed : Parsed
nothing_parsed = record { unpeeled_tags = []; peeled_tags = []; res = [] }

unhex-hex_digit : (n : ℕ) → n < 16 → unhex (hex_digit n) ≡ n
unhex-hex_digit n h = ground (arith, h)

hex_digit-is_hex : (n : ℕ) → n < 16 → is_hex (hex_digit n) ≡ true
hex_digit-is_hex n h = ground (arith, h)

unhex_pairs-hex : (s : Bytes) → All (λ b. b < 256) s → unhex_pairs (hex s) ≡ s
unfolding unhex_pairs
unhex_pairs-hex [] h = refl
unhex_pairs-hex (b ∷ s) h =
    rw
      (
        unhex-hex_digit (b / 16) (omega (arith, h.0)),
        unhex-hex_digit (b % 16) (omega arith),
        unhex_pairs-hex s h.1,
      )
      (ap (λ c. c ∷ s) (omega arith))

hex-All : (s : Bytes) → All (λ b. b < 256) s → All (λ c. is_hex c ≡ true) (hex s)
hex-All [] h = tt
hex-All (b ∷ s) h = (
  hex_digit-is_hex (b / 16) (omega (arith, h.0)),
  (hex_digit-is_hex (b % 16) (omega arith), hex-All s h.1),
)

length-hex : (s : Bytes) → length (hex s) ≡ 2 * length s
length-hex [] = refl
length-hex (b ∷ s) = omega (arith, length-hex s)

hex-IsOid : (s : Bytes) → IsId s → IsOid (hex s)
hex-IsOid s h = (omega (arith, length-hex s, h.0), hex-All s h.1)

digits-IsPeel : (p : Option Bytes) → IsPeelId p → IsPeel (Option.map hex p)
digits-IsPeel none h = tt
digits-IsPeel (some s) h = hex-IsOid s h

lines-IsLine : (rs : List PackedRef) → All IsPackedRef rs → All IsLine (map line_of rs)
lines-IsLine [] h = tt
lines-IsLine (r ∷ rs) h =
    ((hex-IsOid r.oid h.0.id, h.0.named, digits-IsPeel r.peel h.0.peels), lines-IsLine rs h.1)

object_is :
    (oid : Bytes) (peel : Option Bytes)
    → IsId oid
    → IsPeelId peel
    → unhex_pairs (elim (Option.map hex peel) [ none ↦ hex oid | some h ↦ h ])
      ≡ elim peel [ none ↦ oid | some o ↦ o ]
object_is oid none h p = unhex_pairs-hex oid h.1
object_is oid (some o) h p = unhex_pairs-hex o p.1

strip_chars-append : (cs s : Bytes) → strip_chars cs (cs ++ s) ≡ some s
unfolding strip_chars
strip_chars-append [] s = refl
strip_chars-append (c ∷ cs) s = ground (arith, strip_chars-append cs s)

strip_chars-some : (cs s t : Bytes) → strip_chars cs s ≡ some t → s ≡ cs ++ t
unfolding strip_chars
strip_chars-some [] s t e = grind (arith, e)
strip_chars-some (c ∷ cs) [] t e = absurd (cc)
strip_chars-some (c ∷ cs) (d ∷ s) t e = grind (arith, e, strip_chars-some cs s t)

strip_tag-tag : (s : Bytes) → strip_tag (tag_prefix ++ s) ≡ some s
unfolding strip_tag
strip_tag-tag s = strip_chars-append tag_prefix s

strip_tag-none : (s : Bytes) → ((t : Bytes) → s ≢ tag_prefix ++ t) → strip_tag s ≡ none
unfolding strip_tag
strip_tag-none s h = elim (Option-cases (strip_chars tag_prefix s)) [
  | inl e ↦ e
  | inr (t, e) ↦ absurd (h t (strip_chars-some tag_prefix s t e))
]

tags_of-some :
    (l : Line) (ls : List Line) (t : Bytes)
    → strip_tag l.ref ≡ some t
    → tags_of (l ∷ ls) ≡ record { ref = l.ref; commit = unhex_pairs (target_hex l) } ∷ tags_of ls
tags_of-some l ls t e = rw (tags_of, e) refl

tags_of-none : (l : Line) (ls : List Line) → strip_tag l.ref ≡ none → tags_of (l ∷ ls) ≡ tags_of ls
tags_of-none l ls e = rw (tags_of, e) refl

names_of-some :
    (wanted : Bytes) (l : Line) (ls : List Line) (t : Bytes)
    → strip_tag l.ref ≡ some t
    → names_of wanted (l ∷ ls) ≡ (
        if str_eq true (unhex_pairs (target_hex l)) wanted
        then t ∷ names_of wanted ls
        else names_of wanted ls)
names_of-some wanted l ls t e = rw (names_of, e) refl

names_of-none :
    (wanted : Bytes) (l : Line) (ls : List Line)
    → strip_tag l.ref ≡ none
    → names_of wanted (l ∷ ls) ≡ names_of wanted ls
names_of-none wanted l ls e = rw (names_of, e) refl

-- One reference in front of others.
abbrev IsRead : Bytes → PackedRef → List PackedRef → Type 0
IsRead wanted r rs =
    (tags_of (map line_of (r ∷ rs)) ≡ tags (r ∷ rs))
    × (names_of wanted (map line_of (r ∷ rs)) ≡ names wanted (r ∷ rs))

step-IsRead :
    (wanted oid name : Bytes) (b : Bool) (peel : Option Bytes) (rs : List PackedRef)
    → IsPackedRef (record { oid = oid; is_tag = b; name = name; peel = peel })
    → tags_of (map line_of rs) ≡ tags rs
    → names_of wanted (map line_of rs) ≡ names wanted rs
    → IsRead wanted (record { oid = oid; is_tag = b; name = name; peel = peel }) rs
step-IsRead wanted oid name true peel rs h t n =
    let l = line_of (record { oid = oid; is_tag = true; name = name; peel = peel }) in
    let same = object_is oid peel h.id h.peels in
    (
      tags_of-some l (map line_of rs) name (strip_tag-tag name)
          ∙ ap (λ c. record { ref = tag_prefix ++ name; commit = c } ∷ tags_of (map line_of rs))
              same
          ∙ ap
              (λ ts.
                record { ref = tag_prefix ++ name; commit = elim peel [ none ↦ oid | some o ↦ o ] }
                ∷ ts)
              t,
      names_of-some wanted l (map line_of rs) name (strip_tag-tag name)
          ∙ ap
              (λ c.
                if str_eq true c wanted
                then name ∷ names_of wanted (map line_of rs)
                else names_of wanted (map line_of rs))
              same
          ∙ ap
              (λ ns.
                if str_eq true (elim peel [ none ↦ oid | some o ↦ o ]) wanted
                then name ∷ ns
                else ns)
              n,
    )
step-IsRead wanted oid name false peel rs h t n =
    let l = line_of (record { oid = oid; is_tag = false; name = name; peel = peel }) in
    let bare = strip_tag-none name (h.untagged refl) in
    (tags_of-none l (map line_of rs) bare ∙ t, names_of-none wanted l (map line_of rs) bare ∙ n)

lines_read :
    (wanted : Bytes) (rs : List PackedRef)
    → All IsPackedRef rs
    → (tags_of (map line_of rs) ≡ tags rs) × (names_of wanted (map line_of rs) ≡ names wanted rs)
lines_read wanted [] h = (refl, refl)
lines_read wanted (r ∷ rs) h =
    let (t, n) = lines_read wanted rs h.1 in
    step-IsRead wanted r.oid r.name r.is_tag r.peel rs h.0 t n

-- ParsePack reads back a fully peeled file: from no tags on, it keeps each reference behind
-- refs/tags/ with the bytes of the id of the object that it points to, behind an annotated tag of that
-- tag's object, and no other, and it returns the names of the tags of the commit in the order of the
-- file.
pub parse_pack-print :
    (wanted : Bytes) (rs : List PackedRef)
    → All IsPackedRef rs
    → parse_pack wanted (print_pack rs) nothing_parsed
      ≡ some (ok (record { unpeeled_tags = []; peeled_tags = tags rs; res = names wanted rs }))
parse_pack-print wanted rs h =
    parse_pack-hex wanted (map line_of rs) nothing_parsed (lines-IsLine rs h)
    ∙ ap
        (λ (p : List Tag × List Bytes).
          some (ok (record { unpeeled_tags = []; peeled_tags = p.0; res = p.1 })))
        (λ i. ((lines_read wanted rs h).0 i, (lines_read wanted rs h).1 i))
