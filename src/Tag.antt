-- ===== src/Tag.antt =====
-- The parsing of `packed-refs` in src/tag_db.cc: kUnhex, ParseOid, StripTag and ParsePack.
-- The buffer `pack_` is the list of its bytes; behind its end stands a null character.
pub mod Render
pub mod Print
pub mod Db
pub mod Loose
use gitstatus.Common.{
  Bool, List, Option, [], drop, false, if◌then◌else◌, leb, length, none, some, suc, take, true,
  zero, ℕ, ◌&&◌, ◌*◌, ◌++◌, ◌+◌, ◌-◌, ◌==◌, ◌||◌, ◌∷◌,
}
use gitstatus.Common.Outcome.{Outcome, aborts, exits, ok, throws, verify, ◌>>=◌, ◌>>◌}
use gitstatus.Text.{Bytes, codes, starts_with, str_eq}
use mathlib.Core.Option

-- kUnhex, 0 for every other character.
abbrev pub unhex : ℕ → ℕ
unhex c =
    if leb b'0' c && leb c b'9'
    then c - b'0'
    else if leb b'A' c && leb c b'F'
    then c - b'A' + 10
    else if leb b'a' c && leb c b'f'
    then c - b'a' + 10
    else 0

-- The loop of ParseOid: a byte from each two digits. The two halves of a byte share no bits.
unfoldable pub unhex_pairs : Bytes → Bytes
unhex_pairs [] = []
unhex_pairs (a ∷ []) = []
unhex_pairs (a ∷ b ∷ s) = (unhex a * 16 + unhex b) ∷ unhex_pairs s

-- GIT_OID_HEXSZ
abbrev pub hex_size : ℕ
hex_size = 40

-- ParseOid, where `s` runs from `begin` to `end`.
unfoldable pub parse_oid : Bytes → Outcome Bytes
unfolding unhex_pairs
parse_oid s = do verify (leb hex_size (length s)); ok (unhex_pairs (take hex_size s))

-- kTagPrefix
abbrev pub tag_prefix : Bytes
tag_prefix = codes "refs/tags/"

-- The loop of StripTag over the characters of the prefix.
unfoldable pub strip_chars : Bytes → Bytes → Option Bytes
strip_chars [] ref = some ref
strip_chars (c ∷ cs) [] = none
strip_chars (c ∷ cs) (d ∷ ref) = let rest = strip_chars cs ref in if d == c then rest else none

-- StripTag
unfoldable pub strip_tag : Bytes → Option Bytes
unfolding strip_chars
strip_tag ref = strip_chars tag_prefix ref

-- std::strchr(p, '\n'): the line before it and what is behind it. A null character ends the search.
unfoldable pub cut_line : Bytes → Option (Bytes × Bytes)
cut_line [] = none
cut_line (c ∷ s) =
    let rest = cut_line s in
    if c == 0
    then none
    else if c == 10
    then some ([], s)
    else Option.map (λ (l, r). (c ∷ l, r)) rest

-- std::strstr(line, word) != nullptr
unfoldable pub has_word : Bytes → Bytes → Bool
has_word word [] = starts_with [] word
has_word word (c ∷ s) = let rest = has_word word s in starts_with (c ∷ s) word || rest

-- p[p[-1] == '\r' ? -1 : 0] = 0
unfoldable pub trim_cr : Bytes → Bytes
trim_cr [] = []
trim_cr (c ∷ []) = if c == 13 then [] else c ∷ []
trim_cr (c ∷ d ∷ s) = c ∷ trim_cr (d ∷ s)

-- TagDb::Tag
pub record Tag : Type 0 where
  pub ref : Bytes
  pub commit : Bytes

-- The members that ParsePack appends to, and its result `res`.
pub record Parsed : Type 0 where
  pub unpeeled_tags : List Bytes
  pub peeled_tags : List Tag
  pub res : List Bytes

-- if (*p == '^'), with `oid` and `p` afterwards.
unfoldable pub parse_peel : Bytes → Bytes → Outcome (Bytes × Bytes)
unfolding parse_oid cut_line
parse_peel oid [] = ok (oid, [])
parse_peel oid (c ∷ s) =
    if c == b'^'
    then (do
      peel ← parse_oid s
      elim (drop hex_size s) [
        | [] ↦ ok (peel, [])
        | d ∷ rest ↦ elim (cut_line (d ∷ rest)) [
          | none ↦ throws
          | some (l, after) ↦ ok (peel, after)
        ]
      ])
    else ok (oid, c ∷ s)

-- From StripTag to the end of the body.
unfoldable pub add_tag : Bool → Bytes → Bytes → Bytes → Parsed → Parsed
unfolding strip_tag
add_tag peeled commit ref oid st = elim (strip_tag ref) [
  | none ↦ st
  | some tag ↦
      if peeled
      then record st {
        peeled_tags = st.peeled_tags ++ record { ref = ref; commit = oid } ∷ [];
        res = if str_eq true oid commit then st.res ++ tag ∷ [] else st.res;
      }
      else record st { unpeeled_tags = st.unpeeled_tags ++ ref ∷ [] }
]

-- The body of the loop, with what is left of the buffer.
unfoldable pub parse_entry : Bool → Bytes → Bytes → Parsed → Outcome (Parsed × Bytes)
unfolding parse_oid cut_line trim_cr parse_peel add_tag
parse_entry peeled commit s st = do
  oid ← parse_oid s
  elim (drop hex_size s) [
    | [] ↦ throws
    | c ∷ after ↦ do
      verify (c == b' ')
      elim (cut_line after) [
        | none ↦ throws
        | some (line, rest) ↦ do
          peel ← parse_peel oid rest
          ok (add_tag peeled commit (trim_cr line) peel.0 st, peel.1)
      ]
  ]

-- while (p != e), for at most `fuel` rounds. A round takes more than 40 bytes, so as many rounds as
-- bytes are enough; none for the rounds that are used up.
unfoldable pub parse_entries : ℕ → Bool → Bytes → Bytes → Parsed → Option (Outcome Parsed)
unfolding parse_entry
parse_entries fuel peeled commit [] st = some (ok st)
parse_entries zero peeled commit (c ∷ s) st = none
parse_entries (suc fuel) peeled commit (c ∷ s) st = elim (parse_entry peeled commit (c ∷ s) st) [
  | ok (st', rest) ↦ parse_entries fuel peeled commit rest st'
  | throws ↦ some throws
  | aborts ↦ some aborts
  | exits n ↦ some (exits n)
]

-- " fully-peeled "
abbrev pub fully_peeled : Bytes
fully_peeled = codes " fully-peeled "

-- ParsePack up to the sorting, which leaves the same tags in another order.
unfoldable pub parse_pack : Bytes → Bytes → Parsed → Option (Outcome Parsed)
unfolding parse_entries cut_line has_word
parse_pack commit [] st = some (ok st)
parse_pack commit (c ∷ s) st =
    if c == b'#'
    then elim (cut_line (c ∷ s)) [
      | none ↦ some (ok st)
      | some (line, rest) ↦ parse_entries (length rest) (has_word fully_peeled line) commit rest st
    ]
    else parse_entries (suc (length s)) false commit (c ∷ s) st
