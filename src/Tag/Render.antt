-- ===== src/Tag/Render.antt =====
-- What git writes to `packed-refs`, and what ParsePack makes of it.
use gitstatus.Tag.{
  has_word, parse_entries, parse_pack, Parsed, add_tag, parse_entry, parse_peel, Tag, cut_line,
  hex_size, parse_oid, strip_tag, trim_cr, unhex_pairs,
}
use gitstatus.Text.{cmp_prefix, starts_with, Bytes, codes, str_eq}
use gitstatus.Common.{
  Bool-cases, Option-cases, inl, inr, suc, zero, ◌<◌, ◌∙◌, ◌≢◌, ◌≤◌, All, Bool, List, Option, [],
  ap, arith, drop, false, if◌then◌else◌, leb, length, length-append, none, refl, some, take, true,
  ℕ, ◌&&◌, ◌++◌, ◌==◌, ◌||◌, ◌∷◌, ◌≡◌,
}
use mathlib.Core.List.{append-nil, append_assoc}
use gitstatus.Common.Outcome.{ok}
use gitstatus.Text.Find.{Lacks, take-append}
use mathlib.Core.Path.{subst}

pub record Line : Type 0 where
  pub oid : Bytes
  pub ref : Bytes
  pub peel : Option Bytes

abbrev pub is_hex : ℕ → Bool
is_hex c = (leb b'0' c && leb c b'9') || (leb b'a' c && leb c b'f')

-- The 40 hex digits of an object id.
abbrev pub IsOid : Bytes → Type 0
IsOid h = (length h ≡ hex_size) × All (λ c. is_hex c ≡ true) h

-- The name of a reference has no null character, no line feed and no carriage return.
abbrev pub IsRef : Bytes → Type 0
IsRef r = Lacks 0 r × Lacks 10 r × Lacks 13 r

abbrev pub IsPeel : Option Bytes → Type 0
IsPeel none = Unit
IsPeel (some h) = IsOid h

abbrev pub IsLine : Line → Type 0
IsLine l = IsOid l.oid × IsRef l.ref × IsPeel l.peel

abbrev pub render_peel : Option Bytes → Bytes → Bytes
render_peel none more = more
render_peel (some h) more = b'^' ∷ (h ++ 10 ∷ more)

abbrev pub render : List Line → Bytes
render [] = []
render (l ∷ ls) = l.oid ++ b' ' ∷ (l.ref ++ 10 ∷ render_peel l.peel (render ls))

-- # pack-refs with: peeled fully-peeled sorted
abbrev pub header : Bytes
header = codes "# pack-refs with: peeled fully-peeled sorted "

-- The object that a line names: behind an annotated tag, the object that the tag points to.
abbrev pub target_hex : Line → Bytes
target_hex l = elim l.peel [ none ↦ l.oid | some h ↦ h ]

-- The lines that are tags, as ParsePack keeps them.
abbrev pub tags_of : List Line → List Tag
tags_of [] = []
tags_of (l ∷ ls) = elim (strip_tag l.ref) [
  | none ↦ tags_of ls
  | some _ ↦ record { ref = l.ref; commit = unhex_pairs (target_hex l) } ∷ tags_of ls
]

-- The names of the tags that point to the commit.
abbrev pub names_of : Bytes → List Line → List Bytes
names_of wanted [] = []
names_of wanted (l ∷ ls) = elim (strip_tag l.ref) [
  | none ↦ names_of wanted ls
  | some name ↦
      if str_eq true (unhex_pairs (target_hex l)) wanted
      then name ∷ names_of wanted ls
      else names_of wanted ls
]

cut_line-append : (l r : Bytes) → Lacks 0 l → Lacks 10 l → cut_line (l ++ 10 ∷ r) ≡ some (l, r)
unfolding cut_line
cut_line-append [] r h k = refl
cut_line-append (c ∷ l) r h k =
    rw (cut_line-append l r h.1 k.1, cut_line) (ground (arith, h.0, k.0))

trim_cr-Lacks : (s : Bytes) → Lacks 13 s → trim_cr s ≡ s
unfolding trim_cr
trim_cr-Lacks [] h = refl
trim_cr-Lacks (c ∷ []) h = ground (arith, h.0)
trim_cr-Lacks (c ∷ d ∷ s) h = ap (◌∷◌ c) (trim_cr-Lacks (d ∷ s) h.1)

take-oid : (h t : Bytes) → length h ≡ hex_size → take hex_size (h ++ t) ≡ h
take-oid h t e = subst (λ n. take n (h ++ t) ≡ h) e (take-append h t)

drop-exact : (s t : Bytes) → drop (length s) (s ++ t) ≡ t
drop-exact [] t = refl
drop-exact (c ∷ s) t = drop-exact s t

drop-oid : (h t : Bytes) → length h ≡ hex_size → drop hex_size (h ++ t) ≡ t
drop-oid h t e = subst (λ n. drop n (h ++ t) ≡ t) e (drop-exact h t)

parse_oid-oid : (h t : Bytes) → length h ≡ hex_size → parse_oid (h ++ t) ≡ ok (unhex_pairs h)
unfolding parse_oid
parse_oid-oid h t e = rw (parse_oid, long, take-oid h t e) refl
  where
    long : leb hex_size (length (h ++ t)) ≡ true
    long = ground (arith, length-append h t)

-- The next line does not look like a peeled object.
abbrev NoCaret : Bytes → Type 0
NoCaret [] = Unit
NoCaret (c ∷ s) = (c == b'^') ≡ false

oid-NoCaret : (h t : Bytes) → IsOid h → NoCaret (h ++ t)
oid-NoCaret [] t h = absurd (omega (arith, h.0))
oid-NoCaret (c ∷ s) t h = ground (arith, h.1.0)

render-NoCaret : (ls : List Line) → All IsLine ls → NoCaret (render ls)
render-NoCaret [] h = tt
render-NoCaret (l ∷ ls) h = oid-NoCaret l.oid _ h.0.0

parse_peel-render :
    (hex : Bytes) (peel : Option Bytes) (more : Bytes)
    → IsPeel peel
    → NoCaret more
    → parse_peel (unhex_pairs hex) (render_peel peel more)
      ≡ ok (unhex_pairs (elim peel [ none ↦ hex | some h ↦ h ]), more)
unfolding parse_peel
parse_peel-render hex none [] p n = refl
parse_peel-render hex none (c ∷ more) p n = rw n refl
parse_peel-render hex (some h) more p n =
    rw (parse_oid-oid h (10 ∷ more) p.0, drop-oid h (10 ∷ more) p.0) refl

parse_entry-render :
    (wanted : Bytes) (l : Line) (more : Bytes) (st : Parsed)
    → IsLine l
    → NoCaret more
    → parse_entry true wanted (l.oid ++ b' ' ∷ (l.ref ++ 10 ∷ render_peel l.peel more)) st
      ≡ ok (add_tag true wanted l.ref (unhex_pairs (target_hex l)) st, more)
unfolding parse_entry
parse_entry-render wanted l more st h n =
    rw
      (
        parse_oid-oid l.oid _ h.0.0,
        drop-oid l.oid _ h.0.0,
        cut_line-append l.ref (render_peel l.peel more) h.1.0 h.1.1,
        parse_peel-render l.oid l.peel more h.2 n,
        trim_cr-Lacks l.ref h.1.2,
      )
      refl

-- What ParsePack leaves after these lines.
abbrev pub grown : Bytes → List Line → Parsed → Parsed
grown wanted ls st = record {
  unpeeled_tags = st.unpeeled_tags;
  peeled_tags = st.peeled_tags ++ tags_of ls;
  res = st.res ++ names_of wanted ls;
}

grown-add_tag :
    (wanted : Bytes) (l : Line) (ls : List Line) (st : Parsed)
    → grown wanted ls (add_tag true wanted l.ref (unhex_pairs (target_hex l)) st)
      ≡ grown wanted (l ∷ ls) st
unfolding add_tag
grown-add_tag wanted l ls st = elim (Option-cases (strip_tag l.ref)) [
  | inl e ↦ rw (e, add_tag) refl
  | inr (name, e) ↦ elim (Bool-cases (str_eq true (unhex_pairs (target_hex l)) wanted)) [
    | inl f ↦ rw (e, add_tag, f, append_assoc st.peeled_tags, append_assoc st.res) refl
    | inr f ↦ rw (e, add_tag, f, append_assoc st.peeled_tags) refl
  ]
]

parse_entries-step :
    (fuel : ℕ) (wanted s rest : Bytes) (st st' : Parsed)
    → s ≢ []
    → parse_entry true wanted s st ≡ ok (st', rest)
    → parse_entries (suc fuel) true wanted s st ≡ parse_entries fuel true wanted rest st'
unfolding parse_entries
parse_entries-step fuel wanted [] rest st st' h e = absurd (h refl)
parse_entries-step fuel wanted (c ∷ s) rest st st' h e = rw (parse_entries, e) refl

length-render : (l : Line) (ls : List Line) → length (render ls) < length (render (l ∷ ls))
length-render (l) ls = elim (Option-cases l.peel) [
  | inl e ↦ rw e (
      omega (
        arith,
        length-append l.oid (b' ' ∷ (l.ref ++ 10 ∷ render ls)),
        length-append l.ref (10 ∷ render ls),
      ))
  | inr (h, e) ↦ rw e (
      omega (
        arith,
        length-append l.oid (b' ' ∷ (l.ref ++ 10 ∷ b'^' ∷ (h ++ 10 ∷ render ls))),
        length-append l.ref (10 ∷ b'^' ∷ (h ++ 10 ∷ render ls)),
        length-append h (10 ∷ render ls),
      ))
]

parse_entries-render :
    (fuel : ℕ) (wanted : Bytes) (ls : List Line) (st : Parsed)
    → All IsLine ls
    → length (render ls) ≤ fuel
    → parse_entries fuel true wanted (render ls) st ≡ some (ok (grown wanted ls st))
parse_entries-render fuel wanted [] st h k =
    unfold parse_entries in rw (append-nil st.peeled_tags, append-nil st.res) refl
parse_entries-render zero wanted (l ∷ ls) st h k = absurd (omega (arith, length-render l ls))
parse_entries-render (suc fuel) wanted (l ∷ ls) st h k =
    parse_entries-step fuel wanted (render (l ∷ ls)) (render ls) st _ nonempty
      (parse_entry-render wanted l (render ls) st h.0 (render-NoCaret ls h.1))
    ∙ parse_entries-render fuel wanted ls _ h.1 (omega (arith, length-render l ls))
    ∙ ap (λ p. some (ok p)) (grown-add_tag wanted l ls st)
  where
    nonempty : render (l ∷ ls) ≢ []
    nonempty e = absurd (omega (arith, length-render l ls, ap length e))

-- ParsePack reads back what git writes. For a file with the header of fully peeled references it
-- adds the tags of the lines, each with the object that it points to, to those that it held before,
-- which it does not drop, and returns the names of the tags of the commit in the order of the file.
pub parse_pack-hex :
    (wanted : Bytes) (ls : List Line) (st : Parsed)
    → All IsLine ls
    → parse_pack wanted (header ++ 10 ∷ render ls) st ≡ some (ok (grown wanted ls st))
unfolding parse_pack has_word starts_with cmp_prefix cut_line
parse_pack-hex wanted ls st h =
    parse_entries-render (length (render ls)) wanted ls st h (omega arith)
