-- ===== src/Text.antt =====
-- src/string_cmp.h, src/string_view.h and src/algorithm.h: byte strings and their comparison.
-- A `StringView` and a NUL-terminated `const char*` are both the list of their bytes, without the
-- terminator; `char` is unsigned (Makefile: -funsigned-char). `case_sensitive` is the template
-- argument of `StrCmp`, and `StrCmp<-1>` passes its run-time flag.
pub mod Lex
pub mod Compare
pub mod Sort
pub mod Overloads
pub mod Find
use Prim.Native.Char.{code}
use Prim.Native.String.{String}
use gitstatus.Common.{
  ℕ, zero, suc, ◌+◌, ◌≤◌, ◌<◌, min, Bool, true, false, not, ◌&&◌, List, [], ◌∷◌, ◌++◌, All, length,
  leb, ◌==◌, if◌then◌else◌,
}
use gitstatus.Common.Int.{ℤ, pos, sub_ℕ, neg, ltb_ℤ, is_zero}

abbrev pub Bytes : Type 0
Bytes = List ℕ

-- The bytes of a text, for ASCII texts.
abbrev pub codes : String → Bytes
codes String.[] = []
codes (String.◌∷◌ c s) = code c ∷ codes s

-- What a function that takes a NUL-terminated string reads of some bytes.
abbrev pub c_str : Bytes → Bytes
c_str [] = []
c_str (c ∷ s) = let rest = c ∷ c_str s in if c == 0 then [] else rest

-- The warning of string_cmp.h: no embedded null characters.
abbrev pub NoNul : Bytes → Type 0
NoNul = All (λ c. 0 < c)

-- std::tolower in the C locale.
abbrev pub tolower : ℕ → ℕ
tolower c = if leb b'A' c && leb c b'Z' then c + 32 else c

-- The value by which a character is compared.
abbrev pub key : Bool → ℕ → ℕ
key true c = c
key false c = tolower c

-- std::memcmp and strncasecmp over the first n bytes: the difference of the first two that differ.
unfoldable pub cmp_prefix : Bool → ℕ → Bytes → Bytes → ℤ
cmp_prefix cs zero x y = pos 0
cmp_prefix cs (suc n) [] y = pos 0
cmp_prefix cs (suc n) (a ∷ x) [] = pos 0
cmp_prefix cs (suc n) (a ∷ x) (b ∷ y) =
    let rest = cmp_prefix cs n x y in
    if key cs a == key cs b then rest else sub_ℕ (key cs a) (key cs b)

-- operator()(StringView, StringView)
unfoldable pub cmp_views : Bool → Bytes → Bytes → ℤ
unfolding cmp_prefix
cmp_views cs x y =
    let cmp = cmp_prefix cs (min (length x) (length y)) x y in
    if not (is_zero cmp) then cmp else sub_ℕ (length x) (length y)

-- operator()(StringView, const char*): the end of `y` reads as its null character.
unfoldable pub cmp_view_str : Bool → Bytes → Bytes → ℤ
cmp_view_str cs [] [] = sub_ℕ 0 0
cmp_view_str cs [] (b ∷ y) = sub_ℕ 0 b
cmp_view_str cs (a ∷ x) [] = sub_ℕ (key cs a) (key cs 0)
cmp_view_str cs (a ∷ x) (b ∷ y) =
    let rest = cmp_view_str cs x y in
    if is_zero (sub_ℕ (key cs a) (key cs b)) then rest else sub_ℕ (key cs a) (key cs b)

-- operator()(char, char)
pub cmp_char : Bool → ℕ → ℕ → ℤ
cmp_char cs a b = sub_ℕ (key cs a) (key cs b)

-- operator()(const char*, const char*): strcmp and strcasecmp.
unfoldable pub cmp_strs : Bool → Bytes → Bytes → ℤ
cmp_strs cs [] [] = pos 0
cmp_strs cs [] (b ∷ y) = sub_ℕ 0 (key cs b)
cmp_strs cs (a ∷ x) [] = sub_ℕ (key cs a) 0
cmp_strs cs (a ∷ x) (b ∷ y) =
    let rest = cmp_strs cs x y in if key cs a == key cs b then rest else sub_ℕ (key cs a) (key cs b)

-- operator()(const char*, StringView)
unfoldable pub cmp_str_view : Bool → Bytes → Bytes → ℤ
cmp_str_view cs x y = neg (cmp_view_str cs y x)

-- StrLt, over strings and over views.
unfoldable pub str_lt : Bool → Bytes → Bytes → Bool
unfolding cmp_views
str_lt cs x y = ltb_ℤ (cmp_views cs x y) (pos 0)

-- StrEq on two views, with its test of the lengths.
unfoldable pub str_eq : Bool → Bytes → Bytes → Bool
unfolding cmp_views
str_eq cs x y = length x == length y && is_zero (cmp_views cs x y)

-- StringView::StartsWith
unfoldable pub starts_with : Bytes → Bytes → Bool
unfolding cmp_prefix
starts_with s prefix =
    leb (length prefix) (length s) && is_zero (cmp_prefix true (length prefix) s prefix)
