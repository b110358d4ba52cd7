-- ===== src/Text/Sort.antt =====
-- `StrSort` of src/string_cmp.h, which is std::sort by StrLt.
use Prim.Native.Nat.{Ordering}
use gitstatus.Common.{
  map, Bool, Bool-cases, List, [], ap, arith, false, if◌then◌else◌, inl, inr, length, refl, suc,
  sym, true, ◌∙◌, ◌∷◌, ◌≡◌,
}
use gitstatus.Text.{key, Bytes, str_lt}
use gitstatus.Text.Compare.{str_lt-lex, str_lt_trans, str_lt_asymm}
use gitstatus.Text.Lex.{lex, lex-eq, lex-swap, swap}
use mathlib.Core.Path.{subst}
use mathlib.Core.List.{Permᴰ}

unfoldable pub insert_str : Bool → Bytes → List Bytes → List Bytes
insert_str cs x [] = x ∷ []
insert_str cs x (y ∷ ys) =
    let rest = insert_str cs x ys in if str_lt cs y x then y ∷ rest else x ∷ y ∷ ys

-- StrSort
unfoldable pub str_sort : Bool → List Bytes → List Bytes
unfolding insert_str
str_sort cs [] = []
str_sort cs (s ∷ ss) = insert_str cs s (str_sort cs ss)

length-insert_str :
    (cs : Bool) (x : Bytes) (ys : List Bytes) → length (insert_str cs x ys) ≡ suc (length ys)
unfolding insert_str
length-insert_str cs x [] = refl
length-insert_str cs x (y ∷ ys) = ground (arith, length-insert_str cs x ys)

pub length-str_sort : (cs : Bool) (ss : List Bytes) → length (str_sort cs ss) ≡ length ss
unfolding str_sort
length-str_sort cs [] = refl
length-str_sort cs (s ∷ ss) =
    length-insert_str cs s (str_sort cs ss) ∙ ap suc (length-str_sort cs ss)

-- Two strings that are not ordered are equal, byte by byte.
str_lt_antisym : (x y : Bytes) → str_lt true x y ≡ false → str_lt true y x ≡ false → x ≡ y
str_lt_antisym x y h k = decide (lex x y) refl
  where
    whole : (z : Bytes) → map (key true) z ≡ z
    whole [] = refl
    whole (c ∷ z) = ap (◌∷◌ c) (whole z)

    below : (u v : Bytes) → lex u v ≡ Ordering.lt → str_lt true u v ≡ true
    below u v e = (str_lt-lex true u v).1 (
        subst (λ w. lex w (map (key true) v) ≡ Ordering.lt) (sym (whole u))
          (subst (λ w. lex u w ≡ Ordering.lt) (sym (whole v)) e))

    decide : (o : Ordering) → lex x y ≡ o → x ≡ y
    decide Ordering.eq e = lex-eq x y e
    decide Ordering.lt e = cc (below x y e, h)
    decide Ordering.gt e = cc (below y x (lex-swap x y ∙ ap swap e), k)

insert_str_lt :
    (x y : Bytes) (l : List Bytes)
    → str_lt true x y ≡ true
    → insert_str true x (insert_str true y l) ≡ insert_str true y (insert_str true x l)
unfolding insert_str
insert_str_lt x y [] h = ground (arith, h, str_lt_asymm true x y h)
insert_str_lt x y (z ∷ l) h =
    ground (arith, h, str_lt_asymm true x y h, insert_str_lt x y l h, str_lt_trans true z x y)

insert_str_comm :
    (x y : Bytes) (l : List Bytes)
    → insert_str true x (insert_str true y l) ≡ insert_str true y (insert_str true x l)
insert_str_comm x y l = elim (Bool-cases (str_lt true x y)) [
  | inl h ↦ insert_str_lt x y l h
  | inr h ↦ elim (Bool-cases (str_lt true y x)) [
    | inl k ↦ sym (insert_str_lt y x l k)
    | inr k ↦
        ap (λ z. insert_str true z (insert_str true y l)) (str_lt_antisym x y h k)
        ∙ ap (λ z. insert_str true y (insert_str true z l)) (sym (str_lt_antisym x y h k))
  ]
]

-- The order in which strings come does not change what StrSort makes of them.
pub str_sort_permuted : {xs ys : List Bytes} → Permᴰ xs ys → str_sort true xs ≡ str_sort true ys
unfolding str_sort
str_sort_permuted Permᴰ.nil = refl
str_sort_permuted (Permᴰ.cons {a} {b} {l₁} {l₂} e p) =
    ap (λ z. insert_str true z (str_sort true l₁)) e ∙ ap (insert_str true b) (str_sort_permuted p)
str_sort_permuted (Permᴰ.swap {a} {b} {a'} {b'} {l} e f) =
    ap (λ z. insert_str true z (insert_str true b (str_sort true l))) e
    ∙ ap (λ z. insert_str true b' (insert_str true z (str_sort true l))) f
    ∙ insert_str_comm b' a' (str_sort true l)
str_sort_permuted (Permᴰ.trans p q) = str_sort_permuted p ∙ str_sort_permuted q
