-- ===== src/Text/Lex.antt =====
-- The order of byte strings that the comparison routines implement: lexicographic, by a key.
use gitstatus.Common.{◌≢◌, ◌≡◌, refl, [], ◌∷◌, arith}
use Prim.Native.Nat.{compare, Ordering}
use gitstatus.Text.{Bytes}

unfoldable pub lex : Bytes → Bytes → Ordering
lex [] [] = Ordering.eq
lex [] (b ∷ y) = Ordering.lt
lex (a ∷ x) [] = Ordering.gt
lex (a ∷ x) (b ∷ y) = elim (compare a b) [
  | Ordering.lt ↦ Ordering.lt
  | Ordering.eq ↦ lex x y
  | Ordering.gt ↦ Ordering.gt
]

pub lex_refl : (x : Bytes) → lex x x ≡ Ordering.eq
unfolding lex
lex_refl [] = refl
lex_refl (a ∷ x) = ground (arith, lex_refl x)

pub lex-eq : (x y : Bytes) → lex x y ≡ Ordering.eq → x ≡ y
unfolding lex
lex-eq [] [] h = refl
lex-eq [] (b ∷ y) h = cc
lex-eq (a ∷ x) [] h = cc
lex-eq (a ∷ x) (b ∷ y) h = ground (arith, lex-eq x y)

abbrev pub swap : Ordering → Ordering
swap Ordering.lt = Ordering.gt
swap Ordering.eq = Ordering.eq
swap Ordering.gt = Ordering.lt

pub lex-swap : (x y : Bytes) → lex y x ≡ swap (lex x y)
unfolding lex
lex-swap [] [] = refl
lex-swap [] (b ∷ y) = refl
lex-swap (a ∷ x) [] = refl
lex-swap (a ∷ x) (b ∷ y) = ground (arith, lex-swap x y)

pub lex_trans :
    (x y z : Bytes) → lex x y ≡ Ordering.lt → lex y z ≡ Ordering.lt → lex x z ≡ Ordering.lt
unfolding lex
lex_trans [] [] z h k = cc
lex_trans [] (b ∷ y) [] h k = cc
lex_trans [] (b ∷ y) (c ∷ z) h k = refl
lex_trans (a ∷ x) [] z h k = cc
lex_trans (a ∷ x) (b ∷ y) [] h k = cc
lex_trans (a ∷ x) (b ∷ y) (c ∷ z) h k = ground (arith, lex_trans x y z)

-- What is below a string is below every string that is not below that one.
pub lex_lt_le :
    (x y z : Bytes) → lex x y ≡ Ordering.lt → lex z y ≢ Ordering.lt → lex x z ≡ Ordering.lt
unfolding lex
lex_lt_le [] [] z h k = cc
lex_lt_le [] (b ∷ y) [] h k = absurd (k refl)
lex_lt_le [] (b ∷ y) (c ∷ z) h k = refl
lex_lt_le (a ∷ x) [] z h k = cc
lex_lt_le (a ∷ x) (b ∷ y) [] h k = absurd (k refl)
lex_lt_le (a ∷ x) (b ∷ y) (c ∷ z) h k = ground (arith, lex_lt_le x y z)
