-- ===== src/Text/Compare.antt =====
-- The comparison routines of src/string_cmp.h and the lexicographic order.
use gitstatus.Text.{
  str_eq, cmp_prefix, starts_with, Bytes, NoNul, key, cmp_views, cmp_view_str, cmp_strs, str_lt,
}
use gitstatus.Common.{
  drop, length-append, ◌++◌, ◌≤◌, sym, Bool-cases, inl, inr, ℕ, suc, min, ◌≡◌, refl, ◌∙◌, ◌≢◌,
  ℕ_discrete, ==_iff, Bool, true, false, [], ◌∷◌, map, arith, length, ◌↔◌,
}
use gitstatus.Common.Int.{is_zero, sign, sub_ℕ}
use gitstatus.Text.Lex.{lex_lt_le, lex, lex_trans, lex_refl}
use mathlib.Core.Bool.{true≢false}
use Prim.Native.Nat.{Ordering}

pub cmp_strs-lex :
    (cs : Bool) (x y : Bytes)
    → NoNul x
    → NoNul y
    → sign (cmp_strs cs x y) ≡ lex (map (key cs) x) (map (key cs) y)
unfolding cmp_strs lex
cmp_strs-lex cs [] [] hx hy = refl
cmp_strs-lex cs [] (b ∷ y) hx hy = ground arith
cmp_strs-lex cs (a ∷ x) [] hx hy = ground arith
cmp_strs-lex cs (a ∷ x) (b ∷ y) hx hy = ground (arith, cmp_strs-lex cs x y)

pub cmp_view_str-lex :
    (cs : Bool) (x y : Bytes)
    → NoNul x
    → NoNul y
    → sign (cmp_view_str cs x y) ≡ lex (map (key cs) x) (map (key cs) y)
unfolding cmp_view_str lex
cmp_view_str-lex cs [] [] hx hy = refl
cmp_view_str-lex cs [] (b ∷ y) hx hy = ground arith
cmp_view_str-lex cs (a ∷ x) [] hx hy = ground arith
cmp_view_str-lex cs (a ∷ x) (b ∷ y) hx hy = ground (arith, cmp_view_str-lex cs x y)

sub_ℕ-suc : (n m : ℕ) → sub_ℕ (suc n) (suc m) ≡ sub_ℕ n m
sub_ℕ-suc n m = ground arith

min-suc : (n m : ℕ) → min (suc n) (suc m) ≡ suc (min n m)
min-suc n m = omega arith

cmp_views-cons_eq :
    (cs : Bool) (a b : ℕ) (x y : Bytes)
    → key cs a ≡ key cs b
    → cmp_views cs (a ∷ x) (b ∷ y) ≡ cmp_views cs x y
unfolding cmp_views
cmp_views-cons_eq cs a b x y e =
    rw (min-suc (length x) (length y), sub_ℕ-suc (length x) (length y))
      (ground (arith, (==_iff (key cs a) (key cs b)).1 e))

cmp_views-cons_ne :
    (cs : Bool) (a b : ℕ) (x y : Bytes)
    → key cs a ≢ key cs b
    → cmp_views cs (a ∷ x) (b ∷ y) ≡ sub_ℕ (key cs a) (key cs b)
unfolding cmp_views
cmp_views-cons_ne cs a b x y e = rw (min-suc (length x) (length y)) (ground arith)

lex-cons_ne : (a b : ℕ) (x y : Bytes) → a ≢ b → sign (sub_ℕ a b) ≡ lex (a ∷ x) (b ∷ y)
unfolding lex
lex-cons_ne a b x y e = ground arith

lex-cons_eq : (a b : ℕ) (x y : Bytes) → a ≡ b → lex x y ≡ lex (a ∷ x) (b ∷ y)
unfolding lex
lex-cons_eq a b x y e = ground arith

pub cmp_views-lex :
    (cs : Bool) (x y : Bytes) → sign (cmp_views cs x y) ≡ lex (map (key cs) x) (map (key cs) y)
cmp_views-lex cs [] [] = unfold cmp_views lex in refl
cmp_views-lex cs [] (b ∷ y) = unfold cmp_views lex in ground arith
cmp_views-lex cs (a ∷ x) [] = unfold cmp_views lex in ground arith
cmp_views-lex cs (a ∷ x) (b ∷ y) = elim (ℕ_discrete (key cs a) (key cs b)) [
  | yes e ↦ rw (cmp_views-cons_eq cs a b x y e) (cmp_views-lex cs x y ∙ lex-cons_eq _ _ _ _ e)
  | no e ↦ rw (cmp_views-cons_ne cs a b x y e) (lex-cons_ne _ _ _ _ e)
]

-- The order as a test: `str_lt` holds exactly when the keyed strings are in lexicographic order.
pub str_lt-lex :
    (cs : Bool) (x y : Bytes)
    → (str_lt cs x y ≡ true) ↔ (lex (map (key cs) x) (map (key cs) y) ≡ Ordering.lt)
unfolding str_lt
str_lt-lex cs x y =
    (λ h. ground (arith, cmp_views-lex cs x y), λ h. ground (arith, cmp_views-lex cs x y))

pub str_lt_trans :
    (cs : Bool) (x y z : Bytes) → str_lt cs x y ≡ true → str_lt cs y z ≡ true → str_lt cs x z ≡ true
str_lt_trans cs x y z h k =
    (str_lt-lex cs x z).1 (lex_trans _ _ _ ((str_lt-lex cs x y).0 h) ((str_lt-lex cs y z).0 k))

pub str_lt_irrefl : (cs : Bool) (x : Bytes) → str_lt cs x x ≡ false
unfolding str_lt
str_lt_irrefl cs x = ground (arith, cmp_views-lex cs x x, lex_refl (map (key cs) x))

pub str_lt-nil : (cs : Bool) (x : Bytes) → str_lt cs x [] ≡ false
unfolding str_lt lex
str_lt-nil cs [] = ground (arith, cmp_views-lex cs [] [])
str_lt-nil cs (a ∷ x) = ground (arith, cmp_views-lex cs (a ∷ x) [])

pub str_lt_asymm : (cs : Bool) (x y : Bytes) → str_lt cs x y ≡ true → str_lt cs y x ≡ false
str_lt_asymm cs x y h = elim (Bool-cases (str_lt cs y x)) [
  | inr e ↦ e
  | inl e ↦ cc (str_lt_irrefl cs x, str_lt_trans cs x y x h e)
]

pub str_lt_le :
    (cs : Bool) (x y z : Bytes)
    → str_lt cs x y ≡ true
    → str_lt cs z y ≡ false
    → str_lt cs x z ≡ true
str_lt_le cs x y z h k = (str_lt-lex cs x z).1 (
    lex_lt_le _ _ _ ((str_lt-lex cs x y).0 h) (λ e. true≢false (sym ((str_lt-lex cs z y).1 e) ∙ k)))

-- "Not less" is transitive.
pub not_lt_trans :
    (cs : Bool) (x y z : Bytes)
    → str_lt cs y x ≡ false
    → str_lt cs z y ≡ false
    → str_lt cs z x ≡ false
not_lt_trans cs x y z h k = elim (Bool-cases (str_lt cs z x)) [
  | inr e ↦ e
  | inl e ↦ absurd (true≢false (sym (str_lt_le cs z x y e h) ∙ k))
]

cmp_prefix-same :
    (s prefix : Bytes)
    → length prefix ≤ length s
    → is_zero (cmp_prefix true (length prefix) s prefix) ≡ true
    → s ≡ prefix ++ drop (length prefix) s
unfolding cmp_prefix
cmp_prefix-same s [] h e = refl
cmp_prefix-same [] (b ∷ p) h e = absurd (omega arith)
cmp_prefix-same (a ∷ s) (b ∷ p) h e = ground (arith, cmp_prefix-same s p)

cmp_prefix-append :
    (prefix t : Bytes) → is_zero (cmp_prefix true (length prefix) (prefix ++ t) prefix) ≡ true
unfolding cmp_prefix
cmp_prefix-append [] t = refl
cmp_prefix-append (b ∷ p) t = ground (arith, cmp_prefix-append p t)

-- `StartsWith` holds exactly of the strings that begin with the prefix.
pub starts_with-cut :
    (s prefix : Bytes) → starts_with s prefix ≡ true → s ≡ prefix ++ drop (length prefix) s
unfolding starts_with
starts_with-cut s prefix h = ground (arith, cmp_prefix-same s prefix)

pub starts_with-append : (prefix t : Bytes) → starts_with (prefix ++ t) prefix ≡ true
unfolding starts_with
starts_with-append prefix t = ground (arith, cmp_prefix-append prefix t, length-append prefix t)

pub str_eq_refl : (cs : Bool) (x : Bytes) → str_eq cs x x ≡ true
unfolding str_eq
str_eq_refl cs x = ground (arith, cmp_views-lex cs x x, lex_refl (map (key cs) x))
