-- ===== src/Dir/Numbers.antt =====
-- The bytes of directory entries as numbers, in src/dir.cc.
use gitstatus.Text.{c_str, c_str, cmp_prefix, Bytes}
use gitstatus.Common.{
  Bool, ap, false, suc, true, zero, ℕ_discrete, ◌≤◌, All, [], arith, inl, inr, length, refl, ℕ, ◌*◌,
  ◌++◌, ◌+◌, ◌<◌, ◌∷◌, ◌≡◌, ◌≢◌, ◌⊎◌,
}
use gitstatus.Common.Int.{ltb_ℤ, pos}
use mathlib.Core.Path.{subst}
use gitstatus.Text.Lex.{lex}
use Prim.Native.Nat.{Ordering}

-- The bytes as a number, the highest first.
unfoldable pub horner : ℕ → Bytes → ℕ
horner acc [] = acc
horner acc (b ∷ s) = horner (acc * 256 + b) s

abbrev pub AreBytes : Bytes → Type 0
AreBytes = All (λ b. b < 256)

horner-lt :
    (m n : ℕ) (s t : Bytes)
    → m < n
    → AreBytes s
    → AreBytes t
    → length s ≡ length t
    → horner m s < horner n t
unfolding horner
horner-lt m n [] [] h a b e = h
horner-lt m n [] (y ∷ t) h a b e = absurd (omega (arith, e))
horner-lt m n (x ∷ s) [] h a b e = absurd (omega (arith, e))
horner-lt m n (x ∷ s) (y ∷ t) h a b e =
    horner-lt (m * 256 + x) (n * 256 + y) s t (omega (arith, h, a.0, b.0)) a.1 b.1
      (omega (arith, e))

-- How the parts of two entries that are read as numbers compare.
pub data Compared (m n : ℕ) (s t ra rb : Bytes) : Type 0 where
  below :
      horner m s < horner n t
      → lex (c_str (s ++ ra)) (c_str (t ++ rb)) ≡ Ordering.lt
      → Compared m n s t ra rb
  above :
      horner n t < horner m s
      → lex (c_str (s ++ ra)) (c_str (t ++ rb)) ≡ Ordering.gt
      → Compared m n s t ra rb
  level :
      s ≡ t
      → c_str ra ≢ c_str rb
      → lex (c_str (s ++ ra)) (c_str (t ++ rb)) ≡ lex (c_str ra) (c_str rb)
      → length s + length (c_str ra) ≡ length (c_str (s ++ ra))
      → length t + length (c_str rb) ≡ length (c_str (t ++ rb))
      → Compared m n s t ra rb

-- A byte in front of both.
same_first :
    (m x : ℕ) (s t ra rb : Bytes)
    → x ≢ 0
    → Compared (m * 256 + x) (m * 256 + x) s t ra rb
    → Compared m m (x ∷ s) (x ∷ t) ra rb
unfolding horner lex
same_first m x s t ra rb h (below k l) = below k (ground (arith, l))
same_first m x s t ra rb h (above k l) = above k (ground (arith, l))
same_first m x s t ra rb h (level e d l n k) =
    level (ap (◌∷◌ x) e) d (ground (arith, l)) (ground (arith, n)) (ground (arith, k))

lt-cases : (x y : ℕ) → (x < y) ⊎ ((x ≡ y) ⊎ (y < x))
lt-cases x y = ground arith

pub compare_parts :
    (m : ℕ) (s t ra rb : Bytes)
    → AreBytes s
    → AreBytes t
    → length s ≡ length t
    → c_str (s ++ ra) ≢ c_str (t ++ rb)
    → Compared m m s t ra rb
unfolding horner lex
compare_parts m [] [] ra rb a b e d = level refl d refl (omega arith) (omega arith)
compare_parts m [] (y ∷ t) ra rb a b e d = absurd (omega (arith, e))
compare_parts m (x ∷ s) [] ra rb a b e d = absurd (omega (arith, e))
compare_parts m (x ∷ s) (y ∷ t) ra rb a b e d = elim (lt-cases x y) [
  | inl h ↦
      below
        (horner-lt (m * 256 + x) (m * 256 + y) s t (omega (arith, h)) a.1 b.1 (omega (arith, e)))
        (ground (arith, h))
  | inr (inl h) ↦ elim (ℕ_discrete x 0) [
    | yes z ↦ absurd (d (ground (arith, z, h)))
    | no z ↦
        subst (λ v. Compared m m (x ∷ s) (v ∷ t) ra rb) h
          (same_first m x s t ra rb z (
            compare_parts (m * 256 + x) s t ra rb a.1 b.1 (omega (arith, e))
              (λ q. d (ground (arith, q, h, z)))))
  ]
  | inr (inr h) ↦
      above
        (horner-lt (m * 256 + y) (m * 256 + x) t s (omega (arith, h)) b.1 a.1 (omega (arith, e)))
        (ground (arith, h))
]

abbrev pub is_below : Ordering → Bool
is_below Ordering.lt = true
is_below Ordering.eq = false
is_below Ordering.gt = false

-- Behind the eight bytes, the names differ within what memcmp looks at.
pub cmp_names :
    (n : ℕ) (a b : Bytes)
    → c_str a ≢ c_str b
    → length (c_str a) < n
    → length (c_str b) < n
    → n ≤ length a
    → n ≤ length b
    → ltb_ℤ (cmp_prefix true n a b) (pos 0) ≡ is_below (lex (c_str a) (c_str b))
unfolding cmp_prefix lex
cmp_names zero a b d h k m p = absurd (omega (arith, h))
cmp_names (suc n) [] b d h k m p = absurd (omega (arith, m))
cmp_names (suc n) (x ∷ a) [] d h k m p = absurd (omega (arith, p))
cmp_names (suc n) (x ∷ a) (y ∷ b) d h k m p = elim (ℕ_discrete x y) [
  | yes e ↦ elim (ℕ_discrete x 0) [
    | yes z ↦ absurd (d (ground (arith, z, e)))
    | no z ↦ ground (arith, e, z, cmp_names n a b)
  ]
  | no e ↦ ground (arith, e)
]
