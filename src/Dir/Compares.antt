-- ===== src/Dir/Compares.antt =====
-- The comparison of directory entries in src/dir.cc, against the order of their names.
use gitstatus.Text.{c_str, c_str, key, str_lt, cmp_prefix, Bytes}
use gitstatus.Dir.Numbers.{
  below, above, level, AreBytes, Compared, cmp_names, compare_parts, horner, is_below,
}
use gitstatus.Common.{
  sym, ◌∙◌, drop, map, ap, suc, true, ◌≤◌, [], arith, length, refl, ℕ, ◌++◌, ◌+◌, ◌∷◌, ◌≡◌, ◌≢◌,
}
use gitstatus.Text.Compare.{str_lt-lex}
use gitstatus.Common.Int.{ltb_ℤ, pos}
use mathlib.Core.Path.{subst}
use gitstatus.Dir.{read64, swap_bytes, entry_lt}
use gitstatus.Text.Lex.{lex}

-- The entry has a name of at most NAME_MAX bytes, and the memory that memcmp may read behind it.
pub record IsEntry (m : Bytes) : Type 0 where
  pub long : 261 ≤ length m
  pub short : length (c_str m) ≤ 255
  pub bytes : AreBytes m

str_lt-below : (x y : Bytes) → str_lt true x y ≡ is_below (lex x y)
str_lt-below x y = ground (arith, str_lt-lex true x y, keyed x, keyed y)
  where
    keyed : (z : Bytes) → map (key true) z ≡ z
    keyed [] = refl
    keyed (c ∷ z) = ap (◌∷◌ c) (keyed z)

module _ (a0 a1 a2 a3 a4 a5 a6 a7 : ℕ) where
  abbrev pub eight : Bytes
  eight = a0 ∷ a1 ∷ a2 ∷ a3 ∷ a4 ∷ a5 ∷ a6 ∷ a7 ∷ []

  read64-swap_bytes : (ra : Bytes) → read64 (swap_bytes (eight ++ ra)) ≡ horner 0 eight
  unfolding swap_bytes horner
  read64-swap_bytes ra = omega arith

cmp_prefix-cons :
    (n x : ℕ) (a b : Bytes) → cmp_prefix true (suc n) (x ∷ a) (x ∷ b) ≡ cmp_prefix true n a b
unfolding cmp_prefix
cmp_prefix-cons n x a b = ground arith

-- memcmp starts at three of the eight bytes, which are the same.
memcmp_behind :
    (a0 a1 a2 a3 a4 a5 a6 a7 : ℕ) (ra rb : Bytes)
    → cmp_prefix true 256
        (drop 5 (swap_bytes (eight a0 a1 a2 a3 a4 a5 a6 a7 ++ ra)))
        (drop 5 (swap_bytes (eight a0 a1 a2 a3 a4 a5 a6 a7 ++ rb)))
      ≡ cmp_prefix true 253 ra rb
unfolding swap_bytes
memcmp_behind a0 a1 a2 a3 a4 a5 a6 a7 ra rb =
    cmp_prefix-cons 255 a2 (a1 ∷ a0 ∷ ra) (a1 ∷ a0 ∷ rb)
    ∙ cmp_prefix-cons 254 a1 (a0 ∷ ra) (a0 ∷ rb)
    ∙ cmp_prefix-cons 253 a0 ra rb

-- The test of two entries, by the numbers first.
numbers_first :
    (x y : Bytes) (s t ra rb : Bytes)
    → read64 x ≡ horner 0 s
    → read64 y ≡ horner 0 t
    → (s ≡ t
        → c_str ra ≢ c_str rb
        → length s + length (c_str ra) ≡ length (c_str (s ++ ra))
        → length t + length (c_str rb) ≡ length (c_str (t ++ rb))
        → ltb_ℤ (cmp_prefix true 256 (drop 5 x) (drop 5 y)) (pos 0)
          ≡ is_below (lex (c_str ra) (c_str rb)))
    → Compared 0 0 s t ra rb
    → entry_lt x y ≡ is_below (lex (c_str (s ++ ra)) (c_str (t ++ rb)))
unfolding entry_lt
numbers_first x y s t ra rb e f rest (below k l) = ground (arith, e, f, k, l)
numbers_first x y s t ra rb e f rest (above k l) = ground (arith, e, f, k, l)
numbers_first x y s t ra rb e f rest (level g d l n m) =
    ground (arith, e, f, rest g d n m, l, ap (horner 0) g)

-- The comparison of two entries of at least eight bytes.
entry_lt-eight :
    (a0 a1 a2 a3 a4 a5 a6 a7 b0 b1 b2 b3 b4 b5 b6 b7 : ℕ) (ra rb : Bytes)
    → IsEntry (eight a0 a1 a2 a3 a4 a5 a6 a7 ++ ra)
    → IsEntry (eight b0 b1 b2 b3 b4 b5 b6 b7 ++ rb)
    → Compared 0 0 (eight a0 a1 a2 a3 a4 a5 a6 a7) (eight b0 b1 b2 b3 b4 b5 b6 b7) ra rb
    → entry_lt
        (swap_bytes (eight a0 a1 a2 a3 a4 a5 a6 a7 ++ ra))
        (swap_bytes (eight b0 b1 b2 b3 b4 b5 b6 b7 ++ rb))
      ≡ is_below (
          lex
            (c_str (eight a0 a1 a2 a3 a4 a5 a6 a7 ++ ra))
            (c_str (eight b0 b1 b2 b3 b4 b5 b6 b7 ++ rb)))
entry_lt-eight a0 a1 a2 a3 a4 a5 a6 a7 b0 b1 b2 b3 b4 b5 b6 b7 ra rb h k c =
    numbers_first x y s t ra rb (read64-swap_bytes a0 a1 a2 a3 a4 a5 a6 a7 ra)
      (read64-swap_bytes b0 b1 b2 b3 b4 b5 b6 b7 rb) behind c
  where
    s : Bytes
    s = eight a0 a1 a2 a3 a4 a5 a6 a7

    t : Bytes
    t = eight b0 b1 b2 b3 b4 b5 b6 b7

    x : Bytes
    x = swap_bytes (s ++ ra)

    y : Bytes
    y = swap_bytes (t ++ rb)

    behind :
        s ≡ t
        → c_str ra ≢ c_str rb
        → length s + length (c_str ra) ≡ length (c_str (s ++ ra))
        → length t + length (c_str rb) ≡ length (c_str (t ++ rb))
        → ltb_ℤ (cmp_prefix true 256 (drop 5 x) (drop 5 y)) (pos 0)
          ≡ is_below (lex (c_str ra) (c_str rb))
    behind g d n m =
        ap (λ z. ltb_ℤ z (pos 0))
          (ap (λ z. cmp_prefix true 256 (drop 5 x) (drop 5 (swap_bytes (z ++ rb)))) (sym g)
            ∙ memcmp_behind a0 a1 a2 a3 a4 a5 a6 a7 ra rb)
        ∙ cmp_names 253 ra rb d (omega (arith, n, h.short)) (omega (arith, m, k.short))
            (omega (arith, h.long)) (omega (arith, k.long))

-- The memory by its first eight bytes.
pub record Eight (m : Bytes) : Type 0 where
  pub b0 : ℕ
  pub b1 : ℕ
  pub b2 : ℕ
  pub b3 : ℕ
  pub b4 : ℕ
  pub b5 : ℕ
  pub b6 : ℕ
  pub b7 : ℕ
  pub rest : Bytes
  pub shape : m ≡ eight b0 b1 b2 b3 b4 b5 b6 b7 ++ rest

pub to_eight : (m : Bytes) → 8 ≤ length m → Eight m
to_eight [] l = absurd (omega (arith, l))
to_eight (a ∷ []) l = absurd (omega (arith, l))
to_eight (a ∷ b ∷ []) l = absurd (omega (arith, l))
to_eight (a ∷ b ∷ c ∷ []) l = absurd (omega (arith, l))
to_eight (a ∷ b ∷ c ∷ d ∷ []) l = absurd (omega (arith, l))
to_eight (a ∷ b ∷ c ∷ d ∷ e ∷ []) l = absurd (omega (arith, l))
to_eight (a ∷ b ∷ c ∷ d ∷ e ∷ f ∷ []) l = absurd (omega (arith, l))
to_eight (a ∷ b ∷ c ∷ d ∷ e ∷ f ∷ g ∷ []) l = absurd (omega (arith, l))
to_eight (a ∷ b ∷ c ∷ d ∷ e ∷ f ∷ g ∷ h ∷ r) l = record {
  b0 = a;
  b1 = b;
  b2 = c;
  b3 = d;
  b4 = e;
  b5 = f;
  b6 = g;
  b7 = h;
  rest = r;
  shape = refl;
}

first_bytes : (s t : Bytes) → AreBytes (s ++ t) → AreBytes s
first_bytes [] t h = tt
first_bytes (c ∷ s) t h = (h.0, first_bytes s t h.1)

abbrev AgreesOn : Bytes → Bytes → Type 0
AgreesOn a b =
    IsEntry a
    → IsEntry b
    → c_str a ≢ c_str b
    → entry_lt (swap_bytes a) (swap_bytes b) ≡ str_lt true (c_str a) (c_str b)

eight-AgreesOn :
    (a0 a1 a2 a3 a4 a5 a6 a7 b0 b1 b2 b3 b4 b5 b6 b7 : ℕ) (ra rb : Bytes)
    → AgreesOn (eight a0 a1 a2 a3 a4 a5 a6 a7 ++ ra) (eight b0 b1 b2 b3 b4 b5 b6 b7 ++ rb)
eight-AgreesOn a0 a1 a2 a3 a4 a5 a6 a7 b0 b1 b2 b3 b4 b5 b6 b7 ra rb h k d =
    entry_lt-eight a0 a1 a2 a3 a4 a5 a6 a7 b0 b1 b2 b3 b4 b5 b6 b7 ra rb h k (
      compare_parts 0 (eight a0 a1 a2 a3 a4 a5 a6 a7) (eight b0 b1 b2 b3 b4 b5 b6 b7) ra rb
        (first_bytes (eight a0 a1 a2 a3 a4 a5 a6 a7) ra h.bytes)
        (first_bytes (eight b0 b1 b2 b3 b4 b5 b6 b7) rb k.bytes) refl d)
    ∙ sym (
        str_lt-below (c_str (eight a0 a1 a2 a3 a4 a5 a6 a7 ++ ra))
          (c_str (eight b0 b1 b2 b3 b4 b5 b6 b7 ++ rb)))

-- For entries with different names of at most 255 bytes, and at least 261 bytes of memory, the
-- comparison of the swapped bytes as numbers, and then by memcmp, is the order of the names.
pub entry_lt-str_lt :
    (a b : Bytes)
    → IsEntry a
    → IsEntry b
    → c_str a ≢ c_str b
    → entry_lt (swap_bytes a) (swap_bytes b) ≡ str_lt true (c_str a) (c_str b)
entry_lt-str_lt a b h k d =
    let p = to_eight a (omega (arith, h.long)) in
    let q = to_eight b (omega (arith, k.long)) in
    subst (λ z. AgreesOn z b) (sym p.shape)
      (subst (λ z. AgreesOn (eight p.b0 p.b1 p.b2 p.b3 p.b4 p.b5 p.b6 p.b7 ++ p.rest) z)
        (sym q.shape)
        (eight-AgreesOn p.b0 p.b1 p.b2 p.b3 p.b4 p.b5 p.b6 p.b7 q.b0 q.b1 q.b2 q.b3 q.b4 q.b5 q.b6
          q.b7 p.rest q.rest))
      h k d
