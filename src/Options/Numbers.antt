-- ===== src/Options/Numbers.antt =====
-- The numbers of the command line of src/options.cc, printed and read back.
use gitstatus.Options.{
  long_result, is_space, parse_long, read_signed, skip_spaces, strtol, is_digit, long_max,
  read_digits, read_number,
}
use gitstatus.Common.{
  min, ◌==◌, Bool, Bool-cases, [], ap, arith, false, inl, inr, leb, ltb, refl, suc, sym, true, zero,
  ℕ, ◌%◌, ◌*◌, ◌++◌, ◌+◌, ◌-◌, ◌/◌, ◌<◌, ◌∙◌, ◌∷◌, ◌≡◌, ◌≤◌,
}
use gitstatus.Common.Outcome.{ok}
use gitstatus.Response.{show_int, digits}
use mathlib.Core.Path.{subst}
use gitstatus.Common.Int.{negsuc, pos, ℤ}
use gitstatus.Text.{Bytes}
use mathlib.Core.List.{append-nil, append_assoc}

digits-head : (fuel n : ℕ) → (c : ℕ) × (s : Bytes) × (digits fuel n ≡ c ∷ s) × (is_digit c ≡ true)
unfolding digits
digits-head zero n = (b'0' + n % 10, [], refl, ground arith)
digits-head (suc fuel) n = elim (Bool-cases (ltb n 10)) [
  | inl e ↦ (b'0' + n % 10, [], rw (digits, e) refl, ground arith)
  | inr e ↦
      let (c, s, f, d) = digits-head fuel (n / 10) in
      (c, s ++ (b'0' + n % 10) ∷ [], rw (digits, e, f) refl, d)
]

read_digit :
    (v d : ℕ) (t : Bytes) → d < 10 → read_digits v ((b'0' + d) ∷ t) ≡ read_digits (10 * v + d) t
unfolding read_digits
read_digit v d t h = rw (yes_digit, same) refl
  where
    yes_digit : is_digit (b'0' + d) ≡ true
    yes_digit = ground arith

    same : 10 * v + (b'0' + d - b'0') ≡ 10 * v + d
    same = omega arith

read_digits-digits :
    (fuel n : ℕ) (t : Bytes) → n ≤ fuel → read_digits 0 (digits fuel n ++ t) ≡ read_digits n t
unfolding digits
read_digits-digits zero n t h =
    read_digit 0 (n % 10) t (omega arith) ∙ ap (λ v. read_digits v t) (omega arith)
read_digits-digits (suc fuel) n t h = elim (Bool-cases (ltb n 10)) [
  | inl e ↦
      rw (digits, e)
        (read_digit 0 (n % 10) t (omega arith) ∙ ap (λ v. read_digits v t) (ground arith))
  | inr e ↦
      rw (digits, e, append_assoc (digits fuel (n / 10)))
        (read_digits-digits fuel (n / 10) ((b'0' + n % 10) ∷ t) (ground arith)
          ∙ read_digit (n / 10) (n % 10) t (omega arith)
          ∙ ap (λ v. read_digits v t) (omega arith))
]

read_digits-all : (n : ℕ) → read_digits 0 (digits n n) ≡ (n, [])
unfolding read_digits
read_digits-all n =
    ap (read_digits 0) (sym (append-nil (digits n n))) ∙ read_digits-digits n n [] (omega arith)

-- What `long` can hold.
abbrev pub is_long : ℤ → Bool
is_long (pos n) = leb n long_max
is_long (negsuc n) = leb n long_max

abbrev HeadDigit : Bytes → Type 0
HeadDigit [] = ⊥
HeadDigit (c ∷ s) = is_digit c ≡ true

digits-HeadDigit : (fuel n : ℕ) → HeadDigit (digits fuel n)
digits-HeadDigit fuel n = let (c, s, e, d) = digits-head fuel n in subst HeadDigit (sym e) d

read_number_pos :
    (all s : Bytes) (n : ℕ)
    → HeadDigit s
    → read_digits 0 s ≡ (n, [])
    → n ≤ long_max
    → read_number false all s ≡ record { value = pos n; rest = []; failed = false }
unfolding read_number
read_number_pos all [] n h e k = absurd h
read_number_pos all (c ∷ s) n h e k = rw (h, e, small, within) refl
  where
    small : min n long_max ≡ n
    small = omega arith

    within : ltb long_max n ≡ false
    within = ground arith

read_number_neg :
    (all s : Bytes) (n : ℕ)
    → HeadDigit s
    → read_digits 0 s ≡ (suc n, [])
    → n ≤ long_max
    → read_number true all s ≡ record { value = negsuc n; rest = []; failed = false }
unfolding read_number
read_number_neg all [] n h e k = absurd h
read_number_neg all (c ∷ s) n h e k = rw (h, e, small, within) (ground arith)
  where
    small : min (suc n) (suc long_max) ≡ suc n
    small = omega arith

    within : ltb (suc long_max) (suc n) ≡ false
    within = ground arith

strtol-digit : (s : Bytes) → HeadDigit s → strtol s ≡ read_number false s s
unfolding strtol read_signed skip_spaces
strtol-digit [] h = absurd h
strtol-digit (c ∷ s) h = rw (no_space, no_minus, no_plus) refl
  where
    no_space : is_space c ≡ false
    no_space = ground arith

    no_minus : (c == b'-') ≡ false
    no_minus = ground arith

    no_plus : (c == b'+') ≡ false
    no_plus = ground arith

-- Every `long` that is written in decimal, as the daemon prints its own numbers, is read back.
pub parse_long-show_int : (v : ℤ) → is_long v ≡ true → parse_long (show_int v) ≡ ok v
unfolding parse_long show_int
parse_long-show_int (pos n) h = ap long_result (
    strtol-digit (digits n n) (digits-HeadDigit n n)
    ∙ read_number_pos (digits n n) (digits n n) n (digits-HeadDigit n n) (read_digits-all n)
        (ground arith))
parse_long-show_int (negsuc n) h = ap long_result (
    minus
    ∙ read_number_neg (b'-' ∷ digits (suc n) (suc n)) (digits (suc n) (suc n)) n
        (digits-HeadDigit (suc n) (suc n)) (read_digits-all (suc n)) (ground arith))
  where
    minus :
        strtol (b'-' ∷ digits (suc n) (suc n))
        ≡ read_number true (b'-' ∷ digits (suc n) (suc n)) (digits (suc n) (suc n))
    minus = unfold strtol read_signed skip_spaces in refl
