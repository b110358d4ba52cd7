-- ===== src/Arena/Grow.antt =====
-- NextPow2 and the size of the block that AddBlock allocates, in src/arena.cc.
use gitstatus.Common.{
  ap, dec_lt, ltb, ltb→lt, refl, ◌%◌, ◌∙◌, ==_iff, Bool-cases, arith, inl, inr, suc, zero, ℕ, ◌*◌,
  ◌+◌, ◌-◌, ◌/◌, ◌<◌, ◌==◌, ◌^◌, ◌≡◌, ◌≤◌,
}
use native.Mathlib.Nat.{pow-suc}
use gitstatus.Arena.{word, bit_length, clzll, next_pow2}
use gitstatus.Arena.Align.{pow_pos, pow_add}

-- The number of digits that the loop behind __builtin_clzll finds.
record IsLength (n b fuel : ℕ) : Type 0 where
  within : b ≤ fuel
  lt_pow : n < 2 ^ b
  pow_le : 2 ^ b ≤ 2 * n + 1
  pow_le_pos : 0 < n → 2 ^ b ≤ 2 * n

doubled : (n p : ℕ) → p ≤ 2 * (n / 2) + 1 → (0 < n / 2 → p ≤ 2 * (n / 2)) → 0 < n → p * 2 ≤ 2 * n
doubled n p le_odd le_even h = elim (dec_lt 0 (n / 2)) [
  | yes q ↦ omega (arith, le_even q)
  | no q ↦ omega arith
]

suc-IsLength : (n b fuel : ℕ) → 0 < n → IsLength (n / 2) b fuel → IsLength n (suc b) (suc fuel)
suc-IsLength n b fuel h rest =
    let double = doubled n (2 ^ b) rest.pow_le rest.pow_le_pos h in
    let w = pow-suc 2 b in
    record {
      within = omega (arith, rest.within);
      lt_pow = omega (arith, rest.lt_pow);
      pow_le = omega arith;
      pow_le_pos = λ p. omega arith;
    }

bit_length-IsLength : (fuel n : ℕ) → n < 2 ^ fuel → IsLength n (bit_length fuel n) fuel
unfolding bit_length
bit_length-IsLength zero n h = record {
  within = omega arith;
  lt_pow = omega arith;
  pow_le = omega arith;
  pow_le_pos = λ p. omega arith;
}
bit_length-IsLength (suc fuel) n h = elim (Bool-cases (n == 0)) [
  | inl e ↦ rw e (record {
    within = omega arith;
    lt_pow = omega (arith, (==_iff n 0).0 e);
    pow_le = omega arith;
    pow_le_pos = λ p. omega (arith, (==_iff n 0).0 e);
  })
  | inr e ↦
      let pos_n : 0 < n = ground arith in
      rw e (suc-IsLength n _ fuel pos_n (bit_length-IsLength fuel (n / 2) (omega arith)))
]

pred_div : (p m : ℕ) → 0 < p → 0 < m → (p * m - 1) / m ≡ p - 1
pred_div p m hp hm = grind arith

-- The shift of ~0 and the increment, where the result does not wrap around.
shifted : (b : ℕ) → b ≤ 64 → 2 ^ b < word → ((word - 1) / 2 ^ (64 - b) + 1) % word ≡ 2 ^ b
shifted b h lt =
    let split : word ≡ 2 ^ b * 2 ^ (64 - b) =
      ap (λ n. 2 ^ n) {x = 64} (omega arith) ∙ pow_add b (64 - b) in
    let q = pred_div (2 ^ b) (2 ^ (64 - b)) (pow_pos b) (pow_pos (64 - b)) in
    let e : (word - 1) / 2 ^ (64 - b) ≡ 2 ^ b - 1 = ap (λ n. (n - 1) / 2 ^ (64 - b)) split ∙ q in
    rw e (omega (arith, pow_pos b))

pub record IsNextPow2 (n r : ℕ) : Type 0 where
  pub exponent : ℕ
  pub is_pow : r ≡ 2 ^ exponent
  pub le_pow : n ≤ r
  pub pow_lt : r < 2 * n

-- For a positive size up to 2 ^ 63, NextPow2 is a power of two that is not below the size and is below
-- twice the size.
pub next_pow2-IsNextPow2 : (n : ℕ) → 0 < n → n ≤ 2 ^ 63 → IsNextPow2 n (next_pow2 n)
unfolding next_pow2 clzll
next_pow2-IsNextPow2 n pos_n h = elim (Bool-cases (ltb n 2)) [
  | inl e ↦ rw e (record {
    exponent = 0;
    is_pow = refl;
    le_pow = omega (arith, ltb→lt n 2 e);
    pow_lt = omega arith;
  })
  | inr e ↦
      let ge : 2 ≤ n = ground arith in
      let b = bit_length 64 (n - 1) in
      let len = bit_length-IsLength 64 (n - 1) (omega arith) in
      let value = shifted b len.within (omega (arith, len.pow_le_pos (omega arith))) in
      rw (e, value)
        (record {
          exponent = b;
          is_pow = refl;
          le_pow = omega (arith, len.lt_pow);
          pow_lt = omega (arith, len.pow_le_pos (omega arith));
        })
]
