-- ===== src/Arena/Align.antt =====
-- Align and the size of a new block in src/arena.h and src/arena.cc: the masks and shifts, read as
-- arithmetic.
use gitstatus.Common.{
  sym, ap, ◌∙◌, arith, min, refl, suc, zero, ℕ, ◌%◌, ◌*◌, ◌+◌, ◌-◌, ◌/◌, ◌<◌, ◌^◌, ◌≡◌, ◌≤◌,
}
use native.Mathlib.Nat.{mul_assoc, pow-suc}
use gitstatus.Arena.{word, align}
use Prim.Native.Nat.{digits, bit_and-bitwise, bit_and}

-- The greatest multiple of `m` that is not above `x`.
pub record IsFloor (m x r : ℕ) : Type 0 where
  pub quotient : ℕ
  pub multiple : r ≡ quotient * m
  pub floor_le : r ≤ x
  pub lt_next : x < r + m

-- The digits that `&` stands for, in a number of rounds.
abbrev rounds : ℕ → ℕ → ℕ → ℕ
rounds k x mask = digits (λ y. 0) min k x mask

-- As many rounds as the number says are enough: more make no difference.
rounds_enough : (bound k x mask : ℕ) → k ≤ bound → x ≤ k → rounds k x mask ≡ rounds x x mask
rounds_enough bound (suc k) zero mask under within = refl
rounds_enough bound zero zero mask under within = refl
rounds_enough zero (suc k) (suc x) mask under within = absurd (omega arith)
rounds_enough bound zero (suc x) mask under within = absurd (omega arith)
rounds_enough (suc bound) (suc k) (suc x) mask under within =
    let more = rounds_enough bound k (suc x / 2) (mask / 2) in
    let fewer = rounds_enough bound x (suc x / 2) (mask / 2) in
    omega (arith, more (omega arith) (omega arith), fewer (omega arith) (omega arith))

no_bits : (mask : ℕ) → bit_and 0 mask ≡ 0
no_bits mask = bit_and-bitwise zero mask

-- The lowest digit of `&`, with the others in front of it.
and_halves : (x mask : ℕ) → bit_and x mask ≡ min (x % 2) (mask % 2) + 2 * bit_and (x / 2) (mask / 2)
and_halves (suc x) mask =
    let whole = bit_and-bitwise (suc x) mask in
    let half = bit_and-bitwise (suc x / 2) (mask / 2) in
    let same = rounds_enough x x (suc x / 2) (mask / 2) (omega arith) (omega arith) in omega arith
and_halves zero mask =
    let half = ap (λ n. bit_and n (mask / 2)) {x = 0 / 2} {y = 0} (omega arith) in
    omega (arith, no_bits mask, no_bits (mask / 2))

pub pow_pos : (k : ℕ) → 0 < 2 ^ k
pow_pos zero = omega arith
pow_pos (suc k) = omega (arith, pow_pos k)

times_pow : (q k : ℕ) → q * 2 ^ suc k ≡ q * 2 ^ k * 2
times_pow q k = ap (λ n. q * n) (pow-suc 2 k) ∙ sym (mul_assoc q (2 ^ k) 2)

pub pow_add : (j k : ℕ) → 2 ^ (j + k) ≡ 2 ^ j * 2 ^ k
pow_add j zero = ap (λ n. 2 ^ n) {y = j} (omega arith) ∙ omega arith
pow_add j (suc k) =
    let e : 2 ^ (j + suc k) ≡ 2 ^ (j + k) * 2 =
      ap (λ n. 2 ^ n) {y = suc (j + k)} (omega arith) ∙ pow-suc 2 (j + k) in
    e ∙ ap (λ n. n * 2) (pow_add j k) ∙ sym (times_pow (2 ^ j) k)

pred_times : (p m : ℕ) → 0 < p → (p - 1) * m + m ≡ p * m
pred_times zero m h = absurd (omega arith)
pred_times (suc p) m h = ap (λ n. n * m + m) {x = suc p - 1} {y = p} (omega arith) ∙ grind arith

bit_and_ones : (j x : ℕ) → x < 2 ^ j → bit_and x (2 ^ j - 1) ≡ x
bit_and_ones zero x h = ap (λ n. bit_and n 0) {y = 0} (omega arith) ∙ omega arith
bit_and_ones (suc j) x h =
    let half : (2 ^ suc j - 1) / 2 ≡ 2 ^ j - 1 = omega (arith, pow_pos j) in
    let low : (2 ^ suc j - 1) % 2 ≡ 1 = omega (arith, pow_pos j) in
    let rest = bit_and_ones j (x / 2) (omega arith) in
    and_halves x (2 ^ suc j - 1) ∙ rw (half, low, rest) (omega arith)

bit_and-IsFloor :
    (k j x : ℕ) → x < 2 ^ j * 2 ^ k → IsFloor (2 ^ k) x (bit_and x ((2 ^ j - 1) * 2 ^ k))
bit_and-IsFloor zero j x h =
    let e = bit_and_ones j x (omega arith) in
    let mask : (2 ^ j - 1) * 1 ≡ 2 ^ j - 1 = omega arith in
    rw (mask, e)
      (record {
        quotient = x;
        multiple = omega arith;
        floor_le = omega arith;
        lt_next = omega arith;
      })
bit_and-IsFloor (suc k) j x h =
    let rest = bit_and-IsFloor k j (x / 2) (omega (arith, times_pow (2 ^ j) k)) in
    let mask = times_pow (2 ^ j - 1) k in
    let m = (2 ^ j - 1) * 2 ^ k in
    let step = and_halves x (m * 2) in
    let half : m * 2 / 2 ≡ m = omega arith in
    let low : m * 2 % 2 ≡ 0 = omega arith in
    let e : bit_and x (m * 2) ≡ bit_and (x / 2) m * 2 = step ∙ rw (half, low) (omega arith) in
    rw (mask, e)
      (record {
        quotient = rest.quotient;
        multiple = ap (λ n. n * 2) rest.multiple ∙ sym (times_pow rest.quotient k);
        floor_le = omega (arith, rest.floor_le);
        lt_next = omega (arith, rest.lt_next);
      })

whole_pow : (k : ℕ) → k < 64 → 2 ^ (64 - k) * 2 ^ k ≡ word
whole_pow k h = sym (pow_add (64 - k) k) ∙ ap (λ n. 2 ^ n) {y = 64} (omega arith)

-- The mask of Align for the alignment 2 ^ k.
mask_lem : (k : ℕ) → k < 64 → word - 1 - (2 ^ k + (word - 1)) % word ≡ (2 ^ (64 - k) - 1) * 2 ^ k
mask_lem k h =
    let e = whole_pow k h in
    let p = pred_times (2 ^ (64 - k)) (2 ^ k) (pow_pos (64 - k)) in
    let m : (2 ^ k + (word - 1)) % word ≡ 2 ^ k - 1 = omega (arith, pow_pos k) in
    omega (arith, pow_pos k)

pub align-IsFloor :
    (n k : ℕ) → k < 64 → n + 2 ^ k ≤ word → IsFloor (2 ^ k) (n + 2 ^ k - 1) (align n (2 ^ k))
unfolding align
align-IsFloor n k h fits =
    let e : 2 ^ (64 - k) * 2 ^ k ≡ word = whole_pow k h in
    let x : (n + 2 ^ k + (word - 1)) % word ≡ n + 2 ^ k - 1 = omega (arith, pow_pos k) in
    rw (x, mask_lem k h) (bit_and-IsFloor k (64 - k) (n + 2 ^ k - 1) (omega (arith, e, pow_pos k)))
