-- ===== src/Arena/Room.antt =====
-- The size that AddBlock of src/arena.cc asks for is enough for any alignment.
use gitstatus.Common.{dec_le, arith, max, suc, zero, ℕ, ◌%◌, ◌+◌, ◌-◌, ◌<◌, ◌^◌, ◌≡◌, ◌≤◌}
use gitstatus.Arena.{word, align, padded}
use native.Mathlib.Nat.{mul-mod_left}
use gitstatus.Arena.Align.{IsFloor, align-IsFloor, pow_pos}
use gitstatus.Arena.Invariant.{half}

-- Align for an address far from the end of the address space.
pub align_bounds :
    (n k : ℕ)
    → k < 64
    → n + 2 ^ k ≤ word
    → (n ≤ align n (2 ^ k)) × (align n (2 ^ k) < n + 2 ^ k) × (align n (2 ^ k) % 2 ^ k ≡ 0)
align_bounds n k h fits =
    let f = align-IsFloor n k h fits in
    let pos_m = pow_pos k in
    (
      omega (arith, f.lt_next),
      omega (arith, f.floor_le),
      rw f.multiple (mul-mod_left f.quotient (2 ^ k)),
    )

padded_small : (n m : ℕ) → m ≤ 16 → padded n m ≡ max n m
unfolding padded
padded_small n m h = ground arith

padded_large : (n m : ℕ) → 16 < m → n + m ≤ half → padded n m ≡ n + m - 1
unfolding padded
padded_large n m h fits = ground arith

-- A block's start is aligned for the small alignments.
small_aligned :
    (k start : ℕ)
    → k ≤ 4
    → start % 16 ≡ 0
    → IsFloor (2 ^ k) (start + 2 ^ k - 1) (align start (2 ^ k))
    → align start (2 ^ k) ≡ start
small_aligned zero start h e f = omega (arith, f.multiple, f.floor_le, f.lt_next)
small_aligned (suc zero) start h e f = omega (arith, f.multiple, f.floor_le, f.lt_next)
small_aligned (suc (suc zero)) start h e f = omega (arith, f.multiple, f.floor_le, f.lt_next)
small_aligned (suc (suc (suc zero))) start h e f = omega (arith, f.multiple, f.floor_le, f.lt_next)
small_aligned (suc (suc (suc (suc zero)))) start h e f =
    omega (arith, f.multiple, f.floor_le, f.lt_next)
small_aligned (suc (suc (suc (suc (suc k))))) start h e f = absurd (omega arith)

small_pow : (k : ℕ) → k ≤ 4 → 2 ^ k ≤ 16
small_pow zero h = omega arith
small_pow (suc zero) h = omega arith
small_pow (suc (suc zero)) h = omega arith
small_pow (suc (suc (suc zero))) h = omega arith
small_pow (suc (suc (suc (suc zero)))) h = omega arith
small_pow (suc (suc (suc (suc (suc k))))) h = absurd (omega arith)

large_pow : (k : ℕ) → 4 < k → 16 < 2 ^ k
large_pow zero h = absurd (omega arith)
large_pow (suc zero) h = absurd (omega arith)
large_pow (suc (suc zero)) h = absurd (omega arith)
large_pow (suc (suc (suc zero))) h = absurd (omega arith)
large_pow (suc (suc (suc (suc zero)))) h = absurd (omega arith)
large_pow (suc (suc (suc (suc (suc k))))) h = omega (arith, pow_pos k)

-- In a block of that size the aligned bytes are within.
pub padded_room :
    (k n start end : ℕ)
    → k < 64
    → start % 16 ≡ 0
    → start + padded n (2 ^ k) ≤ end
    → end ≤ half
    → n + 2 ^ k ≤ half
    → align start (2 ^ k) + n ≤ end
padded_room k n start end h e room le fits = elim (dec_le k 4) [
  | yes small ↦
      let m = 2 ^ k in
      let need = padded_small n m (small_pow k small) in
      let f = align-IsFloor start k h (omega (arith, small_pow k small)) in
      omega (arith, small_aligned k start small e f)
  | no large ↦
      let need = padded_large n (2 ^ k) (large_pow k (omega arith)) fits in
      let b = align_bounds start k h (omega arith) in omega (arith, b.1)
]
