-- ===== src/Common/Int.antt =====
-- Signed integers over the native numbers: the results of the comparison routines, and the
-- signed fields of the program.
use Prim.Native.Nat.{Ordering}
use gitstatus.Common.{ℕ, suc, ◌+◌, ◌-◌, Bool, false, ltb, leb, if◌then◌else◌}

-- `negsuc n` is -(n + 1).
pub data ℤ : Type 0 where
  pos : ℕ → ℤ
  negsuc : ℕ → ℤ

abbrev pub pos_part : ℤ → ℕ
pos_part (pos n) = n
pos_part (negsuc n) = 0

abbrev pub neg_part : ℤ → ℕ
neg_part (pos n) = 0
neg_part (negsuc n) = suc n

-- The difference of two numbers, as an integer.
abbrev pub sub_ℕ : ℕ → ℕ → ℤ
sub_ℕ a b = if leb b a then pos (a - b) else negsuc (b - a - 1)

abbrev pub neg : ℤ → ℤ
neg a = sub_ℕ (neg_part a) (pos_part a)

abbrev pub ltb_ℤ : ℤ → ℤ → Bool
ltb_ℤ a b = ltb (pos_part a + neg_part b) (pos_part b + neg_part a)

abbrev pub is_zero : ℤ → Bool
is_zero (pos n) = leb n 0
is_zero (negsuc n) = false

-- The sign is all that callers of a comparison read.
abbrev pub sign : ℤ → Ordering
sign (pos n) = if leb n 0 then Ordering.eq else Ordering.gt
sign (negsuc n) = Ordering.lt
