-- ===== src/Arena/Copy.antt =====
-- MemDup, StrDup and the typed Allocate of src/arena.h, and ArenaAllocator, with the memory that
-- they write.
use gitstatus.Common.{
  Option, [], if◌then◌else◌, length, suc, zero, ℕ, ◌%◌, ◌*◌, ◌++◌, ◌+◌, ◌==◌, ◌∷◌,
}
use mathlib.Core.Option
use gitstatus.Arena.{Arena, allocate, word}
use gitstatus.Text.{Bytes}

-- The bytes at each address.
abbrev pub Memory : Type 0
Memory = ℕ → ℕ

-- std::memcpy to `p` of bytes that it does not overlap
unfoldable pub memcpy : ℕ → Bytes → Memory → Memory
memcpy p [] mem q = mem q
memcpy p (c ∷ s) mem q = if p == q then c else memcpy (suc p) s mem q

-- Allocate<T>(n), for the size and the alignment of T
unfoldable pub allocate_array : ℕ → (ℕ → ℕ) → (sizeof alignof n : ℕ) → Arena → Option (ℕ × Arena)
unfolding allocate
allocate_array fuel alloc sizeof alignof n a = allocate fuel alloc (n * sizeof % word) alignof a

-- MemDup
unfoldable pub mem_dup : ℕ → (ℕ → ℕ) → Bytes → Memory → Arena → Option (ℕ × Memory × Arena)
unfolding allocate_array memcpy
mem_dup fuel alloc s mem a =
    Option.map (λ (p, b). (p, memcpy p s mem, b)) (allocate_array fuel alloc 1 1 (length s) a)

-- StrDup(s), for the null-terminated characters `s`
unfoldable pub str_dup : ℕ → (ℕ → ℕ) → Bytes → Memory → Arena → Option (ℕ × Memory × Arena)
unfolding mem_dup
str_dup fuel alloc s mem a = mem_dup fuel alloc (s ++ 0 ∷ []) mem a

-- StrDup(p, len), for the `len` characters `s` at `p`
unfoldable pub str_dup_len : ℕ → (ℕ → ℕ) → Bytes → Memory → Arena → Option (ℕ × Memory × Arena)
unfolding allocate_array memcpy
str_dup_len fuel alloc s mem a =
    Option.map (λ (p, b). (p, memcpy (p + length s) (0 ∷ []) (memcpy p s mem), b))
      (allocate_array fuel alloc 1 1 (length s + 1) a)

-- The `n` bytes at `p`.
unfoldable pub bytes_at : Memory → ℕ → ℕ → Bytes
bytes_at mem p zero = []
bytes_at mem p (suc n) = mem p ∷ bytes_at mem (suc p) n
