-- ===== src/Arena/Strings.antt =====
-- MemDup and StrDup of src/arena.h: the copies, and the memory around them.
use gitstatus.Common.{
  inr, Option, Option-cases, [], ap, arith, inl, length, length-append, refl, some, sym, ℕ, ◌%◌,
  ◌*◌, ◌++◌, ◌+◌, ◌-◌, ◌∙◌, ◌∷◌, ◌≡◌, ◌≤◌,
}
use mathlib.Core.Path.{fun_ext}
use gitstatus.Arena.{Arena, allocate, word}
use gitstatus.Arena.Invariant.{IsValid, IsHeld, half, Apart}
use gitstatus.Arena.Added.{IsFreshFor}
use gitstatus.Arena.Allocated.{IsAllocated}
use gitstatus.Arena.Total.{allocate_lem}
use gitstatus.Arena.Copy.{Memory, memcpy, allocate_array, mem_dup, str_dup, str_dup_len, bytes_at}
use gitstatus.Arena.Memcpy.{memcpy-append, memcpy_below, memcpy_above, bytes_at_eq, bytes_at-memcpy}
use gitstatus.Text.{Bytes}

-- The result of a copy of `s` in a call that allocates.
pub record IsCopied (s : Bytes) (mem : Memory) (a : Arena) (r : Option (ℕ × Memory × Arena))
    : Type 0 where
  pub copy : ℕ
  pub memory : Memory
  pub after : Arena
  pub copied : r ≡ some (copy, memory, after)
  pub in_arena : IsAllocated (length s) 1 copy a after
  pub has_bytes : bytes_at memory copy (length s) ≡ s
  pub others_kept :
      (lo hi : ℕ) → IsHeld lo hi a → bytes_at memory lo (hi - lo) ≡ bytes_at mem lo (hi - lo)

-- A copy does not change the memory in use.
memcpy_held :
    (p lo hi : ℕ) (s : Bytes) (mem : Memory)
    → Apart lo hi p (p + length s)
    → bytes_at (memcpy p s mem) lo (hi - lo) ≡ bytes_at mem lo (hi - lo)
memcpy_held p lo hi s mem (inl le) =
    bytes_at_eq _ _ lo (hi - lo) (λ q ge lt. memcpy_below p q s mem (omega arith))
memcpy_held p lo hi s mem (inr ge) =
    bytes_at_eq _ _ lo (hi - lo) (λ q le lt. memcpy_above p q s mem (omega arith))

module _ (alloc : ℕ → ℕ) (s : Bytes) (mem : Memory) (a : Arena) (v : IsValid a)
    (fits : length s + 1 ≤ half) (f : IsFreshFor alloc (length s) 1 a) where
  array_lem : allocate_array 2 alloc 1 1 (length s) a ≡ allocate 2 alloc (length s) 1 a
  unfolding allocate_array
  array_lem = ap (λ n. allocate 2 alloc n 1 a) {x = length s * 1 % word} (omega arith)

  -- For a valid arena, fewer than half of the address space to copy and fresh memory where a block is
  -- needed, MemDup returns bytes of the arena that were not in use and that now hold a copy. The
  -- contents of the memory in use are as before, and it stays in use.
  pub mem_dup_lem : IsCopied s mem a (mem_dup 2 alloc s mem a)
  unfolding mem_dup
  mem_dup_lem =
      let r = allocate_lem alloc (length s) 0 a v (omega arith) fits f 0 in
      let e = array_lem ∙ r.returns in
      rw e (record {
        copy = r.address;
        memory = memcpy r.address s mem;
        after = r.after;
        copied = refl;
        in_arena = r.is_allocated;
        has_bytes = bytes_at-memcpy r.address s mem;
        others_kept =
            λ lo hi h. memcpy_held r.address lo hi s mem (r.is_allocated.result_apart lo hi h);
      })

-- The copy of a stretch of characters with a null character behind it, and the copy of a
-- null-terminated string, are the same, also where no memory is allocated.
pub str_dup_len-eq :
    (fuel : ℕ) (alloc : ℕ → ℕ) (s : Bytes) (mem : Memory) (a : Arena)
    → str_dup_len fuel alloc s mem a ≡ str_dup fuel alloc s mem a
unfolding str_dup str_dup_len mem_dup
str_dup_len-eq fuel alloc s mem a =
    let len : length (s ++ 0 ∷ []) ≡ length s + 1 = length-append s (0 ∷ []) in
    rw len (elim (Option-cases (allocate_array fuel alloc 1 1 (length s + 1) a)) [
      | inl e ↦ rw e
      | inr (r, e) ↦ rw e (
          ap (λ (m : Memory). some (r.0, m, r.1))
            (fun_ext λ q. sym (memcpy-append r.0 q s (0 ∷ []) mem)))
    ])
