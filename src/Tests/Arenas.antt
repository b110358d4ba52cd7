-- ===== src/Tests/Arenas.antt =====
-- Runs of the arena of src/arena.h and src/arena.cc.
use gitstatus.Arena.{
  Arena, ArenaOptions, Block, allocate, align, next_pow2, reuse, empty_block, padded, block_size,
}
use gitstatus.Common.{
  ap, get_elem?, inr, zero, ◌⊎◌, [], arith, none, refl, some, suc, ℕ, ◌^◌, ◌∷◌, ◌≡◌, ◌≤◌,
}
use mathlib.Core.Option.{some-injective}
use gitstatus.Arena.Invariant.{IsValid, IsHeld}
use gitstatus.Arena.Added.{IsFreshFor}
use gitstatus.Arena.Total.{allocate_lem}
use gitstatus.Arena.Allocate.{Allocates}
use gitstatus.Arena.Sequence.{Calls, done, call, AllApart, ApartFrom, Calls-AllApart}
use gitstatus.Arena.Grow.{IsNextPow2, next_pow2-IsNextPow2}
use gitstatus.Arena.Moved.{made-IsValid}

abbrev limits : ArenaOptions
limits = record { min_block_size = 64; max_block_size = 4096; max_alloc_threshold = 1024 }

abbrev empty_arena : Arena
empty_arena = record {
  opt = limits;
  blocks = [];
  reusable = 0;
  top = none;
  g_empty_block = empty_block 8;
}

abbrev first_block : Block
first_block = record { start = 4096; tip = 4106; end = 4160 }

abbrev one_block : Arena
one_block = record {
  opt = limits;
  blocks = first_block ∷ [];
  reusable = 1;
  top = some 0;
  g_empty_block = empty_block 8;
}

abbrev heap : ℕ → ℕ
heap n = 4096

abbrev heap_later : ℕ → ℕ
heap_later n = 8192

empty-IsValid : IsValid empty_arena
empty-IsValid = made-IsValid 8 limits (omega arith) (omega arith)

empty-IsFreshFor : IsFreshFor heap 10 8 empty_arena
unfolding padded block_size
empty-IsFreshFor = record {
  fresh_pos = omega arith;
  fresh_aligned = refl;
  fresh_le_half = omega arith;
  fresh_apart = λ i b e. cc;
}

allocates_ten : allocate 2 heap 10 8 empty_arena ≡ some (4096, one_block)
unfolding allocate align
allocates_ten = refl

align_runs : align 4106 8 ≡ 4112
unfolding align
align_runs = refl

next_pow2_runs : next_pow2 65 ≡ 128
unfolding next_pow2
next_pow2_runs = refl

next_pow2-IsNextPow2_example : IsNextPow2 65 (next_pow2 65)
next_pow2-IsNextPow2_example = next_pow2-IsNextPow2 65 (omega arith) (omega arith)

allocate_lem_example : Allocates 2 heap 10 (2 ^ 3) empty_arena
allocate_lem_example =
    allocate_lem heap 10 3 empty_arena empty-IsValid (omega arith) (omega arith) empty-IsFreshFor 0

abbrev second_block : Block
second_block = record { start = 8192; tip = 8292; end = 8320 }

abbrev two_blocks : Arena
two_blocks = record {
  opt = limits;
  blocks = second_block ∷ first_block ∷ [];
  reusable = 1;
  top = some 0;
  g_empty_block = empty_block 8;
}

later_apart :
    (i : ℕ) (b : Block)
    → get_elem? (first_block ∷ []) i ≡ some b
    → (8320 ≤ b.start) ⊎ (b.end ≤ 8192)
later_apart zero b e =
    inr (omega (arith, ap (λ (x : Block). x.end) (some-injective first_block b e)))
later_apart (suc i) b e = cc

later-IsFreshFor : IsFreshFor heap_later 100 8 one_block
unfolding padded block_size
later-IsFreshFor = record {
  fresh_pos = omega arith;
  fresh_aligned = refl;
  fresh_le_half = omega arith;
  fresh_apart = later_apart;
}

allocates_hundred : allocate 2 heap_later 100 8 one_block ≡ some (8192, two_blocks)
unfolding allocate align
allocates_hundred = refl

two-Calls : Calls empty_arena ((4096, 4106) ∷ (8192, 8292) ∷ []) two_blocks
two-Calls =
    call heap 10 3 4096 (omega arith) (omega arith) (omega arith) empty-IsFreshFor allocates_ten (
      call heap_later 100 3 8192 (omega arith) (omega arith) (omega arith) later-IsFreshFor
        allocates_hundred (done two_blocks))

Calls-AllApart_example :
    IsValid two_blocks
    × AllApart ((4096, 4106) ∷ (8192, 8292) ∷ [])
    × ((lo hi : ℕ) → IsHeld lo hi empty_arena → ApartFrom lo hi ((4096, 4106) ∷ (8192, 8292) ∷ []))
Calls-AllApart_example = Calls-AllApart empty-IsValid two-Calls

two-IsValid : IsValid two_blocks
two-IsValid = (Calls-AllApart empty-IsValid two-Calls).0

reuse_runs :
    reuse 1 two_blocks
    ≡ (first_block ∷ [], record two_blocks { blocks = record second_block { tip = 8192 } ∷ [] })
unfolding reuse
reuse_runs = refl

copy-IsFreshFor : IsFreshFor heap 3 1 empty_arena
unfolding padded block_size
copy-IsFreshFor = record {
  fresh_pos = omega arith;
  fresh_aligned = refl;
  fresh_le_half = omega arith;
  fresh_apart = λ i b e. cc;
}

abbrev no_memory : ℕ → ℕ
no_memory q = 0
