-- ===== src/Arena.antt =====
-- The arena of src/arena.h and src/arena.cc: blocks of memory from `operator new`, from which
-- Allocate hands out aligned pieces. Addresses and sizes are numbers below 2 ^ 64. The vector
-- `blocks_` is a list, and `top_`, a pointer to `g_empty_block` or into `blocks_`, is an optional
-- index. `g_empty_block`, a static, is a field here. `operator new` is a function from a size to
-- the address of what it allocates.
pub mod Align
pub mod Grow
pub mod Invariant
pub mod Tips
pub mod Push
pub mod Pushed
pub mod Add
pub mod Advance
pub mod Added
pub mod Room
pub mod Allocated
pub mod Allocate
pub mod Total
pub mod Sequence
pub mod Reused
pub mod Moved
pub mod Copy
pub mod Memcpy
pub mod Strings
pub mod Rest
use gitstatus.Common.{
  Bool, List, Option, [], drop, false, get_elem?, if◌then◌else◌, leb, length, ltb, max, min, none,
  some, suc, take, zero, ℕ, ◌%◌, ◌&&◌, ◌++◌, ◌+◌, ◌-◌, ◌/◌, ◌==◌, ◌^◌, ◌∷◌,
}
use gitstatus.Common.Outcome.{Outcome, check, ok, ◌>>=◌, ◌>>◌}
use gitstatus.Common.Vectors.{set, swap}
use Prim.Native.Nat.{bit_and}

-- 2 ^ 64, for size_t and uintptr_t
abbrev pub word : ℕ
word = 0x1_0000_0000_0000_0000

-- Arena::Options
pub record ArenaOptions : Type 0 where
  pub min_block_size : ℕ
  pub max_block_size : ℕ
  pub max_alloc_threshold : ℕ

-- Arena::Block
pub record Block : Type 0 where
  pub start : ℕ
  pub tip : ℕ
  pub end : ℕ

-- Arena
pub record Arena : Type 0 where
  pub opt : ArenaOptions
  pub blocks : List Block
  pub reusable : ℕ
  pub top : Option ℕ
  pub g_empty_block : Block

-- Block::size
unfoldable pub size : Block → ℕ
size b = (b.end + word - b.start) % word

-- Align: (n + m - 1) & ~(m - 1)
unfoldable pub align : ℕ → ℕ → ℕ
align n m = bit_and ((n + m + (word - 1)) % word) (word - 1 - (m + (word - 1)) % word)

-- The number of binary digits of a number below 2 ^ fuel.
unfoldable pub bit_length : ℕ → ℕ → ℕ
bit_length zero n = 0
bit_length (suc fuel) n = let rest = bit_length fuel (n / 2) in if n == 0 then 0 else suc rest

-- __builtin_clzll, the number of leading zero bits of the 64
unfoldable pub clzll : ℕ → ℕ
unfolding bit_length
clzll n = 64 - bit_length 64 n

-- NextPow2
unfoldable pub next_pow2 : ℕ → ℕ
unfolding clzll
next_pow2 n = if ltb n 2 then 1 else ((word - 1) / 2 ^ clzll (n - 1) + 1) % word

-- Clamp
unfoldable pub clamp : ℕ → ℕ → ℕ → ℕ
clamp lo val hi = min hi (max lo val)

-- *top_. An index outside of the vector does not occur in a valid arena.
unfoldable pub top_block : Arena → Block
top_block a = elim a.top [
  | none ↦ a.g_empty_block
  | some i ↦ elim (get_elem? a.blocks i) [ none ↦ a.g_empty_block | some b ↦ b ]
]

-- top_->tip = tip
unfoldable pub set_tip : ℕ → Arena → Arena
unfolding top_block
set_tip tip a = elim a.top [
  | none ↦ record a { g_empty_block = record a.g_empty_block { tip = tip } }
  | some i ↦ record a { blocks = set a.blocks i (record (top_block a) { tip = tip }) }
]

-- alignof(std::max_align_t)
abbrev pub max_align : ℕ
max_align = 16

-- The first statement of AddBlock: the size with the room that the alignment may take.
unfoldable pub padded : ℕ → ℕ → ℕ
padded n alignment =
    if ltb max_align alignment then (n + alignment + (word - 1)) % word else max n alignment

-- top_ < blocks_.data() + reusable_ - 1. It is read only for a size that fits in *top_, which is
-- never so for g_empty_block.
unfoldable pub before_last_reusable : Arena → Bool
before_last_reusable a = elim a.top [ none ↦ false | some i ↦ ltb (suc i) a.reusable ]

-- ++top_; top_->tip = top_->start
unfoldable pub next_block : Arena → Arena
unfolding top_block set_tip
next_block a =
    let b = record a { top = elim a.top [ none ↦ none | some i ↦ some (suc i) ] } in
    set_tip (top_block b).start b

-- The size of the block that AddBlock allocates for a padded size.
unfoldable pub block_size : ℕ → Arena → ℕ
unfolding size top_block next_pow2 clamp
block_size n a =
    let grown = next_pow2 ((size (top_block a) + 1) % word) in
    if leb n a.opt.max_alloc_threshold
    then max n (clamp a.opt.min_block_size grown a.opt.max_block_size)
    else n

-- blocks_.front().size()
unfoldable pub front_size : List Block → ℕ
unfolding size
front_size [] = 0
front_size (b ∷ bs) = size b

-- AddBlock from push_back on, for a block of `n` bytes at `p`.
unfoldable pub push_block : ℕ → ℕ → Arena → Arena
unfolding front_size
push_block p n a =
    let block : Block = record { start = p; tip = p; end = (p + n) % word } in
    let pushed = a.blocks ++ block ∷ [] in
    let front = front_size pushed in
    if ltb 0 a.reusable && ltb n front
    then record a { blocks = pushed; top = some (length a.blocks) }
    else let r = if ltb 0 a.reusable && ltb front n then 0 else a.reusable in
      record a { blocks = swap pushed (length a.blocks) r; reusable = suc r; top = some r }

-- AddBlock
unfoldable pub add_block : (ℕ → ℕ) → ℕ → ℕ → Arena → Arena
unfolding size top_block padded before_last_reusable next_block block_size push_block
add_block alloc n alignment a =
    let need = padded n alignment in
    let m = block_size need a in
    if leb need (size (top_block a)) && before_last_reusable a
    then next_block a
    else push_block (alloc m) m a

-- AllocateSlow, where `again` is Allocate.
unfoldable pub allocate_slow :
    (Arena → Option (ℕ × Arena)) → (ℕ → ℕ) → ℕ → ℕ → Arena → Option (ℕ × Arena)
unfolding add_block
allocate_slow again alloc n alignment a = again (add_block alloc n alignment a)

-- Allocate, which AllocateSlow calls again: none if `fuel` calls of Allocate are not enough.
unfoldable pub allocate : ℕ → (ℕ → ℕ) → ℕ → ℕ → Arena → Option (ℕ × Arena)
unfolding align top_block set_tip allocate_slow
allocate zero alloc n alignment a = none
allocate (suc fuel) alloc n alignment a =
    let slow = allocate_slow (allocate fuel alloc n alignment) alloc n alignment a in
    let p = align (top_block a).tip alignment in
    let e = (p + n) % word in if leb e (top_block a).end then some (p, set_tip e a) else slow

-- Tip
unfoldable pub tip_of : Arena → ℕ
unfolding top_block
tip_of a = (top_block a).tip

-- TipSize
unfoldable pub tip_size : Arena → ℕ
unfolding top_block
tip_size a = ((top_block a).end + word - (top_block a).tip) % word

-- Reuse, with the blocks that it deletes.
unfoldable pub reuse : ℕ → Arena → List Block × Arena
unfolding top_block set_tip
reuse num_blocks a =
    let kept = min a.reusable num_blocks in
    let b = record a {
      blocks = take kept a.blocks;
      reusable = kept;
      top = if ltb 0 kept then some 0 else none;
    } in
    (drop kept a.blocks, if ltb 0 kept then set_tip (top_block b).start b else b)

-- &kSingularity
abbrev pub empty_block : ℕ → Block
empty_block singularity = record { start = singularity; tip = singularity; end = singularity }

-- The constructor from options.
unfoldable pub make : ℕ → ArenaOptions → Outcome Arena
make singularity opt = do
  check (leb opt.min_block_size opt.max_block_size)
  ok (record {
    opt = opt;
    blocks = [];
    reusable = 0;
    top = none;
    g_empty_block = empty_block singularity;
  })

-- The move assignment of another arena, with `this` and `other` afterwards: `top_` has the same
-- index in the vector as before.
unfoldable pub move_assign : Arena → Arena → Arena × Arena
move_assign this other = (
  record this {
    opt = other.opt;
    blocks = other.blocks;
    reusable = other.reusable;
    top = if ltb 0 other.reusable then other.top else none;
  },
  record other { blocks = []; reusable = 0; top = none },
)

-- The values that Options() has.
abbrev pub default_limits : ArenaOptions
default_limits = record { min_block_size = 64; max_block_size = 4096; max_alloc_threshold = 1024 }

-- The move constructor, with the new arena and `other` afterwards.
unfoldable pub move_make : ℕ → Arena → Outcome (Arena × Arena)
unfolding make move_assign
move_make singularity other = do this ← make singularity default_limits; ok (move_assign this other)

-- The blocks that the destructor deletes.
unfoldable pub deleted_blocks : Arena → List Block
deleted_blocks a = a.blocks
