-- ===== src/Arena/Invariant.antt =====
-- What src/arena.h documents of the members `blocks_`, `reusable_` and `top_`, and which memory of
-- an arena is in use.
use gitstatus.Common.{
  arith, get_elem?, length, none, some, suc, ℕ, ◌%◌, ◌+◌, ◌-◌, ◌<◌, ◌≡◌, ◌≢◌, ◌≤◌, ◌⊎◌,
}
use gitstatus.Arena.{Block, Arena, size}

-- The addresses that a process can use end here.
abbrev pub half : ℕ
half = 0x8000_0000_0000_0000

pub record IsBlock (b : Block) : Type 0 where
  pub start_pos : 0 < b.start
  pub start_aligned : b.start % 16 ≡ 0
  pub start_le_tip : b.start ≤ b.tip
  pub tip_le_end : b.tip ≤ b.end
  pub end_le_half : b.end ≤ half

-- Two stretches of memory have no byte in common.
abbrev pub Apart : (lo hi lo' hi' : ℕ) → Type 0
Apart lo hi lo' hi' = (hi ≤ lo') ⊎ (hi' ≤ lo)

pub record IsValid (a : Arena) : Type 0 where
  pub some_reusable : 0 < length a.blocks → 0 < a.reusable
  pub reusable_le : a.reusable ≤ length a.blocks
  pub top_none : a.top ≡ none → length a.blocks ≡ 0
  pub top_lt : (i : ℕ) → a.top ≡ some i → i < length a.blocks
  pub top_place : (i : ℕ) → a.top ≡ some i → (i < a.reusable) ⊎ (suc i ≡ length a.blocks)
  pub are_blocks : (i : ℕ) (b : Block) → get_elem? a.blocks i ≡ some b → IsBlock b
  pub apart :
      (i j : ℕ) (b c : Block)
      → get_elem? a.blocks i ≡ some b
      → get_elem? a.blocks j ≡ some c
      → i ≢ j
      → Apart b.start b.end c.start c.end
  pub equal_sizes :
      (i : ℕ) (b c : Block)
      → get_elem? a.blocks i ≡ some b
      → i < a.reusable
      → get_elem? a.blocks 0 ≡ some c
      → size b ≡ size c
  pub empty_pos : 0 < a.g_empty_block.start
  pub empty_tip : a.g_empty_block.tip ≡ a.g_empty_block.start
  pub empty_end : a.g_empty_block.end ≡ a.g_empty_block.start
  pub empty_le_half : a.g_empty_block.end ≤ half

-- The stretch from `lo` to `hi` lies below the tip of a block that AddBlock does not take for
-- empty: the blocks behind `top_` and before `reusable_` are.
pub record IsHeld (lo hi : ℕ) (a : Arena) : Type 0 where
  pub index : ℕ
  pub block : Block
  pub held_at : get_elem? a.blocks index ≡ some block
  pub not_free : (i : ℕ) → a.top ≡ some i → (index ≤ i) ⊎ (a.reusable ≤ index)
  pub start_le : block.start ≤ lo
  pub le_tip : hi ≤ block.tip

-- What `operator new` promises of the address `p` of `n` bytes, while the arena holds its blocks.
pub record IsFresh (p n : ℕ) (a : Arena) : Type 0 where
  pub fresh_pos : 0 < p
  pub fresh_aligned : p % 16 ≡ 0
  pub fresh_le_half : p + n ≤ half
  pub fresh_apart :
      (i : ℕ) (b : Block) → get_elem? a.blocks i ≡ some b → Apart p (p + n) b.start b.end

pub size_lem : (b : Block) → IsBlock b → size b ≡ b.end - b.start
unfolding size
size_lem b h = omega (arith, h.start_le_tip, h.tip_le_end, h.end_le_half)
