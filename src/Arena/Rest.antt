-- ===== src/Arena/Rest.antt =====
-- Tip and TipSize of src/arena.h, by which a caller takes the rest of a block.
use gitstatus.Common.{ap, Option-cases, arith, inl, inr, some, ℕ, ◌%◌, ◌+◌, ◌-◌, ◌∙◌, ◌≡◌, ◌≤◌}
use mathlib.Core.Path.{ap₂}
use gitstatus.Arena.{word, Block, Arena, align, top_block, set_tip, allocate, tip_of, tip_size}
use gitstatus.Arena.Invariant.{IsValid, half}
use gitstatus.Arena.Tips.{IsTop-of, top_block_eq, top_block-none, set_tip-IsTop}
use gitstatus.Arena.Room.{align_bounds}
use gitstatus.Arena.Allocate.{allocate_fast, set_tip_self}

module _ (a : Arena) (v : IsValid a) where
  top_bounds : ((top_block a).tip ≤ (top_block a).end) × ((top_block a).end ≤ half)
  top_bounds = elim (Option-cases a.top) [
    | inl e ↦ rw (top_block-none a e) (omega (arith, v.empty_tip, v.empty_end, v.empty_le_half))
    | inr (i, e) ↦
        let t = IsTop-of i a v e in
        let h = v.are_blocks i t.0 t.1.top_at in
        rw (top_block_eq i t.0 a t.1) (h.tip_le_end, h.end_le_half)
  ]

  rest_size : tip_size a ≡ (top_block a).end - (top_block a).tip
  unfolding tip_size
  rest_size = omega (arith, top_bounds)

  at_tip : align (top_block a).tip 1 ≡ (top_block a).tip
  at_tip = omega (arith, align_bounds (top_block a).tip 0, top_bounds)

  to_end : (align (top_block a).tip 1 + tip_size a) % word ≡ (top_block a).end
  to_end = omega (arith, at_tip, rest_size, top_bounds)

  full : tip_size (set_tip (top_block a).end a) ≡ 0
  unfolding tip_size
  full = elim (Option-cases a.top) [
    | inl e ↦
        let b = top_block-none a e in
        let same : (top_block a).end ≡ a.g_empty_block.tip =
          ap (λ (x : Block). x.end) b ∙ omega (arith, v.empty_tip, v.empty_end) in
        ap (λ (x : Arena). tip_size x) (set_tip_self (top_block a).end a e same)
        ∙ ap (λ (x : Block). (x.end + word - x.tip) % word) b
        ∙ omega (arith, v.empty_tip, v.empty_le_half, v.empty_end)
    | inr (i, e) ↦
        let t = IsTop-of i a v e in
        let h = v.are_blocks i t.0 t.1.top_at in
        let b = top_block_eq i t.0 a t.1 in
        let at = set_tip-IsTop i t.0.end t.0 a t.1 in
        rw b (rw (top_block_eq i _ (set_tip t.0.end a) at) (omega (arith, h.end_le_half)))
  ]

  -- In a valid arena, a call of Allocate for TipSize() bytes with alignment 1 returns Tip() without
  -- going on to another block, and leaves no bytes in the block.
  pub allocate-tip_of :
      (alloc : ℕ → ℕ)
      → (b : Arena) × (allocate 1 alloc (tip_size a) 1 a ≡ some (tip_of a, b)) × (tip_size b ≡ 0)
  unfolding tip_of
  allocate-tip_of alloc =
      let e = to_end in
      let le : (align (top_block a).tip 1 + tip_size a) % word ≤ (top_block a).end =
        omega (arith, e) in
      (
        set_tip (top_block a).end a,
        allocate_fast 0 alloc (tip_size a) 1 a le
            ∙ ap₂ (λ (p m : ℕ). some (p, set_tip m a)) at_tip e,
        full,
      )
