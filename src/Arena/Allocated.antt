-- ===== src/Arena/Allocated.antt =====
-- Allocate and AllocateSlow of src/arena.h and src/arena.cc: what a returned piece of memory is.
use gitstatus.Common.{◌∙◌, ap, inl, arith, inr, sym, ℕ, ℕ_discrete, ◌%◌, ◌+◌, ◌<◌, ◌^◌, ◌≡◌, ◌≤◌}
use mathlib.Core.Option.{some-injective}
use gitstatus.Arena.{word, Block, Arena, align, set_tip}
use gitstatus.Arena.Invariant.{IsValid, IsHeld, half, Apart}
use gitstatus.Arena.Tips.{IsTop, set_tip-IsValid, set_tip-IsHeld, set_tip-IsTop, held_top}
use gitstatus.Arena.Room.{align_bounds}

-- `n` bytes at `p`, aligned to `m`, which the arena `a` did not have in use and `b` has.
pub record IsAllocated (n m p : ℕ) (a b : Arena) : Type 0 where
  pub result_pos : 0 < p
  pub result_aligned : p % m ≡ 0
  pub result_valid : IsValid b
  pub result_held : 0 < n → IsHeld p (p + n) b
  pub result_apart : (lo hi : ℕ) → IsHeld lo hi a → Apart lo hi p (p + n)
  pub result_kept : (lo hi : ℕ) → IsHeld lo hi a → IsHeld lo hi b

pub half-word : (x m : ℕ) → x ≤ half → m ≤ half → x + m ≤ word
half-word x m h g = omega arith

module _ (n k i : ℕ) (b : Block) (a : Arena) (v : IsValid a) (t : IsTop i b a) (lt : k < 64)
    (fits : n + 2 ^ k ≤ half) where
  abbrev pub result : ℕ
  result = align b.tip (2 ^ k)

  bounds : (b.tip ≤ result) × (result < b.tip + 2 ^ k) × (result % 2 ^ k ≡ 0)
  bounds =
      let h = v.are_blocks i b t.top_at in
      align_bounds b.tip k lt (omega (arith, h.tip_le_end, h.end_le_half))

  -- The new tip, which does not wrap around.
  pub new_tip_eq : (result + n) % word ≡ result + n
  new_tip_eq =
      let h = v.are_blocks i b t.top_at in omega (arith, bounds.1, h.tip_le_end, h.end_le_half)

  module _ (room : result + n ≤ b.end) where
    held-Apart : (lo hi : ℕ) → IsHeld lo hi a → Apart lo hi result (result + n)
    held-Apart lo hi h = elim (ℕ_discrete i h.index) [
      | yes e ↦ inl (
          omega (
            arith,
            h.le_tip,
            ap (λ (x : Block). x.tip) (held_top i b.tip b a t lo hi h e),
            bounds.0,
          ))
      | no ne ↦
          let c = v.are_blocks h.index h.block h.held_at in
          let d = v.are_blocks i b t.top_at in
          elim (v.apart h.index i h.block b h.held_at t.top_at (λ e. ne (sym e))) [
            | inl le ↦ inl (omega (arith, h.le_tip, c.tip_le_end, d.start_le_tip, bounds.0))
            | inr ge ↦ inr (omega (arith, h.start_le))
          ]
    ]

    pub fast-IsAllocated : IsAllocated n (2 ^ k) result a (set_tip (result + n) a)
    fast-IsAllocated =
        let d = v.are_blocks i b t.top_at in
        let tip = result + n in
        let le : b.start ≤ tip = omega (arith, d.start_le_tip, bounds.0) in
        let above : (lo hi : ℕ) (h : IsHeld lo hi a) → h.index ≡ i → hi ≤ tip = λ lo hi h e. omega (
          arith,
          h.le_tip,
          ap (λ (x : Block). x.tip) (held_top i b.tip b a t lo hi h (sym e)),
          bounds.0,
        ) in
        record {
          result_pos = omega (arith, d.start_pos, d.start_le_tip, bounds.0);
          result_aligned = bounds.2;
          result_valid = set_tip-IsValid i tip b a t v le room;
          result_held = λ _.
              let at = set_tip-IsTop i tip b a t in
              record {
                index = i;
                block = record b { tip = tip };
                held_at = at.top_at;
                not_free = λ j e. inl (omega (arith, some-injective _ _ (sym at.top_eq ∙ e)));
                start_le = omega (arith, d.start_le_tip, bounds.0);
                le_tip = omega arith;
              };
          result_apart = held-Apart;
          result_kept = λ lo hi h. set_tip-IsHeld i tip b a t lo hi h (above lo hi h);
        }
