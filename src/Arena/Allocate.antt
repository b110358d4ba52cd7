-- ===== src/Arena/Allocate.antt =====
-- Allocate and AllocateSlow of src/arena.h and src/arena.cc on all branches.
use gitstatus.Common.{
  false, leb, true, Option-cases, inl, inr, some, suc, arith, none, ℕ, ◌%◌, ◌+◌, ◌<◌, ◌^◌, ◌≡◌, ◌≤◌,
}
use mathlib.Core.Path.{subst}
use gitstatus.Common.Vectors.{get_elem?-length}
use gitstatus.Arena.{word, Block, Arena, align, top_block, set_tip, add_block, allocate}
use gitstatus.Arena.Invariant.{IsValid, IsHeld, half}
use gitstatus.Arena.Tips.{IsTop-of, top_block_eq, top_block-none}
use gitstatus.Arena.Added.{IsFreshFor, add_block-IsAdded}
use gitstatus.Arena.Room.{align_bounds, padded_room}
use gitstatus.Arena.Allocated.{IsAllocated, fast-IsAllocated, new_tip_eq}

pub set_tip_self :
    (tip : ℕ) (a : Arena) → a.top ≡ none → tip ≡ a.g_empty_block.tip → set_tip tip a ≡ a
unfolding set_tip
set_tip_self tip a e f = ground arith

module _ (n k : ℕ) (a : Arena) (v : IsValid a) (lt : k < 64) (fits : n + 2 ^ k ≤ half)
    (none_at : a.top ≡ none) where
  abbrev at : ℕ
  at = align a.g_empty_block.tip (2 ^ k)

  empty_bounds : (a.g_empty_block.tip ≤ at) × (at < a.g_empty_block.tip + 2 ^ k) × (at % 2 ^ k ≡ 0)
  empty_bounds =
      align_bounds a.g_empty_block.tip k lt
        (omega (arith, v.empty_tip, v.empty_end, v.empty_le_half))

  not_held : (lo hi : ℕ) → IsHeld lo hi a → ⊥
  not_held lo hi h = omega (arith, get_elem?-length a.blocks h.index h.held_at, v.top_none none_at)

  -- From g_empty_block only zero bytes are allocated, which leaves it as it is.
  empty-IsAllocated :
      (at + n) % word ≤ a.g_empty_block.end
      → IsAllocated n (2 ^ k) at a (set_tip ((at + n) % word) a)
  empty-IsAllocated le =
      let no_bytes : n ≡ 0 =
        omega (arith, empty_bounds, v.empty_tip, v.empty_end, v.empty_le_half) in
      let same : (at + n) % word ≡ a.g_empty_block.tip =
        omega (arith, empty_bounds, v.empty_tip, v.empty_end, v.empty_le_half) in
      rw (set_tip_self ((at + n) % word) a none_at same) (record {
        result_pos = omega (arith, empty_bounds, v.empty_pos, v.empty_tip);
        result_aligned = empty_bounds.2;
        result_valid = v;
        result_held = λ h. absurd (omega arith);
        result_apart = λ lo hi h. absurd (not_held lo hi h);
        result_kept = λ lo hi h. h;
      })

module _ (n k : ℕ) (a : Arena) (v : IsValid a) (lt : k < 64) (fits : n + 2 ^ k ≤ half) where
  -- The fast path of Allocate, where its test holds.
  tested-IsAllocated :
      (align (top_block a).tip (2 ^ k) + n) % word ≤ (top_block a).end
      → IsAllocated n
          (2 ^ k)
          (align (top_block a).tip (2 ^ k))
          a
          (set_tip ((align (top_block a).tip (2 ^ k) + n) % word) a)
  tested-IsAllocated le = elim (Option-cases a.top) [
    | inl e ↦
        let b = top_block-none a e in
        let room = subst (λ (x : Block). (align x.tip (2 ^ k) + n) % word ≤ x.end) b le in
        rw b (empty-IsAllocated n k a v lt fits e room)
    | inr (i, e) ↦
        let t = IsTop-of i a v e in
        let b = top_block_eq i t.0 a t.1 in
        let room = subst (λ (x : Block). (align x.tip (2 ^ k) + n) % word ≤ x.end) b le in
        let tip = new_tip_eq n k i t.0 a v t.1 lt fits in
        rw (b, tip) (fast-IsAllocated n k i t.0 a v t.1 lt fits (rw tip at room))
  ]

le→leb : (x y : ℕ) → x ≤ y → leb x y ≡ true
le→leb x y h = ground arith

lt→leb : (x y : ℕ) → y < x → leb x y ≡ false
lt→leb x y h = ground arith

pub allocate_fast :
    (fuel : ℕ) (alloc : ℕ → ℕ) (n m : ℕ) (a : Arena)
    → (align (top_block a).tip m + n) % word ≤ (top_block a).end
    → allocate (suc fuel) alloc n m a
      ≡ some (align (top_block a).tip m, set_tip ((align (top_block a).tip m + n) % word) a)
unfolding allocate
allocate_fast fuel alloc n m a h = rw (le→leb _ _ h)

pub slow_path :
    (fuel : ℕ) (alloc : ℕ → ℕ) (n m : ℕ) (a : Arena)
    → (top_block a).end < (align (top_block a).tip m + n) % word
    → allocate (suc fuel) alloc n m a ≡ allocate fuel alloc n m (add_block alloc n m a)
unfolding allocate
slow_path fuel alloc n m a h = rw (lt→leb _ _ h)

-- A call that returns `p` and leaves the arena as `b`.
pub record Allocates (fuel : ℕ) (alloc : ℕ → ℕ) (n m : ℕ) (a : Arena) : Type 0 where
  pub address : ℕ
  pub after : Arena
  pub returns : allocate fuel alloc n m a ≡ some (address, after)
  pub is_allocated : IsAllocated n m address a after

module _ (alloc : ℕ → ℕ) (n k : ℕ) (a : Arena) (v : IsValid a) (lt : k < 64)
    (fits : n + 2 ^ k ≤ half) where
  -- The assertion of AllocateSlow.
  pub add_block_room :
      IsFreshFor alloc n (2 ^ k) a
      → let b = top_block (add_block alloc n (2 ^ k) a) in (align b.tip (2 ^ k) + n) % word ≤ b.end
  add_block_room f =
      let h = add_block-IsAdded alloc n (2 ^ k) a v f in
      let e = top_block_eq h.top_index h.added (add_block alloc n (2 ^ k) a) h.added_top in
      let c = h.added_valid.are_blocks h.top_index h.added h.added_top.top_at in
      let room =
        padded_room k n h.added.start h.added.end lt c.start_aligned h.added_room c.end_le_half
          fits in
      rw (e, h.added_empty) (omega (arith, c.end_le_half))

  pub fast :
      (fuel : ℕ)
      → (align (top_block a).tip (2 ^ k) + n) % word ≤ (top_block a).end
      → Allocates (suc fuel) alloc n (2 ^ k) a
  fast fuel h = record {
    address = align (top_block a).tip (2 ^ k);
    after = set_tip ((align (top_block a).tip (2 ^ k) + n) % word) a;
    returns = allocate_fast fuel alloc n (2 ^ k) a h;
    is_allocated = tested-IsAllocated n k a v lt fits h;
  }
