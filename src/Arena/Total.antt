-- ===== src/Arena/Total.antt =====
-- The recursion of Allocate and AllocateSlow in src/arena.h and src/arena.cc.
use gitstatus.Common.{arith, dec_le, suc, sym, ℕ, ◌%◌, ◌+◌, ◌<◌, ◌^◌, ◌∙◌, ◌≡◌, ◌≤◌}
use gitstatus.Arena.{word, Arena, align, top_block, add_block, allocate}
use gitstatus.Arena.Invariant.{IsValid, half}
use gitstatus.Arena.Added.{IsFreshFor, add_block-IsAdded}
use gitstatus.Arena.Allocate.{Allocates, add_block_room, fast, allocate_fast, slow_path}

module _ (alloc : ℕ → ℕ) (n k : ℕ) (a : Arena) (v : IsValid a) (lt : k < 64)
    (fits : n + 2 ^ k ≤ half) (f : IsFreshFor alloc n (2 ^ k) a) where
  slow :
      (fuel : ℕ)
      → (top_block a).end < (align (top_block a).tip (2 ^ k) + n) % word
      → Allocates (suc (suc fuel)) alloc n (2 ^ k) a
  slow fuel more =
      let b = add_block alloc n (2 ^ k) a in
      let h = add_block-IsAdded alloc n (2 ^ k) a v f in
      let rest =
        fast alloc n k b h.added_valid lt fits fuel (add_block_room alloc n k a v lt fits f) in
      let r = rest.is_allocated in
      record {
        address = rest.address;
        after = rest.after;
        returns = slow_path (suc fuel) alloc n (2 ^ k) a more ∙ rest.returns;
        is_allocated = record {
          result_pos = r.result_pos;
          result_aligned = r.result_aligned;
          result_valid = r.result_valid;
          result_held = r.result_held;
          result_apart = λ lo hi i. r.result_apart lo hi (h.added_held lo hi i);
          result_kept = λ lo hi i. r.result_kept lo hi (h.added_held lo hi i);
        };
      }

  -- For a valid arena, an alignment 2 ^ k below 2 ^ 64 and a size with which it stays below half of
  -- the address space, and an `operator new` that returns fresh memory for the block that AddBlock
  -- asks for: Allocate returns an address that is not null and is aligned. The bytes there are in a
  -- block of the arena, if there are any, and have none in common with the memory in use, all of
  -- which stays in use. The arena stays valid.
  pub allocate_lem : (fuel : ℕ) → Allocates (suc (suc fuel)) alloc n (2 ^ k) a
  allocate_lem fuel =
      elim (dec_le ((align (top_block a).tip (2 ^ k) + n) % word) (top_block a).end) [
        | yes le ↦ fast alloc n k a v lt fits (suc fuel) le
        | no gt ↦ slow fuel (omega arith)
      ]

  more_fuel :
      (fuel : ℕ) → allocate (suc (suc fuel)) alloc n (2 ^ k) a ≡ allocate 2 alloc n (2 ^ k) a
  more_fuel fuel = elim (dec_le ((align (top_block a).tip (2 ^ k) + n) % word) (top_block a).end) [
    | yes le ↦
        allocate_fast (suc fuel) alloc n (2 ^ k) a le ∙ sym (allocate_fast 1 alloc n (2 ^ k) a le)
    | no gt ↦
        let b = add_block alloc n (2 ^ k) a in
        let room = add_block_room alloc n k a v lt fits f in
        let returns = λ (l : ℕ).
          slow_path (suc l) alloc n (2 ^ k) a (omega arith)
          ∙ allocate_fast l alloc n (2 ^ k) b room in
        returns fuel ∙ sym (returns 0)
  ]
