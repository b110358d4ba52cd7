-- ===== src/Arena/Sequence.antt =====
-- Many calls of Allocate of src/arena.h on one arena.
use mathlib.Core.Path.{subst}
use gitstatus.Common.{All, List, [], some, sym, ℕ, ◌+◌, ◌<◌, ◌^◌, ◌∙◌, ◌∷◌, ◌≡◌, ◌≤◌}
use mathlib.Core.Option.{some-injective}
use gitstatus.Arena.{Arena, allocate}
use gitstatus.Arena.Invariant.{IsValid, IsHeld, half, Apart}
use gitstatus.Arena.Added.{IsFreshFor}
use gitstatus.Arena.Allocated.{IsAllocated}
use gitstatus.Arena.Total.{allocate_lem}

-- Calls of Allocate, one after the other, each for at least one byte and with fresh memory where a
-- block is needed, with the stretches of memory that they return.
pub data Calls : Arena → List (ℕ × ℕ) → Arena → Type 0 where
  done : (a : Arena) → Calls a [] a
  call :
      {a b c : Arena} {rs : List (ℕ × ℕ)} (alloc : ℕ → ℕ) (n k p : ℕ)
      → 0 < n
      → k < 64
      → n + 2 ^ k ≤ half
      → IsFreshFor alloc n (2 ^ k) a
      → allocate 2 alloc n (2 ^ k) a ≡ some (p, b)
      → Calls b rs c
      → Calls a ((p, p + n) ∷ rs) c

abbrev pub ApartFrom : (lo hi : ℕ) → List (ℕ × ℕ) → Type 0
ApartFrom lo hi = All (λ r. Apart lo hi r.0 r.1)

-- No two of the stretches have a byte in common.
abbrev pub AllApart : List (ℕ × ℕ) → Type 0
AllApart [] = Unit
AllApart (r ∷ rs) = ApartFrom r.0 r.1 rs × AllApart rs

allocated :
    (alloc : ℕ → ℕ) (n k p : ℕ) (a b : Arena)
    → IsValid a
    → k < 64
    → n + 2 ^ k ≤ half
    → IsFreshFor alloc n (2 ^ k) a
    → allocate 2 alloc n (2 ^ k) a ≡ some (p, b)
    → IsAllocated n (2 ^ k) p a b
allocated alloc n k p a b v lt fits f e =
    let r = allocate_lem alloc n k a v lt fits f 0 in
    let q = some-injective _ _ (sym r.returns ∙ e) in
    subst (λ (x : ℕ × Arena). IsAllocated n (2 ^ k) x.0 a x.1) q r.is_allocated

-- The memory in use stays apart from what is allocated later.
held-ApartFrom :
    (lo hi : ℕ) {a c : Arena} {rs : List (ℕ × ℕ)}
    → IsValid a
    → IsHeld lo hi a
    → Calls a rs c
    → ApartFrom lo hi rs
held-ApartFrom lo hi v h (done a) = tt
held-ApartFrom lo hi v h (call {a} {b} alloc n k p pos_n lt fits f e rest) =
    let r = allocated alloc n k p a b v lt fits f e in
    (r.result_apart lo hi h, held-ApartFrom lo hi r.result_valid (r.result_kept lo hi h) rest)

-- In a valid arena, any number of calls of Allocate are made, each for at least one byte, with an
-- alignment that is a power of two below 2 ^ 64, with a size that stays below half of the address space
-- together with it, and with an `operator new` that returns fresh memory for the block that AddBlock
-- asks for. The pieces of memory that they return have pairwise no byte in common, none of them has a
-- byte in common with what was in use before, and the arena stays valid.
pub Calls-AllApart :
    {a c : Arena} {rs : List (ℕ × ℕ)}
    → IsValid a
    → Calls a rs c
    → IsValid c × AllApart rs × ((lo hi : ℕ) → IsHeld lo hi a → ApartFrom lo hi rs)
Calls-AllApart v (done a) = (v, tt, λ lo hi h. tt)
Calls-AllApart v (call {a} {b} alloc n k p pos_n lt fits f e rest) =
    let r = allocated alloc n k p a b v lt fits f e in
    let after = Calls-AllApart r.result_valid rest in
    (
      after.0,
      (after.2 p (p + n) (r.result_held pos_n), after.1),
      λ lo hi h. held-ApartFrom lo hi v h (call alloc n k p pos_n lt fits f e rest),
    )
