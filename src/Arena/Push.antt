-- ===== src/Arena/Push.antt =====
-- AddBlock in src/arena.cc, where it allocates a block: the places of the blocks afterwards.
use mathlib.Core.Path.{subst}
use gitstatus.Common.{
  List, [], arith, get_elem?, if◌then◌else◌, length, length-append, some, suc, sym, ℕ, ℕ_discrete,
  ◌++◌, ◌==◌, ◌∙◌, ◌∷◌, ◌≡◌, ◌≢◌, ◌≤◌,
}
use mathlib.Core.Option.{some-injective}
use gitstatus.Arena.{Block}
use gitstatus.Common.Vectors.{
  swap, get_elem?-append, get_elem?-swap-append, length-swap, get_elem?-length,
}

-- push_back of `x`, and an exchange of it with the item at `k`.
pub record IsPlaced (k : ℕ) (x : Block) (xs ys : List Block) : Type 0 where
  pub place_le : k ≤ length xs
  pub longer : length ys ≡ suc (length xs)
  pub placed :
      (i : ℕ)
      → get_elem? ys i
        ≡ (if k == i then some x else if length xs == i then get_elem? xs k else get_elem? xs i)

pub append-IsPlaced : (x : Block) (xs : List Block) → IsPlaced (length xs) x xs (xs ++ x ∷ [])
append-IsPlaced x xs = record {
  place_le = omega arith;
  longer = omega (arith, length-append xs (x ∷ []));
  placed = λ i. ground (arith, get_elem?-append xs x i);
}

pub swap-IsPlaced :
    (k : ℕ) (x : Block) (xs : List Block)
    → k ≤ length xs
    → IsPlaced k x xs (swap (xs ++ x ∷ []) (length xs) k)
swap-IsPlaced k x xs h = record {
  place_le = h;
  longer = omega (arith, length-swap (xs ++ x ∷ []) (length xs) k, length-append xs (x ∷ []));
  placed = λ i. get_elem?-swap-append xs x k i h;
}

module _ (k : ℕ) (x : Block) (xs ys : List Block) (h : IsPlaced k x xs ys) where
  pub at_new : get_elem? ys k ≡ some x
  at_new = ground (arith, h.placed k)

  -- Where an old block has gone.
  pub place : ℕ → ℕ
  place i = if i == k then length xs else i

  pub kept_at : (i : ℕ) (c : Block) → get_elem? xs i ≡ some c → get_elem? ys (place i) ≡ some c
  unfolding place
  kept_at i c e = ground (arith, h.placed (length xs), h.placed i, get_elem?-length xs i e)

  pub place-ne : (i : ℕ) (c : Block) → get_elem? xs i ≡ some c → place i ≢ k
  unfolding place
  place-ne i c e p = ground (arith, get_elem?-length xs i e)

  -- Where a block has come from.
  pub source : ℕ → ℕ
  source i = if i == length xs then k else i

  pub came_from :
      (i : ℕ) (c : Block) → get_elem? ys i ≡ some c → i ≢ k → get_elem? xs (source i) ≡ some c
  unfolding source
  came_from i c e n = ground (arith, h.placed i)

  pub source-ne : (i j : ℕ) → i ≢ k → j ≢ k → i ≢ j → source i ≢ source j
  unfolding source
  source-ne i j hi hj n p = ground arith

  -- A property of the new block and of all old ones holds of all.
  pub all_placed :
      (P : Block → Type 0)
      → P x
      → ((i : ℕ) (c : Block) → get_elem? xs i ≡ some c → P c)
      → (i : ℕ) (c : Block) → get_elem? ys i ≡ some c
      → P c
  all_placed P new old i c e = elim (ℕ_discrete i k) [
    | yes p ↦
        let at_k = subst (λ (j : ℕ). get_elem? ys j ≡ some c) p e in
        subst P (some-injective _ _ (sym at_new ∙ at_k)) new
    | no p ↦ old (source i) c (came_from i c e p)
  ]
