-- ===== src/Arena/Pushed.antt =====
-- AddBlock in src/arena.cc, where it allocates a block: the members of the arena afterwards.
use mathlib.Core.Path.{subst}
use gitstatus.Common.{
  Bool-cases, List, [], ap, arith, get_elem?, inl, inr, length, ltb, ltb→lt, refl, some, suc, sym,
  ℕ, ℕ_discrete, ◌%◌, ◌++◌, ◌+◌, ◌<◌, ◌∙◌, ◌∷◌, ◌≡◌, ◌≤◌, ◌⊎◌,
}
use mathlib.Core.Option.{some-injective}
use gitstatus.Arena.{word, Block, Arena, push_block, front_size, size}
use gitstatus.Arena.Invariant.{IsValid}
use gitstatus.Common.Vectors.{swap}
use gitstatus.Arena.Push.{IsPlaced, append-IsPlaced, swap-IsPlaced, at_new}

abbrev pub fresh_block : ℕ → ℕ → Block
fresh_block p n = record { start = p; tip = p; end = (p + n) % word }

-- The arena with a new block of `n` bytes at `p`, which is at the index `k`.
pub record IsPushed (p n k : ℕ) (a b : Arena) : Type 0 where
  pub all_at : IsPlaced k (fresh_block p n) a.blocks b.blocks
  pub new_top : b.top ≡ some k
  pub some_left : 0 < b.reusable
  pub left_le : b.reusable ≤ length b.blocks
  pub none_free : b.reusable ≤ suc k
  pub top_in : (k < b.reusable) ⊎ (suc k ≡ length b.blocks)
  pub sizes :
      (i : ℕ) (c d : Block)
      → get_elem? b.blocks i ≡ some c
      → i < b.reusable
      → get_elem? b.blocks 0 ≡ some d
      → size c ≡ size d
  pub same_empty : b.g_empty_block ≡ a.g_empty_block

front_size-append :
    (xs : List Block) (x d : Block) → get_elem? xs 0 ≡ some d → front_size (xs ++ x ∷ []) ≡ size d
unfolding front_size
front_size-append [] x d e = cc
front_size-append (c ∷ xs) x d e = ap size (some-injective _ _ e)

module _ (p n : ℕ) (a : Arena) (v : IsValid a) (whole : size (fresh_block p n) ≡ n) where
  abbrev pushed : List Block
  pushed = a.blocks ++ fresh_block p n ∷ []

  front_same :
      0 < a.reusable → (d : Block) → get_elem? a.blocks 0 ≡ some d → front_size pushed ≡ size d
  front_same h d e = front_size-append a.blocks (fresh_block p n) d e

  -- The block goes to the end, and is not reusable.
  kept_small :
      0 < a.reusable
      → IsPushed p n
          (length a.blocks)
          a
          (record a { blocks = pushed; top = some (length a.blocks) })
  kept_small h =
      let at = append-IsPlaced (fresh_block p n) a.blocks in
      let old : (i : ℕ) (c : Block)
          → get_elem? pushed i ≡ some c
          → i < a.reusable
          → get_elem? a.blocks i ≡ some c =
        λ i c e l. ground (arith, at.placed i, v.reusable_le) in
      record {
        all_at = at;
        new_top = refl;
        some_left = h;
        left_le = omega (arith, at.longer, v.reusable_le);
        none_free = omega (arith, v.reusable_le);
        top_in = inr (sym at.longer);
        sizes = λ i c d e l f. v.equal_sizes i c d (old i c e l) l (old 0 d f h);
        same_empty = refl;
      }

  abbrev at_index : ℕ → Arena
  at_index r = record a { blocks = swap pushed (length a.blocks) r; reusable = suc r; top = some r }

  -- The block is the only reusable one.
  first_alone : IsPushed p n 0 a (at_index 0)
  first_alone =
      let at = swap-IsPlaced 0 (fresh_block p n) a.blocks (omega arith) in
      record {
        all_at = at;
        new_top = refl;
        some_left = omega arith;
        left_le = omega (arith, at.longer);
        none_free = omega arith;
        top_in = inl (omega arith);
        sizes = λ i c d e l f.
            let z : i ≡ 0 = omega arith in
            let g = subst (λ (j : ℕ). get_elem? (at_index 0).blocks j ≡ some c) z e in
            ap size (some-injective _ _ (sym g ∙ f));
        same_empty = refl;
      }

  -- The block is as large as the reusable ones, and joins them.
  joined : 0 < a.reusable → n ≡ front_size pushed → IsPushed p n a.reusable a (at_index a.reusable)
  joined h same_size =
      let r = a.reusable in
      let at = swap-IsPlaced r (fresh_block p n) a.blocks v.reusable_le in
      record {
        all_at = at;
        new_top = refl;
        some_left = omega arith;
        left_le = omega (arith, at.longer, v.reusable_le);
        none_free = omega arith;
        top_in = inl (omega arith);
        sizes = λ i c d e l f.
            let first : get_elem? a.blocks 0 ≡ some d =
              ground (arith, at.placed 0, v.reusable_le) in
            elim (ℕ_discrete r i) [
              | yes q ↦
                  let g = subst (λ (j : ℕ). get_elem? (at_index r).blocks j ≡ some c) (sym q) e in
                  let c_new =
                    some-injective _ _ (sym (at_new r (fresh_block p n) a.blocks _ at) ∙ g) in
                  ap size (sym c_new) ∙ whole ∙ same_size ∙ front_same h d first
              | no q ↦
                  let old : get_elem? a.blocks i ≡ some c =
                    ground (arith, at.placed i, v.reusable_le) in
                  v.equal_sizes i c d old (omega arith) first
            ];
        same_empty = refl;
      }

  pub push_block-IsPushed : (k : ℕ) × IsPushed p n k a (push_block p n a)
  unfolding push_block
  push_block-IsPushed = elim (Bool-cases (ltb 0 a.reusable)) [
    | inl some_r ↦ elim (Bool-cases (ltb n (front_size pushed))) [
      | inl less ↦ (length a.blocks, rw (some_r, less) (kept_small (ltb→lt 0 a.reusable some_r)))
      | inr ge ↦ elim (Bool-cases (ltb (front_size pushed) n)) [
        | inl more ↦ (0, rw (some_r, ge, more) first_alone)
        | inr le ↦
            (a.reusable, rw (some_r, ge, le) (joined (ltb→lt 0 a.reusable some_r) (ground arith)))
      ]
    ]
    | inr no_r ↦ (
      a.reusable,
      rw no_r (
          let e : a.reusable ≡ 0 = ground arith in
          subst (λ (r : ℕ). IsPushed p n r a (at_index r)) (sym e) first_alone),
    )
  ]
