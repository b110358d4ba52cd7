-- ===== src/Arena/Add.antt =====
-- AddBlock in src/arena.cc keeps the arena valid and the memory in use.
use gitstatus.Common.{
  dec_le, ◌⊎◌, arith, get_elem?, inl, inr, some, sym, ℕ, ℕ_discrete, ◌+◌, ◌∙◌, ◌≡◌, ◌≢◌, ◌≤◌,
}
use mathlib.Core.Path.{subst}
use mathlib.Core.Option.{some-injective}
use gitstatus.Arena.{Block, Arena}
use gitstatus.Arena.Invariant.{IsBlock, IsValid, IsHeld, IsFresh, half, Apart}
use gitstatus.Arena.Push.{at_new, place, kept_at, source, came_from, source-ne, all_placed}
use gitstatus.Arena.Pushed.{fresh_block, IsPushed}
use gitstatus.Arena.Tips.{IsTop}

pub Apart-swap : (a b c d : ℕ) → Apart a b c d → Apart c d a b
Apart-swap a b c d (inl h) = inr h
Apart-swap a b c d (inr h) = inl h

pub fresh_end : (p n : ℕ) → p + n ≤ half → (fresh_block p n).end ≡ p + n
fresh_end p n h = omega arith

module _ (p n k : ℕ) (a b : Arena) (h : IsPushed p n k a b) (v : IsValid a)
    (f : IsFresh p n a) where
  fresh-IsBlock : IsBlock (fresh_block p n)
  fresh-IsBlock =
      let e = fresh_end p n f.fresh_le_half in
      record {
        start_pos = f.fresh_pos;
        start_aligned = f.fresh_aligned;
        start_le_tip = omega arith;
        tip_le_end = omega arith;
        end_le_half = omega (arith, f.fresh_le_half);
      }

  at_k : (i : ℕ) (c : Block) → get_elem? b.blocks i ≡ some c → i ≡ k → c ≡ fresh_block p n
  at_k i c e q =
      let g = subst (λ (j : ℕ). get_elem? b.blocks j ≡ some c) q e in
      some-injective _ _ (sym g ∙ at_new k (fresh_block p n) a.blocks b.blocks h.all_at)

  from :
      (i : ℕ) (c : Block)
      → get_elem? b.blocks i ≡ some c
      → i ≢ k
      → get_elem? a.blocks (source k (fresh_block p n) a.blocks b.blocks h.all_at i) ≡ some c
  from i c e q = came_from k (fresh_block p n) a.blocks b.blocks h.all_at i c e q

  fresh-Apart_from :
      (i j : ℕ) (c d : Block)
      → get_elem? b.blocks i ≡ some c
      → get_elem? b.blocks j ≡ some d
      → i ≡ k
      → j ≢ k
      → Apart c.start c.end d.start d.end
  fresh-Apart_from i j c d e g q r =
      let at = f.fresh_apart _ d (from j d g r) in
      let end = fresh_end p n f.fresh_le_half in rw (at_k i c e q, end) at

  Apart-all :
      (i j : ℕ) (c d : Block)
      → get_elem? b.blocks i ≡ some c
      → get_elem? b.blocks j ≡ some d
      → i ≢ j
      → Apart c.start c.end d.start d.end
  Apart-all i j c d e g ne = elim (ℕ_discrete i k) [
    | yes q ↦ fresh-Apart_from i j c d e g q (λ r. ne (q ∙ sym r))
    | no q ↦ elim (ℕ_discrete j k) [
      | yes r ↦ Apart-swap _ _ _ _ (fresh-Apart_from j i d c g e r q)
      | no r ↦
          v.apart _ _ c d (from i c e q) (from j d g r)
            (source-ne k (fresh_block p n) a.blocks b.blocks h.all_at i j q r ne)
    ]
  ]

  top_is : (i : ℕ) → b.top ≡ some i → i ≡ k
  top_is i e = some-injective _ _ (sym e ∙ h.new_top)

  pub pushed-IsValid : IsValid b
  pushed-IsValid = record {
    some_reusable = λ _. h.some_left;
    reusable_le = h.left_le;
    top_none = λ e. let q = sym e ∙ h.new_top in cc;
    top_lt = λ i e. omega (arith, h.all_at.longer, h.all_at.place_le, top_is i e);
    top_place = λ i e. rw (top_is i e) h.top_in;
    are_blocks =
        all_placed k (fresh_block p n) a.blocks b.blocks h.all_at IsBlock fresh-IsBlock
          v.are_blocks;
    apart = Apart-all;
    equal_sizes = h.sizes;
    empty_pos = rw h.same_empty v.empty_pos;
    empty_tip = rw h.same_empty v.empty_tip;
    empty_end = rw h.same_empty v.empty_end;
    empty_le_half = rw h.same_empty v.empty_le_half;
  }

  used : (j i : ℕ) → i ≡ k → (j ≤ i) ⊎ (b.reusable ≤ j)
  used j i e = elim (dec_le j i) [ yes le ↦ inl le | no gt ↦ inr (omega (arith, h.none_free)) ]

  pub pushed-IsHeld : (lo hi : ℕ) → IsHeld lo hi a → IsHeld lo hi b
  pushed-IsHeld lo hi r = record {
    index = place k (fresh_block p n) a.blocks b.blocks h.all_at r.index;
    block = r.block;
    held_at = kept_at k (fresh_block p n) a.blocks b.blocks h.all_at r.index r.block r.held_at;
    not_free =
        λ i e. used (place k (fresh_block p n) a.blocks b.blocks h.all_at r.index) i (top_is i e);
    start_le = r.start_le;
    le_tip = r.le_tip;
  }

  pub pushed-IsTop : IsTop k (fresh_block p n) b
  pushed-IsTop = record {
    top_eq = h.new_top;
    top_at = at_new k (fresh_block p n) a.blocks b.blocks h.all_at;
  }
