-- ===== src/Arena/Tips.antt =====
-- Writes to the tip of the block at `top_` in src/arena.h and src/arena.cc.
use gitstatus.Common.{
  List, [], length, suc, zero, ◌∷◌, sym, ◌%◌, ◌∙◌, ap, arith, refl, ℕ_discrete, ◌≤◌, get_elem?,
  if◌then◌else◌, none, some, ℕ, ◌==◌, ◌≡◌, ◌≢◌,
}
use mathlib.Core.Option.{some-injective}
use gitstatus.Arena.Invariant.{Apart, IsBlock, IsValid, IsHeld}
use mathlib.Core.Path.{subst}
use gitstatus.Arena.{Block, Arena, top_block, set_tip, size}
use gitstatus.Common.Vectors.{set, get_elem?-set, length-set, get_elem?_below, get_elem?-length}

-- The memory of each block.
unfoldable pub spans : List Block → List (ℕ × ℕ)
spans [] = []
spans (b ∷ bs) = (b.start, b.end) ∷ spans bs

-- The block at `top_`, in the vector.
pub record IsTop (i : ℕ) (b : Block) (a : Arena) : Type 0 where
  pub top_eq : a.top ≡ some i
  pub top_at : get_elem? a.blocks i ≡ some b

pub top_block_eq : (i : ℕ) (b : Block) (a : Arena) → IsTop i b a → top_block a ≡ b
unfolding top_block
top_block_eq i b a t = ground (arith, t.top_eq, t.top_at)

pub top_block-none : (a : Arena) → a.top ≡ none → top_block a ≡ a.g_empty_block
unfolding top_block
top_block-none a e = ground arith

pub IsTop-of : (i : ℕ) (a : Arena) → IsValid a → a.top ≡ some i → (b : Block) × IsTop i b a
IsTop-of i a v e =
    let b = get_elem?_below a.blocks i (v.top_lt i e) in (b.0, record { top_eq = e; top_at = b.1 })

set_tip_eq :
    (i tip : ℕ) (b : Block) (a : Arena)
    → IsTop i b a
    → set_tip tip a ≡ record a { blocks = set a.blocks i (record b { tip = tip }) }
unfolding set_tip
set_tip_eq i tip b a t = ground (arith, t.top_eq, t.top_at, top_block_eq i b a t)

module _ (i tip : ℕ) (b : Block) (a : Arena) (t : IsTop i b a) where
  abbrev pub with_tip : Block
  with_tip = record b { tip = tip }

  get_tip :
      (j : ℕ)
      → get_elem? (set a.blocks i with_tip) j
        ≡ (if i == j then some with_tip else get_elem? a.blocks j)
  get_tip j = get_elem?-set a.blocks i j with_tip (get_elem?-length a.blocks i t.top_at)

  -- A block of the arena is the block of before, but for the tip of the one at `top_`.
  pub record IsSame (j : ℕ) (c : Block) : Type 0 where
    pub old : Block
    pub old_at : get_elem? a.blocks j ≡ some old
    pub same_start : c.start ≡ old.start
    pub same_end : c.end ≡ old.end
    pub new_tip : i ≡ j → c.tip ≡ tip
    pub old_top : i ≡ j → old ≡ b
    pub same_tip : i ≢ j → c ≡ old

  same : (j : ℕ) (c : Block) → get_elem? (set a.blocks i with_tip) j ≡ some c → IsSame j c
  same j c e = elim (ℕ_discrete i j) [
    | yes p ↦
        let at_i : c ≡ with_tip = ground (arith, get_tip j) in
        record {
          old = b;
          old_at = subst (λ (k : ℕ). get_elem? a.blocks k ≡ some b) p t.top_at;
          same_start = ap (λ (x : Block). x.start) at_i;
          same_end = ap (λ (x : Block). x.end) at_i;
          new_tip = λ _. ap (λ (x : Block). x.tip) at_i;
          old_top = λ _. refl;
          same_tip = λ n. absurd (n p);
        }
    | no p ↦
        let at_j : get_elem? a.blocks j ≡ some c = ground (arith, get_tip j) in
        record {
          old = c;
          old_at = at_j;
          same_start = refl;
          same_end = refl;
          new_tip = λ q. absurd (p q);
          old_top = λ q. absurd (p q);
          same_tip = λ _. refl;
        }
  ]

  same-size : (j : ℕ) (c : Block) (s : IsSame j c) → size c ≡ size s.old
  unfolding size
  same-size j c s = rw (s.same_start, s.same_end)

  module _ (v : IsValid a) (ge : b.start ≤ tip) (le : tip ≤ b.end) where
    same-IsBlock : (j : ℕ) (c : Block) → get_elem? (set a.blocks i with_tip) j ≡ some c → IsBlock c
    same-IsBlock j c e =
        let s = same j c e in
        let old = v.are_blocks j s.old s.old_at in
        elim (ℕ_discrete i j) [
          | yes p ↦
              let start = s.same_start ∙ ap (λ (x : Block). x.start) (s.old_top p) in
              let end = s.same_end ∙ ap (λ (x : Block). x.end) (s.old_top p) in
              record {
                start_pos = omega (arith, s.same_start, old.start_pos);
                start_aligned = ap (λ n. n % 16) s.same_start ∙ old.start_aligned;
                start_le_tip = omega (arith, s.new_tip p);
                tip_le_end = omega (arith, s.new_tip p);
                end_le_half = omega (arith, s.same_end, old.end_le_half);
              }
          | no p ↦ rw (s.same_tip p) old
        ]

    same-Apart :
        (j k : ℕ) (c d : Block)
        → get_elem? (set a.blocks i with_tip) j ≡ some c
        → get_elem? (set a.blocks i with_tip) k ≡ some d
        → j ≢ k
        → Apart c.start c.end d.start d.end
    same-Apart j k c d e f n =
        let s = same j c e in
        let r = same k d f in
        rw (s.same_start, s.same_end, r.same_start, r.same_end)
          (v.apart j k s.old r.old s.old_at r.old_at n)

    -- A write of the tip within the block keeps the arena valid.
    pub set_tip-IsValid : IsValid (set_tip tip a)
    set_tip-IsValid =
        let len = length-set a.blocks i with_tip in
        rw (set_tip_eq i tip b a t) (record {
          some_reusable = λ h. v.some_reusable (omega arith);
          reusable_le = omega (arith, v.reusable_le);
          top_none = λ e. len ∙ v.top_none e;
          top_lt = λ j e. omega (arith, v.top_lt j e);
          top_place = λ j e. rw len (v.top_place j e);
          are_blocks = same-IsBlock;
          apart = same-Apart;
          equal_sizes = λ j c d e h f.
              let s = same j c e in
              let r = same 0 d f in
              same-size j c s
              ∙ v.equal_sizes j s.old r.old s.old_at h r.old_at
              ∙ sym (same-size 0 d r);
          empty_pos = v.empty_pos;
          empty_tip = v.empty_tip;
          empty_end = v.empty_end;
          empty_le_half = v.empty_le_half;
        })

  pub held_top : (lo hi : ℕ) (h : IsHeld lo hi a) → i ≡ h.index → h.block ≡ b
  held_top lo hi h p =
      let e = subst (λ (k : ℕ). get_elem? a.blocks k ≡ some b) p t.top_at in
      some-injective _ _ (sym h.held_at ∙ e)

  -- What is held stays so, if the tip does not go below it.
  pub set_tip-IsHeld :
      (lo hi : ℕ) (h : IsHeld lo hi a) → (h.index ≡ i → hi ≤ tip) → IsHeld lo hi (set_tip tip a)
  set_tip-IsHeld lo hi h above = elim (ℕ_discrete i h.index) [
    | yes p ↦ rw (set_tip_eq i tip b a t) (record {
      index = i;
      block = with_tip;
      held_at = ground (arith, get_tip i);
      not_free = λ j e. rw p (h.not_free j e);
      start_le = rw (held_top lo hi h p) at h.start_le;
      le_tip = above (sym p);
    })
    | no p ↦ rw (set_tip_eq i tip b a t) (record {
      index = h.index;
      block = h.block;
      held_at = ground (arith, get_tip h.index, h.held_at);
      not_free = h.not_free;
      start_le = h.start_le;
      le_tip = h.le_tip;
    })
  ]

  pub set_tip-IsTop : IsTop i with_tip (set_tip tip a)
  set_tip-IsTop =
      rw (set_tip_eq i tip b a t) (record { top_eq = t.top_eq; top_at = ground (arith, get_tip i) })

  spans-set :
      (xs : List Block) (j : ℕ) → get_elem? xs j ≡ some b → spans (set xs j with_tip) ≡ spans xs
  unfolding spans
  spans-set [] j e = refl
  spans-set (x ∷ xs) zero e =
      let q = some-injective _ _ e in
      ap (λ (y : Block). (y.start, y.end) ∷ spans xs) {x = b} (sym q)
  spans-set (x ∷ xs) (suc j) e = ap (◌∷◌ (x.start, x.end)) (spans-set xs j e)

  -- What a write of the tip leaves alone.
  pub set_tip_rest :
      ((set_tip tip a).reusable ≡ a.reusable)
      × (length (set_tip tip a).blocks ≡ length a.blocks)
      × (spans (set_tip tip a).blocks ≡ spans a.blocks)
  set_tip_rest =
      rw (set_tip_eq i tip b a t)
        (refl, length-set a.blocks i with_tip, spans-set a.blocks i t.top_at)
