-- ===== src/Arena/Advance.antt =====
-- AddBlock in src/arena.cc, where it goes on to the next reusable block.
use gitstatus.Common.{
  Option-cases, arith, get_elem?, inl, inr, refl, some, suc, sym, true, ℕ, ◌<◌, ◌∙◌, ◌≡◌, ◌≢◌, ◌≤◌,
}
use mathlib.Core.Option.{some-injective}
use gitstatus.Arena.{Block, Arena, size, set_tip, next_block, before_last_reusable}
use gitstatus.Arena.Invariant.{IsValid, IsHeld}
use gitstatus.Arena.Tips.{
  IsTop, set_tip-IsValid, set_tip-IsHeld, IsTop-of, top_block_eq, set_tip-IsTop,
}
use gitstatus.Common.Vectors.{get_elem?_below}

pub before_last :
    (a : Arena) → before_last_reusable a ≡ true → (i : ℕ) × (a.top ≡ some i) × (suc i < a.reusable)
unfolding before_last_reusable
before_last a e = elim (Option-cases a.top) [
  | inl n ↦ absurd (ground (arith, n))
  | inr (i, s) ↦ (i, s, ground (arith, s))
]

module _ (i : ℕ) (a : Arena) (v : IsValid a) (at : a.top ≡ some i) (lt : suc i < a.reusable) where
  abbrev moved : Arena
  moved = record a { top = some (suc i) }

  moved-IsValid : IsValid moved
  moved-IsValid = record {
    some_reusable = v.some_reusable;
    reusable_le = v.reusable_le;
    top_none = λ e. cc;
    top_lt = λ j e. omega (arith, some-injective _ _ e, v.reusable_le);
    top_place = λ j e. inl (omega (arith, some-injective _ _ e));
    are_blocks = v.are_blocks;
    apart = v.apart;
    equal_sizes = v.equal_sizes;
    empty_pos = v.empty_pos;
    empty_tip = v.empty_tip;
    empty_end = v.empty_end;
    empty_le_half = v.empty_le_half;
  }

  moved-IsHeld : (lo hi : ℕ) → IsHeld lo hi a → IsHeld lo hi moved
  moved-IsHeld lo hi h = record {
    index = h.index;
    block = h.block;
    held_at = h.held_at;
    not_free = λ j e. elim (h.not_free i at) [
      | inl le ↦ inl (omega (arith, some-injective _ _ e))
      | inr ge ↦ inr ge
    ];
    start_le = h.start_le;
    le_tip = h.le_tip;
  }

  not_next : (lo hi : ℕ) (h : IsHeld lo hi a) → h.index ≢ suc i
  not_next lo hi h e = elim (h.not_free i at) [ inl le ↦ omega arith | inr ge ↦ omega arith ]

  -- The next block, with the tip at its start.
  pub record IsNext (c : Block) (b : Arena) : Type 0 where
    pub next_valid : IsValid b
    pub next_top : IsTop (suc i) c b
    pub next_empty : c.tip ≡ c.start
    pub next_held : (lo hi : ℕ) → IsHeld lo hi a → IsHeld lo hi b
    pub next_size : (d : Block) → get_elem? a.blocks i ≡ some d → size c ≡ size d

  next_eq : (c : Block) → IsTop (suc i) c moved → next_block a ≡ set_tip c.start moved
  unfolding next_block
  next_eq c t = ground (arith, top_block_eq (suc i) c moved t, t.top_at)

  same_sizes :
      (c d : Block)
      → get_elem? a.blocks (suc i) ≡ some c
      → get_elem? a.blocks i ≡ some d
      → size c ≡ size d
  same_sizes c d e f =
      let first = get_elem?_below a.blocks 0 (omega (arith, v.reusable_le)) in
      v.equal_sizes (suc i) c first.0 e lt first.1
      ∙ sym (v.equal_sizes i d first.0 f (omega arith) first.1)

  pub next_block-IsNext : (c : Block) × IsNext c (next_block a)
  unfolding size moved-IsHeld
  next_block-IsNext =
      let t = IsTop-of (suc i) moved moved-IsValid refl in
      let c = t.0 in
      let k = moved-IsValid.are_blocks (suc i) c t.1.top_at in
      let le : c.start ≤ c.end = omega (arith, k.start_le_tip, k.tip_le_end) in
      let start_le : c.start ≤ c.start = omega arith in
      (
        record c { tip = c.start },
        rw (next_eq c t.1) (record {
          next_valid = set_tip-IsValid (suc i) c.start c moved t.1 moved-IsValid start_le le;
          next_top = set_tip-IsTop (suc i) c.start c moved t.1;
          next_empty = refl;
          next_held = λ lo hi h.
              set_tip-IsHeld (suc i) c.start c moved t.1 lo hi (moved-IsHeld lo hi h)
                (λ e. absurd (not_next lo hi h e));
          next_size = λ d e. same_sizes c d t.1.top_at e;
        }),
      )
