-- ===== src/Arena/Reused.antt =====
-- Reuse of src/arena.cc.
use gitstatus.Common.{
  ap, Bool-cases, List, [], drop, inr, ltb, ltb→lt, sym, take-drop_all, ◌++◌, ◌∷◌, Option, arith,
  get_elem?, inl, length, min, none, refl, some, take, ℕ, ◌<◌, ◌∙◌, ◌≡◌, ◌≤◌,
}
use mathlib.Core.Path.{subst}
use gitstatus.Arena.Tips.{
  set_tip_rest, spans, with_tip, IsTop, IsTop-of, set_tip-IsValid, set_tip-IsTop, top_block_eq,
}
use gitstatus.Common.Vectors.{get_elem?-length, get_elem?-take, length-take}
use mathlib.Core.Option.{some-injective}
use gitstatus.Arena.{Block, Arena, top_block, set_tip, reuse}
use gitstatus.Arena.Invariant.{IsValid, IsHeld}

spans-append : (xs ys : List Block) → spans (xs ++ ys) ≡ spans xs ++ spans ys
unfolding spans
spans-append [] ys = refl
spans-append (x ∷ xs) ys = ap (◌∷◌ (x.start, x.end)) (spans-append xs ys)

-- Where only the first block can be in use, and its tip is at its start, nothing is.
first_free :
    (lo hi n start : ℕ) (c : Block) (b : Arena)
    → IsTop 0 c b
    → b.reusable ≡ n
    → length b.blocks ≡ n
    → c.start ≡ start
    → c.tip ≡ start
    → IsHeld lo hi b
    → hi ≤ lo
first_free lo hi n start c b t count len s p h =
    let below = get_elem?-length b.blocks h.index h.held_at in
    let zero_at : h.index ≡ 0 = elim (h.not_free 0 t.top_eq) [
      | inl le ↦ omega arith
      | inr ge ↦ omega arith
    ] in
    let at_0 = subst (λ (j : ℕ). get_elem? b.blocks j ≡ some h.block) zero_at h.held_at in
    let same = some-injective _ _ (sym at_0 ∙ t.top_at) in
    omega (
      arith,
      h.start_le,
      h.le_tip,
      ap (λ (x : Block). x.tip) same,
      ap (λ (x : Block). x.start) same,
    )

module _ (num_blocks : ℕ) (a : Arena) (v : IsValid a) where
  abbrev kept : ℕ
  kept = min a.reusable num_blocks

  abbrev cut : Option ℕ → Arena
  cut top = record a { blocks = take kept a.blocks; reusable = kept; top = top }

  cut-length : length (take kept a.blocks) ≡ kept
  cut-length = length-take kept a.blocks (omega (arith, v.reusable_le))

  cut-IsValid :
      (top : Option ℕ)
      → (top ≡ none → kept ≡ 0)
      → ((i : ℕ) → top ≡ some i → i < kept)
      → IsValid (cut top)
  cut-IsValid top empty below =
      let old : (i : ℕ) (b : Block)
          → get_elem? (take kept a.blocks) i ≡ some b
          → get_elem? a.blocks i ≡ some b =
        λ i b e. (get_elem?-take kept a.blocks i e).1 in
      record {
        some_reusable = λ h. omega (arith, cut-length);
        reusable_le = omega (arith, cut-length);
        top_none = λ e. cut-length ∙ empty e;
        top_lt = λ i e. omega (arith, cut-length, below i e);
        top_place = λ i e. inl (below i e);
        are_blocks = λ i b e. v.are_blocks i b (old i b e);
        apart = λ i j b c e f ne. v.apart i j b c (old i b e) (old j c f) ne;
        equal_sizes = λ i b c e h f. v.equal_sizes i b c (old i b e) (omega arith) (old 0 c f);
        empty_pos = v.empty_pos;
        empty_tip = v.empty_tip;
        empty_end = v.empty_end;
        empty_le_half = v.empty_le_half;
      }

  -- What Reuse leaves.
  record IsReused (b : Arena) : Type 0 where
    reused_valid : IsValid b
    reused_count : b.reusable ≡ kept
    reused_length : length b.blocks ≡ kept
    reused_spans : spans b.blocks ≡ spans (take kept a.blocks)
    reused_free : (lo hi : ℕ) → IsHeld lo hi b → hi ≤ lo

  none-IsReused : kept ≡ 0 → IsReused (cut none)
  none-IsReused e = record {
    reused_valid = cut-IsValid none (λ _. e) (λ i f. cc);
    reused_count = refl;
    reused_length = cut-length;
    reused_spans = refl;
    reused_free = λ lo hi h.
        absurd (omega (arith, get_elem?-length (take kept a.blocks) h.index h.held_at, cut-length));
  }

  first-IsValid : 0 < kept → IsValid (cut (some 0))
  first-IsValid h = cut-IsValid (some 0) (λ e. cc) (λ i e. omega (arith, some-injective _ _ e))

  first-IsReused : 0 < kept → IsReused (set_tip (top_block (cut (some 0))).start (cut (some 0)))
  first-IsReused h =
      let c = cut (some 0) in
      let t = IsTop-of 0 c (first-IsValid h) refl in
      let k = (first-IsValid h).are_blocks 0 t.0 t.1.top_at in
      let start_le : t.0.start ≤ t.0.start = omega arith in
      let le : t.0.start ≤ t.0.end = omega (arith, k.start_le_tip, k.tip_le_end) in
      let e = top_block_eq 0 t.0 c t.1 in
      let same = set_tip_rest 0 t.0.start t.0 c t.1 in
      let at = set_tip-IsTop 0 t.0.start t.0 c t.1 in
      rw e (record {
        reused_valid = set_tip-IsValid 0 t.0.start t.0 c t.1 (first-IsValid h) start_le le;
        reused_count = same.0;
        reused_length = same.1 ∙ cut-length;
        reused_spans = same.2;
        reused_free = λ lo hi held.
            first_free lo hi kept t.0.start (with_tip 0 t.0.start t.0 c t.1) _ at same.0
              (same.1 ∙ cut-length) refl refl held;
      })

  reuse_after : IsReused (reuse num_blocks a).1
  unfolding reuse
  reuse_after = elim (Bool-cases (ltb 0 kept)) [
    | inl some_kept ↦ rw some_kept (first-IsReused (ltb→lt 0 kept some_kept))
    | inr no_kept ↦ rw no_kept (none-IsReused (ground arith))
  ]

  reuse_freed : (reuse num_blocks a).0 ≡ drop kept a.blocks
  unfolding reuse
  reuse_freed = refl

  -- In a valid arena Reuse leaves at most the given number of blocks. Each block of before is either
  -- kept or deleted, in this order, and none of the kept memory is in use. The arena stays valid.
  pub reuse_lem :
      IsValid (reuse num_blocks a).1
      × (length (reuse num_blocks a).1.blocks ≤ num_blocks)
      × (spans (reuse num_blocks a).1.blocks ++ spans (reuse num_blocks a).0 ≡ spans a.blocks)
      × ((lo hi : ℕ) → IsHeld lo hi (reuse num_blocks a).1 → hi ≤ lo)
  reuse_lem =
      let h = reuse_after in
      (
        h.reused_valid,
        omega (arith, h.reused_length),
        rw (h.reused_spans, reuse_freed)
            (sym (spans-append (take kept a.blocks) (drop kept a.blocks))
              ∙ ap spans (take-drop_all kept a.blocks)),
        h.reused_free,
      )
