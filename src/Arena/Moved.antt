-- ===== src/Arena/Moved.antt =====
-- The constructor and the move assignment of src/arena.cc.
use gitstatus.Common.{
  leb→le, ap, Bool-cases, Option, leb, refl, ℕ, ◌∙◌, ◌≤◌, ◌⊎◌, Option-cases, [], arith, inl, inr,
  none, ◌<◌, ◌≡◌,
}
use gitstatus.Common.Outcome.{aborts, ok}
use gitstatus.Arena.{Block, Arena, ArenaOptions, make, move_assign, empty_block}
use gitstatus.Arena.Invariant.{IsValid, IsHeld, half}

module _ (this other : Arena) (v : IsValid other)
    (same : this.g_empty_block ≡ other.g_empty_block) where
  -- In a valid arena the test on `reusable_` tells whether `top_` is in the vector.
  top_kept : (move_assign this other).0.top ≡ other.top
  unfolding move_assign
  top_kept = elim (Option-cases other.top) [
    | inl e ↦
        let z : other.reusable ≡ 0 = omega (arith, v.reusable_le, v.top_none e) in ground (arith, z)
    | inr (i, e) ↦
        let some_left : 0 < other.reusable = v.some_reusable (omega (arith, v.top_lt i e)) in
        ground arith
  ]

  taken : (move_assign this other).0 ≡ other
  unfolding move_assign
  taken =
      let with_top =
        ap (λ (t : Option ℕ). record other { top = t; g_empty_block = this.g_empty_block })
          top_kept in
      with_top ∙ ap (λ (g : Block). record other { g_empty_block = g }) same

  left : Arena
  left = (move_assign this other).1

  left-IsValid : IsValid left
  unfolding left move_assign
  left-IsValid = record {
    some_reusable = λ h. absurd (omega arith);
    reusable_le = omega arith;
    top_none = λ e. refl;
    top_lt = λ i e. cc;
    top_place = λ i e. cc;
    are_blocks = λ i b e. cc;
    apart = λ i j b c e f ne. cc;
    equal_sizes = λ i b c e h f. cc;
    empty_pos = v.empty_pos;
    empty_tip = v.empty_tip;
    empty_end = v.empty_end;
    empty_le_half = v.empty_le_half;
  }

  -- The move assignment of a valid arena, where both arenas see the same static empty block: the
  -- arena that is assigned to has all members of the other one, which is left valid and with no blocks.
  pub move_assign_lem :
      ((move_assign this other).0 ≡ other)
      × ((move_assign this other).1.blocks ≡ [])
      × IsValid (move_assign this other).1
  unfolding left move_assign
  move_assign_lem = (taken, refl, left-IsValid)

module _ (singularity : ℕ) (opt : ArenaOptions) where
  abbrev pub made : Arena
  made = record {
    opt = opt;
    blocks = [];
    reusable = 0;
    top = none;
    g_empty_block = empty_block singularity;
  }

  pub made-IsValid : 0 < singularity → singularity ≤ half → IsValid made
  made-IsValid pos_s le = record {
    some_reusable = λ h. absurd (omega arith);
    reusable_le = omega arith;
    top_none = λ e. refl;
    top_lt = λ i e. cc;
    top_place = λ i e. cc;
    are_blocks = λ i b e. cc;
    apart = λ i j b c e f ne. cc;
    equal_sizes = λ i b c e h f. cc;
    empty_pos = pos_s;
    empty_tip = refl;
    empty_end = refl;
    empty_le_half = le;
  }

  none_held : (lo hi : ℕ) → IsHeld lo hi made → ⊥
  none_held lo hi h = let e = h.held_at in cc

  -- The constructor aborts if the smallest block size is above the largest one, and makes a valid
  -- arena with no memory in use otherwise, given a static empty block below half of the address
  -- space that is not at 0.
  pub make_lem :
      0 < singularity
      → singularity ≤ half
      → ((opt.max_block_size < opt.min_block_size) × (make singularity opt ≡ aborts))
        ⊎ ((opt.min_block_size ≤ opt.max_block_size)
            × ((a : Arena) × (make singularity opt ≡ ok a)
                × IsValid a
                × ((lo hi : ℕ) → ¬ IsHeld lo hi a)))
  unfolding make
  make_lem pos_s le = elim (Bool-cases (leb opt.min_block_size opt.max_block_size)) [
    | inl e ↦ inr (leb→le _ _ e, (made, rw e, made-IsValid pos_s le, none_held))
    | inr e ↦ inl (ground arith, rw e)
  ]
