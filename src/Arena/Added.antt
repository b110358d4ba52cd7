-- ===== src/Arena/Added.antt =====
-- AddBlock in src/arena.cc on all branches.
use gitstatus.Arena.Tips.{IsTop-of, IsTop, top_block_eq}
use gitstatus.Common.{
  Bool-cases, ap, arith, inl, inr, leb, leb→le, refl, some, suc, ℕ, ◌+◌, ◌<◌, ◌≡◌, ◌≤◌,
}
use gitstatus.Arena.{
  Block, Arena, size, top_block, padded, block_size, before_last_reusable, next_block, push_block,
  add_block,
}
use gitstatus.Arena.Invariant.{IsValid, IsHeld, IsFresh, half, size_lem}
use gitstatus.Arena.Pushed.{fresh_block, push_block-IsPushed}
use gitstatus.Arena.Add.{pushed-IsValid, pushed-IsHeld, pushed-IsTop, fresh_end}
use gitstatus.Arena.Advance.{before_last, next_block-IsNext}

-- The arena with an empty block at `top_`, which has room for `need` bytes.
pub record IsAdded (need : ℕ) (a b : Arena) : Type 0 where
  pub added : Block
  pub top_index : ℕ
  pub added_top : IsTop top_index added b
  pub added_empty : added.tip ≡ added.start
  pub added_room : added.start + need ≤ added.end
  pub added_valid : IsValid b
  pub added_held : (lo hi : ℕ) → IsHeld lo hi a → IsHeld lo hi b

-- The block that AddBlock would ask `operator new` for.
abbrev pub IsFreshFor : (alloc : ℕ → ℕ) (n alignment : ℕ) (a : Arena) → Type 0
IsFreshFor alloc n alignment a = let m = block_size (padded n alignment) a in IsFresh (alloc m) m a

need_le_block_size : (need : ℕ) (a : Arena) → need ≤ block_size need a
unfolding block_size
need_le_block_size need a = ground arith

fresh_size : (p n : ℕ) → p + n ≤ half → size (fresh_block p n) ≡ n
unfolding size
fresh_size p n h = omega arith

pushed-IsAdded :
    (p n need : ℕ) (a : Arena)
    → IsValid a
    → IsFresh p n a
    → need ≤ n
    → IsAdded need a (push_block p n a)
pushed-IsAdded p n need a v f le =
    let h = push_block-IsPushed p n a v (fresh_size p n f.fresh_le_half) in
    let b = push_block p n a in
    record {
      added = fresh_block p n;
      top_index = h.0;
      added_top = pushed-IsTop p n h.0 a b h.1 v f;
      added_empty = refl;
      added_room = omega (arith, fresh_end p n f.fresh_le_half);
      added_valid = pushed-IsValid p n h.0 a b h.1 v f;
      added_held = pushed-IsHeld p n h.0 a b h.1 v f;
    }

size_le_top : (i : ℕ) (d : Block) (a : Arena) → IsTop i d a → size (top_block a) ≡ size d
size_le_top i d a t = ap size (top_block_eq i d a t)

next-IsAdded :
    (need i : ℕ) (a : Arena)
    → IsValid a
    → a.top ≡ some i
    → suc i < a.reusable
    → need ≤ size (top_block a)
    → IsAdded need a (next_block a)
next-IsAdded need i a v e lt room =
    let h = next_block-IsNext i a v e lt in
    let t = IsTop-of i a v e in
    let k = h.1.next_valid.are_blocks (suc i) h.0 h.1.next_top.top_at in
    let same = h.1.next_size t.0 t.1.top_at in
    record {
      added = h.0;
      top_index = suc i;
      added_top = h.1.next_top;
      added_empty = h.1.next_empty;
      added_room =
          omega (arith, size_lem h.0 k, size_le_top i t.0 a t.1, k.start_le_tip, k.tip_le_end);
      added_valid = h.1.next_valid;
      added_held = h.1.next_held;
    }

pub add_block-IsAdded :
    (alloc : ℕ → ℕ) (n alignment : ℕ) (a : Arena)
    → IsValid a
    → IsFreshFor alloc n alignment a
    → IsAdded (padded n alignment) a (add_block alloc n alignment a)
unfolding add_block
add_block-IsAdded alloc n alignment a v f =
    let need = padded n alignment in
    let pushed = pushed-IsAdded _ _ need a v f (need_le_block_size need a) in
    elim (Bool-cases (leb need (size (top_block a)))) [
      | inl room ↦ elim (Bool-cases (before_last_reusable a)) [
        | inl before ↦
            let i = before_last a before in
            rw (room, before) (next-IsAdded need i.0 a v i.1 i.2 (leb→le _ _ room))
        | inr last ↦ rw (room, last) pushed
      ]
      | inr short ↦ rw short pushed
    ]
