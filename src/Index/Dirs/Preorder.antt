-- ===== src/Index/Dirs/Preorder.antt =====
-- The directories that `InitDirs` of src/index.cc leaves, for clean paths, compared byte by
-- byte.
use gitstatus.Common.{
  drop_all, ltb, map, All, leb, sym, take, ◌-◌, ◌≤◌, List, [], ap, arith, drop, length, refl, suc,
  true, zero, ℕ, ◌++◌, ◌+◌, ◌∙◌, ◌∷◌, ◌≡◌,
}
use gitstatus.Common.Outcome.{
  ok, >>=-Ensures_eq, Ensures-ok, Outcome, check, on_aborts, Ensures, on_ok, >>=-Ensures,
}
use gitstatus.Index.Dirs.{
  root_dir, weight, Dir, Build, pop_dirs, push_dirs, add_file, add_entry, add_entries, init_dirs,
  common_dir,
}
use gitstatus.Index.Dirs.Walk.{
  IsOrdered, places, length-paths, IsWalk, IsChain, Left, IsClean, paths, push_dirs-IsWalk,
  pop_dirs-IsWalk, chain-IsLineage,
}
use mathlib.Core.List.{append-nil, append_assoc}
use gitstatus.Index.Dirs.Push.{checked_push-ok, length-take_le, take-drop}
use gitstatus.Index.Dirs.Total.{common_dir_le, init_dirs-total}
use gitstatus.Index.Splits.Partition.{sum}
use gitstatus.Index.Dirs.Stack.{common_loop_le, slashes, slashes-append}
use gitstatus.Text.Find.{Lacks}
use mathlib.Core.Path.{subst}
use gitstatus.Index.Open.Lineage.{IsLineage}
use gitstatus.Text.{Bytes}
use gitstatus.Index.Place.{IsPreorder}
use gitstatus.Index.Dirs.Prefix.{
  dir_prefix, dir_prefix-append, dir_prefix-whole, common_loop-dir_prefix,
}

lineage-slashes : (p : Bytes) (ps : List Bytes) → IsLineage (p ∷ ps) → slashes p ≡ length ps
lineage-slashes p [] l = ap (λ z. slashes z) l
lineage-slashes p (q ∷ ps) l =
    ap (λ z. slashes z) l.0.1.0
    ∙ omega (
      arith,
      slashes-append (q ++ l.0.0) (b'/' ∷ []),
      slashes-append q l.0.0,
      Lacks-slashes l.0.0 l.0.1.1,
      lineage-slashes q ps l.1,
    )
  where
    Lacks-slashes : (s : Bytes) → Lacks b'/' s → slashes s ≡ 0
    Lacks-slashes [] l = refl
    Lacks-slashes (c ∷ s) l = ground (arith, l.0, Lacks-slashes s l.1)

-- The directory that is left on top.
record Above (n k : ℕ) (d : Dir) (st : List Dir) : Type 0 where
  top : Dir
  below : List Dir
  shape : drop n (d ∷ st) ≡ top ∷ below
  named : top.path ≡ dir_prefix k d.path

chain-Above :
    (n k : ℕ) (d : Dir) (st : List Dir) → IsChain (d ∷ st) → n + k ≡ length st → Above n k d st
chain-Above zero k d st c e = record {
  top = d;
  below = st;
  shape = refl;
  named = sym (
      ap (λ j. dir_prefix j d.path) whole
      ∙ dir_prefix-whole d.path (paths st) (chain-IsLineage d st c));
}
  where
    whole : k ≡ slashes d.path
    whole =
        omega
          (arith, e, length-paths st, lineage-slashes d.path (paths st) (chain-IsLineage d st c))
chain-Above (suc n) k d [] c e = absurd (omega (arith, e))
chain-Above (suc n) k d (e' ∷ st) c e =
    let up = chain-Above n k e' st c.2 (omega (arith, e)) in
    record { top = up.top; below = up.below; shape = up.shape; named = up.named ∙ sym same }
  where
    fits : k ≤ slashes e'.path
    fits =
        omega (
          arith,
          e,
          length-paths st,
          lineage-slashes e'.path (paths st) (chain-IsLineage e' st c.2),
        )

    same : dir_prefix k d.path ≡ dir_prefix k e'.path
    same =
        ap (dir_prefix k) (c.0.0.0 ∙ append_assoc e'.path d.basename (b'/' ∷ []))
        ∙ dir_prefix-append k e'.path (d.basename ++ b'/' ∷ []) fits

add_file-IsWalk :
    (path : Bytes) (st ds : List Dir)
    → IsWalk st ds
    → Ensures (λ st'. IsWalk st' ds) (add_file path st)
add_file-IsWalk path [] ds h = on_aborts
add_file-IsWalk path (d ∷ st) ds h =
    on_ok (record { chain = (h.chain.0, h.chain.1, h.chain.2); order = h.order })

-- The stack, when the directories that the entry is not in have left it, and the entry's have come.
grow-IsWalk :
    (path : Bytes) (prev : Dir) (below st ds : List Dir)
    → IsClean path
    → IsChain (prev ∷ below)
    → IsWalk st ds
    → st ≡ drop (prev.depth - (common_dir true prev.path path).1) (prev ∷ below)
    → IsWalk
        (push_dirs path
          (common_dir true prev.path path).0
          (drop (common_dir true prev.path path).0 path)
          st)
        ds
unfolding common_dir
grow-IsWalk path prev below st ds clean c h e =
    subst (λ z. IsWalk (push_dirs path found.0 (drop found.0 path) z) ds) (sym (e ∙ left.shape))
      (push_dirs-IsWalk path (take found.0 path) (drop found.0 path) [] found.0 left.top left.below
        ds clean (take-drop found.0 path) (sym (length-take_le found.0 path long.1))
        (long.0 ∙ sym left.named ∙ sym (append-nil left.top.path)) tt
        (subst (λ z. IsWalk z ds) (e ∙ left.shape) h))
  where
    found : ℕ × ℕ
    found = common_dir true prev.path path

    long : (take found.0 path ≡ dir_prefix found.1 prev.path) × (found.0 ≤ length path)
    long =
        common_loop-dir_prefix prev.path path 1 0 0 [] prev.path path refl refl refl refl refl
          (omega arith)

    fits : prev.depth - found.1 + found.1 ≡ length below
    fits = omega (
      arith,
      c.1,
      common_loop_le true 1 0 0 prev.path path,
      length-paths below,
      lineage-slashes prev.path (paths below) (chain-IsLineage prev below c),
    )

    left : Above (prev.depth - found.1) found.1 prev below
    left = chain-Above (prev.depth - found.1) found.1 prev below c fits

add_entry-IsWalk :
    (path : Bytes) (st ds : List Dir) (w : ℕ)
    → IsClean path
    → IsWalk st ds
    → Ensures
        (λ b. IsWalk b.stack b.dirs)
        (add_entry true path (record { stack = st; dirs = ds; total_weight = w }))
unfolding add_entry
add_entry-IsWalk path [] ds w clean h = on_aborts
add_entry-IsWalk path (prev ∷ below) ds w clean h =
    >>=-Ensures Kept (check (leb (common_dir true prev.path path).1 prev.depth)) _ (λ _.
      >>=-Ensures_eq Kept less _ (λ b e.
        let popped =
          Ensures-ok (Left gone (prev ∷ below)) less (pop_dirs-IsWalk gone (prev ∷ below) ds w h)
            e in
        rw
          (checked_push-ok path (common_dir true prev.path path).0 b.stack
            (common_dir_le true prev.path path))
          (>>=-Ensures_eq Kept (add_file path (pushed b.stack)) _ (λ st f. on_ok (
            Ensures-ok (λ z. IsWalk z b.dirs) (add_file path (pushed b.stack))
              (add_file-IsWalk path (pushed b.stack) b.dirs
                (grow-IsWalk path prev below b.stack b.dirs clean h.chain popped.0 popped.1))
              f)))))
  where
    Kept : Build → Type 0
    Kept b = IsWalk b.stack b.dirs

    gone : ℕ
    gone = prev.depth - (common_dir true prev.path path).1

    less : Outcome Build
    less = pop_dirs true gone (record { stack = prev ∷ below; dirs = ds; total_weight = w })

    pushed : List Dir → List Dir
    pushed st =
        push_dirs path (common_dir true prev.path path).0
          (drop (common_dir true prev.path path).0 path) st

add_entries-IsWalk :
    (ps : List Bytes) (st ds : List Dir) (w : ℕ)
    → All IsClean ps
    → IsWalk st ds
    → Ensures
        (λ b. IsWalk b.stack b.dirs)
        (add_entries true ps (record { stack = st; dirs = ds; total_weight = w }))
unfolding add_entries
add_entries-IsWalk [] st ds w clean h = on_ok h
add_entries-IsWalk (p ∷ ps) st ds w clean h =
    >>=-Ensures_eq (λ b. IsWalk b.stack b.dirs) (add_entry true p start) (add_entries true ps)
      (λ b e. add_entries-IsWalk ps b.stack b.dirs b.total_weight clean.1 (
        Ensures-ok (λ b. IsWalk b.stack b.dirs) (add_entry true p start)
          (add_entry-IsWalk p st ds w clean.0 h) e))
  where
    start : Build
    start = record { stack = st; dirs = ds; total_weight = w }

init_dirs-Ensures :
    (entries : List Bytes)
    → All IsClean entries
    → Ensures (λ (r : List Dir × ℕ). IsPreorder (places r.0)) (init_dirs true entries)
unfolding init_dirs
init_dirs-Ensures entries clean = >>=-Ensures_eq Kept (add_entries true entries start) _ (λ b e.
    >>=-Ensures Kept (check (ltb 0 (length b.stack))) _ (λ _.
      >>=-Ensures_eq Kept (pop_dirs true (length b.stack) b) _ (λ done f.
        let grown =
          Ensures-ok (λ b. IsWalk b.stack b.dirs) (add_entries true entries start)
            (add_entries-IsWalk entries (root_dir ∷ []) [] 0 clean first) e in
        let gone =
          Ensures-ok (Left (length b.stack) b.stack) (pop_dirs true (length b.stack) b)
            (pop_dirs-IsWalk (length b.stack) b.stack b.dirs b.total_weight grown) f in
        on_ok (subst (λ z. IsOrdered z done.dirs) (gone.1 ∙ drop_all b.stack) gone.0.order))))
  where
    Kept : List Dir × ℕ → Type 0
    Kept r = IsPreorder (places r.0)

    start : Build
    start = record { stack = root_dir ∷ []; dirs = []; total_weight = 0 }

    first : IsWalk (root_dir ∷ []) []
    first = record { chain = (refl, refl, tt); order = tt }

-- For an index whose paths have no directory that is empty or ".", with paths compared byte by byte,
-- InitDirs returns the directories and the sum of their weights, and they are in preorder: each is a
-- child, by its path, basename and depth, of the one before it or of one above that.
pub init_dirs-IsPreorder :
    (entries : List Bytes)
    → All IsClean entries
    → (ds : List Dir) × (init_dirs true entries ≡ ok (ds, sum (map weight ds)))
      × IsPreorder (places ds)
init_dirs-IsPreorder entries clean =
    let made = init_dirs-total true entries in
    (
      made.0,
      made.1,
      Ensures-ok (λ (r : List Dir × ℕ). IsPreorder (places r.0)) (init_dirs true entries)
          (init_dirs-Ensures entries clean) made.1,
    )
