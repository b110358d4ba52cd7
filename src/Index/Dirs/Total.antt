-- ===== src/Index/Dirs/Total.antt =====
-- The states of `InitDirs` of src/index.cc, to its end.
use gitstatus.Text.Sort.{length-str_sort, str_sort}
use gitstatus.Common.{
  Bool, List, [], ap, arith, drop, leb, length, ltb, map, refl, suc, sym, take, true, zero, ℕ, ◌++◌,
  ◌+◌, ◌-◌, ◌<◌, ◌==◌, ◌∙◌, ◌∷◌, ◌≡◌, ◌≤◌,
}
use gitstatus.Common.Outcome.{Outcome, ok, ◌>>=◌}
use gitstatus.Index.Dirs.{
  checked_push, Build, Dir, add_entries, add_entry, common_dir, common_loop, init_dirs, pop_dir,
  pop_dirs, push_dirs, root_dir, weight,
}
use gitstatus.Index.Dirs.Push.{checked_push-ok, length-take_le, take-drop}
use gitstatus.Index.Dirs.Stack.{
  IsStack, Top, common_loop-slashes, common_loop_le, push_dirs-Top, slashes,
}
use gitstatus.Index.Splits.Partition.{sum}
use gitstatus.Text.{Bytes}

-- What a state of InitDirs keeps.
pub record IsBuild (b : Build) : Type 0 where
  pub is_stack : IsStack b.stack
  pub weighs : b.total_weight ≡ sum (map weight b.dirs)

pub record Popped (cs : Bool) (n : ℕ) (b : Build) : Type 0 where
  pub after : Build
  pub runs : pop_dirs cs n b ≡ ok after
  pub is_build : IsBuild after
  pub shorter : length after.stack + n ≡ length b.stack

abbrev popped : Bool → Dir → List Dir → List Dir → ℕ → Build
popped cs top below ds w = record {
  stack = below;
  dirs = record top { subdirs = str_sort cs top.subdirs } ∷ ds;
  total_weight = w + weight top;
}

popped-IsBuild :
    (cs : Bool) (top : Dir) (below ds : List Dir) (w : ℕ)
    → IsBuild (record { stack = top ∷ below; dirs = ds; total_weight = w })
    → IsBuild (popped cs top below ds w)
popped-IsBuild cs top below ds w h = record {
  is_stack = h.is_stack.2;
  weighs = omega (arith, h.weighs, length-str_sort cs top.subdirs);
}

Popped-suc :
    (cs : Bool) (n : ℕ) (top : Dir) (below ds : List Dir) (w : ℕ)
    → top.depth ≡ length below
    → Popped cs n (popped cs top below ds w)
    → Popped cs (suc n) (record { stack = top ∷ below; dirs = ds; total_weight = w })
unfolding pop_dirs pop_dir
Popped-suc cs n top below ds w e rest = record {
  after = rest.after;
  runs = rw (pop_dirs, checked) rest.runs;
  is_build = rest.is_build;
  shorter = omega (arith, rest.shorter);
}
  where
    checked : (top.depth + 1 == suc (length below)) ≡ true
    checked = ground arith

pop_dirs-Popped :
    (cs : Bool) (n : ℕ) (st ds : List Dir) (w : ℕ)
    → IsBuild (record { stack = st; dirs = ds; total_weight = w })
    → n ≤ length st
    → Popped cs n (record { stack = st; dirs = ds; total_weight = w })
pop_dirs-Popped cs zero st ds w h k = record {
  after = record { stack = st; dirs = ds; total_weight = w };
  runs = unfold pop_dirs in refl;
  is_build = h;
  shorter = omega arith;
}
pop_dirs-Popped cs (suc n) [] ds w h k = absurd (omega arith)
pop_dirs-Popped cs (suc n) (top ∷ below) ds w h k =
    Popped-suc cs n top below ds w h.is_stack.0
      (pop_dirs-Popped cs n below _ _ (popped-IsBuild cs top below ds w h) (omega arith))

common_loop-bound :
    (cs : Bool) (i l n m : ℕ) (a b : Bytes)
    → l ≤ m
    → i + length b ≤ suc m
    → (common_loop cs i (l, n) a b).0 ≤ m
unfolding common_loop
common_loop-bound cs i l n m [] b h k = h
common_loop-bound cs i l n m (x ∷ a) [] h k = h
common_loop-bound cs i l n m (x ∷ a) (y ∷ b) h k =
    ground
      (arith, common_loop-bound cs (i + 1) i (n + 1) m a b, common_loop-bound cs (i + 1) l n m a b)

pub common_dir_le : (cs : Bool) (prev path : Bytes) → (common_dir cs prev path).0 ≤ length path
unfolding common_dir
common_dir_le cs prev path =
    common_loop-bound cs 1 0 0 (length path) prev path (omega arith) (omega arith)

-- The new directories of an entry, from a stack whose top is the common directory.
grow-Top :
    (cs : Bool) (path prev : Bytes) (st : List Dir)
    → IsStack st
    → length st ≡ suc (common_dir cs prev path).1
    → Top
        (push_dirs path (common_dir cs prev path).0 (drop (common_dir cs prev path).0 path) st)
        (slashes path)
grow-Top cs path prev [] h e = absurd (omega arith)
grow-Top cs path prev (top ∷ below) h e =
    push_dirs-Top path (take (common_dir cs prev path).0 path) _ _ top below
      (take-drop (common_dir cs prev path).0 path)
      (sym (length-take_le (common_dir cs prev path).0 path (common_dir_le cs prev path))) h
      (omega (arith, h.0, e, found))
  where
    found : slashes (take (common_dir cs prev path).0 path) ≡ (common_dir cs prev path).1
    found = unfold common_dir in common_loop-slashes cs path 1 0 0 [] prev path refl refl refl refl

-- A state between two entries, which has a directory on its stack.
pub record Ready (b : Build) : Type 0 where
  pub is_build : IsBuild b
  pub nonempty : 0 < length b.stack

pub record Runs (m : Outcome Build) : Type 0 where
  pub after : Build
  pub runs : m ≡ ok after
  pub ready : Ready after

add_entry-Runs :
    (cs : Bool) (path : Bytes) (st ds : List Dir) (w : ℕ)
    → Ready (record { stack = st; dirs = ds; total_weight = w })
    → Runs (add_entry cs path (record { stack = st; dirs = ds; total_weight = w }))
unfolding add_entry
add_entry-Runs cs path [] ds w h = absurd (omega (arith, h.nonempty))
add_entry-Runs cs path (prev ∷ below) ds w h = record {
  after = record less.after {
    stack = record more.top { files = more.top.files ++ path ∷ [] } ∷ more.below;
  };
  runs = rw (add_entry, fits, less.runs, pushed, more.shape) refl;
  ready = record {
    is_build = record {
      is_stack = (more.is_stack.0, more.is_stack.1, more.is_stack.2);
      weighs = less.is_build.weighs;
    };
    nonempty = omega arith;
  };
}
  where
    below_prev : (common_dir cs prev.path path).1 ≤ prev.depth
    below_prev =
        unfold common_dir in
        omega (arith, common_loop_le cs 1 0 0 prev.path path, h.is_build.is_stack.1)

    fits : leb (common_dir cs prev.path path).1 prev.depth ≡ true
    fits = ground (arith, below_prev)

    less :
        Popped cs
          (prev.depth - (common_dir cs prev.path path).1)
          (record { stack = prev ∷ below; dirs = ds; total_weight = w })
    less =
        pop_dirs-Popped cs _ (prev ∷ below) ds w h.is_build (omega (arith, h.is_build.is_stack.0))

    pushed :
        checked_push path
          (common_dir cs prev.path path).0
          (drop (common_dir cs prev.path path).0 path)
          less.after.stack
        ≡ ok (
            push_dirs path
              (common_dir cs prev.path path).0
              (drop (common_dir cs prev.path path).0 path)
              less.after.stack)
    pushed =
        checked_push-ok path (common_dir cs prev.path path).0 less.after.stack
          (common_dir_le cs prev.path path)

    more :
        Top
          (push_dirs path
            (common_dir cs prev.path path).0
            (drop (common_dir cs prev.path path).0 path)
            less.after.stack)
          (slashes path)
    more =
        grow-Top cs path prev.path less.after.stack less.is_build.is_stack
          (omega (arith, less.shorter, below_prev, h.is_build.is_stack.0))

add_entries-Runs :
    (cs : Bool) (paths : List Bytes) (b : Build) → Ready b → Runs (add_entries cs paths b)
unfolding add_entries
add_entries-Runs cs [] b h = record { after = b; runs = refl; ready = h }
add_entries-Runs cs (p ∷ ps) b h =
    let first = add_entry-Runs cs p b.stack b.dirs b.total_weight h in
    let rest = add_entries-Runs cs ps first.after first.ready in
    record {
      after = rest.after;
      runs = ap (λ m. m >>= add_entries cs ps) first.runs ∙ rest.runs;
      ready = rest.ready;
    }

-- For the paths of any index, in any order, none of the CHECKs of `InitDirs` fails, and the weight
-- that it returns is the sum of the weights of its directories.
pub init_dirs-total :
    (cs : Bool) (paths : List Bytes)
    → (ds : List Dir) × (init_dirs cs paths ≡ ok (ds, sum (map weight ds)))
unfolding init_dirs
init_dirs-total cs paths = (
  rest.after.dirs,
  rw (start.runs, some_left, rest.runs) (ap (λ w. ok (rest.after.dirs, w)) rest.is_build.weighs),
)
  where
    start :
        Runs (add_entries cs paths (record { stack = root_dir ∷ []; dirs = []; total_weight = 0 }))
    start = add_entries-Runs cs paths _ (record {
      is_build = record { is_stack = (refl, refl, tt); weighs = refl };
      nonempty = omega arith;
    })

    some_left : ltb 0 (length start.after.stack) ≡ true
    some_left = ground (arith, start.ready.nonempty)

    rest : Popped cs (length start.after.stack) start.after
    rest =
        pop_dirs-Popped cs (length start.after.stack) start.after.stack start.after.dirs
          start.after.total_weight start.ready.is_build (omega arith)
