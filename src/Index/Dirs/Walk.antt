-- ===== src/Index/Dirs/Walk.antt =====
-- The order in which `InitDirs` of src/index.cc leaves the directories.
use gitstatus.Text.Sort.{str_sort}
use gitstatus.Index.Open.Lineage.{IsName, IsChild, IsLineage}
use gitstatus.Text.{codes, Bytes}
use gitstatus.Common.{
  ==_iff, All-append, take, ◌⊎◌, Bool-cases, ap, arith, inl, inr, length-append, sym, ◌++◌, ◌+◌,
  ◌==◌, ◌≢◌, List, [], drop, length, map, refl, suc, true, zero, ℕ, ◌∙◌, ◌∷◌, ◌≡◌,
}
use gitstatus.Index.Open.Ancestors.{last_byte-snoc}
use gitstatus.Text.Find.{take-append, Lacks}
use mathlib.Core.List.{append-nil, append_assoc}
use gitstatus.Common.Outcome.{
  >>=-Ensures, >>=-Ensures_eq, Ensures-ok, check, on_aborts, Ensures, on_ok,
}
use gitstatus.Index.Dirs.{Dir, Build, pop_dir, pop_dirs, push_dir, push_dirs}
use gitstatus.Index.Dirs.{last_byte}
use mathlib.Core.Path.{subst}
use gitstatus.Index.Place.{Place, IsPlaced, Follows, IsPreorder, dir_place}

abbrev pub paths : List Dir → List Bytes
paths st = map (λ (d : Dir). d.path) st

abbrev pub places : List Dir → List Place
places ds = map dir_place ds

-- Each directory of the stack is in the one below it.
abbrev pub IsChain : List Dir → Type 0
IsChain [] = Unit
IsChain (d ∷ st) = IsPlaced (dir_place d) (paths st) × (d.depth ≡ length st) × IsChain st

-- The directories follow the stack, or are all in preorder when it is empty.
abbrev pub IsOrdered : List Dir → List Dir → Type 0
IsOrdered [] ds = IsPreorder (places ds)
IsOrdered (d ∷ st) ds = Follows (paths (d ∷ st)) (places ds)

pub record IsWalk (st ds : List Dir) : Type 0 where
  pub chain : IsChain st
  pub order : IsOrdered st ds

pub chain-IsLineage : (d : Dir) (st : List Dir) → IsChain (d ∷ st) → IsLineage (paths (d ∷ st))
chain-IsLineage d [] c = c.0
chain-IsLineage d (e ∷ st) c = ((d.basename, c.0.0), c.0.1)

pub length-paths : (st : List Dir) → length st ≡ length (paths st)
length-paths [] = refl
length-paths (d ∷ st) = ap suc (length-paths st)

-- The top of the stack leads to the directories behind it.
popped-IsOrdered :
    (d : Dir) (subdirs : List Bytes) (st ds : List Dir)
    → IsChain (d ∷ st)
    → IsOrdered (d ∷ st) ds
    → IsOrdered st (record d { subdirs = subdirs } ∷ ds)
popped-IsOrdered d ss [] ds c o = ([], c.0, c.1, o)
popped-IsOrdered d ss (e ∷ st) ds c o =
    (0, e.path, paths st, refl, c.0.0, c.1 ∙ ap suc (length-paths st), o)

-- What holds of a state of InitDirs that has left n directories of the stack.
abbrev pub Left : ℕ → List Dir → Build → Type 0
Left n st b = IsWalk b.stack b.dirs × (b.stack ≡ drop n st)

pop_dir-IsWalk :
    (st ds : List Dir) (w : ℕ)
    → IsWalk st ds
    → Ensures (Left 1 st) (pop_dir true (record { stack = st; dirs = ds; total_weight = w }))
unfolding pop_dir
pop_dir-IsWalk [] ds w h = on_aborts
pop_dir-IsWalk (d ∷ st) ds w h =
    >>=-Ensures (Left 1 (d ∷ st)) (check (d.depth + 1 == suc (length st))) _
      (λ _. on_ok (kept, refl))
  where
    kept : IsWalk st (record d { subdirs = str_sort true d.subdirs } ∷ ds)
    kept = record { chain = h.chain.2; order = popped-IsOrdered d _ st ds h.chain h.order }

drop-drop : (n : ℕ) (st : List Dir) → drop n (drop 1 st) ≡ drop (suc n) st
drop-drop zero [] = refl
drop-drop (suc n) [] = refl
drop-drop n (d ∷ st) = refl

pub pop_dirs-IsWalk :
    (n : ℕ) (st ds : List Dir) (w : ℕ)
    → IsWalk st ds
    → Ensures (Left n st) (pop_dirs true n (record { stack = st; dirs = ds; total_weight = w }))
unfolding pop_dirs
pop_dirs-IsWalk zero st ds w h = on_ok (h, refl)
pop_dirs-IsWalk (suc n) st ds w h =
    >>=-Ensures_eq (Left (suc n) st)
      (pop_dir true (record { stack = st; dirs = ds; total_weight = w })) (pop_dirs true n)
      (λ b e.
        let one =
          Ensures-ok (Left 1 st) (pop_dir true (record { stack = st; dirs = ds; total_weight = w }))
            (pop_dir-IsWalk st ds w h) e in
        subst (λ z. Ensures (λ c. IsWalk c.stack c.dirs × (c.stack ≡ z)) (pop_dirs true n b))
          (ap (drop n) one.1 ∙ drop-drop n st)
          (pop_dirs-IsWalk n b.stack b.dirs b.total_weight one.0))

Follows-push : (p : Bytes) (ps : List Bytes) (ds : List Place) → Follows ps ds → Follows (p ∷ ps) ds
Follows-push p ps [] f = tt
Follows-push p ps (d ∷ ds) (n, q, qs, e, c, l, f) = (suc n, q, qs, e, c, l, f)

-- What is before the beginning of a name.
abbrev pub EndsDir : Bytes → Type 0
EndsDir s = (s ≡ []) ⊎ (last_byte s ≡ b'/')

-- Every slash of the path ends a name: none stands at the beginning or behind another, and none ends
-- the component ".".
pub record IsClean (path : Bytes) : Type 0 where
  pub full : (s t : Bytes) → path ≡ s ++ b'/' ∷ t → ¬ EndsDir s
  pub undotted : (s t : Bytes) → path ≡ s ++ b'.' ∷ b'/' ∷ t → ¬ EndsDir s

drop_whole : (s t : Bytes) → drop (length s) (s ++ t) ≡ t
drop_whole [] t = refl
drop_whole (c ∷ s) t = drop_whole s t

lineage-last : (p : Bytes) (ps : List Bytes) → IsLineage (p ∷ ps) → EndsDir p
lineage-last p [] l = inl l
lineage-last p (q ∷ ps) l = inr (ap (λ z. last_byte z) l.0.1.0 ∙ last_byte-snoc (q ++ l.0.0) b'/')

pub push_dirs-IsWalk :
    (path pre s mid : Bytes) (n : ℕ) (top : Dir) (below ds : List Dir)
    → IsClean path
    → path ≡ pre ++ s
    → n ≡ length pre
    → pre ≡ top.path ++ mid
    → Lacks b'/' mid
    → IsWalk (top ∷ below) ds
    → IsWalk (push_dirs path n s (top ∷ below)) ds
unfolding push_dirs
push_dirs-IsWalk path pre [] mid n top below ds clean e f g l h = h
push_dirs-IsWalk path pre (c ∷ s) mid n top below ds clean e f g l h =
    elim (Bool-cases (c == b'/')) [
      | inr m ↦
          rw (push_dirs, m)
            (push_dirs-IsWalk path (pre ++ c ∷ []) s (mid ++ c ∷ []) (suc n) top below ds clean cut
              next (ap (λ z. z ++ c ∷ []) g ∙ append_assoc top.path mid (c ∷ []))
              (All-append (λ b. b ≢ b'/') mid (c ∷ []) l (ground arith, tt)) h)
      | inl m ↦
          rw (push_dirs, m)
            (push_dirs-IsWalk path (pre ++ c ∷ []) s [] (suc n) _ _ ds clean cut next
              (sym taken ∙ sym (append-nil (take (suc n) path))) tt (pushed ((==_iff c b'/').0 m)))
    ]
  where
    cut : path ≡ (pre ++ c ∷ []) ++ s
    cut = e ∙ sym (append_assoc pre (c ∷ []) s)

    next : suc n ≡ length (pre ++ c ∷ [])
    next = omega (arith, f, length-append pre (c ∷ []))

    taken : take (suc n) path ≡ pre ++ c ∷ []
    taken =
        ap (λ j. take j path) next
        ∙ ap (take (length (pre ++ c ∷ []))) cut
        ∙ take-append (pre ++ c ∷ []) s

    name : drop (length top.path) (take n path) ≡ mid
    name =
        ap (drop (length top.path))
          (ap (λ j. take j path) f ∙ ap (take (length pre)) e ∙ take-append pre (c ∷ s) ∙ g)
        ∙ drop_whole top.path mid

    top_open : EndsDir top.path
    top_open = lineage-last top.path (paths below) (chain-IsLineage top below h.chain)

    named : c ≡ b'/' → IsName mid
    named k = record {
      full = λ i.
          clean.full pre s (e ∙ ap (λ z. pre ++ z ∷ s) k)
            (subst EndsDir (sym (g ∙ ap (λ z. top.path ++ z) i ∙ append-nil top.path)) top_open);
      undotted = λ i.
          clean.undotted top.path s
            (e
              ∙ ap (λ z. z ++ c ∷ s) (g ∙ ap (λ z. top.path ++ z) i)
              ∙ append_assoc top.path (codes ".") (c ∷ s)
              ∙ ap (λ z. top.path ++ b'.' ∷ z ∷ s) k)
            top_open;
    }

    child : c ≡ b'/' → IsChild top.path (take (suc n) path) mid
    child k =
        (taken ∙ ap (λ z. z ++ c ∷ []) g ∙ ap (λ z. (top.path ++ mid) ++ z ∷ []) k, l, named k)

    pushed : c ≡ b'/' → IsWalk (push_dir path n (top ∷ below)) ds
    pushed k = record {
      chain = (
        (
          subst (IsChild top.path (take (suc n) path)) (sym name) (child k),
          chain-IsLineage top below h.chain,
        ),
        refl,
        (h.chain.0, h.chain.1, h.chain.2),
      );
      order = Follows-push (take (suc n) path) (paths (top ∷ below)) (places ds) h.order;
    }
