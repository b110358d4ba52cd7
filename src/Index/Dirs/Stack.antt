-- ===== src/Index/Dirs/Stack.antt =====
-- The stack of `InitDirs` of src/index.cc: the depths of the directories on it.
use gitstatus.Common.{
  ==_iff, ap, length-append, sym, ◌∙◌, Bool, Bool-cases, List, [], arith, false, if◌then◌else◌, inl,
  inr, length, refl, suc, take, true, ℕ, ◌++◌, ◌+◌, ◌==◌, ◌∷◌, ◌≡◌, ◌≤◌,
}
use gitstatus.Index.Dirs.{Dir, common_loop, push_dirs}
use gitstatus.Text.Find.{take-append}
use mathlib.Core.List.{append-nil, append_assoc}
use mathlib.Core.Path.{subst}
use gitstatus.Text.{Bytes, key}

abbrev pub slashes : Bytes → ℕ
slashes [] = 0
slashes (c ∷ s) = if c == b'/' then suc (slashes s) else slashes s

pub slashes-append : (s t : Bytes) → slashes (s ++ t) ≡ slashes s + slashes t
slashes-append [] t = omega arith
slashes-append (c ∷ s) t = ground (arith, slashes-append s t)

-- Each directory has as many below it on the stack as its path has slashes.
abbrev pub IsStack : List Dir → Type 0
IsStack [] = Unit
IsStack (d ∷ ds) = (d.depth ≡ length ds) × (slashes d.path ≡ d.depth) × IsStack ds

pub common_loop_le :
    (cs : Bool) (i l n : ℕ) (a b : Bytes) → (common_loop cs i (l, n) a b).1 ≤ n + slashes a
unfolding common_loop
common_loop_le cs i l n [] b = omega arith
common_loop_le cs i l n (x ∷ a) [] = omega arith
common_loop_le cs i l n (x ∷ a) (y ∷ b) =
    ground (arith, common_loop_le cs (i + 1) i (n + 1) a b, common_loop_le cs (i + 1) l n a b)

key-slash : (cs : Bool) (x y : ℕ) → key cs x ≡ key cs y → (x == b'/') ≡ (y == b'/')
key-slash true x y e = rw e refl
key-slash false x y e = ground arith

-- The length that CommonDir finds ends a directory as deep as the depth that it finds.
pub common_loop-slashes :
    (cs : Bool) (path : Bytes) (i l n : ℕ) (pre a b : Bytes)
    → path ≡ pre ++ b
    → i ≡ suc (length pre)
    → n ≡ slashes pre
    → slashes (take l path) ≡ n
    → slashes (take (common_loop cs i (l, n) a b).0 path) ≡ (common_loop cs i (l, n) a b).1
unfolding common_loop
common_loop-slashes cs path i l n pre [] b e f g h = h
common_loop-slashes cs path i l n pre (x ∷ a) [] e f g h = h
common_loop-slashes cs path i l n pre (x ∷ a) (y ∷ b) e f g h =
    elim (Bool-cases (key cs x == key cs y)) [
      | inr k ↦ rw (common_loop, k) h
      | inl k ↦ elim (Bool-cases (x == b'/')) [
        | inl m ↦
            rw (common_loop, k, m)
              (common_loop-slashes cs path (i + 1) i (n + 1) (pre ++ y ∷ []) a b cut next
                (deeper k m) (ap (λ p. slashes p) prefix ∙ sym (deeper k m)))
        | inr m ↦
            rw (common_loop, k, m)
              (common_loop-slashes cs path (i + 1) l n (pre ++ y ∷ []) a b cut next (same k m) h)
      ]
    ]
  where
    cut : path ≡ (pre ++ y ∷ []) ++ b
    cut = e ∙ sym (append_assoc pre (y ∷ []) b)

    next : i + 1 ≡ suc (length (pre ++ y ∷ []))
    next = omega (arith, length-append pre (y ∷ []))

    prefix : take i path ≡ pre ++ y ∷ []
    prefix =
        ap (λ p. take i p) cut
        ∙ subst (λ j. take j ((pre ++ y ∷ []) ++ b) ≡ pre ++ y ∷ [])
            (omega (arith, length-append pre (y ∷ []))) (take-append (pre ++ y ∷ []) b)

    slash_of : (key cs x == key cs y) ≡ true → (x == b'/') ≡ (y == b'/')
    slash_of k = key-slash cs x y ((==_iff (key cs x) (key cs y)).0 k)

    deeper : (key cs x == key cs y) ≡ true → (x == b'/') ≡ true → n + 1 ≡ slashes (pre ++ y ∷ [])
    deeper k m = ground (arith, slashes-append pre (y ∷ []), slash_of k)

    same : (key cs x == key cs y) ≡ true → (x == b'/') ≡ false → n ≡ slashes (pre ++ y ∷ [])
    same k m = ground (arith, slashes-append pre (y ∷ []), slash_of k)

-- A stack that is not empty, whose top lies as deep as it says.
pub record Top (st : List Dir) (n : ℕ) : Type 0 where
  pub top : Dir
  pub below : List Dir
  pub shape : st ≡ top ∷ below
  pub is_stack : IsStack (top ∷ below)
  pub deep : top.depth ≡ n

pub push_dirs-Top :
    (path pre s : Bytes) (n : ℕ) (top : Dir) (below : List Dir)
    → path ≡ pre ++ s
    → n ≡ length pre
    → IsStack (top ∷ below)
    → top.depth ≡ slashes pre
    → Top (push_dirs path n s (top ∷ below)) (slashes path)
unfolding push_dirs
push_dirs-Top path pre [] n top below e f h k = record {
  top = top;
  below = below;
  shape = refl;
  is_stack = h;
  deep = k ∙ ap (λ p. slashes p) (sym (append-nil pre) ∙ sym e);
}
push_dirs-Top path pre (c ∷ s) n top below e f h k = elim (Bool-cases (c == b'/')) [
  | inr m ↦
      rw (push_dirs, m)
        (push_dirs-Top path (pre ++ c ∷ []) s (suc n) top below cut next h
          (ground (arith, slashes-append pre (c ∷ []))))
  | inl m ↦
      rw (push_dirs, m)
        (push_dirs-Top path (pre ++ c ∷ []) s (suc n) _ _ cut next (refl, deeper m, (h.0, h.1, h.2))
          (ground (arith, slashes-append pre (c ∷ []), h.0)))
]
  where
    cut : path ≡ (pre ++ c ∷ []) ++ s
    cut = e ∙ sym (append_assoc pre (c ∷ []) s)

    next : suc n ≡ length (pre ++ c ∷ [])
    next = omega (arith, length-append pre (c ∷ []))

    taken : take (suc n) path ≡ pre ++ c ∷ []
    taken =
        ap (λ p. take (suc n) p) cut
        ∙ subst (λ j. take j ((pre ++ c ∷ []) ++ s) ≡ pre ++ c ∷ []) (sym next)
            (take-append (pre ++ c ∷ []) s)

    deeper : (c == b'/') ≡ true → slashes (take (suc n) path) ≡ suc (length below)
    deeper m = ap (λ p. slashes p) taken ∙ ground (arith, slashes-append pre (c ∷ []), h.0)
