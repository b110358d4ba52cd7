-- ===== src/Index/Dirs/Prefix.antt =====
-- The directories above a path, by their number, and what CommonDir of src/index.cc finds of them.
use gitstatus.Text.Find.{take-append}
use gitstatus.Common.{
  ==_iff, Bool-cases, ap, false, inl, inr, length-append, sym, ◌+◌, ◌∙◌, List, [], arith,
  if◌then◌else◌, length, refl, suc, take, true, zero, ℕ, ◌++◌, ◌==◌, ◌∷◌, ◌≡◌, ◌≤◌,
}
use mathlib.Core.List.{append_assoc}
use mathlib.Core.Path.{subst}
use gitstatus.Text.{Bytes}
use gitstatus.Index.Dirs.{common_loop}
use gitstatus.Index.Dirs.Stack.{slashes, slashes-append}
use gitstatus.Index.Open.Lineage.{IsLineage}

-- The path to its k-th slash.
abbrev pub dir_prefix : ℕ → Bytes → Bytes
dir_prefix zero s = []
dir_prefix (suc k) [] = []
dir_prefix (suc k) (c ∷ s) =
    let inside = c ∷ dir_prefix (suc k) s in if c == b'/' then c ∷ dir_prefix k s else inside

dir_prefix-cut :
    (n : ℕ) (s t : Bytes) → n ≡ suc (slashes s) → dir_prefix n (s ++ b'/' ∷ t) ≡ s ++ b'/' ∷ []
dir_prefix-cut zero s t e = absurd (omega (arith, e))
dir_prefix-cut (suc zero) [] t e = refl
dir_prefix-cut (suc (suc n)) [] t e = absurd (omega (arith, e))
dir_prefix-cut (suc n) (c ∷ s) t e =
    ground (arith, dir_prefix-cut n s t, dir_prefix-cut (suc n) s t)

-- The directories above a part of a path, down to the part, are those above the path.
pub dir_prefix-append :
    (n : ℕ) (s t : Bytes) → n ≤ slashes s → dir_prefix n (s ++ t) ≡ dir_prefix n s
dir_prefix-append zero s t h = refl
dir_prefix-append (suc n) [] t h = absurd (omega (arith, h))
dir_prefix-append (suc n) (c ∷ s) t h =
    ground (arith, dir_prefix-append n s t, dir_prefix-append (suc n) s t)

-- The path of a directory is its own directory.
pub dir_prefix-whole :
    (p : Bytes) (ps : List Bytes) → IsLineage (p ∷ ps) → dir_prefix (slashes p) p ≡ p
dir_prefix-whole p [] l = rw (l) refl
dir_prefix-whole p (q ∷ ps) l =
    subst (λ z. dir_prefix (slashes z) z ≡ z) (sym l.0.1.0)
      (dir_prefix-cut (slashes (q ++ l.0.0 ++ b'/' ∷ [])) (q ++ l.0.0) []
        (slashes-append (q ++ l.0.0) (b'/' ∷ []) ∙ omega arith))

-- CommonDir, of paths that it compares byte by byte, finds a directory above both.
pub common_loop-dir_prefix :
    (prev path : Bytes) (i l n : ℕ) (pre a b : Bytes)
    → prev ≡ pre ++ a
    → path ≡ pre ++ b
    → i ≡ suc (length pre)
    → n ≡ slashes pre
    → take l path ≡ dir_prefix n prev
    → l ≤ length path
    → (take (common_loop true i (l, n) a b).0 path
        ≡ dir_prefix (common_loop true i (l, n) a b).1 prev)
      × ((common_loop true i (l, n) a b).0 ≤ length path)
unfolding common_loop
common_loop-dir_prefix prev path i l n pre [] b d e f g h k = (h, k)
common_loop-dir_prefix prev path i l n pre (x ∷ a) [] d e f g h k = (h, k)
common_loop-dir_prefix prev path i l n pre (x ∷ a) (y ∷ b) d e f g h k =
    elim (Bool-cases (x == y)) [
      | inr same ↦ rw (common_loop, same) (h, k)
      | inl same ↦ elim (Bool-cases (x == b'/')) [
        | inl m ↦
            rw (common_loop, same, m)
              (common_loop-dir_prefix prev path (i + 1) i (n + 1) (pre ++ y ∷ []) a b (left same)
                right next (counted same m) (taken same m) fits)
        | inr m ↦
            rw (common_loop, same, m)
              (common_loop-dir_prefix prev path (i + 1) l n (pre ++ y ∷ []) a b (left same) right
                next (kept same m) h k)
      ]
    ]
  where
    left : (x == y) ≡ true → prev ≡ (pre ++ y ∷ []) ++ a
    left same = d ∙ ap (λ z. pre ++ z ∷ a) ((==_iff x y).0 same) ∙ sym (append_assoc pre (y ∷ []) a)

    right : path ≡ (pre ++ y ∷ []) ++ b
    right = e ∙ sym (append_assoc pre (y ∷ []) b)

    next : i + 1 ≡ suc (length (pre ++ y ∷ []))
    next = omega (arith, f, length-append pre (y ∷ []))

    fits : i ≤ length path
    fits = omega (
      arith,
      f,
      ap (λ z. length z) right,
      length-append (pre ++ y ∷ []) b,
      length-append pre (y ∷ []),
    )

    counted : (x == y) ≡ true → (x == b'/') ≡ true → n + 1 ≡ slashes (pre ++ y ∷ [])
    counted same m = ground (arith, g, slashes-append pre (y ∷ []))

    kept : (x == y) ≡ true → (x == b'/') ≡ false → n ≡ slashes (pre ++ y ∷ [])
    kept same m = ground (arith, g, slashes-append pre (y ∷ []))

    taken : (x == y) ≡ true → (x == b'/') ≡ true → take i path ≡ dir_prefix (n + 1) prev
    taken same m =
        ap (λ j. take j path) (omega (arith, f, length-append pre (y ∷ [])))
        ∙ ap (take (length (pre ++ y ∷ []))) right
        ∙ take-append (pre ++ y ∷ []) b
        ∙ ap (λ z. pre ++ z ∷ []) y_slash
        ∙ sym (dir_prefix-cut (n + 1) pre a (omega (arith, g)))
        ∙ ap (dir_prefix (n + 1)) (sym (d ∙ ap (λ z. pre ++ z ∷ a) ((==_iff x b'/').0 m)))
      where
        y_slash : y ≡ b'/'
        y_slash = sym ((==_iff x y).0 same) ∙ (==_iff x b'/').0 m
