-- ===== src/Index/Dirs/Push.antt =====
-- The CHECK on the path of each new directory in InitDirs of src/index.cc.
use gitstatus.Common.{
  Bool-cases, List, [], ap, arith, drop, inl, inr, length, length-append, refl, suc, sym, take,
  zero, ℕ, ◌++◌, ◌==◌, ◌∙◌, ◌∷◌, ◌≡◌, true,
}
use gitstatus.Common.Outcome.{ok}
use gitstatus.Index.Dirs.{Dir, checked_push, last_byte, push_dir, push_dirs}
use gitstatus.Text.{Bytes}
use gitstatus.Common.{◌≤◌}
use mathlib.Core.List.{append_assoc}

last_byte-append : (pre : Bytes) (c : ℕ) → last_byte (pre ++ c ∷ []) ≡ c
last_byte-append [] c = refl
last_byte-append (a ∷ []) c = refl
last_byte-append (a ∷ b ∷ pre) c = last_byte-append (b ∷ pre) c

take_to : (pre s : Bytes) (c : ℕ) → take (suc (length pre)) (pre ++ c ∷ s) ≡ pre ++ c ∷ []
take_to [] s c = refl
take_to (a ∷ pre) s c = ap (◌∷◌ a) (take_to pre s c)

slash_last :
    (path pre s : Bytes) (c : ℕ)
    → path ≡ pre ++ c ∷ s
    → (c == b'/') ≡ true
    → (last_byte (take (suc (length pre)) path) == b'/') ≡ true
slash_last path pre s c e m = rw (e, take_to pre s c, last_byte-append pre c) m

checked_push_from :
    (path pre s : Bytes) (n : ℕ) (stack : List Dir)
    → path ≡ pre ++ s
    → length pre ≡ n
    → checked_push path n s stack ≡ ok (push_dirs path n s stack)
unfolding checked_push push_dirs
checked_push_from path pre [] n stack e l = refl
checked_push_from path pre (c ∷ s) n stack e l =
    let next : path ≡ (pre ++ c ∷ []) ++ s = e ∙ sym (append_assoc pre (c ∷ []) s) in
    let longer : length (pre ++ c ∷ []) ≡ suc n = omega (arith, l, length-append pre (c ∷ [])) in
    elim (Bool-cases (c == b'/')) [
      | inl m ↦
          rw (checked_push, push_dirs, m, sym l, slash_last path pre s c e m)
            (rw l (
              checked_push_from path (pre ++ c ∷ []) s (suc n) (push_dir path n stack) next longer))
      | inr m ↦
          rw (checked_push, push_dirs, m)
            (checked_push_from path (pre ++ c ∷ []) s (suc n) stack next longer)
    ]

pub length-take_le : (n : ℕ) (s : Bytes) → n ≤ length s → length (take n s) ≡ n
length-take_le zero s h = refl
length-take_le (suc n) [] h = absurd (omega arith)
length-take_le (suc n) (c ∷ s) h = ap suc (length-take_le n s (omega arith))

pub take-drop : (n : ℕ) (s : Bytes) → s ≡ take n s ++ drop n s
take-drop zero s = refl
take-drop (suc n) [] = refl
take-drop (suc n) (c ∷ s) = ap (◌∷◌ c) (take-drop n s)

-- The CHECK holds for each of them, wherever the loop starts.
pub checked_push-ok :
    (path : Bytes) (n : ℕ) (stack : List Dir)
    → n ≤ length path
    → checked_push path n (drop n path) stack ≡ ok (push_dirs path n (drop n path) stack)
checked_push-ok path n stack h =
    checked_push_from path (take n path) (drop n path) n stack (take-drop n path)
      (length-take_le n path h)
