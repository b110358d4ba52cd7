-- ===== src/Index/Open/Lineage.antt =====
-- The directories above a directory, by their paths.
use gitstatus.Common.{
  List, Option, [], ap, arith, length, length-append, none, refl, some, suc, zero, ℕ, ◌++◌, ◌∷◌,
  ◌≡◌, ◌≢◌,
}
use gitstatus.Index.Open.{no_fds, pad}
use gitstatus.Text.{Bytes, codes}
use gitstatus.Text.Find.{Lacks}
use mathlib.Core.Option.{some-injective}
use mathlib.Core.Path.{subst}

-- A name that openat does not take for the directory itself.
pub record IsName (name : Bytes) : Type 0 where
  pub full : name ≢ []
  pub undotted : name ≢ codes "."

-- p is the directory `name` in q.
abbrev pub IsChild : Bytes → Bytes → Bytes → Type 0
IsChild q p name = (p ≡ q ++ name ++ b'/' ∷ []) × Lacks b'/' name × IsName name

-- The path of a directory and those of the directories above it, up to the root.
abbrev pub IsLineage : List Bytes → Type 0
IsLineage [] = ⊥
IsLineage (p ∷ []) = p ≡ []
IsLineage (p ∷ q ∷ ps) = ((name : Bytes) × IsChild q p name) × IsLineage (q ∷ ps)

pub snoc-injective : (s t : Bytes) (c d : ℕ) → s ++ c ∷ [] ≡ t ++ d ∷ [] → s ≡ t
snoc-injective [] [] c d e = refl
snoc-injective [] (b ∷ t) c d e =
    absurd (omega (arith, ap (λ l. length l) e, length-append t (d ∷ [])))
snoc-injective (a ∷ s) [] c d e =
    absurd (omega (arith, ap (λ l. length l) e, length-append s (c ∷ [])))
snoc-injective (a ∷ s) (b ∷ t) c d e = ground (arith, snoc-injective s t c d)

-- What a descriptor is open at, as the calls of openat give it.
module _ {H : Type 0} (Refers : Bytes → H → Type 0) where
  pub record IsSound (open_dir : H → Bytes → Option H) : Type 0 where
    pub named :
        (p name : Bytes) (h h' : H)
        → Refers p h
        → IsName name
        → open_dir h name ≡ some h'
        → Refers (p ++ name ++ b'/' ∷ []) h'
    pub dot : (p : Bytes) (h h' : H) → Refers p h → open_dir h (codes ".") ≡ some h' → Refers p h'

  -- Each open descriptor is at the directory of the path in its place, and none is open behind.
  abbrev pub StackHolds : List Bytes → List (Option H) → Type 0
  StackHolds [] [] = Unit
  StackHolds [] (x ∷ xs) = (x ≡ none) × StackHolds [] xs
  StackHolds (p ∷ ps) [] = Unit
  StackHolds (p ∷ ps) (x ∷ xs) = ((h : H) → x ≡ some h → Refers p h) × StackHolds ps xs

  abbrev pub AreOpen : List Bytes → List H → Type 0
  AreOpen ps [] = Unit
  AreOpen [] (h ∷ hs) = ⊥
  AreOpen (p ∷ ps) (h ∷ hs) = Refers p h × AreOpen ps hs

  pub no_fds-StackHolds : (n : ℕ) (ps : List Bytes) → StackHolds ps (no_fds n)
  no_fds-StackHolds zero [] = tt
  no_fds-StackHolds zero (p ∷ ps) = tt
  no_fds-StackHolds (suc n) [] = (refl, no_fds-StackHolds n [])
  no_fds-StackHolds (suc n) (p ∷ ps) = ((λ h e. cc), no_fds-StackHolds n ps)

  pub pad-StackHolds :
      (n : ℕ) (ps : List Bytes) (hs : List H) → AreOpen ps hs → StackHolds ps (pad n hs)
  pad-StackHolds zero [] hs o = tt
  pad-StackHolds zero (p ∷ ps) hs o = tt
  pad-StackHolds (suc n) [] [] o = (refl, pad-StackHolds n [] [] tt)
  pad-StackHolds (suc n) (p ∷ ps) [] o = ((λ h e. cc), pad-StackHolds n ps [] tt)
  pad-StackHolds (suc n) [] (h ∷ hs) o = absurd o
  pad-StackHolds (suc n) (p ∷ ps) (h ∷ hs) o =
      ((λ h' e. subst (Refers p) (some-injective h h' e) o.0), pad-StackHolds n ps hs o.1)
