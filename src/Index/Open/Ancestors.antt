-- ===== src/Index/Open/Ancestors.antt =====
-- The paths of a directory and of those above it, as OpenTail and ScanDirs of src/index.cc test them.
use gitstatus.Index.Open.Lineage.{IsName, IsChild, IsLineage}
use gitstatus.Common.{
  List, [], ap, arith, drop, length, length-append, refl, suc, sym, take, zero, ℕ, ◌++◌, ◌∙◌, ◌∷◌,
  ◌≡◌, ◌≢◌,
}
use gitstatus.Index.Dirs.{last_byte}
use gitstatus.Text.{Bytes}
use gitstatus.Text.Find.{take-append}
use mathlib.Core.Path.{subst}

pub nonempty_behind : (s t : Bytes) → t ≢ [] → s ++ t ≢ []
nonempty_behind [] t h e = h e
nonempty_behind (c ∷ s) t h e = cc

-- A path in a directory is a name for openat.
pub behind-IsName : (s t : Bytes) → IsName t → IsName (s ++ t)
behind-IsName [] t h = h
behind-IsName (c ∷ s) t h = record {
  full = λ e. cc;
  undotted = λ e. nonempty_behind s t h.full (ground (arith, e));
}

-- The first byte of a path is a name's.
pub lineage-first :
    (p : Bytes) (ps : List Bytes) (c : ℕ) (s : Bytes) → IsLineage (p ∷ ps) → p ≡ c ∷ s → c ≢ b'/'
lineage-first p [] c s l e = cc
lineage-first p ([] ∷ ps) c s l e = λ f. name_first l.0.0 l.0.1 f
  where
    name_first : (name : Bytes) → IsChild [] p name → c ≢ b'/'
    name_first [] child f = absurd (child.2.full refl)
    name_first (d ∷ name) child f = child.1.0 (ground (arith, child.0))
lineage-first p ((d ∷ q) ∷ ps) c s l e = lineage-first (d ∷ q) ps c q l.1 (ground (arith, l.0.1.0))

pub last_byte-snoc : (s : Bytes) (c : ℕ) → last_byte (s ++ c ∷ []) ≡ c
last_byte-snoc [] c = refl
last_byte-snoc (d ∷ []) c = refl
last_byte-snoc (d ∷ e ∷ s) c = last_byte-snoc (e ∷ s) c

pub without_slash :
    (p t : Bytes) (n : ℕ)
    → p ≡ t ++ b'/' ∷ []
    → length p ≡ suc n
    → (last_byte p ≡ b'/') × (take n p ≡ t)
without_slash p t n e l =
    subst (λ z. (last_byte z ≡ b'/') × (take n z ≡ t)) (sym e)
      (
        last_byte-snoc t b'/',
        ap (λ n. take n (t ++ b'/' ∷ []))
              (omega (arith, l, ap (λ z. length z) e, length-append t (b'/' ∷ [])))
            ∙ take-append t (b'/' ∷ []),
      )

pub IsLineage-drop :
    (n : ℕ) (ps qs : List Bytes) (q : Bytes)
    → IsLineage ps
    → drop n ps ≡ q ∷ qs
    → IsLineage (q ∷ qs)
IsLineage-drop zero ps qs q l e = subst IsLineage e l
IsLineage-drop (suc n) [] qs q l e = absurd l
IsLineage-drop (suc n) (p ∷ []) qs q l e = absurd (drop-nil n e)
  where
    drop-nil : (n : ℕ) → drop n [] ≢ q ∷ qs
    drop-nil zero e = cc
    drop-nil (suc n) e = cc
IsLineage-drop (suc n) (p ∷ r ∷ ps) qs q l e = IsLineage-drop n (r ∷ ps) qs q l.1 e
