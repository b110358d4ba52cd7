-- ===== src/Arena/Memcpy.antt =====
-- The writes of std::memcpy that src/arena.h makes.
use gitstatus.Common.{
  [], ap, arith, length, refl, suc, sym, zero, ℕ, ℕ_discrete, ◌++◌, ◌+◌, ◌<◌, ◌∙◌, ◌∷◌, ◌≡◌, ◌≢◌,
  ◌≤◌,
}
use mathlib.Core.Path.{ap₂, subst}
use gitstatus.Arena.Copy.{Memory, memcpy, bytes_at}
use gitstatus.Text.{Bytes}

pub memcpy_below : (p q : ℕ) (s : Bytes) (mem : Memory) → q < p → memcpy p s mem q ≡ mem q
unfolding memcpy
memcpy_below p q [] mem h = refl
memcpy_below p q (c ∷ s) mem h = ground (arith, memcpy_below (suc p) q s mem)

pub memcpy_above :
    (p q : ℕ) (s : Bytes) (mem : Memory) → p + length s ≤ q → memcpy p s mem q ≡ mem q
unfolding memcpy
memcpy_above p q [] mem h = refl
memcpy_above p q (c ∷ s) mem h = ground (arith, memcpy_above (suc p) q s mem)

pub bytes_at_eq :
    (f g : Memory) (p n : ℕ)
    → ((q : ℕ) → p ≤ q → q < p + n → f q ≡ g q)
    → bytes_at f p n ≡ bytes_at g p n
unfolding bytes_at
bytes_at_eq f g p zero h = refl
bytes_at_eq f g p (suc n) h =
    let rest = bytes_at_eq f g (suc p) n (λ q le lt. h q (omega arith) (omega arith)) in
    ap₂ ◌∷◌ (h p (omega arith) (omega arith)) rest

memcpy_here : (p c : ℕ) (s : Bytes) (mem : Memory) → memcpy p (c ∷ s) mem p ≡ c
unfolding memcpy
memcpy_here p c s mem = ground arith

memcpy_other :
    (p q c : ℕ) (s : Bytes) (mem : Memory) → p ≢ q → memcpy p (c ∷ s) mem q ≡ memcpy (suc p) s mem q
unfolding memcpy
memcpy_other p q c s mem ne = ground arith

pub bytes_at-memcpy :
    (p : ℕ) (s : Bytes) (mem : Memory) → bytes_at (memcpy p s mem) p (length s) ≡ s
unfolding bytes_at
bytes_at-memcpy p [] mem = refl
bytes_at-memcpy p (c ∷ s) mem =
    let behind =
      bytes_at_eq (memcpy p (c ∷ s) mem) (memcpy (suc p) s mem) (suc p) (length s)
        (λ q le lt. memcpy_other p q c s mem (omega arith)) in
    ap₂ ◌∷◌ (memcpy_here p c s mem) (behind ∙ bytes_at-memcpy (suc p) s mem)

memcpy_eq : (p q : ℕ) (s : Bytes) (f g : Memory) → f q ≡ g q → memcpy p s f q ≡ memcpy p s g q
unfolding memcpy
memcpy_eq p q [] f g e = e
memcpy_eq p q (c ∷ s) f g e = ground (arith, memcpy_eq (suc p) q s f g e)

pub memcpy-append :
    (p q : ℕ) (s t : Bytes) (mem : Memory)
    → memcpy p (s ++ t) mem q ≡ memcpy (p + length s) t (memcpy p s mem) q
unfolding memcpy
memcpy-append p q [] t mem = ap (λ r. memcpy r t mem q) {y = p + 0} (omega arith)
memcpy-append p q (c ∷ s) t mem = elim (ℕ_discrete p q) [
  | yes e ↦
      let lt : q < p + length (c ∷ s) = omega arith in
      let outer = memcpy_below (p + length (c ∷ s)) q t (memcpy p (c ∷ s) mem) lt in
      let at =
        λ (u : Bytes). subst (λ (r : ℕ). memcpy p (c ∷ u) mem r ≡ c) e (memcpy_here p c u mem) in
      at (s ++ t) ∙ sym (outer ∙ at s)
  | no ne ↦
      let place : suc p + length s ≡ p + length (c ∷ s) = omega arith in
      let same = memcpy_other p q c s mem ne in
      memcpy_other p q c (s ++ t) mem ne
      ∙ memcpy-append (suc p) q s t mem
      ∙ ap (λ r. memcpy r t (memcpy (suc p) s mem) q) place
      ∙ memcpy_eq (p + length (c ∷ s)) q t (memcpy (suc p) s mem) (memcpy p (c ∷ s) mem) (sym same)
]
