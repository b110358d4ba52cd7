-- ===== src/Common/Vectors.antt =====
-- std::vector as a list: writes and exchanges by index. Out of range nothing changes.
use gitstatus.Common.{
  take, Option-cases, ap, arith, if◌then◌else◌, inl, inr, length-append, none, refl, some, suc,
  zero, ℕ, ◌<◌, ◌==◌, ◌∙◌, ◌≡◌, ◌≤◌, length, get_elem?, List, [], ◌∷◌, ◌++◌,
}

module _ {ℓ} {A : Type ℓ} where
  abbrev pub set : List A → ℕ → A → List A
  set [] i v = []
  set (x ∷ xs) zero v = v ∷ xs
  set (x ∷ xs) (suc i) v = x ∷ set xs i v

  pub length-set : (xs : List A) (i : ℕ) (v : A) → length (set xs i v) ≡ length xs
  length-set [] i v = refl
  length-set (x ∷ xs) zero v = refl
  length-set (x ∷ xs) (suc i) v = ap suc (length-set xs i v)

  pub get_elem?-set :
      (xs : List A) (i j : ℕ) (v : A)
      → i < length xs
      → get_elem? (set xs i v) j ≡ (if i == j then some v else get_elem? xs j)
  get_elem?-set [] i j v h = absurd (omega arith)
  get_elem?-set (x ∷ xs) zero zero v h = refl
  get_elem?-set (x ∷ xs) zero (suc j) v h = ground arith
  get_elem?-set (x ∷ xs) (suc i) zero v h = ground arith
  get_elem?-set (x ∷ xs) (suc i) (suc j) v h = ground (arith, get_elem?-set xs i j v)

  -- std::swap(xs[i], xs[j])
  abbrev pub swap : List A → ℕ → ℕ → List A
  swap xs i j = elim (get_elem? xs i) [
    | none ↦ xs
    | some x ↦ elim (get_elem? xs j) [ none ↦ xs | some y ↦ set (set xs i y) j x ]
  ]

  pub get_elem?-length : (xs : List A) (i : ℕ) {x : A} → get_elem? xs i ≡ some x → i < length xs
  get_elem?-length [] i h = cc
  get_elem?-length (x ∷ xs) zero h = omega arith
  get_elem?-length (x ∷ xs) (suc i) h = omega (arith, get_elem?-length xs i h)

  pub get_elem?_below : (xs : List A) (i : ℕ) → i < length xs → (x : A) × (get_elem? xs i ≡ some x)
  get_elem?_below [] i h = absurd (omega arith)
  get_elem?_below (x ∷ xs) zero h = (x, refl)
  get_elem?_below (x ∷ xs) (suc i) h = get_elem?_below xs i (omega arith)

  pub get_elem?-append :
      (xs : List A) (x : A) (i : ℕ)
      → get_elem? (xs ++ x ∷ []) i ≡ (if i == length xs then some x else get_elem? xs i)
  get_elem?-append [] x zero = refl
  get_elem?-append [] x (suc i) = ground arith
  get_elem?-append (y ∷ xs) x zero = ground arith
  get_elem?-append (y ∷ xs) x (suc i) = ground (arith, get_elem?-append xs x i)

  pub length-swap : (xs : List A) (i j : ℕ) → length (swap xs i j) ≡ length xs
  length-swap xs i j = elim (Option-cases (get_elem? xs i)) [
    | inl e ↦ rw (e, swap)
    | inr (x, e) ↦ elim (Option-cases (get_elem? xs j)) [
      | inl f ↦ rw (e, f, swap)
      | inr (y, f) ↦ rw (e, f, swap) (length-set (set xs i y) j x ∙ length-set xs i y)
    ]
  ]

module _ {A : Type 0} where
  swap_lem :
      (xs : List A) (i j : ℕ) (x y : A)
      → get_elem? xs i ≡ some x
      → get_elem? xs j ≡ some y
      → swap xs i j ≡ set (set xs i y) j x
  swap_lem xs i j x y e f = rw (e, f, swap)

  pub get_elem?-swap :
      (xs : List A) (i j k : ℕ)
      → i < length xs
      → j < length xs
      → get_elem? (swap xs i j) k
        ≡ (if j == k then get_elem? xs i else if i == k then get_elem? xs j else get_elem? xs k)
  get_elem?-swap xs i j k hi hj =
      let x = get_elem?_below xs i hi in
      let y = get_elem?_below xs j hj in
      let z = get_elem?-set (set xs i y.0) j k x.0 (rw length-set hj) in
      rw (swap_lem xs i j x.0 y.0 x.1 y.1, z, get_elem?-set xs i k y.0 hi, x.1, y.1)

  -- push_back, then an exchange of back with an item at `k`.
  pub get_elem?-swap-append :
      (xs : List A) (x : A) (k i : ℕ)
      → k ≤ length xs
      → get_elem? (swap (xs ++ x ∷ []) (length xs) k) i
        ≡ (if k == i then some x else if length xs == i then get_elem? xs k else get_elem? xs i)
  get_elem?-swap-append xs x k i h = ground (
    arith,
    get_elem?-swap (xs ++ x ∷ []) (length xs) k i,
    length-append xs (x ∷ []),
    get_elem?-append xs x k,
    get_elem?-append xs x i,
    get_elem?-append xs x (length xs),
  )

  pub get_elem?-take :
      (n : ℕ) (xs : List A) (i : ℕ) {x : A}
      → get_elem? (take n xs) i ≡ some x
      → (i < n) × (get_elem? xs i ≡ some x)
  get_elem?-take zero xs i e = cc
  get_elem?-take (suc n) [] i e = cc
  get_elem?-take (suc n) (y ∷ xs) zero e = (omega arith, e)
  get_elem?-take (suc n) (y ∷ xs) (suc i) e =
      let h = get_elem?-take n xs i e in (omega (arith, h.0), h.1)

  pub length-take : (n : ℕ) (xs : List A) → n ≤ length xs → length (take n xs) ≡ n
  length-take zero xs h = refl
  length-take (suc n) [] h = absurd (omega arith)
  length-take (suc n) (x ∷ xs) h = omega (arith, length-take n xs (omega arith))
