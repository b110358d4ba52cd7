-- ===== src/Text/Find.antt =====
-- Searches in byte ranges: std::find, std::string::find and `FindLast` of src/algorithm.h.
-- An iterator is its distance from the beginning of the range.
use gitstatus.Common.{
  length-append, inl, inr, ℕ_discrete, ◌⊎◌, ℕ, zero, suc, ◌<◌, ◌≡◌, refl, ap, ◌≢◌, Bool, true,
  false, [], ◌∷◌, ◌++◌, All, Option, none, some, take, drop, get_elem?, arith, ◌==◌, if◌then◌else◌,
  length, sym, ◌∙◌,
}
use gitstatus.Text.{Bytes}
use mathlib.Core.Option
use mathlib.Core.Option.{some-injective}

-- The first position of `c`, or none for the end iterator and npos.
unfoldable pub find_index : ℕ → Bytes → Option ℕ
find_index c [] = none
find_index c (b ∷ s) = let rest = find_index c s in if b == c then some 0 else Option.map suc rest

abbrev pub holds_at : ℕ → Bytes → ℕ → Bool
holds_at c s i = elim (get_elem? s i) [ none ↦ false | some b ↦ b == c ]

-- FindLast(begin, begin + end, c)
unfoldable pub find_last : Bytes → ℕ → ℕ → ℕ
find_last s zero c = 0
find_last s (suc end) c = let rest = find_last s end c in if holds_at c s end then end else rest

-- No byte of the string is `c`.
abbrev pub Lacks : ℕ → Bytes → Type 0
Lacks c = All (λ b. b ≢ c)

pub find_index-Lacks : (c : ℕ) (s : Bytes) → Lacks c s → find_index c s ≡ none
unfolding find_index
find_index-Lacks c [] h = refl
find_index-Lacks c (b ∷ s) h = ground (arith, find_index-Lacks c s)

pub find_index-none : (c : ℕ) (s : Bytes) → find_index c s ≡ none → Lacks c s
unfolding find_index
find_index-none c [] h = tt
find_index-none c (b ∷ s) h = ground (arith, find_index-none c s)

pub find_index-append :
    (c : ℕ) (s t : Bytes) → Lacks c s → find_index c (s ++ c ∷ t) ≡ some (length s)
unfolding find_index
find_index-append c [] t h = ground arith
find_index-append c (b ∷ s) t h = ground (arith, find_index-append c s t)

-- A hit splits the string at its first `c`.
pub find_index-some :
    (c : ℕ) (s : Bytes) (i : ℕ)
    → find_index c s ≡ some i
    → (s ≡ take i s ++ c ∷ drop (suc i) s) × Lacks c (take i s) × (i < length s)
unfolding find_index
find_index-some c [] i h = cc
find_index-some c (b ∷ s) zero h = ground arith
find_index-some c (b ∷ s) (suc i) h = ground (arith, find_index-some c s i)

pub take-append : (s t : Bytes) → take (length s) (s ++ t) ≡ s
take-append [] t = refl
take-append (b ∷ s) t = ap (◌∷◌ b) (take-append s t)

pub drop-append : (s : Bytes) (c : ℕ) (t : Bytes) → drop (suc (length s)) (s ++ c ∷ t) ≡ t
drop-append [] c t = refl
drop-append (b ∷ s) c t = drop-append s c t

-- `FindLast` returns the last position that holds `c`: none behind it does.
pub find_last-last :
    (s : Bytes) (end c i : ℕ) → find_last s end c < i → i < end → holds_at c s i ≡ false
unfolding find_last
find_last-last s zero c i h k = absurd (omega arith)
find_last-last s (suc end) c i h k = ground (arith, find_last-last s end c i)

-- And if it is not the beginning, it does hold `c`.
pub find_last-holds :
    (s : Bytes) (end c : ℕ) → find_last s end c ≢ 0 → holds_at c s (find_last s end c) ≡ true
unfolding find_last
find_last-holds s zero c h = absurd (h refl)
find_last-holds s (suc end) c h = ground (arith, find_last-holds s end c)

length-take : (i : ℕ) (s : Bytes) → i < length s → length (take i s) ≡ i
length-take zero s h = refl
length-take (suc i) [] h = absurd (omega arith)
length-take (suc i) (b ∷ s) h = ap suc (length-take i s (omega arith))

pub find_index-length :
    (c : ℕ) (s : Bytes) (i : ℕ) → find_index c s ≡ some i → length (take i s) ≡ i
find_index-length c s i h = length-take i s (find_index-some c s i h).2

-- A string is cut at its first `c` in one way only.
pub cut_unique :
    (c : ℕ) (s s' t t' : Bytes)
    → Lacks c s
    → Lacks c s'
    → s ++ c ∷ t ≡ s' ++ c ∷ t'
    → (s ≡ s') × (t ≡ t')
cut_unique c s s' t t' h h' e = (
  sym (take-append s (c ∷ t)) ∙ ap (take (length s)) e ∙ rw same (take-append s' (c ∷ t')),
  sym (drop-append s c t) ∙ ap (drop (suc (length s))) e ∙ rw same (drop-append s' c t'),
)
  where
    same : length s ≡ length s'
    same =
        some-injective _ _
          (sym (find_index-append c s t h) ∙ ap (find_index c) e ∙ find_index-append c s' t' h')

pub Lacks-of_cut : (c : ℕ) (s t : Bytes) → Lacks c (s ++ t) → Lacks c s × Lacks c t
Lacks-of_cut c [] t h = (tt, h)
Lacks-of_cut c (b ∷ s) t h = let r = Lacks-of_cut c s t h.1 in ((h.0, r.0), r.1)

pub not-Lacks : (c : ℕ) (s t : Bytes) → ¬ Lacks c (s ++ c ∷ t)
not-Lacks c s t h = (Lacks-of_cut c s (c ∷ t) h).1.0 refl

-- `FindLast` returns the beginning or a position that holds `c`, and no position between it and the
-- end of the range holds `c`.
pub find_last-IsLast :
    (s : Bytes) (end c : ℕ)
    → ((find_last s end c ≡ 0) ⊎ (holds_at c s (find_last s end c) ≡ true))
      × ((i : ℕ) → find_last s end c < i → i < end → holds_at c s i ≡ false)
find_last-IsLast s end c = (found, λ i h k. find_last-last s end c i h k)
  where
    found : (find_last s end c ≡ 0) ⊎ (holds_at c s (find_last s end c) ≡ true)
    found = elim (ℕ_discrete (find_last s end c) 0) [
      | yes e ↦ inl e
      | no ne ↦ inr (find_last-holds s end c ne)
    ]

-- The last of several positions is found by what follows it.
find_last-at :
    (s : Bytes) (end c m : ℕ)
    → m < end
    → holds_at c s m ≡ true
    → ((i : ℕ) → m < i → holds_at c s i ≡ false)
    → find_last s end c ≡ m
unfolding find_last
find_last-at s zero c m h e f = absurd (omega arith)
find_last-at s (suc end) c m h e f = elim (ℕ_discrete m end) [
  | yes k ↦ ground arith
  | no k ↦ ground (arith, f end, find_last-at s end c m (omega arith) e f)
]

holds_at-middle : (s : Bytes) (c : ℕ) (t : Bytes) → holds_at c (s ++ c ∷ t) (length s) ≡ true
holds_at-middle [] c t = ground arith
holds_at-middle (d ∷ s) c t = holds_at-middle s c t

holds_at-Lacks : (c : ℕ) (s : Bytes) (i : ℕ) → Lacks c s → holds_at c s i ≡ false
holds_at-Lacks c [] i h = refl
holds_at-Lacks c (d ∷ s) zero h = ground (arith, h.0)
holds_at-Lacks c (d ∷ s) (suc i) h = holds_at-Lacks c s i h.1

holds_at-behind :
    (s : Bytes) (c d : ℕ) (t : Bytes) (i : ℕ)
    → Lacks c t
    → length s < i
    → holds_at c (s ++ d ∷ t) i ≡ false
holds_at-behind s c d t zero h k = absurd (omega arith)
holds_at-behind [] c d t (suc i) h k = holds_at-Lacks c t i h
holds_at-behind (b ∷ s) c d t (suc i) h k = holds_at-behind s c d t i h (omega arith)

pub find_last-cut :
    (s : Bytes) (c : ℕ) (t : Bytes)
    → Lacks c t
    → find_last (s ++ c ∷ t) (length (s ++ c ∷ t)) c ≡ length s
find_last-cut s c t h =
    find_last-at (s ++ c ∷ t) _ c (length s) (omega (arith, length-append s (c ∷ t)))
      (holds_at-middle s c t) (λ i k. holds_at-behind s c c t i h k)

pub find_last-Lacks : (s : Bytes) (end c : ℕ) → Lacks c s → find_last s end c ≡ 0
unfolding find_last
find_last-Lacks s zero c h = refl
find_last-Lacks s (suc end) c h =
    ground (arith, holds_at-Lacks c s end h, find_last-Lacks s end c h)
