-- ===== src/Dir/Sorts.antt =====
-- What ListDir of src/dir.cc returns, by the names of its entries.
use gitstatus.Text.{c_str, c_str, Bytes, str_lt}
use gitstatus.Common.{
  arith, All, Bool-cases, List, [], ap, inl, inr, length, map, refl, sym, true, ◌∙◌, ◌∷◌, ◌≡◌, ◌≢◌,
  ◌≤◌,
}
use mathlib.Core.Path.{subst}
use gitstatus.Dir.{swap_bytes, entry_lt, insert_entry, sort_swapped, sort_entries}
use gitstatus.Dir.Compares.{IsEntry, entry_lt-str_lt, to_eight}
use gitstatus.Text.Sort.{insert_str, str_sort}

-- The name of an entry whose bytes are swapped.
abbrev swapped_name : Bytes → Bytes
swapped_name m = c_str (swap_bytes m)

swap_bytes_twice : (m : Bytes) → 8 ≤ length m → swap_bytes (swap_bytes m) ≡ m
unfolding swap_bytes
swap_bytes_twice m h =
    let e = to_eight m h in subst (λ z. swap_bytes (swap_bytes z) ≡ z) (sym e.shape) refl

IsSwapped : Bytes → Type 0
IsSwapped m = IsEntry (swap_bytes m) × (swap_bytes (swap_bytes m) ≡ m)

All-insert_entry :
    (P : Bytes → Type 0) (a : Bytes) (l : List Bytes) → P a → All P l → All P (insert_entry a l)
unfolding insert_entry
All-insert_entry P a [] p h = (p, tt)
All-insert_entry P a (b ∷ l) p h = elim (Bool-cases (entry_lt b a)) [
  | inl e ↦ rw (insert_entry, e) (h.0, All-insert_entry P a l p h.1)
  | inr e ↦ rw (insert_entry, e) (p, h)
]

All-sort_swapped : (P : Bytes → Type 0) (l : List Bytes) → All P l → All P (sort_swapped l)
unfolding sort_swapped
All-sort_swapped P [] h = tt
All-sort_swapped P (a ∷ l) h = All-insert_entry P a (sort_swapped l) h.0 (All-sort_swapped P l h.1)

insert_entry-insert_str :
    (a : Bytes) (l : List Bytes)
    → IsSwapped a
    → All IsSwapped l
    → All (λ b. swapped_name a ≢ swapped_name b) l
    → map swapped_name (insert_entry a l) ≡ insert_str true (swapped_name a) (map swapped_name l)
unfolding insert_entry insert_str IsSwapped
insert_entry-insert_str a [] g h d = refl
insert_entry-insert_str a (b ∷ l) g h d = elim (Bool-cases (entry_lt b a)) [
  | inl e ↦
      rw (insert_entry, e, insert_str, sym same ∙ e)
        (ap (◌∷◌ (swapped_name b)) (insert_entry-insert_str a l g h.1 d.1))
  | inr e ↦ rw (insert_entry, e, insert_str, sym same ∙ e) refl
]
  where
    same : entry_lt b a ≡ str_lt true (swapped_name b) (swapped_name a)
    same =
        ap (λ z. entry_lt z a) (sym h.0.1)
        ∙ ap (entry_lt (swap_bytes (swap_bytes b))) (sym g.1)
        ∙ entry_lt-str_lt (swap_bytes b) (swap_bytes a) h.0.0 g.0 (λ q. d.0 (sym q))

-- No two of the memories have one name.
abbrev pub AreDistinct : (Bytes → Bytes) → List Bytes → Type 0
AreDistinct name [] = Unit
AreDistinct name (a ∷ l) = All (λ b. name a ≢ name b) l × AreDistinct name l

sort_swapped-str_sort :
    (l : List Bytes)
    → All IsSwapped l
    → AreDistinct swapped_name l
    → map swapped_name (sort_swapped l) ≡ str_sort true (map swapped_name l)
unfolding sort_swapped str_sort
sort_swapped-str_sort [] h d = refl
sort_swapped-str_sort (a ∷ l) h d =
    insert_entry-insert_str a (sort_swapped l) h.0 (All-sort_swapped IsSwapped l h.1)
      (All-sort_swapped (λ b. swapped_name a ≢ swapped_name b) l d.0)
    ∙ ap (insert_str true (swapped_name a)) (sort_swapped-str_sort l h.1 d.1)

swap_bytes-IsSwapped : (m : Bytes) → IsEntry m → IsSwapped (swap_bytes m)
unfolding IsSwapped
swap_bytes-IsSwapped m h =
    let twice = swap_bytes_twice m (omega (arith, h.long)) in
    (subst IsEntry (sym twice) h, ap swap_bytes twice)

map-All :
    {A : Type 0} (P Q : A → Type 0) (f : A → A) (l : List A)
    → ((a : A) → P a → Q (f a))
    → All P l
    → All Q (map f l)
map-All P Q f [] g h = tt
map-All P Q f (a ∷ l) g h = (g a h.0, map-All P Q f l g h.1)

-- What is true of the names is true of those of the swapped entries.
swapped_name_twice : (m : Bytes) → IsEntry m → swapped_name (swap_bytes m) ≡ c_str m
swapped_name_twice m h = ap (λ z. c_str z) (swap_bytes_twice m (omega (arith, h.long)))

swapped_names :
    (es : List Bytes)
    → All IsEntry es
    → map swapped_name (map swap_bytes es) ≡ map (λ e. c_str e) es
swapped_names [] h = refl
swapped_names (e ∷ es) h =
    ap (λ z. z ∷ map swapped_name (map swap_bytes es)) (swapped_name_twice e h.0)
    ∙ ap (◌∷◌ (c_str e)) (swapped_names es h.1)

apart-swapped :
    (a : Bytes) (es : List Bytes)
    → IsEntry a
    → All IsEntry es
    → All (λ b. c_str a ≢ c_str b) es
    → All (λ b. swapped_name (swap_bytes a) ≢ swapped_name b) (map swap_bytes es)
apart-swapped a [] g h d = tt
apart-swapped a (b ∷ es) g h d = (
  λ q. d.0 (sym (swapped_name_twice a g) ∙ q ∙ swapped_name_twice b h.0),
  apart-swapped a es g h.1 d.1,
)

swapped-AreDistinct :
    (es : List Bytes)
    → All IsEntry es
    → AreDistinct (λ e. c_str e) es
    → AreDistinct swapped_name (map swap_bytes es)
swapped-AreDistinct [] h d = tt
swapped-AreDistinct (e ∷ es) h d = (apart-swapped e es h.0 h.1 d.0, swapped-AreDistinct es h.1 d.1)

map_twice : (l : List Bytes) → map (λ e. c_str e) (map swap_bytes l) ≡ map swapped_name l
map_twice [] = refl
map_twice (e ∷ l) = ap (◌∷◌ (swapped_name e)) (map_twice l)

pub sort_entries-str_sort :
    (es : List Bytes)
    → All IsEntry es
    → AreDistinct (λ e. c_str e) es
    → map (λ e. c_str e) (sort_entries true es) ≡ str_sort true (map (λ e. c_str e) es)
unfolding sort_entries
sort_entries-str_sort es h d =
    map_twice (sort_swapped (map swap_bytes es))
    ∙ sort_swapped-str_sort (map swap_bytes es)
        (map-All IsEntry IsSwapped swap_bytes es swap_bytes-IsSwapped h)
        (swapped-AreDistinct es h d)
    ∙ ap (str_sort true) (swapped_names es h)
