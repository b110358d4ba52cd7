-- ===== src/Dir/Calls.antt =====
-- ListDir of src/dir.cc over the answers of getdents64.
use gitstatus.Text.{c_str, c_str, Bytes}
use gitstatus.Common.{
  if◌then◌else◌, ◌&&◌, ◌==◌, All, Bool, Bool-cases, List, Option, [], ap, arith, false, inl, inr,
  map, none, refl, some, sym, true, ◌++◌, ◌∙◌, ◌∷◌, ◌≡◌, ◌≢◌,
}
use mathlib.Core.List.{append-nil, append_assoc}
use gitstatus.Dir.{sort_entries, keep_entries, read_entries, list_dir, dots}
use gitstatus.Dir.Compares.{IsEntry}
use gitstatus.Dir.Sorts.{AreDistinct, sort_entries-str_sort}
use gitstatus.Index.Candidates.Shards.{flatten}
use gitstatus.Text.Sort.{str_sort}

All-keep_entries : (P : Bytes → Type 0) (es : List Bytes) → All P es → All P (keep_entries es)
All-keep_entries P [] h = tt
All-keep_entries P (e ∷ es) h = elim (Bool-cases (dots e)) [
  | inl d ↦ rw (d) (All-keep_entries P es h.1)
  | inr d ↦ rw (d) (h.0, All-keep_entries P es h.1)
]

keep_entries-AreDistinct :
    (es : List Bytes) → AreDistinct (λ e. c_str e) es → AreDistinct (λ e. c_str e) (keep_entries es)
keep_entries-AreDistinct [] h = tt
keep_entries-AreDistinct (e ∷ es) h = elim (Bool-cases (dots e)) [
  | inl d ↦ rw (d) (keep_entries-AreDistinct es h.1)
  | inr d ↦
      rw (d) (All-keep_entries (λ b. c_str e ≢ c_str b) es h.0, keep_entries-AreDistinct es h.1)
]

keep_entries-append :
    (es fs : List Bytes) → keep_entries (es ++ fs) ≡ keep_entries es ++ keep_entries fs
keep_entries-append [] fs = refl
keep_entries-append (e ∷ es) fs = ground (arith, keep_entries-append es fs)

-- The answers before the last add their entries.
read_entries-append :
    (acc : List Bytes) (bs : List (List Bytes)) (rest : List (Option (List Bytes)))
    → All (λ b. b ≢ []) bs
    → read_entries acc (map some bs ++ rest) ≡ read_entries (acc ++ keep_entries (flatten bs)) rest
unfolding read_entries
read_entries-append acc [] rest h = ap (λ l. read_entries l rest) (sym (append-nil acc))
read_entries-append acc ([] ∷ bs) rest h = absurd (h.0 refl)
read_entries-append acc ((e ∷ es) ∷ bs) rest h =
    read_entries-append (acc ++ keep_entries (e ∷ es)) bs rest h.1
    ∙ ap (λ l. read_entries l rest)
        (append_assoc acc (keep_entries (e ∷ es)) (keep_entries (flatten bs))
          ∙ ap (λ l. acc ++ l) (sym (keep_entries-append (e ∷ es) (flatten bs))))

list_dir-end :
    (cs : Bool) (bs : List (List Bytes)) (rest : List (Option (List Bytes)))
    → All (λ b. b ≢ []) bs
    → list_dir cs (map some bs ++ some [] ∷ rest)
      ≡ (true, sort_entries cs (keep_entries (flatten bs)))
unfolding list_dir
list_dir-end cs bs rest h = rw (list_dir, read_entries-append [] bs (some [] ∷ rest) h) refl

list_dir-error :
    (cs : Bool) (bs : List (List Bytes)) (rest : List (Option (List Bytes)))
    → All (λ b. b ≢ []) bs
    → list_dir cs (map some bs ++ none ∷ rest) ≡ (false, [])
unfolding list_dir
list_dir-error cs bs rest h = rw (list_dir, read_entries-append [] bs (none ∷ rest) h) refl

-- The names of the directory itself and of the one above it.
abbrev pub is_dots_name : Bytes → Bool
is_dots_name [] = false
is_dots_name (a ∷ []) = a == b'.'
is_dots_name (a ∷ b ∷ []) = a == b'.' && b == b'.'
is_dots_name (a ∷ b ∷ c ∷ s) = false

abbrev pub names_but_dots : List Bytes → List Bytes
names_but_dots [] = []
names_but_dots (n ∷ ns) = let rest = names_but_dots ns in if is_dots_name n then rest else n ∷ rest

pub dots-is_dots_name : (m : Bytes) → dots m ≡ is_dots_name (c_str m)
unfolding dots
dots-is_dots_name [] = refl
dots-is_dots_name (a ∷ []) = ground arith
dots-is_dots_name (a ∷ b ∷ []) = ground arith
dots-is_dots_name (a ∷ b ∷ c ∷ []) = ground arith
dots-is_dots_name (a ∷ b ∷ c ∷ d ∷ m) = ground arith

keep_entries-names :
    (es : List Bytes)
    → map (λ e. c_str e) (keep_entries es) ≡ names_but_dots (map (λ e. c_str e) es)
keep_entries-names [] = refl
keep_entries-names (e ∷ es) = elim (Bool-cases (dots e)) [
  | inl d ↦ rw (d, sym (dots-is_dots_name e) ∙ d) (keep_entries-names es)
  | inr d ↦ rw (d, sym (dots-is_dots_name e) ∙ d) (ap (◌∷◌ (c_str e)) (keep_entries-names es))
]

-- Calls of getdents64 give entries, each at least one, whose names differ and have at most 255 bytes,
-- with at least 261 bytes of memory each. If the next call ends the directory, ListDir gives the names
-- that are not "." or "..", as StrSort sorts them byte by byte, and if that call fails, it gives
-- failure and no entry.
pub list_dir-str_sort :
    (bs : List (List Bytes)) (rest : List (Option (List Bytes)))
    → All (λ b. b ≢ []) bs
    → All IsEntry (flatten bs)
    → AreDistinct (λ e. c_str e) (flatten bs)
    → ((list_dir true (map some bs ++ some [] ∷ rest)).0 ≡ true)
      × (map (λ e. c_str e) (list_dir true (map some bs ++ some [] ∷ rest)).1
          ≡ str_sort true (names_but_dots (map (λ e. c_str e) (flatten bs))))
      × (list_dir true (map some bs ++ none ∷ rest) ≡ (false, []))
list_dir-str_sort bs rest n h d = (
  ap (λ r. r.0) (list_dir-end true bs rest n),
  ap (λ r. map (λ e. c_str e) r.1) (list_dir-end true bs rest n)
      ∙ sort_entries-str_sort (keep_entries (flatten bs)) (All-keep_entries IsEntry (flatten bs) h)
          (keep_entries-AreDistinct (flatten bs) d)
      ∙ ap (str_sort true) (keep_entries-names (flatten bs)),
  list_dir-error true bs rest n,
)
