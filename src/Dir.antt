-- ===== src/Dir.antt =====
-- ListDir of src/dir.cc for Linux on a little-endian machine: the names of a directory, sorted. An
-- entry is the memory from its d_name on, to the end of the buffer; what getdents64 answers, call by
-- call, is an argument.
pub mod Numbers
pub mod Compares
pub mod Sorts
pub mod Calls
pub mod Readdir
use gitstatus.Text.{c_str, c_str, str_lt, Bytes, cmp_prefix}
use gitstatus.Common.{
  Option, false, get_elem?, map, none, some, [], drop, if◌then◌else◌, ltb, reverse, suc, take, true,
  zero, ◌&&◌, ◌*◌, ◌++◌, ◌+◌, ◌==◌, ◌||◌, ◌∷◌, List, Bool, ℕ,
}
use gitstatus.Common.Int.{ltb_ℤ, pos}

-- The first n bytes as a number, the lowest first.
abbrev pub read_le : ℕ → Bytes → ℕ
read_le zero s = 0
read_le (suc n) [] = 0
read_le (suc n) (b ∷ s) = b + 256 * read_le n s

-- Read64
abbrev pub read64 : Bytes → ℕ
read64 s = read_le 8 s

-- SwapBytes for one entry: __builtin_bswap64 turns the order of eight bytes round.
unfoldable pub swap_bytes : Bytes → Bytes
swap_bytes s = reverse (take 8 s) ++ drop 8 s

-- The comparison of two entries whose bytes are swapped.
unfoldable pub entry_lt : Bytes → Bytes → Bool
unfolding cmp_prefix
entry_lt a b =
    ltb (read64 a) (read64 b)
    || (read64 a == read64 b && ltb_ℤ (cmp_prefix true 256 (drop 5 a) (drop 5 b)) (pos 0))

-- std::sort with this comparison.
unfoldable pub insert_entry : Bytes → List Bytes → List Bytes
unfolding entry_lt
insert_entry a [] = a ∷ []
insert_entry a (b ∷ l) = let rest = insert_entry a l in if entry_lt b a then b ∷ rest else a ∷ b ∷ l

unfoldable pub sort_swapped : List Bytes → List Bytes
unfolding insert_entry
sort_swapped [] = []
sort_swapped (a ∷ l) = insert_entry a (sort_swapped l)

-- std::sort with StrLt<false>
unfoldable pub insert_folded : Bytes → List Bytes → List Bytes
insert_folded a [] = a ∷ []
insert_folded a (b ∷ l) =
    let rest = insert_folded a l in if str_lt false (c_str b) (c_str a) then b ∷ rest else a ∷ b ∷ l

unfoldable pub sort_folded : List Bytes → List Bytes
unfolding insert_folded
sort_folded [] = []
sort_folded (a ∷ l) = insert_folded a (sort_folded l)

-- SortEntries
unfoldable pub sort_entries : Bool → List Bytes → List Bytes
unfolding sort_swapped sort_folded swap_bytes
sort_entries true l = map swap_bytes (sort_swapped (map swap_bytes l))
sort_entries false l = sort_folded l

-- A byte of the memory, which is never shorter.
abbrev pub byte_at : Bytes → ℕ → ℕ
byte_at m i = elim (get_elem? m i) [ none ↦ 0 | some c ↦ c ]

-- Dots
unfoldable pub dots : Bytes → Bool
dots m = byte_at m 0 == b'.' && (byte_at m 1 == 0 || (byte_at m 1 == b'.' && byte_at m 2 == 0))

-- The entries of one buffer that are kept.
abbrev pub keep_entries : List Bytes → List Bytes
keep_entries [] = []
keep_entries (e ∷ es) = let rest = keep_entries es in if dots e then rest else e ∷ rest

-- The loop over the calls of getdents64: none is an error, and no entry is the end.
unfoldable pub read_entries : List Bytes → List (Option (List Bytes)) → Option (List Bytes)
unfolding dots
read_entries entries [] = some entries
read_entries entries (none ∷ calls) = none
read_entries entries (some [] ∷ calls) = some entries
read_entries entries (some (e ∷ es) ∷ calls) = read_entries (entries ++ keep_entries (e ∷ es)) calls

-- ListDir: whether it succeeds, and the entries.
unfoldable pub list_dir : Bool → List (Option (List Bytes)) → Bool × List Bytes
unfolding read_entries sort_entries
list_dir cs calls = elim (read_entries [] calls) [
  | none ↦ (false, [])
  | some entries ↦ (true, sort_entries cs entries)
]
