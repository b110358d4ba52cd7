-- ===== src/Tests/Listings.antt =====
-- Inputs for ListDir of src/dir.cc.
use gitstatus.Text.{c_str, c_str, Bytes}
use gitstatus.Common.{
  All, List, [], ap, arith, false, length, map, none, refl, some, suc, sym, true, zero, ℕ, ◌++◌,
  ◌<◌, ◌∙◌, ◌∷◌, ◌≡◌, ◌≢◌,
}
use gitstatus.Common.Outcome.{ok}
use gitstatus.Dir.Sorts.{AreDistinct}
use gitstatus.Dir.Calls.{names_but_dots, list_dir-str_sort}
use gitstatus.Text.Sort.{str_sort}
use gitstatus.Dir.{list_dir, dots}
use gitstatus.Dir.Readdir.{list_dir_readdir}
use gitstatus.Dir.Readdir.Same.{reads, list_dir-list_dir_readdir}
use gitstatus.Dir.Numbers.{AreBytes}
use gitstatus.Dir.Compares.{IsEntry}
use gitstatus.Index.Candidates.Shards.{flatten}

abbrev zeros : ℕ → Bytes
zeros zero = []
zeros (suc n) = 0 ∷ zeros n

length-zeros : (n : ℕ) → length (zeros n) ≡ n
length-zeros zero = refl
length-zeros (suc n) = ap suc (length-zeros n)

zeros-AreBytes : (n : ℕ) → AreBytes (zeros n)
zeros-AreBytes zero = tt
zeros-AreBytes (suc n) = (omega arith, zeros-AreBytes n)

-- A name of one letter.
abbrev entry : ℕ → Bytes
entry c = c ∷ zeros 261

entry-IsEntry : (c : ℕ) → c < 256 → IsEntry (entry c)
entry-IsEntry c h = record {
  long = omega (arith, length-zeros 261);
  short = ground arith;
  bytes = (h, zeros-AreBytes 261);
}

name_of_letter : (c : ℕ) → c ≢ 0 → c_str (entry c) ≡ c ∷ []
name_of_letter c h = ground (arith, h)

entry-apart : (c d : ℕ) → c ≢ 0 → d ≢ 0 → c ≢ d → c_str (entry c) ≢ c_str (entry d)
entry-apart c d h k n e = n (ground (arith, sym (name_of_letter c h) ∙ e ∙ name_of_letter d k))

abbrev buffers : List (List Bytes)
buffers = (entry b'.' ∷ entry b'b' ∷ []) ∷ (entry b'a' ∷ []) ∷ []

buffers-full : All (λ b. b ≢ []) buffers
buffers-full = ((λ e. cc), ((λ e. cc), tt))

buffers-IsEntry : All IsEntry (flatten buffers)
buffers-IsEntry = (
  entry-IsEntry b'.' (omega arith),
  (entry-IsEntry b'b' (omega arith), (entry-IsEntry b'a' (omega arith), tt)),
)

buffers-AreDistinct : AreDistinct (λ e. c_str e) (flatten buffers)
buffers-AreDistinct = (
  (
    entry-apart b'.' b'b' (omega arith) (omega arith) (omega arith),
    (entry-apart b'.' b'a' (omega arith) (omega arith) (omega arith), tt),
  ),
  ((entry-apart b'b' b'a' (omega arith) (omega arith) (omega arith), tt), (tt, tt)),
)

list_dir-str_sort_example :
    ((list_dir true (map some buffers ++ some [] ∷ [])).0 ≡ true)
    × (map (λ e. c_str e) (list_dir true (map some buffers ++ some [] ∷ [])).1
        ≡ str_sort true (names_but_dots (map (λ e. c_str e) (flatten buffers))))
    × (list_dir true (map some buffers ++ none ∷ []) ≡ (false, []))
list_dir-str_sort_example =
    list_dir-str_sort buffers [] buffers-full buffers-IsEntry buffers-AreDistinct

list_dir-list_dir_readdir_example :
    let names = map (λ e. c_str e) (flatten buffers) in
    let r = list_dir true (map some buffers ++ some [] ∷ []) in
    (list_dir_readdir true (reads names false) [] ≡ ok (r.0, map (λ e. c_str e) r.1))
    × (list_dir_readdir true (reads names true) []
        ≡ ok (list_dir true (map some buffers ++ none ∷ [])))
list_dir-list_dir_readdir_example =
    list_dir-list_dir_readdir buffers [] [] buffers-full buffers-IsEntry buffers-AreDistinct

dots_runs : dots (entry b'.') ≡ true
unfolding dots
dots_runs = refl
