-- ===== src/Dir/Readdir/Same.antt =====
-- The two implementations of ListDir in src/dir.cc.
use gitstatus.Text.{c_str, c_str, Bytes}
use mathlib.Core.Path.{ap₂}
use gitstatus.Common.{
  ap, All, Bool, Bool-cases, List, Option, [], false, inl, inr, map, none, refl, some, sym, true,
  ◌++◌, ◌==◌, ◌∙◌, ◌∷◌, ◌≡◌, ◌≢◌,
}
use gitstatus.Dir.Calls.{is_dots_name, names_but_dots, list_dir-str_sort, dots-is_dots_name}
use gitstatus.Common.Outcome.{ok}
use gitstatus.Dir.{keep_entries, dots, list_dir}
use gitstatus.Dir.Compares.{IsEntry}
use gitstatus.Dir.Sorts.{AreDistinct}
use gitstatus.Dir.Readdir.{ReaddirEnv, list_dir_readdir}
use gitstatus.Index.Candidates.Shards.{flatten}
use gitstatus.Text.Sort.{str_sort}

-- The calls succeed, and readdir gives these names.
abbrev pub reads : List Bytes → Bool → ReaddirEnv
reads names is_error = record {
  dup_ok = true;
  fdopendir_ok = true;
  close_ok = true;
  d_names = names;
  is_error = is_error;
  closedir_ok = true;
}

-- If fdopendir fails and close does not, the ListDir over readdir returns true, for success, with the
-- entries that the vector held before.
pub list_dir_readdir_fdopendir :
    (cs : Bool) (env : ReaddirEnv) (old : List Bytes)
    → env.dup_ok ≡ true
    → env.fdopendir_ok ≡ false
    → env.close_ok ≡ true
    → list_dir_readdir cs env old ≡ ok (true, old)
unfolding list_dir_readdir
list_dir_readdir_fdopendir cs env old d f c = rw (d, f, c)

c_str_again : (m : Bytes) → c_str (c_str m) ≡ c_str m
c_str_again [] = refl
c_str_again (c ∷ m) = elim (Bool-cases (c == 0)) [
  | inl z ↦ rw z
  | inr n ↦ rw (n, n) (ap (◌∷◌ c) (c_str_again m))
]

names_kept :
    (es : List Bytes)
    → keep_entries (map (λ e. c_str e) es) ≡ names_but_dots (map (λ e. c_str e) es)
names_kept [] = refl
names_kept (e ∷ es) =
    let same : dots (c_str e) ≡ is_dots_name (c_str e) =
      dots-is_dots_name (c_str e) ∙ ap is_dots_name (c_str_again e) in
    rw (same, names_kept es)

-- Calls of getdents64 give entries, each at least one, whose names differ and have at most 255 bytes,
-- with at least 261 bytes of memory each. If readdir gives the same names and the other calls of either
-- implementation succeed, then both implementations of the case-sensitive ListDir give success and the
-- same names in the same order, and if the next getdents64 or readdir fails, both give failure and no
-- entry.
pub list_dir-list_dir_readdir :
    (bs : List (List Bytes)) (calls : List (Option (List Bytes))) (old : List Bytes)
    → All (λ b. b ≢ []) bs
    → All IsEntry (flatten bs)
    → AreDistinct (λ e. c_str e) (flatten bs)
    → let names = map (λ e. c_str e) (flatten bs) in
      let r = list_dir true (map some bs ++ some [] ∷ calls) in
      (list_dir_readdir true (reads names false) old ≡ ok (r.0, map (λ e. c_str e) r.1))
      × (list_dir_readdir true (reads names true) old
          ≡ ok (list_dir true (map some bs ++ none ∷ calls)))
unfolding list_dir_readdir
list_dir-list_dir_readdir bs calls old n h d =
    let s = list_dir-str_sort bs calls n h d in
    let kept = ap (str_sort true) (names_kept (flatten bs)) in
    (
      ap₂ (λ (b : Bool) (l : List Bytes). ok (b, l)) (sym s.0) (kept ∙ sym s.1),
      ap (λ (r : Bool × List Bytes). ok r) (sym s.2),
    )
