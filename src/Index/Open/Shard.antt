-- ===== src/Index/Open/Shard.antt =====
-- ScanDirs of src/index.cc on one shard of the directories, as its task calls it.
use gitstatus.Common.{
  Bool, true, All, List, Option, [], ap, drop, map, refl, suc, sym, take, zero, ℕ, ◌∙◌, ◌∷◌, ◌≡◌,
}
use gitstatus.Common.Outcome.{ok}
use gitstatus.Index.Open.{Sys, scan_dirs}
use gitstatus.Index.Open.Ancestors.{IsLineage-drop}
use gitstatus.Index.Open.Lineage.{IsLineage, IsSound}
use gitstatus.Index.Scan.{IndexDir, Tribool}
use gitstatus.Text.{Bytes}
use mathlib.Core.Path.{subst}
use gitstatus.Index.Place.{Place, IsPlaced, Follows, IsPreorder, place}
use gitstatus.Index.Open.Paths.{scan_dirs-Scanned}
use gitstatus.Index.Open.Order.{Scanned, SysHolds}

take-IsPreorder : (n : ℕ) (ds : List Place) → IsPreorder ds → IsPreorder (take n ds)
take-IsPreorder zero ds o = tt
take-IsPreorder (suc n) [] o = tt
take-IsPreorder (suc n) (d ∷ ds) (ps, at, deep, f) =
    (ps, at, deep, take-Follows n (d.path ∷ ps) ds f)
  where
    take-Follows :
        (n : ℕ) (ps : List Bytes) (ds : List Place) → Follows ps ds → Follows ps (take n ds)
    take-Follows zero ps ds f = tt
    take-Follows (suc n) ps [] f = tt
    take-Follows (suc n) ps (d ∷ ds) (m, q, qs, e, c, l, f) =
        (m, q, qs, e, c, l, take-Follows n (d.path ∷ q ∷ qs) ds f)

placed-IsLineage : (d : Place) (ps : List Bytes) → IsPlaced d ps → IsLineage (d.path ∷ ps)
placed-IsLineage d [] h = h
placed-IsLineage d (q ∷ qs) h = ((d.basename, h.0), h.1)

Follows-IsPreorder :
    (ps : List Bytes) (ds : List Place) → IsLineage ps → Follows ps ds → IsPreorder ds
Follows-IsPreorder ps [] l f = tt
Follows-IsPreorder ps (d ∷ ds) l (m, q, qs, e, c, k, f) =
    (q ∷ qs, (c, IsLineage-drop m ps qs q l e), k, f)

drop-IsPreorder : (n : ℕ) (ds : List Place) → IsPreorder ds → IsPreorder (drop n ds)
drop-IsPreorder zero ds o = o
drop-IsPreorder (suc n) [] o = tt
drop-IsPreorder (suc n) (d ∷ ds) (ps, at, deep, f) =
    drop-IsPreorder n ds (Follows-IsPreorder (d.path ∷ ps) ds (placed-IsLineage d ps at) f)

map-take : {A B : Type 0} (f : A → B) (n : ℕ) (xs : List A) → map f (take n xs) ≡ take n (map f xs)
map-take f zero xs = refl
map-take f (suc n) [] = refl
map-take f (suc n) (x ∷ xs) = ap (◌∷◌ (f x)) (map-take f n xs)

map-drop : {A B : Type 0} (f : A → B) (n : ℕ) (xs : List A) → map f (drop n xs) ≡ drop n (map f xs)
map-drop f zero xs = refl
map-drop f (suc n) [] = refl
map-drop f (suc n) (x ∷ xs) = map-drop f n xs

All-drop : {A : Type 0} (P : A → Type 0) (n : ℕ) (xs : List A) → All P xs → All P (drop n xs)
All-drop P zero xs h = h
All-drop P (suc n) [] h = tt
All-drop P (suc n) (x ∷ xs) h = All-drop P n xs h.1

All-take : {A : Type 0} (P : A → Type 0) (n : ℕ) (xs : List A) → All P xs → All P (take n xs)
All-take P zero xs h = tt
All-take P (suc n) [] h = tt
All-take P (suc n) (x ∷ xs) h = (h.0, All-take P n xs h.1)

-- Where all the directories are in preorder, the calls of openat open what they name, and dup and
-- close succeed, ScanDirs returns for each part of them, its CHECKs hold, and each directory is scanned with
-- no descriptor or with one that is open at the path of that directory.
pub scan_shard-Scanned :
    {H : Type 0} (Refers : Bytes → H → Type 0) (close_ok : H → Bool) (cache : Tribool) (root : H)
    (open_dir : H → Bytes → Option H) (dirs : List (IndexDir × Sys H)) (from size : ℕ)
    → ((h : H) → close_ok h ≡ true)
    → Refers [] root
    → IsSound Refers open_dir
    → All (λ d. SysHolds Refers d.1) dirs
    → IsPreorder (map (λ d. place d.0) dirs)
    → (res : List IndexDir × List Bytes) × (scan_dirs close_ok cache root open_dir
          (take size (drop from dirs))
        ≡ ok res)
      × Scanned Refers cache (take size (drop from dirs)) res
scan_shard-Scanned Refers close_ok cache root open_dir dirs from size closes at_root sound holds
      order =
    scan_dirs-Scanned Refers closes cache root at_root open_dir (take size (drop from dirs)) sound
      (subst IsPreorder
        (sym (
          map-take (λ d. place d.0) size (drop from dirs)
          ∙ ap (take size) (map-drop (λ d. place d.0) from dirs)))
        (take-IsPreorder size _ (drop-IsPreorder from _ order)))
      (All-take (λ d. SysHolds Refers d.1) size (drop from dirs)
        (All-drop (λ d. SysHolds Refers d.1) from dirs holds))
