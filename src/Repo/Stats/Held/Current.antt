-- ===== src/Repo/Stats/Held/Current.antt =====
-- The index that GetIndexStats scans is never one of other entries (src/repo.cc).
use gitstatus.Common.{
  ap, ℕ, ◌≡◌, ◌≢◌, refl, ◌∙◌, Bool, true, false, List, [], ◌∷◌, Option, none, some, if◌then◌else◌,
}
use gitstatus.Common.Outcome.{
  Ensures, >>=-Ensures_eq, on_ok, on_aborts, on_exits, Outcome, ok, throws, aborts, exits,
}
use gitstatus.Index.Whole.{new_index}
use gitstatus.Text.{Bytes}
use gitstatus.Repo.Stats.Held.{
  Held, nothing_held, Round, reread, open_index, refresh, index_for, scan_index, go_on, hold_round,
  hold_rounds,
}

-- git_index_read_ex does not fail, and sets new_index when the git index does not hold what it held
-- before.
abbrev pub Reports : {E : Type 0} → E → List (Round E) → Type 0
Reports e [] = Unit {0}
Reports e (r ∷ rs) = (r.read ≢ none) × (r.read ≡ some false → r.entries ≡ e) × Reports r.entries rs

module _ {E I : Type 0} (build : E → Outcome I) where
  -- Each index that is scanned is the one that is made from what the git index holds then.
  abbrev pub Current : List (Round E) → List (Option I) → Type 0
  Current [] os = Unit {0}
  Current (r ∷ rs) [] = Unit {0}
  Current (r ∷ rs) (none ∷ os) = Current rs os
  Current (r ∷ rs) (some i ∷ os) = (build r.entries ≡ ok i) × Current rs os

  -- index_ is there only with git_index_, and is made from what that holds.
  abbrev Fresh : E → Bool → Option I → Type 0
  Fresh e opened none = Unit {0}
  Fresh e opened (some i) = (opened ≡ true) × (build e ≡ ok i)

  Fresh-move : (e e' : E) (o : Bool) (x : Option I) → e' ≡ e → Fresh e o x → Fresh e' o x
  Fresh-move e e' o none k h = tt
  Fresh-move e e' o (some i) k h = (h.0, ap build k ∙ h.1)

  Fresh-shut : (e e' : E) (o p : Bool) (x : Option I) → o ≡ false → Fresh e o x → Fresh e' p x
  Fresh-shut e e' o p none k h = tt
  Fresh-shut e e' o p (some i) k h = cc

  record IsRefreshed (e : E) (p : Held I × Outcome (Unit {0})) : Type 0 where
    fresh : Fresh e p.0.opened p.0.index
    opened : (x : Unit {0}) → p.1 ≡ ok x → p.0.opened ≡ true

  reread-IsRefreshed :
      (rd : Option Bool) (e e' : E) (h : Held I)
      → h.opened ≡ true
      → Fresh e h.opened h.index
      → rd ≢ none
      → (rd ≡ some false → e' ≡ e)
      → IsRefreshed e' (reread rd h)
  reread-IsRefreshed none e e' h o f n k = absurd (n refl)
  reread-IsRefreshed (some true) e e' h o f n k = record { fresh = tt; opened = λ x p. o }
  reread-IsRefreshed (some false) e e' h o f n k = record {
    fresh = Fresh-move e e' h.opened h.index (k refl) f;
    opened = λ x p. o;
  }

  open_index-IsRefreshed :
      (open_ok attr_ok : Bool) (e e' : E) (h : Held I)
      → h.opened ≡ false
      → Fresh e h.opened h.index
      → IsRefreshed e' (open_index open_ok attr_ok h)
  open_index-IsRefreshed false attr_ok e e' h o f = record {
    fresh = Fresh-shut e e' h.opened h.opened h.index o f;
    opened = λ x p. cc;
  }
  open_index-IsRefreshed true attr_ok e e' h o f = record {
    fresh = Fresh-shut e e' h.opened true h.index o f;
    opened = λ x p. refl;
  }

  either :
      {A : Type 0} (P : A → Type 0) (b : Bool) (x y : A)
      → (b ≡ true → P x)
      → (b ≡ false → P y)
      → P (if b then x else y)
  either P true x y h k = h refl
  either P false x y h k = k refl

  refresh-IsRefreshed :
      (r : Round E) (e : E) (h : Held I)
      → Fresh e h.opened h.index
      → r.read ≢ none
      → (r.read ≡ some false → r.entries ≡ e)
      → IsRefreshed r.entries (refresh r h)
  unfolding refresh
  refresh-IsRefreshed r e h f n k =
      either (IsRefreshed r.entries) h.opened (reread r.read h) (open_index r.open_ok r.attr_ok h)
        (λ o. reread-IsRefreshed r.read e r.entries h o f n k)
        (λ o. open_index-IsRefreshed r.open_ok r.attr_ok e r.entries h o f)

  abbrev From : E → Option I → Type 0
  From e none = Unit {0}
  From e (some i) = build e ≡ ok i

  abbrev IsHeld : E → Held I × Option I → Type 0
  IsHeld e p = Fresh e p.0.opened p.0.index × From e p.1

  index_for-build :
      (e : E) (o : Bool) (x : Option I)
      → Fresh e o x
      → (i : I) → index_for build e x ≡ ok i
      → build e ≡ ok i
  index_for-build e o none h i k = k
  index_for-build e o (some j) h i k = h.1 ∙ k

  scan_index-IsHeld :
      (r : Round E) (h : Held I)
      → h.opened ≡ true
      → Fresh r.entries h.opened h.index
      → Ensures (IsHeld r.entries) (scan_index build r h)
  scan_index-IsHeld r h o f =
      either (Ensures (IsHeld r.entries)) r.is_small _ (ok (h, none))
        (λ _. >>=-Ensures_eq _ (index_for build r.entries h.index) _ λ i e.
          let made = index_for-build r.entries h.opened h.index f i e in on_ok ((o, made), made))
        (λ _. on_ok (f, tt))

  go_on-IsHeld :
      (r : Round E) (h : Held I) (m : Outcome (Unit {0}))
      → Fresh r.entries h.opened h.index
      → ((x : Unit {0}) → m ≡ ok x → h.opened ≡ true)
      → Ensures (IsHeld r.entries) (go_on build r h m)
  go_on-IsHeld r h (ok x) f o =
      either (Ensures (IsHeld r.entries)) r.staged_ok (scan_index build r h) (ok (h, none))
        (λ _. scan_index-IsHeld r h (o x refl) f) (λ _. on_ok (f, tt))
  go_on-IsHeld r h throws f o = on_ok (f, tt)
  go_on-IsHeld r h aborts f o = on_aborts
  go_on-IsHeld r h (exits n) f o = on_exits

  Current-cons :
      (r : Round E) (rs : List (Round E)) (x : Option I) (os : List (Option I))
      → From r.entries x
      → Current rs os
      → Current (r ∷ rs) (x ∷ os)
  Current-cons r rs none os h k = k
  Current-cons r rs (some i) os h k = (h, k)

  -- The calls behind one, whatever that gives.
  abbrev rest_of : List (Round E) → Outcome (Held I × Option I) → List (Option I)
  rest_of rs m = elim m [
    | ok (h', x) ↦ x ∷ hold_rounds build rs h'
    | throws ↦ []
    | aborts ↦ []
    | exits n ↦ []
  ]

  rest_of-Current :
      (r : Round E) (rs : List (Round E)) (m : Outcome (Held I × Option I))
      → Ensures (IsHeld r.entries) m
      → ((h : Held I) → Fresh r.entries h.opened h.index → Current rs (hold_rounds build rs h))
      → Current (r ∷ rs) (rest_of rs m)
  rest_of-Current r rs (ok (h, x)) (on_ok p) k = Current-cons r rs x _ p.1 (k h p.0)
  rest_of-Current r rs throws p k = tt
  rest_of-Current r rs aborts p k = tt
  rest_of-Current r rs (exits n) p k = tt

  hold_rounds-Fresh :
      (e : E) (rs : List (Round E)) (h : Held I)
      → Fresh e h.opened h.index
      → Reports e rs
      → Current rs (hold_rounds build rs h)
  unfolding hold_rounds hold_round
  hold_rounds-Fresh e [] h f k = tt
  hold_rounds-Fresh e (r ∷ rs) h f k =
      let q = refresh-IsRefreshed r e h f k.0 k.1 in
      rest_of-Current r rs (hold_round build r h)
        (go_on-IsHeld r (refresh r h).0 (refresh r h).1 q.fresh q.opened)
        (λ h' f'. hold_rounds-Fresh r.entries rs h' f' k.2)

-- Let git_index_read_ex not fail, and set new_index if the git index does not hold what it held
-- before. Then in any sequence of calls of GetIndexStats, whichever others of their parts fail, the
-- index that a call scans has the directories and splits that the constructor of Index makes from
-- what the git index holds in that call.
pub hold_rounds-Current :
    (case_sensitive : Bool) (num_threads : ℕ) (entries : List Bytes)
    (rs : List (Round (List Bytes)))
    → Reports entries rs
    → Current
        (new_index case_sensitive num_threads)
        rs
        (hold_rounds (new_index case_sensitive num_threads) rs nothing_held)
hold_rounds-Current case_sensitive num_threads entries rs k =
    hold_rounds-Fresh (new_index case_sensitive num_threads) entries rs nothing_held tt k
