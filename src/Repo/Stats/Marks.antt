-- ===== src/Repo/Stats/Marks.antt =====
-- What the dirty scans of GetIndexStats of src/repo.cc leave in its flags.
use gitstatus.Common.{
  ◌⊎◌, Bool, List, [], ap, arith, false, if◌then◌else◌, inl, inr, refl, sym, true, ◌||◌, ◌∙◌, ◌∷◌,
  ◌≡◌,
}
use gitstatus.Index.Scan.{Tribool, t_false, t_true, t_unknown}
use gitstatus.Repo.Notify.{
  Verdict, skip, stop, Delta, Flags, exchange_flag, is_tracked, is_true, is_untracked, load_other,
  notify_dirty,
}
use gitstatus.Repo.Stats.{
  DiffRc, DiffRun, diff_failed, diff_ok, diff_stopped, dirty_deltas, run_async, run_scans,
}

abbrev pub same_kind : Delta → Delta → Bool
same_kind is_tracked is_tracked = true
same_kind is_tracked is_untracked = false
same_kind is_untracked is_tracked = false
same_kind is_untracked is_untracked = true

-- Whether some scan passes a difference of a kind to its callback.
abbrev pub has_kind : Delta → List Delta → Bool
has_kind k [] = false
has_kind k (d ∷ ds) = same_kind k d || has_kind k ds

abbrev pub any_of_kind : Delta → List DiffRun → Bool
any_of_kind k [] = false
any_of_kind k (r ∷ rs) = has_kind k r.deltas || any_of_kind k rs

-- A flag behind a number of callbacks, of which some set it or none did.
abbrev pub mark : Bool → Tribool → Tribool
mark true t = t_true
mark false t = t

mark-or : (a b : Bool) (t : Tribool) → mark b (mark a t) ≡ mark (a || b) t
mark-or true true t = refl
mark-or true false t = refl
mark-or false b t = refl

mark-mark : (a b : Bool) (t : Tribool) → mark a t ≡ t_true → mark a t ≡ mark (a || b) t
mark-mark true b t e = refl
mark-mark false true t e = e
mark-mark false false t e = refl

is_true_lem : (t : Tribool) → is_true t ≡ true → t ≡ t_true
is_true_lem t_true e = refl
is_true_lem t_false e = absurd (cc)
is_true_lem t_unknown e = absurd (cc)

-- A flag that was kFalse before.
abbrev pub tribool_of : Bool → Tribool
tribool_of true = t_true
tribool_of false = t_false

pub mark_false : (b : Bool) → mark b t_false ≡ tribool_of b
mark_false true = refl
mark_false false = refl

pub record Marks (unstaged untracked : Bool) (f g : Flags) : Type 0 where
  pub unstaged_is : g.unstaged ≡ mark unstaged f.unstaged
  pub untracked_is : g.untracked ≡ mark untracked f.untracked

Verdict-cases : (v : Verdict) → (v ≡ stop) ⊎ (v ≡ skip)
Verdict-cases stop = inl refl
Verdict-cases skip = inr refl

-- One callback; it stops the scan once both flags are set.
record First (d : Delta) (f : Flags) (r : Flags × Verdict) : Type 0 where
  marks : Marks (same_kind is_tracked d) (same_kind is_untracked d) f r.0
  full : r.1 ≡ stop → (r.0.unstaged ≡ t_true) × (r.0.untracked ≡ t_true)

stopped : (b : Bool) → (if b then stop else skip) ≡ stop → b ≡ true
stopped true e = refl
stopped false e = absurd (cc)

notify_dirty-First : (d : Delta) (f : Flags) → f.error ≡ false → First d f (notify_dirty d f)
unfolding notify_dirty exchange_flag load_other
notify_dirty-First is_untracked f e = rw e (record {
  marks = record { unstaged_is = refl; untracked_is = refl };
  full = λ h. (is_true_lem f.unstaged (stopped (is_true f.unstaged) h), refl);
})
notify_dirty-First is_tracked f e = rw e (record {
  marks = record { unstaged_is = refl; untracked_is = refl };
  full = λ h. (refl, is_true_lem f.untracked (stopped (is_true f.untracked) h));
})

notify_dirty-error : (d : Delta) (f : Flags) → (notify_dirty d f).0.error ≡ f.error
unfolding notify_dirty exchange_flag
notify_dirty-error is_untracked f = ground arith
notify_dirty-error is_tracked f = ground arith

dirty_deltas-error : (ds : List Delta) (f : Flags) → (dirty_deltas ds f).error ≡ f.error
unfolding dirty_deltas
dirty_deltas-error [] f = refl
dirty_deltas-error (d ∷ ds) f = elim (Verdict-cases (notify_dirty d f).1) [
  | inl e ↦ rw (dirty_deltas, e) (notify_dirty-error d f)
  | inr e ↦
      rw (dirty_deltas, e) (dirty_deltas-error ds (notify_dirty d f).0 ∙ notify_dirty-error d f)
]

Marks-then :
    (a b c d : Bool) (f g h : Flags) → Marks a b f g → Marks c d g h → Marks (a || c) (b || d) f h
Marks-then a b c d f g h m n = record {
  unstaged_is = n.unstaged_is ∙ ap (mark c) m.unstaged_is ∙ mark-or a c f.unstaged;
  untracked_is = n.untracked_is ∙ ap (mark d) m.untracked_is ∙ mark-or b d f.untracked;
}

Marks-stop :
    (a b c d : Bool) (f g : Flags)
    → Marks a b f g
    → (g.unstaged ≡ t_true) × (g.untracked ≡ t_true)
    → Marks (a || c) (b || d) f g
Marks-stop a b c d f g m full = record {
  unstaged_is = m.unstaged_is ∙ mark-mark a c f.unstaged (sym m.unstaged_is ∙ full.0);
  untracked_is = m.untracked_is ∙ mark-mark b d f.untracked (sym m.untracked_is ∙ full.1);
}

dirty_deltas-Marks :
    (ds : List Delta) (f : Flags)
    → f.error ≡ false
    → Marks (has_kind is_tracked ds) (has_kind is_untracked ds) f (dirty_deltas ds f)
unfolding dirty_deltas
dirty_deltas-Marks [] f e = record { unstaged_is = refl; untracked_is = refl }
dirty_deltas-Marks (d ∷ ds) f e =
    let first = notify_dirty-First d f e in
    let g = (notify_dirty d f).0 in
    elim (Verdict-cases (notify_dirty d f).1) [
      | inl v ↦ rw (dirty_deltas, v) (Marks-stop _ _ _ _ f g first.marks (first.full v))
      | inr v ↦
          rw (dirty_deltas, v)
            (Marks-then _ _ _ _ f g (dirty_deltas ds g) first.marks
              (dirty_deltas-Marks ds g (notify_dirty-error d f ∙ e)))
    ]

run_async-unfailed :
    (rc : DiffRc) (f : Flags)
    → (run_async rc f).error ≡ false
    → (run_async rc f ≡ f) × (f.error ≡ false)
unfolding run_async
run_async-unfailed diff_ok f e = (refl, e)
run_async-unfailed diff_stopped f e = (refl, e)
run_async-unfailed diff_failed f e = absurd (cc)

-- Where no scan fails.
pub run_scans-Marks :
    (rs : List DiffRun) (f : Flags)
    → (run_scans dirty_deltas rs f).error ≡ false
    → Marks
        (any_of_kind is_tracked rs)
        (any_of_kind is_untracked rs)
        f
        (run_scans dirty_deltas rs f)
      × (f.error ≡ false)
unfolding run_scans
run_scans-Marks [] f e = (record { unstaged_is = refl; untracked_is = refl }, e)
run_scans-Marks (r ∷ rs) f e =
    let g = dirty_deltas r.deltas f in
    let (rest, mid) = run_scans-Marks rs (run_async r.rc g) e in
    let (same, h) = run_async-unfailed r.rc g mid in
    let clean = sym (dirty_deltas-error r.deltas f) ∙ h in
    let own = dirty_deltas-Marks r.deltas f clean in
    (
      Marks-then _ _ _ _ f (run_async r.rc g) (run_scans dirty_deltas rs (run_async r.rc g))
          (record {
            unstaged_is = ap (λ (x : Flags). x.unstaged) same ∙ own.unstaged_is;
            untracked_is = ap (λ (x : Flags). x.untracked) same ∙ own.untracked_is;
          })
          rest,
      clean,
    )
