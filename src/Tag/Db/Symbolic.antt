-- ===== src/Tag/Db/Symbolic.antt =====
-- Tags that are symbolic references, in src/tag_db.cc.
use gitstatus.Common.{arith, ap, false, refl, some, suc, true, zero, ℕ, ◌∙◌, ◌≡◌}
use gitstatus.Tag.Db.{Ref, Refdb, follow_refs, max_deref_count, ref_has_target, tag_has_target}
use gitstatus.Text.{Bytes}

follow_refs-stays :
    (db : Refdb) (n : ℕ) (ref : Ref)
    → db.lookup ref.name ≡ some ref
    → ref.is_symbolic ≡ true
    → follow_refs db n ref ≡ some ref
unfolding follow_refs
follow_refs-stays db zero ref e s = refl
follow_refs-stays db (suc n) ref e s = ground (arith, follow_refs-stays db n ref e s)

ref_has_target_symbolic :
    (db : Refdb) (wanted : Bytes) (ref : Ref)
    → ref.is_symbolic ≡ true
    → ref_has_target db wanted ref ≡ false
unfolding ref_has_target
ref_has_target_symbolic db wanted ref s = ground arith

-- A symbolic reference is never a tag of the commit, whatever it leads to: since a reference that is
-- looked up by its name is found again, the loop that should follow it stays where it is.
pub tag_has_target_symbolic :
    (db : Refdb) (name wanted : Bytes) (ref : Ref)
    → db.lookup name ≡ some ref
    → ref.name ≡ name
    → ref.is_symbolic ≡ true
    → tag_has_target db name wanted ≡ false
unfolding tag_has_target
tag_has_target_symbolic db name wanted ref e n s =
    rw (e, tag_has_target, follow_refs-stays db max_deref_count ref (ap db.lookup n ∙ e) s)
      (ref_has_target_symbolic db wanted ref s)
