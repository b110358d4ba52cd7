-- ===== src/Repo/Stats/Held.antt =====
-- The index that GetIndexStats of src/repo.cc keeps from call to call: git_index_, which libgit2
-- reads again when its file has changed, and index_, which is made from its entries and scanned.
-- `E` is what the git index holds and `I` an Index, which `build` makes.
use gitstatus.Index.Whole.{new_index}
pub mod Current
use gitstatus.Common.{Bool, true, false, List, [], ◌∷◌, Option, none, some, if◌then◌else◌}
use gitstatus.Common.Outcome.{◌>>=◌, Outcome, ok, throws, aborts, exits, verify}

-- Whether git_index_ is there, and index_.
pub record Held (I : Type 0) : Type 0 where
  pub opened : Bool
  pub index : Option I

abbrev pub nothing_held : {I : Type 0} → Held I
nothing_held = record { opened = false; index = none }

-- A call of GetIndexStats: new_index as git_index_read_ex sets it, or none if that fails; whether
-- git_repository_index and git_attr_get succeed; what the git index holds behind these; whether the
-- staged scan starts, and whether the index is small enough to be scanned.
pub record Round (E : Type 0) : Type 0 where
  pub read : Option Bool
  pub open_ok : Bool
  pub attr_ok : Bool
  pub entries : E
  pub staged_ok : Bool
  pub is_small : Bool

module _ {I : Type 0} where
  -- git_index_read_ex
  abbrev pub reread : Option Bool → Held I → Held I × Outcome (Unit {0})
  reread none h = (h, throws)
  reread (some new_index) h = (record h { index = if new_index then none else h.index }, ok tt)

  -- git_repository_index and git_attr_get
  abbrev pub open_index : (open_ok attr_ok : Bool) → Held I → Held I × Outcome (Unit {0})
  open_index false attr_ok h = (h, throws)
  open_index true attr_ok h = (record h { opened = true }, verify attr_ok)

  -- The first part, up to UpdateShards.
  unfoldable pub refresh : {E : Type 0} → Round E → Held I → Held I × Outcome (Unit {0})
  refresh r h = if h.opened then reread r.read h else open_index r.open_ok r.attr_ok h

-- What is kept of an Index is what its constructor makes; a scan leaves that as it is.
module _ {E I : Type 0} (build : E → Outcome I) where
  -- index_, made if it is not there.
  abbrev pub index_for : E → Option I → Outcome I
  index_for e none = build e
  index_for e (some i) = ok i

  -- The part about dirty candidates: what is left of the index, and the one that is scanned.
  abbrev pub scan_index : Round E → Held I → Outcome (Held I × Option I)
  scan_index r h =
      if r.is_small
      then (index_for r.entries h.index >>= λ i. ok (record h { index = some i }, some i))
      else ok (h, none)

  -- Behind an exception the next call finds what is held.
  abbrev pub go_on : Round E → Held I → Outcome (Unit {0}) → Outcome (Held I × Option I)
  go_on r h (ok x) = if r.staged_ok then scan_index r h else ok (h, none)
  go_on r h throws = ok (h, none)
  go_on r h aborts = aborts
  go_on r h (exits n) = exits n

  -- A call of GetIndexStats.
  unfoldable pub hold_round : Round E → Held I → Outcome (Held I × Option I)
  unfolding refresh
  hold_round r h = go_on r (refresh r h).0 (refresh r h).1

  -- Calls one after another: the index that each of them scans, until the process ends.
  unfoldable pub hold_rounds : List (Round E) → Held I → List (Option I)
  unfolding hold_round
  hold_rounds [] h = []
  hold_rounds (r ∷ rs) h = elim (hold_round r h) [
    | ok (h', x) ↦ x ∷ hold_rounds rs h'
    | throws ↦ []
    | aborts ↦ []
    | exits n ↦ []
  ]
