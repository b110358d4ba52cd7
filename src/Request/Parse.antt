-- ===== src/Request/Parse.antt =====
-- The messages that `ParseRequest` of src/request.cc accepts.
use gitstatus.Common.{◌≡◌, ◌↔◌, ◌⊎◌, inl, inr, ◌∷◌, ◌++◌, take, drop, arith, Option-cases, suc}
use gitstatus.Common.Outcome.{ok, throws}
use gitstatus.Text.{Bytes}
use gitstatus.Text.Find.{
  find_index, Lacks, find_index-append, find_index-Lacks, find_index-some, find_index-none,
  take-append, drop-append,
}
use gitstatus.Request.{Request, parse_request, field_sep}

abbrev pub Encodes : Bytes → Request → Type 0
Encodes s r = (s ≡ r.id ++ field_sep ∷ r.dir) × Lacks field_sep r.id × Lacks field_sep r.dir

pub parse_request-encoded : (s : Bytes) (r : Request) → Encodes s r → parse_request s ≡ ok r
unfolding parse_request
parse_request-encoded s r (e, hid, hdir) = rw e (
    ground (
      arith,
      find_index-append field_sep r.id r.dir hid,
      drop-append r.id field_sep r.dir,
      find_index-Lacks field_sep r.dir hdir,
      take-append r.id (field_sep ∷ r.dir),
    ))

pub parse_request-Encodes : (s : Bytes) (r : Request) → parse_request s ≡ ok r → Encodes s r
unfolding parse_request
parse_request-Encodes s r h = elim (Option-cases (find_index field_sep s)) [
  | inl e ↦ cc (rw (e, parse_request) at h)
  | inr (i, e) ↦ elim (Option-cases (find_index field_sep (drop (suc i) s))) [
    | inl f ↦
        ground
          (arith, find_index-some field_sep s i e, find_index-none field_sep (drop (suc i) s) f)
    | inr (j, f) ↦ ground arith
  ]
]

-- A message is accepted, with id and directory, exactly when it is these two with one field
-- separator between them and none inside.
pub parse_request_iff : (s : Bytes) (r : Request) → (parse_request s ≡ ok r) ↔ Encodes s r
parse_request_iff s r = (parse_request-Encodes s r, parse_request-encoded s r)

-- Every other message raises the exception that the main loop catches.
pub parse_request_total :
    (s : Bytes) → ((r : Request) × (parse_request s ≡ ok r)) ⊎ (parse_request s ≡ throws)
unfolding parse_request
parse_request_total s = elim (Option-cases (find_index field_sep s)) [
  | inl e ↦ inr (rw (e, parse_request))
  | inr (i, e) ↦ elim (Option-cases (find_index field_sep (drop (suc i) s))) [
    | inl f ↦ inl (record { id = take i s; dir = drop (suc i) s }, rw (e, parse_request, f))
    | inr (j, f) ↦ inr (rw (e, parse_request, f))
  ]
]
