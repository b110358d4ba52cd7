-- ===== src/Daemon/Once.antt =====
-- The output of `ProcessRequest` of src/gitstatus.cc for one request.
use gitstatus.Common.{
  sym, Bool, if◌then◌else◌, Bool-cases, Option, arith, inl, inr, none, ◌==◌, List, [], ap, false,
  length, map, refl, some, true, ℕ, ◌++◌, ◌∙◌, ◌∷◌, ◌≡◌, ◌≢◌,
}
use mathlib.Core.Path.{subst}
use gitstatus.Common.Outcome.{
  >>=-Ensures_eq, Ensures-ok, on_aborts, on_exits, Ensures, on_ok, Outcome, aborts, exits, throws,
  ◌>>=◌, ok,
}
use gitstatus.Daemon.{Reply, Answers, finish, process_request, respond, status_fields}
use gitstatus.Git.{Reference, head_of}
use gitstatus.Daemon.{or_empty, trim_slash}
use gitstatus.Daemon.Fields.{
  Parts, texts, bool_text, tribool_text, status_fields-Parts, Parts-status_fields,
}
use gitstatus.Git.{repo_state}
use gitstatus.Common.Int.{pos}
use gitstatus.Common.Outcome.{on_throws}
use mathlib.Core.Option
use gitstatus.Response.Fields.{prints-new_writer, destroy-Holds, field_text, split}
use gitstatus.Request.{field_sep, msg_sep}
use gitstatus.Response.{
  Field, Writer, destroy, dump, int, new_writer, print, print_int, print_view, prints, safe_print,
  show_int, view,
}
use gitstatus.Text.{Bytes, codes}
use gitstatus.Text.Find.{Lacks}
use mathlib.Core.List.{append-nil}

prints_keeps :
    (w : Writer) (fs : List Field)
    → ((prints w fs).done ≡ w.done) × ((prints w fs).request_id ≡ w.request_id)
unfolding prints print print_int print_view
prints_keeps w [] = (refl, refl)
prints_keeps w (int v ∷ fs) = prints_keeps (record w { strm = w.strm ++ field_sep ∷ show_int v }) fs
prints_keeps w (view s ∷ fs) =
    prints_keeps (record w { strm = w.strm ++ field_sep ∷ safe_print s }) fs

new_writer_start : (id : Bytes) → ((new_writer id).done ≡ false) × ((new_writer id).request_id ≡ id)
unfolding new_writer
new_writer_start id = (refl, refl)

-- One message that ends with the message separator, and nothing behind it.
pub record IsMessage (output : Bytes) (fields : List Bytes) : Type 0 where
  pub message : Bytes
  pub framed : output ≡ message ++ msg_sep ∷ []
  pub no_sep : Lacks msg_sep message
  pub splits : split field_sep message ≡ fields

abbrev pub failure_fields : Bytes → List Bytes
failure_fields id = safe_print id ∷ (b'0' ∷ []) ∷ []

abbrev pub status_texts : Bytes → List Field → List Bytes
status_texts id fs = safe_print id ∷ (b'1' ∷ []) ∷ map field_text fs

-- A request for which nothing was dumped gets the response without git status.
destroy_failure :
    (id : Bytes)
    → (out : Bytes) × (destroy (new_writer id) ≡ ok out) × IsMessage out (failure_fields id)
destroy_failure id =
    let (msg, e, l, s) = destroy-Holds (new_writer id) (new_writer_start id).0 in
    (
      msg ++ msg_sep ∷ [],
      e,
      record {
        message = msg;
        framed = refl;
        no_sep = l;
        splits = s ∙ ap failure_fields (new_writer_start id).1;
      },
    )

dump-prints :
    (id : Bytes) (fs : List Field)
    → dump (prints (new_writer id) fs)
      ≡ ok (
        record (prints (new_writer id) fs) { done = true },
        (prints (new_writer id) fs).strm ++ msg_sep ∷ [],
      )
unfolding dump
dump-prints id fs = rw ((prints_keeps (new_writer id) fs).0, (new_writer_start id).0, dump) refl

destroy_done : (w : Writer) → destroy (record w { done = true }) ≡ ok []
unfolding destroy
destroy_done w = refl

status_IsMessage :
    (id : Bytes) (fs : List Field)
    → IsMessage ((prints (new_writer id) fs).strm ++ msg_sep ∷ []) (status_texts id fs)
status_IsMessage id fs = record {
  message = (prints (new_writer id) fs).strm;
  framed = refl;
  no_sep = (prints-new_writer id fs).no_sep;
  splits = (prints-new_writer id fs).splits;
}

finish_status :
    (id : Bytes) (fs : List Field)
    → finish (new_writer id) (
        ok (
          some (
            record (prints (new_writer id) fs) { done = true },
            (prints (new_writer id) fs).strm ++ msg_sep ∷ [],
          )))
      ≡ ok (record { output = (prints (new_writer id) fs).strm ++ msg_sep ∷ []; thrown = false })
unfolding finish
finish_status id fs =
    rw (destroy_done (prints (new_writer id) fs))
      (ap (λ x. ok (record { output = x; thrown = false })) (append-nil _))

length-eq_zero : (s : Bytes) → s ≢ [] → (length s == 0) ≡ false
length-eq_zero [] h = absurd (h refl)
length-eq_zero (b ∷ s) h = ground arith

respond_status :
    (a : Answers) (size : ℕ) (w : Writer) (h : Reference) (fs : List Field)
    → head_of a.head_rc a.head_ref a.head_resolved ≡ ok (some h)
    → a.workdir ≢ []
    → status_fields a size h ≡ ok fs
    → respond (ok (some a)) size w ≡ (dump (prints w fs) >>= λ out. ok (some out))
unfolding respond
respond_status a size w h fs e n s = rw (e, respond, length-eq_zero a.workdir n, s) refl

-- When the queries of a request are all answered, the one response is the sanitised id, a 1, and
-- then in this order: the working directory, the commit, the local branch, the upstream branch, the
-- remote's name and URL, the state, whether there are staged, unstaged and untracked changes, the
-- commits ahead and behind, the stashes and the tag.
pub process_request_status :
    (a : Answers) (size : ℕ) (id : Bytes) (h : Reference)
    → head_of a.head_rc a.head_ref a.head_resolved ≡ ok (some h)
    → a.workdir ≢ []
    → (p : Parts a size h)
    → (out : Bytes) × (process_request (ok (some a)) size id
        ≡ ok (record { output = out; thrown = false }))
      × IsMessage out (
          safe_print id
          ∷ codes "1"
          ∷ safe_print (trim_slash a.workdir)
          ∷ safe_print (or_empty (Option.map a.oid_hex h.target))
          ∷ safe_print p.local
          ∷ safe_print p.remote.branch
          ∷ safe_print p.remote.name
          ∷ safe_print p.url
          ∷ safe_print (repo_state a.state)
          ∷ bool_text p.stats.has_staged
          ∷ tribool_text p.stats.has_unstaged
          ∷ tribool_text p.stats.has_untracked
          ∷ p.ahead
          ∷ p.behind
          ∷ show_int (pos p.stashes)
          ∷ safe_print p.tag
          ∷ [])
unfolding process_request
process_request_status a size id h e n p =
    let (fs, s, t) = Parts-status_fields a size h p in
    (
      (prints (new_writer id) fs).strm ++ msg_sep ∷ [],
      ap (finish (new_writer id)) (
            respond_status a size (new_writer id) h fs e n s
            ∙ ap (λ o. o >>= λ out. ok (some out)) (dump-prints id fs))
          ∙ finish_status id fs,
      subst
          (λ (l : List Bytes).
            IsMessage ((prints (new_writer id) fs).strm ++ msg_sep ∷ [])
              (safe_print id ∷ (b'1' ∷ []) ∷ l))
          t (status_IsMessage id fs),
    )

-- What `respond` gives: nothing was dumped, or the fields of the answers were.
Dumped : Outcome (Option Answers) → ℕ → Writer → Option (Writer × Bytes) → Type 0
Dumped opened size w none = Unit
Dumped opened size w (some out) =
    (fs : List Field) × (dump (prints w fs) ≡ ok out)
    × (a : Answers) × (h : Reference) × (p : Parts a size h) × (opened ≡ ok (some a))
    × (head_of a.head_rc a.head_ref a.head_resolved ≡ ok (some h))
    × (map field_text fs ≡ texts p)

respond_head :
    (a : Answers) (size : ℕ) (w : Writer) (h : Reference)
    → head_of a.head_rc a.head_ref a.head_resolved ≡ ok (some h)
    → Ensures (Dumped (ok (some a)) size w) (
        if length a.workdir == 0
        then ok none
        else do fields ← status_fields a size h; out ← dump (prints w fields); ok (some out))
unfolding Dumped
respond_head a size w h found = elim (Bool-cases (length a.workdir == 0)) [
  | inl e ↦ rw e (on_ok tt)
  | inr e ↦ rw e (
      >>=-Ensures_eq _ (status_fields a size h) _ λ fs s.
        >>=-Ensures_eq _ (dump (prints w fs)) _ λ out d.
          let (p, t) = Ensures-ok _ (status_fields a size h) (status_fields-Parts a size h) s in
          on_ok (fs, d, a, h, p, refl, found, t))
]

respond_opened :
    (a : Answers) (size : ℕ) (w : Writer)
    → Ensures (Dumped (ok (some a)) size w) (respond (ok (some a)) size w)
unfolding respond Dumped
respond_opened a size w =
    >>=-Ensures_eq _ (head_of a.head_rc a.head_ref a.head_resolved) _
      (elim [ none ↦ λ e. on_ok tt | some h ↦ λ e. respond_head a size w h e ])

respond-Dumped :
    (opened : Outcome (Option Answers)) (size : ℕ) (w : Writer)
    → Ensures (Dumped opened size w) (respond opened size w)
unfolding respond Dumped
respond-Dumped (ok none) size w = on_ok tt
respond-Dumped (ok (some a)) size w = respond_opened a size w
respond-Dumped throws size w = on_throws
respond-Dumped aborts size w = on_aborts
respond-Dumped (exits n) size w = on_exits

-- The two forms of a response: without status, and with the fields of the answers for the head.
pub data IsAnswer (opened : Outcome (Option Answers)) (size : ℕ) (id : Bytes) (r : Reply)
    : Type 0 where
  without_status : IsMessage r.output (failure_fields id) → IsAnswer opened size id r
  with_status :
      (a : Answers) (h : Reference) (p : Parts a size h)
      → opened ≡ ok (some a)
      → head_of a.head_rc a.head_ref a.head_resolved ≡ ok (some h)
      → r.thrown ≡ false
      → IsMessage r.output (safe_print id ∷ codes "1" ∷ texts p)
      → IsAnswer opened size id r

module _ (opened : Outcome (Option Answers)) (size : ℕ) (id : Bytes) where
  finish_failure :
      (t : Bool)
      → Ensures
          (IsAnswer opened size id)
          (destroy (new_writer id) >>= λ out. ok (record { output = out; thrown = t }))
  finish_failure t = let (out, e, m) = destroy_failure id in rw e (on_ok (without_status m))

  finish-IsAnswer :
      (o : Outcome (Option (Writer × Bytes)))
      → Ensures (Dumped opened size (new_writer id)) o
      → Ensures (IsAnswer opened size id) (finish (new_writer id) o)
  unfolding finish Dumped
  finish-IsAnswer (ok none) h = finish_failure false
  finish-IsAnswer throws h = finish_failure true
  finish-IsAnswer aborts h = on_aborts
  finish-IsAnswer (exits n) h = on_exits
  finish-IsAnswer (ok (some (w', out))) (on_ok (fs, d, a, h, p, o, found, t)) =
      let same : ok (w', out)
          ≡ ok (
            record (prints (new_writer id) fs) { done = true },
            (prints (new_writer id) fs).strm ++ msg_sep ∷ [],
          ) =
        sym d ∙ dump-prints id fs in
      let m =
        subst
          (λ (l : List Bytes).
            IsMessage ((prints (new_writer id) fs).strm ++ msg_sep ∷ [])
              (safe_print id ∷ (b'1' ∷ []) ∷ l))
          t (status_IsMessage id fs) in
      subst
        (λ o. Ensures (IsAnswer opened size id) (o >>= λ r. finish (new_writer id) (ok (some r))))
        (sym same) (rw (finish_status id fs) (on_ok (with_status a h p o found refl m)))

-- Every request that does not end the process gets exactly one response, ended by the message
-- separator: its sanitised id and a 0; or, where the repository was opened and has a head, its
-- sanitised id, a 1, and the fourteen fields of the answers to the queries about that head.
pub process_request-IsAnswer :
    (opened : Outcome (Option Answers)) (size : ℕ) (id : Bytes)
    → Ensures (IsAnswer opened size id) (process_request opened size id)
unfolding process_request
process_request-IsAnswer opened size id =
    finish-IsAnswer opened size id (respond opened size (new_writer id))
      (respond-Dumped opened size (new_writer id))
