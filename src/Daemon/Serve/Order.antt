-- ===== src/Daemon/Serve/Order.antt =====
-- The order of requests and responses in the loop of `GitStatus` of src/gitstatus.cc.
use gitstatus.Common.{ap, sym, ◌∙◌, All, List, [], inl, inr, length, refl, suc, ◌++◌, ◌∷◌, ◌≡◌, ◌⊎◌}
use gitstatus.Request.{waiting, Event, Reader, Request, msg_sep, parse_request}
use gitstatus.Request.Stream.{
  IsQuiet-ahead, read_request-Returns, read_request-waiting, IsQuiet, stream,
}
use mathlib.Core.List.{append_assoc}
use mathlib.Core.Path.{subst}
use gitstatus.Common.Outcome.{Outcome, ok, throws}
use gitstatus.Daemon.{Reply}
use gitstatus.Daemon.Serve.{Served, blocked, on_message, serve}
use gitstatus.Request.Parse.{parse_request_total}
use gitstatus.Text.{Bytes}
use gitstatus.Text.Find.{Lacks}

-- The bytes of these messages on the wire.
abbrev pub wire : List Bytes → Bytes
wire [] = []
wire (m ∷ ms) = m ++ msg_sep ∷ wire ms

module _ {S : Type 0} (handler : S → Request → S × Outcome Reply) where
  -- The answer to one message, if it is a request: the handler's; and none if it is malformed.
  abbrev pub answer : S → Outcome Request → S × Bytes
  answer st (ok req) =
      ((handler st req).0, elim (handler st req).1 [ ok reply ↦ reply.output | _ ↦ [] ])
  answer st _ = (st, [])

  -- All messages answered one after the other.
  abbrev pub answers : S → List Bytes → S × Bytes
  answers st [] = (st, [])
  answers st (m ∷ ms) =
      let first = answer st (parse_request m) in
      let rest = answers first.0 ms in (rest.0, first.1 ++ rest.1)

  -- The handler lets the process go on.
  abbrev pub GoesOn : Type 0
  GoesOn =
      (st : S) (req : Request)
      → ((reply : Reply) × ((handler st req).1 ≡ ok reply)) ⊎ ((handler st req).1 ≡ throws)

  on_message-answer :
      GoesOn
      → (st : S) (m : Bytes) (go_on : S → Served S)
      → on_message handler st (parse_request m) go_on
        ≡ record (go_on (answer st (parse_request m)).0) {
          output =
              (answer st (parse_request m)).1 ++ (go_on (answer st (parse_request m)).0).output;
        }
  unfolding on_message
  on_message-answer g st m go_on = elim (parse_request_total m) [
    | inr e ↦ rw (e, on_message) refl
    | inl (req, e) ↦ elim (g st req) [
      | inl (reply, f) ↦ rw (e, on_message, f) refl
      | inr f ↦ rw (e, on_message, f) refl
    ]
  ]

  -- For a stream of messages, cut into reads in any way, the loop writes exactly the answers to
  -- them, in their order, and each malformed message is passed over; then it waits for more,
  -- having kept the bytes of the unfinished message.
  pub serve-answers :
      GoesOn
      → (ms : List Bytes) (tail : Bytes) (st : S) (r : Reader) (es : List Event)
      → All (Lacks msg_sep) ms
      → Lacks msg_sep tail
      → r.ahead ++ stream es ≡ wire ms ++ tail
      → IsQuiet r es
      → serve handler (suc (length ms)) st r es ≡ record {
        output = (answers st ms).1;
        state = (answers st ms).0;
        end = blocked (record r { ahead = tail });
      }
  unfolding serve
  serve-answers g [] tail st r es h t e q =
      rw
        (
          read_request-waiting r es (subst (Lacks msg_sep) (sym e) t) q
              ∙ ap (λ x. waiting (record r { ahead = x })) e,
          serve,
        )
        refl
  serve-answers g (m ∷ ms) tail st r es h t e q =
      let found =
        read_request-Returns r es m (wire ms ++ tail) h.0
          (e ∙ append_assoc m (msg_sep ∷ wire ms) tail) q in
      let later =
        serve-answers g ms tail (answer st (parse_request m)).0 (record r { ahead = found.ahead })
          found.events h.1 t found.rest_is (IsQuiet-ahead r found.ahead found.events found.quiet) in
      rw (found.result_is, serve)
        (on_message-answer g st m _
          ∙ ap (λ (s : Served S). record s { output = (answer st (parse_request m)).1 ++ s.output })
              later)
