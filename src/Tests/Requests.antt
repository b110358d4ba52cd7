-- ===== src/Tests/Requests.antt =====
-- Inputs for src/request.cc and the loop of src/gitstatus.cc.
use gitstatus.Common.{List, [], arith, false, inl, none, refl, suc, true, ℕ, ◌++◌, ◌↔◌, ◌∷◌, ◌≡◌}
use gitstatus.Common.Int.{negsuc, pos}
use gitstatus.Common.Outcome.{Outcome, ok, throws}
use gitstatus.Daemon.{Reply}
use gitstatus.Daemon.Serve.{blocked, serve}
use gitstatus.Daemon.Serve.Order.{answers, serve-answers}
use gitstatus.Request.{
  Event, Reader, Request, field_sep, msg_sep, on_timeout, parse_request, read_request, received,
  timeout,
}
use gitstatus.Request.Parse.{Encodes, parse_request_iff}
use gitstatus.Request.Stream.{IsQuiet, Returns, read_request-Returns}
use gitstatus.Text.{Bytes, codes}
use gitstatus.Text.Find.{find_index}

abbrev hello : Request
hello = record { id = codes "7"; dir = codes "/tmp" }

abbrev hello_bytes : Bytes
hello_bytes = codes "7" ++ field_sep ∷ codes "/tmp"

abbrev reader : Reader
reader = record { fd = pos 0; lock_fd = negsuc 0; sigwinch_pid = pos 42; ahead = codes "7" }

-- The message comes in two reads, with a second of silence between them.
abbrev events : List Event
events =
    received (field_sep ∷ codes "/t")
    ∷ timeout none true
    ∷ received (codes "mp" ++ msg_sep ∷ codes "8")
    ∷ []

parse_hello : parse_request hello_bytes ≡ ok hello
unfolding parse_request find_index
parse_hello = refl

parse_two_separators : parse_request (codes "7" ++ field_sep ∷ field_sep ∷ []) ≡ throws
unfolding parse_request find_index
parse_two_separators = refl

quiet : IsQuiet reader events
unfolding on_timeout
quiet = (refl, tt)

parse_request_iff_example : (parse_request hello_bytes ≡ ok hello) ↔ Encodes hello_bytes hello
parse_request_iff_example = parse_request_iff hello_bytes hello

read_request-Returns_example : Returns reader hello_bytes (codes "8") (read_request reader events)
read_request-Returns_example =
    read_request-Returns reader events hello_bytes (codes "8") (omega arith) refl quiet

abbrev half : List Event
half = received (codes "/t") ∷ []

-- A handler that echoes the directory and counts its calls.
abbrev echo : ℕ → Request → ℕ × Outcome Reply
echo n req = (suc n, ok (record { output = req.dir ++ msg_sep ∷ []; thrown = false }))

serve-answers_example :
    serve echo 3 0 reader (received (field_sep ∷ codes "a" ++ msg_sep ∷ msg_sep ∷ codes "x") ∷ [])
    ≡ record {
      output = (answers echo 0 ((codes "7" ++ field_sep ∷ codes "a") ∷ [] ∷ [])).1;
      state = (answers echo 0 ((codes "7" ++ field_sep ∷ codes "a") ∷ [] ∷ [])).0;
      end = blocked (record reader { ahead = codes "x" });
    }
serve-answers_example =
    serve-answers echo (λ st req. inl (_, refl)) ((codes "7" ++ field_sep ∷ codes "a") ∷ [] ∷ [])
      (codes "x") 0 reader _ (omega arith) (omega arith) refl tt
