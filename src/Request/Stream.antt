-- ===== src/Request/Stream.antt =====
-- The requests that the reader of src/request.cc returns, and the byte stream, in any cut into
-- reads and with any seconds of silence between them.
use gitstatus.Common.{
  All-append, ◌<◌, arith, inl, inr, length, length-append, sym, ◌-◌, ◌∙◌, ap, suc, drop, take,
  Option-cases, some, ℕ, ◌≡◌, List, [], ◌∷◌, ◌++◌, none,
}
use gitstatus.Request.{
  read_request, waiting, msg_sep, on_received, read_loop, Reader, Event, received, timeout,
  select_fails, read_fails, parse_request, Read, message, on_timeout,
}
use gitstatus.Text.Find.{
  Lacks-of_cut, cut_unique, find_index-Lacks, find_index-none, not-Lacks, drop-append,
  find_index-length, find_index-some, take-append, Lacks, find_index,
}
use mathlib.Core.List.{append-nil, append_assoc}
use gitstatus.Text.{Bytes}

-- The bytes that the events bring.
abbrev pub stream : List Event → Bytes
stream [] = []
stream (received bs ∷ es) = bs ++ stream es
stream (_ ∷ es) = stream es

-- No failing call, no end of the file, and no reason to exit after a second of silence.
abbrev pub IsQuiet : Reader → List Event → Type 0
IsQuiet r [] = Unit
IsQuiet r (received [] ∷ es) = ⊥
IsQuiet r (received (b ∷ bs) ∷ es) = IsQuiet r es
IsQuiet r (timeout lock sent ∷ es) = (on_timeout r lock sent ≡ none) × IsQuiet r es
IsQuiet r (select_fails ∷ es) = ⊥
IsQuiet r (read_fails ∷ es) = ⊥

-- `ReadRequest` found this message, and left a reader and events that bring the rest.
pub record Returns (r : Reader) (msg rest : Bytes) (result : Read) : Type 0 where
  pub ahead : Bytes
  pub events : List Event
  pub result_is : result ≡ message (parse_request msg) (record r { ahead = ahead }) events
  pub rest_is : ahead ++ stream events ≡ rest
  pub quiet : IsQuiet r events

pub IsQuiet-ahead :
    (r : Reader) (buf : Bytes) (es : List Event)
    → IsQuiet r es
    → IsQuiet (record r { ahead = buf }) es
unfolding on_timeout
IsQuiet-ahead r buf [] q = tt
IsQuiet-ahead r buf (received [] ∷ es) q = q
IsQuiet-ahead r buf (received (b ∷ bs) ∷ es) q = IsQuiet-ahead r buf es q
IsQuiet-ahead r buf (timeout lock sent ∷ es) q = (q.0, IsQuiet-ahead r buf es q.1)
IsQuiet-ahead r buf (select_fails ∷ es) q = q
IsQuiet-ahead r buf (read_fails ∷ es) q = q

on_received-none :
    (r : Reader) (buf : Bytes) (es : List Event)
    → find_index msg_sep buf ≡ none
    → on_received r buf es ≡ none
unfolding on_received
on_received-none r buf es e = rw (e, on_received)

-- Where the new bytes end a message, it is what was read ahead and the bytes before the separator.
on_received-some :
    (r : Reader) (buf : Bytes) (es : List Event) (eol : ℕ)
    → find_index msg_sep buf ≡ some eol
    → on_received r buf es
      ≡ some (
          message
            (parse_request (r.ahead ++ take eol buf))
            (record r { ahead = drop (suc eol) buf })
            es)
unfolding on_received
on_received-some r buf es eol e = rw (e, on_received, msg_is, rest_is)
  where
    cut : r.ahead ++ buf ≡ (r.ahead ++ take eol buf) ++ msg_sep ∷ drop (suc eol) buf
    cut =
        ap (◌++◌ r.ahead) (find_index-some msg_sep buf eol e).0
        ∙ sym (append_assoc r.ahead (take eol buf) _)

    before : length (r.ahead ++ buf) - (length buf - eol) ≡ length (r.ahead ++ take eol buf)
    before = omega (
      arith,
      length-append r.ahead buf,
      length-append r.ahead (take eol buf),
      find_index-length msg_sep buf eol e,
      (find_index-some msg_sep buf eol e).2,
    )

    msg_is :
        take (length (r.ahead ++ buf) - (length buf - eol)) (r.ahead ++ buf)
        ≡ r.ahead ++ take eol buf
    msg_is =
        ap (λ n. take n (r.ahead ++ buf)) before
        ∙ ap (take (length (r.ahead ++ take eol buf))) cut
        ∙ take-append (r.ahead ++ take eol buf) _

    rest_is : drop (suc (length (r.ahead ++ take eol buf))) (r.ahead ++ buf) ≡ drop (suc eol) buf
    rest_is =
        ap (drop (suc (length (r.ahead ++ take eol buf)))) cut
        ∙ drop-append (r.ahead ++ take eol buf) msg_sep _

Returns-ahead :
    (r : Reader) (buf msg rest : Bytes) (result : Read)
    → Returns (record r { ahead = buf }) msg rest result
    → Returns r msg rest result
Returns-ahead r buf msg rest result t = record {
  ahead = t.ahead;
  events = t.events;
  result_is = t.result_is;
  rest_is = t.rest_is;
  quiet = IsQuiet-ahead (record r { ahead = buf }) r.ahead t.events t.quiet;
}

Returns-here :
    (r : Reader) (buf : Bytes) (es : List Event) (eol : ℕ) (msg rest : Bytes)
    → find_index msg_sep buf ≡ some eol
    → Lacks msg_sep r.ahead
    → Lacks msg_sep msg
    → r.ahead ++ (buf ++ stream es) ≡ msg ++ msg_sep ∷ rest
    → IsQuiet r es
    → Returns r msg rest (
        message
          (parse_request (r.ahead ++ take eol buf))
          (record r { ahead = drop (suc eol) buf })
          es)
Returns-here r buf es eol msg rest f h k e q = record {
  ahead = drop (suc eol) buf;
  events = es;
  result_is =
      ap (λ m. message (parse_request m) (record r { ahead = drop (suc eol) buf }) es) same.0;
  rest_is = same.1;
  quiet = q;
}
  where
    hit :
        (buf ≡ take eol buf ++ msg_sep ∷ drop (suc eol) buf)
        × Lacks msg_sep (take eol buf)
        × (eol < length buf)
    hit = find_index-some msg_sep buf eol f

    cut :
        (r.ahead ++ take eol buf) ++ msg_sep ∷ (drop (suc eol) buf ++ stream es)
        ≡ msg ++ msg_sep ∷ rest
    cut =
        append_assoc r.ahead (take eol buf) _
        ∙ ap (◌++◌ r.ahead) (
            sym (append_assoc (take eol buf) (msg_sep ∷ drop (suc eol) buf) (stream es))
            ∙ ap (λ x. x ++ stream es) (sym hit.0))
        ∙ e

    same : (r.ahead ++ take eol buf ≡ msg) × (drop (suc eol) buf ++ stream es ≡ rest)
    same =
        cut_unique msg_sep (r.ahead ++ take eol buf) msg _ rest
          (All-append _ r.ahead (take eol buf) h hit.1) k cut

read_loop-Returns :
    (es : List Event) (r : Reader) (msg rest : Bytes)
    → Lacks msg_sep r.ahead
    → Lacks msg_sep msg
    → r.ahead ++ stream es ≡ msg ++ msg_sep ∷ rest
    → IsQuiet r es
    → Returns r msg rest (read_loop r es)
unfolding read_loop
read_loop-Returns [] r msg rest h k e q =
    absurd (not-Lacks msg_sep msg rest (rw (sym (append-nil r.ahead) ∙ e) at h))
read_loop-Returns (received [] ∷ es) r msg rest h k e q = absurd q
read_loop-Returns (select_fails ∷ es) r msg rest h k e q = absurd q
read_loop-Returns (read_fails ∷ es) r msg rest h k e q = absurd q
read_loop-Returns (timeout lock sent ∷ es) r msg rest h k e q =
    rw (q.0, read_loop) (read_loop-Returns es r msg rest h k e q.1)
read_loop-Returns (received (b ∷ bs) ∷ es) r msg rest h k e q =
    elim (Option-cases (find_index msg_sep (b ∷ bs))) [
      | inl f ↦
          rw (on_received-none r (b ∷ bs) es f, read_loop)
            (Returns-ahead r (r.ahead ++ b ∷ bs) msg rest _ (
              read_loop-Returns es (record r { ahead = r.ahead ++ b ∷ bs }) msg rest
                (All-append _ r.ahead (b ∷ bs) h (find_index-none msg_sep (b ∷ bs) f)) k
                (append_assoc r.ahead (b ∷ bs) (stream es) ∙ e)
                (IsQuiet-ahead r (r.ahead ++ b ∷ bs) es q)))
      | inr (eol, f) ↦
          rw (on_received-some r (b ∷ bs) es eol f, read_loop)
            (Returns-here r (b ∷ bs) es eol msg rest f h k e q)
    ]

-- Whenever the bytes read ahead and those to come begin with a message and its separator, the
-- reader returns that message, and keeps all that follows it for the next call.
pub read_request-Returns :
    (r : Reader) (es : List Event) (msg rest : Bytes)
    → Lacks msg_sep msg
    → r.ahead ++ stream es ≡ msg ++ msg_sep ∷ rest
    → IsQuiet r es
    → Returns r msg rest (read_request r es)
unfolding read_request
read_request-Returns r es msg rest k e q = elim (Option-cases (find_index msg_sep r.ahead)) [
  | inl f ↦
      rw (f, read_request)
        (read_loop-Returns es r msg rest (find_index-none msg_sep r.ahead f) k e q)
  | inr (eol, f) ↦
      rw (f, read_request)
        (Returns-ahead r [] msg rest _ (
          Returns-here (record r { ahead = [] }) r.ahead es eol msg rest f tt k e
            (IsQuiet-ahead r [] es q)))
]

read_loop-waiting :
    (es : List Event) (r : Reader)
    → Lacks msg_sep (stream es)
    → IsQuiet r es
    → read_loop r es ≡ waiting (record r { ahead = r.ahead ++ stream es })
unfolding read_loop
read_loop-waiting [] r h q = ap (λ b. waiting (record r { ahead = b })) (sym (append-nil r.ahead))
read_loop-waiting (received [] ∷ es) r h q = absurd q
read_loop-waiting (select_fails ∷ es) r h q = absurd q
read_loop-waiting (read_fails ∷ es) r h q = absurd q
read_loop-waiting (timeout lock sent ∷ es) r h q =
    rw (q.0, read_loop) (read_loop-waiting es r h q.1)
read_loop-waiting (received (b ∷ bs) ∷ es) r h q =
    let parts = Lacks-of_cut msg_sep (b ∷ bs) (stream es) h in
    rw (on_received-none r (b ∷ bs) es (find_index-Lacks msg_sep (b ∷ bs) parts.0), read_loop)
      (read_loop-waiting es (record r { ahead = r.ahead ++ b ∷ bs }) parts.1
          (IsQuiet-ahead r (r.ahead ++ b ∷ bs) es q)
        ∙ ap (λ x. waiting (record r { ahead = x })) (append_assoc r.ahead (b ∷ bs) (stream es)))

-- As long as no separator has come, the reader waits, and has kept every byte.
pub read_request-waiting :
    (r : Reader) (es : List Event)
    → Lacks msg_sep (r.ahead ++ stream es)
    → IsQuiet r es
    → read_request r es ≡ waiting (record r { ahead = r.ahead ++ stream es })
unfolding read_request
read_request-waiting r es h q =
    let parts = Lacks-of_cut msg_sep r.ahead (stream es) h in
    rw (find_index-Lacks msg_sep r.ahead parts.0, read_request) (read_loop-waiting es r parts.1 q)
