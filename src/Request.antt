-- ===== src/Request.antt =====
-- src/request.h, src/request.cc and src/serialization.h: requests on the input pipe.
-- The system calls of `ReadRequest` enter as a list of events, one for each return of `select` with
-- what the calls behind it gave. Logging is left out.
pub mod Parse
pub mod Stream
use gitstatus.Common.{
  ℕ, suc, ◌+◌, ◌-◌, ◌≡◌, Bool, true, false, not, ◌&&◌, List, [], ◌∷◌, ◌++◌, Option, none, some,
  take, drop, length, if◌then◌else◌, ◌==◌,
}
use gitstatus.Common.Int.{ℤ, pos, ltb_ℤ}
use gitstatus.Common.Outcome.{Outcome, ok, throws, aborts, exits, check, ◌>>◌}
use gitstatus.Text.{Bytes}
use gitstatus.Text.Find.{find_index}

-- kFieldSep
abbrev pub field_sep : ℕ
field_sep = 31

-- kMsgSep
abbrev pub msg_sep : ℕ
msg_sep = 30

pub record Request : Type 0 where
  pub id : Bytes
  pub dir : Bytes

-- ParseRequest
unfoldable pub parse_request : Bytes → Outcome Request
parse_request s = elim (find_index field_sep s) [
  | none ↦ throws
  | some sep ↦ elim (find_index field_sep (drop (suc sep) s)) [
    | some _ ↦ throws
    | none ↦ ok (record { id = take sep s; dir = drop (suc sep) s })
  ]
]

-- The descriptors that the reader was made with, and the bytes it has read ahead.
pub record Reader : Type 0 where
  pub fd : ℤ
  pub lock_fd : ℤ
  pub sigwinch_pid : ℤ
  pub ahead : Bytes

abbrev is_nonneg : ℤ → Bool
is_nonneg n = not (ltb_ℤ n (pos 0))

abbrev differ : ℤ → ℤ → Bool
differ a b = if ltb_ℤ a b then true else ltb_ℤ b a

-- RequestReader::RequestReader
unfoldable pub new_reader : ℤ → ℤ → ℤ → Outcome Reader
new_reader fd lock_fd sigwinch_pid = do
  check (differ fd lock_fd)
  ok (record { fd = fd; lock_fd = lock_fd; sigwinch_pid = sigwinch_pid; ahead = [] })

-- What one turn of the loop meets.
pub data Event : Type 0 where
  -- `select` fails.
  select_fails : Event
  -- A second passes: is the lock still there (none: fcntl fails), and does the signal get through.
  timeout : Option Bool → Bool → Event
  -- `read` fails.
  read_fails : Event
  -- `read` gives these bytes; none of them means the end of the file.
  received : Bytes → Event

-- IsLockedFd, given what fcntl says of the lock.
unfoldable pub is_locked_fd : ℤ → Option Bool → Outcome Bool
is_locked_fd fd lock = do check (is_nonneg fd); elim lock [ none ↦ aborts | some held ↦ ok held ]

-- The result of `ReadRequest`: it parsed a message, with the reader and the events that are left;
-- it still waits; or the process ended, by `std::exit(0)` or by a failed `CHECK`.
pub data Read : Type 0 where
  message : Outcome Request → Reader → List Event → Read
  waiting : Reader → Read
  exited : Read
  aborted : Read

-- Does the reader exit after a second of silence, and how: none to go on.
unfoldable pub on_timeout : Reader → Option Bool → Bool → Option Read
unfolding is_locked_fd
on_timeout r lock sent =
    let signal : Option Read = if is_nonneg r.sigwinch_pid && not sent then some exited else none in
    if is_nonneg r.lock_fd
    then elim (is_locked_fd r.lock_fd lock) [
      | ok held ↦ if not held then some exited else signal
      | _ ↦ some aborted
    ]
    else signal

-- read_.insert, and the message if the new bytes end one.
unfoldable pub on_received : Reader → Bytes → List Event → Option Read
unfolding parse_request
on_received r buf events =
    let all = r.ahead ++ buf in
    elim (find_index msg_sep buf) [
      | none ↦ none
      | some eol ↦
          let msg = take (length all - (length buf - eol)) all in
          some
            (message (parse_request msg) (record r { ahead = drop (suc (length msg)) all }) events)
    ]

-- while (true) of ReadRequest
unfoldable pub read_loop : Reader → List Event → Read
unfolding on_timeout on_received
read_loop r [] = waiting r
read_loop r (select_fails ∷ es) = aborted
read_loop r (timeout lock sent ∷ es) = elim (on_timeout r lock sent) [
  | some stop ↦ stop
  | none ↦ read_loop r es
]
read_loop r (read_fails ∷ es) = aborted
read_loop r (received [] ∷ es) = exited
read_loop r (received (b ∷ bs) ∷ es) = elim (on_received r (b ∷ bs) es) [
  | some done ↦ done
  | none ↦ read_loop (record r { ahead = r.ahead ++ b ∷ bs }) es
]

-- RequestReader::ReadRequest
unfoldable pub read_request : Reader → List Event → Read
unfolding read_loop
read_request r events = elim (find_index msg_sep r.ahead) [
  | some eol ↦
      message (parse_request (take eol r.ahead)) (record r { ahead = drop (suc eol) r.ahead })
        events
  | none ↦ read_loop r events
]
