-- ===== src/Response.antt =====
-- src/response.h and src/response.cc: a response is built field by field and written at once. If the
-- writer is destroyed before `Dump`, it writes the response for "no git status" instead.
-- `std::cout` is the bytes that a call returns.
pub mod Fields
use gitstatus.Common.{
  List, Bool, [], false, if◌then◌else◌, leb, ltb, map, not, suc, true, zero, ℕ, ◌%◌, ◌&&◌, ◌++◌,
  ◌+◌, ◌/◌, ◌||◌, ◌∷◌,
}
use gitstatus.Common.Int.{negsuc, pos, ℤ}
use gitstatus.Common.Outcome.{Outcome, check, ok, ◌>>=◌, ◌>>◌}
use gitstatus.Request.{field_sep, msg_sep}
use gitstatus.Text.{Bytes}

-- kUnreadable
abbrev pub unreadable : ℕ
unreadable = b'?'

-- std::isprint in the C locale.
abbrev pub isprint : ℕ → Bool
isprint c = leb 32 c && leb c 126

-- The character that SafePrint writes for c.
unfoldable pub safe_char : ℕ → ℕ
safe_char c = if ltb 127 c || isprint c then c else unreadable

-- SafePrint
unfoldable pub safe_print : Bytes → Bytes
unfolding safe_char
safe_print s = map safe_char s

-- The decimal digits of a number, as `<<` writes them; the number bounds how many there are.
unfoldable pub digits : ℕ → ℕ → Bytes
digits zero n = (b'0' + n % 10) ∷ []
digits (suc fuel) n =
    let more = digits fuel (n / 10) ++ (b'0' + n % 10) ∷ [] in
    if ltb n 10 then (b'0' + n % 10) ∷ [] else more

unfoldable pub show_int : ℤ → Bytes
unfolding digits
show_int (pos n) = digits n n
show_int (negsuc n) = b'-' ∷ digits (suc n) (suc n)

pub record Writer : Type 0 where
  pub done : Bool
  pub request_id : Bytes
  pub strm : Bytes

-- Print(ssize_t)
unfoldable pub print_int : Writer → ℤ → Writer
unfolding show_int
print_int w val = record w { strm = w.strm ++ field_sep ∷ show_int val }

-- Print(StringView)
unfoldable pub print_view : Writer → Bytes → Writer
unfolding safe_print
print_view w val = record w { strm = w.strm ++ field_sep ∷ safe_print val }

-- What a call of `Print` adds.
pub data Field : Type 0 where
  int : ℤ → Field
  view : Bytes → Field

unfoldable pub print : Writer → Field → Writer
unfolding print_int print_view
print w (int v) = print_int w v
print w (view s) = print_view w s

-- A row of calls of `Print`.
unfoldable pub prints : Writer → List Field → Writer
unfolding print
prints w [] = w
prints w (f ∷ fs) = prints (print w f) fs

-- ResponseWriter::ResponseWriter
unfoldable pub new_writer : Bytes → Writer
unfolding print_int safe_print
new_writer request_id =
    print_int (record { done = false; request_id = request_id; strm = safe_print request_id })
      (pos 1)

-- ResponseWriter::Dump, with what it writes.
unfoldable pub dump : Writer → Outcome (Writer × Bytes)
dump w = do check (not w.done); ok (record w { done = true }, w.strm ++ msg_sep ∷ [])

-- ResponseWriter::~ResponseWriter, with what it writes.
unfoldable pub destroy : Writer → Outcome Bytes
unfolding dump print_view safe_print
destroy w = if w.done then ok [] else do
  (_, out) ← dump (print_view (record w { strm = safe_print w.request_id }) (b'0' ∷ []))
  ok out
