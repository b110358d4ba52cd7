-- ===== src/Logging.antt =====
-- src/logging.h and src/logging.cc: what LOG(severity) << ... does to errno and to stderr, and
-- whether it returns.
pub mod Statement
pub mod Threads
use gitstatus.Options.{unknown}
use gitstatus.Common.{ℕ, ◌<◌, Bool, true, false, List, [], ◌∷◌, ◌++◌, ◌==◌, if◌then◌else◌, ltb}
use gitstatus.Common.Int.{ℤ, pos, is_zero}
use gitstatus.Common.Outcome.{Outcome, ok, throws, aborts}
use gitstatus.Response.{show_int}
use gitstatus.Text.{Bytes, codes, c_str}

pub data Severity : Type 0 where
  info warn error fatal : Severity

abbrev pub rank : Severity → ℕ
rank info = 0
rank warn = 1
rank error = 2
rank fatal = 3

-- Str
abbrev pub severity_name : Severity → Bytes
severity_name info = codes "INFO"
severity_name warn = codes "WARN"
severity_name error = codes "ERROR"
severity_name fatal = codes "FATAL"

-- LogStreamBase
pub record LogStream : Type 0 where
  pub stashed_errno : ℤ
  pub file : Bytes
  pub line : ℤ
  pub severity : Severity
  pub strm : Bytes

abbrev pub new_stream : ℤ → Bytes → ℤ → Severity → LogStream
new_stream errno file line severity = record {
  stashed_errno = errno;
  file = file;
  line = line;
  severity = severity;
  strm = [];
}

-- strerror_r of the C library: the version that returns an int and fills a buffer, the one that
-- returns the text, or another.
pub data Strerror : Type 0 where
  xsi : (ℤ → ℤ × Bytes) → Strerror
  gnu : (ℤ → Bytes) → Strerror
  other : Strerror

abbrev pub unknown_error : Bytes
unknown_error = codes "unknown error"

-- operator<<(std::ostream&, Errno)
abbrev pub print_errno : Strerror → ℤ → Bytes
print_errno (xsi f) err = let (x, buf) = f err in if is_zero x then buf else unknown_error
print_errno (gnu f) err = f err
print_errno other err = unknown_error

-- What stands behind << in a statement: a value as the stream prints it, Errno(err) and Errno().
pub data Operand : Type 0 where
  value : Bytes → Operand
  code : ℤ → Operand
  stashed : Operand

abbrev print_operand : Strerror → ℤ → Operand → Bytes
print_operand strerror errno (value v) = v
print_operand strerror errno (code err) = print_errno strerror err
print_operand strerror errno stashed = print_errno strerror errno

-- operator<<(LogStreamBase&, ...)
unfoldable pub insert : Strerror → LogStream → Operand → LogStream
insert strerror s o = record s { strm = s.strm ++ print_operand strerror s.stashed_errno o }

unfoldable pub insert_all : Strerror → LogStream → List Operand → LogStream
unfolding insert
insert_all strerror s [] = s
insert_all strerror s (o ∷ os) = insert_all strerror (insert strerror s o) os

-- time_str. `strftime` gives the text of the local time, and no text where the function returns 0.
abbrev pub time_str : (ℕ → Bytes) → ℕ → Bytes
time_str strftime time = elim (strftime time) [ [] ↦ codes "undef" | b ∷ s ↦ b ∷ s ]

-- What std::fprintf prints in Flush.
unfoldable pub message : Bytes → LogStream → Bytes
message time s =
    codes "["
    ++ (time
        ++ (codes " "
            ++ (severity_name s.severity
                ++ (codes " "
                    ++ (s.file
                        ++ (codes ":"
                            ++ (show_int s.line
                                ++ (codes "] " ++ (c_str s.strm ++ codes "\n")))))))))

-- errno of the thread and what is on stderr.
pub record Console : Type 0 where
  pub errno : ℤ
  pub printed : Bytes

-- LogStreamBase::Flush at a time.
unfoldable pub flush : (ℕ → Bytes) → ℕ → LogStream → Console → Console
unfolding message
flush strftime now s c = record {
  errno = s.stashed_errno;
  printed = c.printed ++ message (time_str strftime now) s;
}

-- ~LogStream
abbrev pub leave : Severity → Outcome (Unit {0})
leave info = ok tt
leave warn = ok tt
leave error = ok tt
leave fatal = aborts

-- LOG_I with its operands. `least` is GITSTATUS_MIN_LOG_LVL, INFO unless the build says otherwise;
-- `left` is the errno that the operands leave when they are evaluated and printed.
unfoldable pub log :
    Severity
    → Strerror
    → (ℕ → Bytes)
    → Severity
    → Bytes
    → ℤ
    → List Operand
    → ℕ
    → ℤ
    → Console
    → Console × Outcome (Unit {0})
unfolding insert_all flush
log least strerror strftime severity file line os now left c =
    if ltb (rank severity) (rank least) then (c, ok tt) else (
      flush strftime now (insert_all strerror (new_stream c.errno file line severity) os)
          (record c { errno = left }),
      leave severity,
    )

-- The parts of a statement that are the same for CHECK and VERIFY: GITSTATUS_MIN_LOG_LVL, strerror_r,
-- strftime, __FILE__ and __LINE__, the operands with the text of the condition in front, the time
-- and the errno that the operands leave.
pub record Site : Type 0 where
  pub least : Severity
  pub strerror : Strerror
  pub strftime : ℕ → Bytes
  pub file : Bytes
  pub line : ℤ
  pub operands : List Operand
  pub now : ℕ
  pub left : ℤ

unfoldable pub log_at : Site → Severity → Console → Console × Outcome (Unit {0})
unfolding log
log_at s severity c =
    log s.least s.strerror s.strftime severity s.file s.line s.operands s.now s.left c

-- CHECK
unfoldable pub check_statement : Site → Bool → Console → Console × Outcome (Unit {0})
unfolding log_at
check_statement s cond c = if cond then (c, ok tt) else log_at s fatal c

-- VERIFY: ~Thrower runs behind the statement.
unfoldable pub verify_statement : Site → Bool → Console → Console × Outcome (Unit {0})
unfolding log_at
verify_statement s cond c = if cond then (c, ok tt) else ((log_at s error c).0, throws)
