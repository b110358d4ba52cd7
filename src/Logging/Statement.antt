-- ===== src/Logging/Statement.antt =====
-- A whole LOG statement of src/logging.h, and those of CHECK and VERIFY (src/check.h).
use gitstatus.Common.{
  ◌≡◌, refl, ap, sym, ◌∙◌, Bool, true, false, List, [], ◌∷◌, ◌++◌, if◌then◌else◌, ltb, Bool-cases,
  inl, inr,
}
use gitstatus.Common.Int.{ℤ}
use gitstatus.Common.Outcome.{throws, aborts, check, verify}
use gitstatus.Text.{Bytes}
use gitstatus.Logging.{
  Severity, info, warn, error, fatal, rank, LogStream, Strerror, print_errno, Operand, value, code,
  stashed, insert, insert_all, message, time_str, Console, flush, log, Site, log_at,
  check_statement, verify_statement,
}
use mathlib.Core.List.{append-nil, append_assoc}

-- The text of the operands; Errno() stands for an errno.
abbrev pub text : Strerror → ℤ → List Operand → Bytes
text strerror errno [] = []
text strerror errno (value v ∷ os) = v ++ text strerror errno os
text strerror errno (code err ∷ os) = print_errno strerror err ++ text strerror errno os
text strerror errno (stashed ∷ os) = print_errno strerror errno ++ text strerror errno os

insert_all_lem :
    (strerror : Strerror) (s : LogStream) (os : List Operand)
    → insert_all strerror s os ≡ record s { strm = s.strm ++ text strerror s.stashed_errno os }
unfolding insert_all insert
insert_all_lem strerror s [] = ap (λ (t : Bytes). record s { strm = t }) (sym (append-nil s.strm))
insert_all_lem strerror s (value v ∷ os) =
    insert_all_lem strerror (insert strerror s (value v)) os
    ∙ ap (λ (t : Bytes). record s { strm = t }) (append_assoc s.strm v _)
insert_all_lem strerror s (code err ∷ os) =
    insert_all_lem strerror (insert strerror s (code err)) os
    ∙ ap (λ (t : Bytes). record s { strm = t }) (append_assoc s.strm (print_errno strerror err) _)
insert_all_lem strerror s (stashed ∷ os) =
    insert_all_lem strerror (insert strerror s stashed) os
    ∙ ap (λ (t : Bytes). record s { strm = t })
        (append_assoc s.strm (print_errno strerror s.stashed_errno) _)

-- What a statement prints.
abbrev pub line_of : Site → Severity → Console → Bytes
line_of s severity c = message (time_str s.strftime s.now) record {
  stashed_errno = c.errno;
  file = s.file;
  line = s.line;
  severity = severity;
  strm = text s.strerror c.errno s.operands;
}

abbrev pub output_of : Site → Severity → Console → Bytes
output_of s severity c = if ltb (rank severity) (rank s.least) then [] else line_of s severity c

abbrev printing : Site → Severity → Console → Console
printing s severity c = record c { printed = c.printed ++ output_of s severity c }

log_at-printing :
    (s : Site) (severity : Severity) (c : Console) → (log_at s severity c).0 ≡ printing s severity c
unfolding log_at log flush
log_at-printing s severity c = elim (Bool-cases (ltb (rank severity) (rank s.least))) [
  | inl e ↦ rw (e, append-nil)
  | inr e ↦ rw (e, insert_all_lem)
]

fatal_enabled : (least : Severity) → ltb (rank fatal) (rank least) ≡ false
fatal_enabled info = refl
fatal_enabled warn = refl
fatal_enabled error = refl
fatal_enabled fatal = refl

output_of-fatal : (s : Site) (c : Console) → output_of s fatal c ≡ line_of s fatal c
output_of-fatal s c = rw (fatal_enabled s.least)

log_at-aborts : (s : Site) (c : Console) → (log_at s fatal c).1 ≡ aborts
unfolding log_at log
log_at-aborts s c = rw (fatal_enabled s.least)

-- CHECK and VERIFY return if their condition holds, and then do nothing; otherwise CHECK aborts and
-- VERIFY throws. Either way errno is as before, whatever the operands left in it. CHECK that fails
-- always prints its message, of severity FATAL; VERIFY that fails prints one of severity ERROR, unless
-- GITSTATUS_MIN_LOG_LVL is above it. In the message Errno() stands for the errno before the statement.
pub check_statement-verify_statement :
    (s : Site) (cond : Bool) (c : Console)
    → (check_statement s cond c ≡ (
      record c { printed = c.printed ++ (if cond then [] else line_of s fatal c) },
      check cond,
    ))
      × (verify_statement s cond c ≡ (
        record c { printed = c.printed ++ (if cond then [] else output_of s error c) },
        verify cond,
      ))
unfolding check_statement verify_statement
check_statement-verify_statement s true c = (rw append-nil, rw append-nil)
check_statement-verify_statement s false c = (
  λ i. (
    (log_at-printing s fatal c
          ∙ ap (λ (t : Bytes). record c { printed = c.printed ++ t }) (output_of-fatal s c))
        i,
    log_at-aborts s c i,
  ),
  λ i. (log_at-printing s error c i, throws),
)
