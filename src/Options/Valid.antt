-- ===== src/Options/Valid.antt =====
-- The ranges of the options that ParseOptions of src/options.cc returns.
use gitstatus.Common.{
  ◌≤◌, Bool-cases, List, [], arith, inl, inr, refl, suc, true, zero, ◌<◌, ◌^◌, ◌∷◌, ◌≡◌,
}
use gitstatus.Common.Int.{negsuc, pos, ℤ}
use gitstatus.Common.Outcome.{
  Outcome, ok, throws, aborts, exits, ◌>>=◌, >>=-Ensures, >>=-Ensures_eq, Ensures, Ensures-ok,
  on_exits, on_ok,
}
use gitstatus.Options.{
  Flag, Options, default_options, help, is_int, parse_int, parse_long, parse_loop, parse_option,
  parse_options, set_dirty_max_index_size, set_lock_fd, set_num_threads, set_sigwinch_pid, to_size,
  unknown, with_threads,
}
use gitstatus.Text.{Bytes}

pub record IsOptions (o : Options) : Type 0 where
  pub threads : 0 < o.num_threads
  pub size : o.dirty_max_index_size < 2 ^ 64
  pub lock : is_int o.lock_fd ≡ true
  pub pid : is_int o.sigwinch_pid ≡ true

parse_int-IsInt : (s : Bytes) → Ensures (λ v. is_int v ≡ true) (parse_int s)
unfolding parse_int
parse_int-IsInt s =
    >>=-Ensures _ (parse_long s) _
      λ v. elim (Bool-cases (is_int v)) [ inl e ↦ rw e (on_ok e) | inr e ↦ rw e on_exits ]

to_size_lt : (v : ℤ) → to_size v < 2 ^ 64
to_size_lt (pos n) = omega arith
to_size_lt (negsuc n) = omega arith

with_threads-IsOptions : (n : ℤ) (o : Options) → IsOptions o → Ensures IsOptions (with_threads n o)
unfolding with_threads
with_threads-IsOptions (pos zero) o h = on_exits
with_threads-IsOptions (pos (suc n)) o h =
    on_ok (record { threads = omega arith; size = h.size; lock = h.lock; pid = h.pid })
with_threads-IsOptions (negsuc n) o h = on_exits

parse_option-IsOptions :
    (f : Flag) (o : Options) → IsOptions o → Ensures IsOptions (parse_option f o)
unfolding parse_option
parse_option-IsOptions help o h = on_exits
parse_option-IsOptions (set_lock_fd arg) o h = >>=-Ensures_eq _ (parse_int arg) _ λ v e.
    on_ok (record {
      threads = h.threads;
      size = h.size;
      lock = Ensures-ok _ (parse_int arg) (parse_int-IsInt arg) e;
      pid = h.pid;
    })
parse_option-IsOptions (set_sigwinch_pid arg) o h = >>=-Ensures_eq _ (parse_int arg) _ λ v e.
    on_ok (record {
      threads = h.threads;
      size = h.size;
      lock = h.lock;
      pid = Ensures-ok _ (parse_int arg) (parse_int-IsInt arg) e;
    })
parse_option-IsOptions (set_num_threads arg) o h =
    >>=-Ensures _ (parse_long arg) _ λ n. with_threads-IsOptions n o h
parse_option-IsOptions (set_dirty_max_index_size arg) o h =
    >>=-Ensures _ (parse_long arg) _
      λ v. on_ok (record { threads = h.threads; size = to_size_lt v; lock = h.lock; pid = h.pid })
parse_option-IsOptions unknown o h = on_exits

parse_loop-IsOptions :
    (fs : List Flag) (o : Options) → IsOptions o → Ensures IsOptions (parse_loop fs o)
unfolding parse_loop
parse_loop-IsOptions [] o h = on_ok h
parse_loop-IsOptions (f ∷ fs) o h = >>=-Ensures_eq _ (parse_option f o) _ λ r e.
    parse_loop-IsOptions fs r (Ensures-ok _ (parse_option f o) (parse_option-IsOptions f o h) e)

-- The ends of a function that may leave the process, as a command-line parser does.
abbrev pub EndsWell {ℓ} : {A : Type ℓ} → Outcome A → Type 0
EndsWell (ok a) = Unit {0}
EndsWell throws = ⊥
EndsWell aborts = ⊥
EndsWell (exits n) = n ≤ 1

>>=-EndsWell :
    {A B : Type 0} (m : Outcome A) (f : A → Outcome B)
    → EndsWell m
    → ((a : A) → EndsWell (f a))
    → EndsWell (m >>= f)
>>=-EndsWell (ok a) f h k = k a
>>=-EndsWell throws f h k = h
>>=-EndsWell aborts f h k = h
>>=-EndsWell (exits n) f h k = h

parse_long-EndsWell : (s : Bytes) → EndsWell (parse_long s)
unfolding parse_long
parse_long-EndsWell s = ground arith

parse_int-EndsWell : (s : Bytes) → EndsWell (parse_int s)
unfolding parse_int
parse_int-EndsWell s =
    >>=-EndsWell (parse_long s) _ (parse_long-EndsWell s)
      λ v. elim (Bool-cases (is_int v)) [ inl e ↦ rw e tt | inr e ↦ rw e (omega arith) ]

with_threads-EndsWell : (n : ℤ) (o : Options) → EndsWell (with_threads n o)
unfolding with_threads
with_threads-EndsWell (pos zero) o = omega arith
with_threads-EndsWell (pos (suc n)) o = tt
with_threads-EndsWell (negsuc n) o = omega arith

parse_option-EndsWell : (f : Flag) (o : Options) → EndsWell (parse_option f o)
unfolding parse_option
parse_option-EndsWell help o = omega arith
parse_option-EndsWell (set_lock_fd arg) o =
    >>=-EndsWell (parse_int arg) _ (parse_int-EndsWell arg) λ v. tt
parse_option-EndsWell (set_sigwinch_pid arg) o =
    >>=-EndsWell (parse_int arg) _ (parse_int-EndsWell arg) λ v. tt
parse_option-EndsWell (set_num_threads arg) o =
    >>=-EndsWell (parse_long arg) _ (parse_long-EndsWell arg) λ n. with_threads-EndsWell n o
parse_option-EndsWell (set_dirty_max_index_size arg) o =
    >>=-EndsWell (parse_long arg) _ (parse_long-EndsWell arg) λ v. tt
parse_option-EndsWell unknown o = omega arith

parse_loop-EndsWell : (fs : List Flag) (o : Options) → EndsWell (parse_loop fs o)
unfolding parse_loop
parse_loop-EndsWell [] o = tt
parse_loop-EndsWell (f ∷ fs) o =
    >>=-EndsWell (parse_option f o) _ (parse_option-EndsWell f o) λ r. parse_loop-EndsWell fs r

-- Whatever the command line, ParseOptions returns, or ends the process with 0 or 1; it does not throw
-- or abort. If it returns, then there is at least one thread, the limit of the index fits into size_t,
-- and the two numbers that are passed on as int are in its range.
pub parse_options-IsOptions :
    (fs : List Flag) → EndsWell (parse_options fs) × Ensures IsOptions (parse_options fs)
unfolding parse_options
parse_options-IsOptions fs = (
  parse_loop-EndsWell fs default_options,
  parse_loop-IsOptions fs default_options
      (record { threads = omega arith; size = omega arith; lock = refl; pid = refl }),
)
