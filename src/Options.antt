-- ===== src/Options.antt =====
-- src/options.cc and src/options.h: the command line. std::strtol reads a sequence of bytes; the
-- options that getopt_long recognises are a list, which ends where it returns -1.
pub mod Numbers
pub mod Valid
use gitstatus.Common.{
  Bool, List, [], false, if◌then◌else◌, leb, ltb, min, not, suc, true, zero, ℕ, ◌%◌, ◌&&◌, ◌*◌, ◌+◌,
  ◌-◌, ◌==◌, ◌^◌, ◌||◌, ◌∷◌,
}
use gitstatus.Common.Int.{neg, negsuc, pos, ℤ}
use gitstatus.Common.Outcome.{Outcome, exits, ok, ◌>>=◌}
use gitstatus.Text.{Bytes}

abbrev pub is_space : ℕ → Bool
is_space c = c == 32 || (leb 9 c && leb c 13)

abbrev pub is_digit : ℕ → Bool
is_digit c = leb b'0' c && leb c b'9'

-- The digits that strtol reads after some others, of value v: their value and what is behind them.
unfoldable pub read_digits : ℕ → Bytes → ℕ × Bytes
read_digits v [] = (v, [])
read_digits v (c ∷ s) =
    let rest = read_digits (10 * v + (c - b'0')) s in if is_digit c then rest else (v, c ∷ s)

abbrev pub long_max : ℕ
long_max = 2 ^ 63 - 1

-- The result of strtol, `end`, and whether it sets errno.
pub record Parse : Type 0 where
  pub value : ℤ
  pub rest : Bytes
  pub failed : Bool

-- The number behind the sign, with `all` where there are no digits.
unfoldable pub read_number : Bool → Bytes → Bytes → Parse
read_number negative all [] = record { value = pos 0; rest = all; failed = false }
read_number negative all (c ∷ s) =
    if not (is_digit c)
    then record { value = pos 0; rest = all; failed = false }
    else (let (v, after) = read_digits 0 (c ∷ s) in
        if negative
        then record {
          value = neg (pos (min v (suc long_max)));
          rest = after;
          failed = ltb (suc long_max) v;
        }
        else record { value = pos (min v long_max); rest = after; failed = ltb long_max v })

-- The sign of a number, if it has one.
unfoldable pub read_signed : Bytes → Bytes → Parse
unfolding read_number
read_signed all [] = read_number false all []
read_signed all (c ∷ s) =
    if c == b'-'
    then read_number true all s
    else if c == b'+'
    then read_number false all s
    else read_number false all (c ∷ s)

unfoldable pub skip_spaces : Bytes → Bytes
skip_spaces [] = []
skip_spaces (c ∷ s) = let rest = skip_spaces s in if is_space c then rest else c ∷ s

-- std::strtol(s, &end, 10)
unfoldable pub strtol : Bytes → Parse
unfolding read_signed skip_spaces
strtol s = read_signed s (skip_spaces s)

-- if (*end || errno)
abbrev pub long_result : Parse → Outcome ℤ
long_result res = elim res.rest [
  | c ∷ more ↦ exits 1
  | [] ↦ if res.failed then exits 1 else ok res.value
]

-- ParseLong
unfoldable pub parse_long : Bytes → Outcome ℤ
parse_long s = long_result (strtol s)

-- INT_MIN <= n <= INT_MAX
abbrev pub is_int : ℤ → Bool
is_int (pos n) = ltb n (2 ^ 31)
is_int (negsuc n) = ltb n (2 ^ 31)

-- ParseInt
unfoldable pub parse_int : Bytes → Outcome ℤ
unfolding parse_long
parse_int s = parse_long s >>= λ res. if not (is_int res) then exits 1 else ok res

-- struct Options
pub record Options : Type 0 where
  pub dirty_max_index_size : ℕ
  pub num_threads : ℕ
  pub lock_fd : ℤ
  pub sigwinch_pid : ℤ

-- size_t, 64 bits wide
abbrev pub to_size : ℤ → ℕ
to_size (pos n) = n % 2 ^ 64
to_size (negsuc n) = 2 ^ 64 - 1 - n % 2 ^ 64

abbrev pub default_options : Options
default_options = record {
  dirty_max_index_size = to_size (negsuc 0);
  num_threads = 1;
  lock_fd = negsuc 0;
  sigwinch_pid = negsuc 0;
}

-- What getopt_long returns, with its optarg.
pub data Flag : Type 0 where
  help : Flag
  set_lock_fd set_sigwinch_pid set_num_threads set_dirty_max_index_size : Bytes → Flag
  unknown : Flag

-- case 't'
unfoldable pub with_threads : ℤ → Options → Outcome Options
with_threads (pos zero) res = exits 1
with_threads (pos (suc n)) res = ok (record res { num_threads = suc n })
with_threads (negsuc n) res = exits 1

-- The switch.
unfoldable pub parse_option : Flag → Options → Outcome Options
unfolding parse_int parse_long with_threads
parse_option help res = exits 0
parse_option (set_lock_fd arg) res = parse_int arg >>= λ v. ok (record res { lock_fd = v })
parse_option (set_sigwinch_pid arg) res =
    parse_int arg >>= λ v. ok (record res { sigwinch_pid = v })
parse_option (set_num_threads arg) res = parse_long arg >>= λ n. with_threads n res
parse_option (set_dirty_max_index_size arg) res =
    parse_long arg >>= λ v. ok (record res { dirty_max_index_size = to_size v })
parse_option unknown res = exits 1

-- while (true)
unfoldable pub parse_loop : List Flag → Options → Outcome Options
unfolding parse_option
parse_loop [] res = ok res
parse_loop (o ∷ os) res = parse_option o res >>= λ r. parse_loop os r

-- ParseOptions
unfoldable pub parse_options : List Flag → Outcome Options
unfolding parse_loop
parse_options os = parse_loop os default_options
