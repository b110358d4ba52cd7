-- ===== src/Tests/Flags.antt =====
-- Inputs for src/options.cc and for the callbacks of src/repo.cc.
use gitstatus.Options.{
  Flag, set_lock_fd, parse_long, parse_loop, parse_option, parse_options, read_digits, read_number,
  read_signed, set_num_threads, skip_spaces, strtol, with_threads,
}
use gitstatus.Repo.Notify.Interleave.{
  leave, exchange, Pending, Scanner, Steps, flag_of, here, holding, idle, then,
}
use gitstatus.Common.{List, [], false, refl, true, ◌↔◌, ◌∷◌, ◌≡◌}
use gitstatus.Common.Int.{pos}
use gitstatus.Common.Outcome.{exits, ok, Ensures}
use gitstatus.Index.Scan.{t_false, t_true}
use gitstatus.Options.Valid.{EndsWell, IsOptions, parse_options-IsOptions}
use gitstatus.Repo.Notify.{Flags, exchange_flag, is_tracked, is_untracked, load_other}
use gitstatus.Repo.Notify.Interleave.Invariant.{Steps-flags}
use gitstatus.Text.{codes}

parse_runs : parse_long (codes " +12") ≡ ok (pos 12)
unfolding parse_long strtol read_signed skip_spaces read_number read_digits
parse_runs = refl

empty_runs : parse_long [] ≡ ok (pos 0)
unfolding parse_long strtol read_signed skip_spaces read_number
empty_runs = refl

letters_run : parse_long (codes "1x") ≡ exits 1
unfolding parse_long strtol read_signed skip_spaces read_number read_digits
letters_run = refl

threads_run : parse_options (set_num_threads (codes "0") ∷ []) ≡ exits 1
unfolding parse_options parse_loop parse_option parse_long strtol read_signed skip_spaces
    read_number read_digits with_threads
threads_run = refl

-- Two scans that find one file each; the second is between its steps when the first stops.
abbrev clear_flags : Flags
clear_flags = record { error = false; staged = false; unstaged = t_false; untracked = t_false }

abbrev scans : List Scanner
scans = idle (is_untracked ∷ []) ∷ idle (is_tracked ∷ []) ∷ []

abbrev both : Flags
both = record { error = false; staged = false; unstaged = t_true; untracked = t_true }

ran :
    Steps
      (record { flags = clear_flags; scanners = scans })
      (record { flags = both; scanners = idle [] ∷ idle [] ∷ [] })
unfolding exchange_flag
ran =
    then
      (then
        (then
          (then here (exchange clear_flags [] (idle (is_tracked ∷ []) ∷ []) is_untracked [] refl))
          (exchange (exchange_flag is_untracked clear_flags) (holding is_untracked [] ∷ []) []
            is_tracked [] refl))
        (leave both [] (holding is_tracked [] ∷ []) is_untracked [] (unfold load_other in refl)))
      (leave both (idle [] ∷ []) [] is_tracked [] (unfold load_other in refl))

Steps-flags_example : (flag_of is_tracked both ≡ true) ↔ Pending is_tracked scans
Steps-flags_example =
    Steps-flags clear_flags scans (record { flags = both; scanners = idle [] ∷ idle [] ∷ [] })
      is_tracked refl refl (refl, (refl, tt)) ran (refl, (refl, tt)) refl

abbrev flags : List Flag
flags = set_num_threads (codes "8") ∷ set_lock_fd (codes "-1") ∷ []

parse_options-IsOptions_example :
    EndsWell (parse_options flags) × Ensures IsOptions (parse_options flags)
parse_options-IsOptions_example = parse_options-IsOptions flags
