-- ===== src/Index/Open/Close.antt =====
-- The calls of close in ScanDirs and OpenTail of src/index.cc, where they succeed.
use gitstatus.Common.{
  Bool, List, Option, [], none, refl, some, take, true, ℕ, if◌then◌else◌, ◌==◌, ◌-◌, ◌∷◌, ◌≡◌,
}
use gitstatus.Common.Outcome.{ok}
use gitstatus.Index.Open.{close_failed, close_fds, close_first, close_moved, rotate, dir_stack_size}

module _ {H : Type 0} {close_ok : H → Bool} (closes : (h : H) → close_ok h ≡ true) where
  pub close_fds-ok : (fds : List (Option H)) → close_fds close_ok fds ≡ ok tt
  unfolding close_fds
  close_fds-ok [] = refl
  close_fds-ok (none ∷ fds) = close_fds-ok fds
  close_fds-ok (some h ∷ fds) = rw (close_fds, closes h) (close_fds-ok fds)

  pub close_moved-ok : (d : ℕ) (fds : List (Option H)) → close_moved close_ok d fds ≡ ok tt
  unfolding close_moved
  close_moved-ok d fds = rw (close_fds-ok (take d fds)) (
      close_fds-ok
        (take 1 (rotate ((if d == 0 then dir_stack_size else d) - 1) (close_first d fds))))

  pub close_failed-ok : (fds : List (Option H)) → close_failed close_ok fds ≡ ok tt
  unfolding close_fds
  close_failed-ok [] = refl
  close_failed-ok (none ∷ fds) = close_fds-ok fds
  close_failed-ok (some h ∷ fds) = refl
