-- ===== src/Pool.antt =====
-- ThreadPool of src/thread_pool.cc. Each function is what a thread does while it holds the mutex; a
-- function to run is of any type `F`, and times are numbers.
pub mod Runs
pub mod Threads
use gitstatus.Common.{
  [], false, if◌then◌else◌, leb, ltb, not, true, ◌&&◌, ◌+◌, ◌-◌, ◌==◌, ◌||◌, ◌∷◌, List, Bool, ℕ,
}

pub record Work (F : Type 0) : Type 0 where
  pub due : ℕ
  pub idx : ℕ
  pub run : F

-- The members that the mutex guards; work_ is in any order.
pub record Pool (F : Type 0) : Type 0 where
  pub last_idx : ℕ
  pub num_inflight : ℕ
  pub is_exit : Bool
  pub have_sleeper : Bool
  pub work : List (Work F)

-- The condition variable to notify.
pub data Wake : Type 0 where
  no_one a_worker the_sleeper : Wake

-- What a thread does when it lets the mutex go: end, wait, wait until a time, or run a function, after
-- which another is notified or not.
pub data Turn (F : Type 0) : Type 0 where
  quits waits : Turn F
  sleeps : ℕ → Turn F
  runs : Work F → Bool → Turn F

module _ {F : Type 0} where
  -- Whether v comes out of the queue before w: the reverse of operator<.
  abbrev pub is_before : Work F → Work F → Bool
  is_before v w = ltb v.due w.due || (v.due == w.due && ltb v.idx w.idx)

  -- work_.top() and work_.pop()
  unfoldable pub take_top : Work F → List (Work F) → Work F × List (Work F)
  take_top w [] = (w, [])
  take_top w (v ∷ ws) =
      let r = take_top v ws in if is_before r.0 w then (r.0, w ∷ r.1) else (w, v ∷ ws)

  -- Schedule, with the work that it makes.
  abbrev pub new_work : ℕ → F → Pool F → Work F
  new_work t f s = record { due = t; idx = s.last_idx + 1; run = f }

  unfoldable pub schedule : ℕ → F → Pool F → Pool F × Wake
  unfolding take_top
  schedule t f s =
      let wake = if s.have_sleeper then the_sleeper else a_worker in
      (
        record s { last_idx = s.last_idx + 1; work = new_work t f s ∷ s.work },
        if (take_top (new_work t f s) s.work).0.idx == s.last_idx + 1 then wake else no_one,
      )

  -- The beginning of Next: whether idle_cv_ is notified.
  unfoldable pub finish_work : Pool F → Pool F × Bool
  finish_work s = (
    record s { num_inflight = s.num_inflight - 1 },
    elim s.work [ [] ↦ s.num_inflight - 1 == 0 | w ∷ ws ↦ false ],
  )

  abbrev pub is_some_left : List (Work F) → Bool
  is_some_left [] = false
  is_some_left (w ∷ ws) = true

  -- A round of the loop of Next, at a time, for the top of the queue and the rest.
  abbrev pub top_turn : ℕ → Pool F → Work F × List (Work F) → Pool F × Turn F
  top_turn now s top =
      if leb top.0.due now
      then (
        record s { work = top.1; num_inflight = s.num_inflight + 1 },
        runs top.0 (is_some_left top.1 && not s.have_sleeper),
      )
      else (if s.have_sleeper
          then (s, waits)
          else (record s { have_sleeper = true }, sleeps top.0.due))

  unfoldable pub next_turn : ℕ → Pool F → Pool F × Turn F
  unfolding take_top
  next_turn now s =
      if s.is_exit
      then (s, quits)
      else (elim s.work [ [] ↦ (s, waits) | w ∷ ws ↦ top_turn now s (take_top w ws) ])

  -- The predicate of Wait.
  abbrev pub is_idle : Pool F → Bool
  is_idle s = elim s.work [ [] ↦ s.num_inflight == 0 | w ∷ ws ↦ false ]

  -- Behind wait_until.
  abbrev pub wake_sleeper : Pool F → Pool F
  wake_sleeper s = record s { have_sleeper = false }

  -- The destructor, while it holds the mutex.
  abbrev pub ask_exit : Pool F → Pool F
  ask_exit s = record s { is_exit = true }
