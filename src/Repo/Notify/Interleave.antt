-- ===== src/Repo/Notify/Interleave.antt =====
-- The callbacks of StartDirtyScan under the scans of all shards at once: each scan runs on a thread of
-- its own, and between the two steps of one callback any steps of the others may come.
pub mod Invariant
use gitstatus.Common.{
  ◌≢◌, All, Bool, In, List, [], arith, false, inl, inr, refl, true, ◌++◌, ◌∷◌, ◌≡◌, ◌⊎◌,
}
use gitstatus.Repo.Notify.{
  Delta, Flags, exchange_flag, is_tracked, is_true, is_untracked, load_other, skip, stop,
}

-- A scan with the differences that it has not come to yet, between two callbacks, or in one, whose
-- first step is done.
pub data Scanner : Type 0 where
  idle : List Delta → Scanner
  holding : Delta → List Delta → Scanner

pub record System : Type 0 where
  pub flags : Flags
  pub scanners : List Scanner

-- One step of one scan. It stops at GIT_EUSER, and at an error of another.
pub data Step : System → System → Type 0 where
  exchange :
      (f : Flags) (before after : List Scanner) (d : Delta) (ds : List Delta)
      → f.error ≡ false
      → Step
          (record { flags = f; scanners = before ++ idle (d ∷ ds) ∷ after })
          (record { flags = exchange_flag d f; scanners = before ++ holding d ds ∷ after })
  go_on :
      (f : Flags) (before after : List Scanner) (d : Delta) (ds : List Delta)
      → load_other d f ≡ skip
      → Step
          (record { flags = f; scanners = before ++ holding d ds ∷ after })
          (record { flags = f; scanners = before ++ idle ds ∷ after })
  leave :
      (f : Flags) (before after : List Scanner) (d : Delta) (ds : List Delta)
      → load_other d f ≡ stop
      → Step
          (record { flags = f; scanners = before ++ holding d ds ∷ after })
          (record { flags = f; scanners = before ++ idle [] ∷ after })
  bail :
      (f : Flags) (before after : List Scanner) (ds : List Delta)
      → f.error ≡ true
      → Step
          (record { flags = f; scanners = before ++ idle ds ∷ after })
          (record { flags = f; scanners = before ++ idle [] ∷ after })
  fail :
      (f : Flags) (before after : List Scanner) (ds : List Delta)
      → Step
          (record { flags = f; scanners = before ++ idle ds ∷ after })
          (record { flags = record f { error = true }; scanners = before ++ idle [] ∷ after })

pub data Steps : System → System → Type 0 where
  here : {s : System} → Steps s s
  then : {s t u : System} → Steps s t → Step t u → Steps s u

abbrev pub todo : Scanner → List Delta
todo (idle ds) = ds
todo (holding d ds) = ds

-- A difference of this kind is still to come.
abbrev pub Pending : Delta → List Scanner → Type 0
Pending d [] = ⊥
Pending d (s ∷ ss) = In d (todo s) ⊎ Pending d ss

-- The flag for the kind of a difference.
abbrev pub flag_of : Delta → Flags → Bool
flag_of is_untracked f = is_true f.untracked
flag_of is_tracked f = is_true f.unstaged

pub replace-Pending :
    (P : Type 0) (d : Delta) (before after : List Scanner) (s s' : Scanner)
    → (In d (todo s) → P ⊎ In d (todo s'))
    → Pending d (before ++ s ∷ after)
    → P ⊎ Pending d (before ++ s' ∷ after)
replace-Pending P d [] after s s' h (inl k) = elim (h k) [ inl p ↦ inl p | inr i ↦ inr (inl i) ]
replace-Pending P d [] after s s' h (inr k) = inr (inr k)
replace-Pending P d (b ∷ before) after s s' h (inl k) = inr (inl k)
replace-Pending P d (b ∷ before) after s s' h (inr k) =
    elim (replace-Pending P d before after s s' h k) [ inl p ↦ inl p | inr i ↦ inr (inr i) ]

pub middle-Pending :
    (d : Delta) (before after : List Scanner) (s : Scanner)
    → In d (todo s)
    → Pending d (before ++ s ∷ after)
middle-Pending d [] after s h = inl h
middle-Pending d (b ∷ before) after s h = inr (middle-Pending d before after s h)

-- A scan between the steps of a callback has set the flag of its difference.
abbrev pub Held : Flags → Scanner → Type 0
Held f (idle ds) = Unit
Held f (holding d ds) = flag_of d f ≡ true

pub replace-All :
    (P : Scanner → Type 0) (before after : List Scanner) (s s' : Scanner)
    → P s'
    → All P (before ++ s ∷ after)
    → All P (before ++ s' ∷ after)
replace-All P [] after s s' p h = (p, h.1)
replace-All P (b ∷ before) after s s' p h = (h.0, replace-All P before after s s' p h.1)

pub All-map :
    (P Q : Scanner → Type 0) (ss : List Scanner) → ((s : Scanner) → P s → Q s) → All P ss → All Q ss
All-map P Q [] f h = tt
All-map P Q (s ∷ ss) f h = (f s h.0, All-map P Q ss f h.1)

pub middle-All :
    (P : Scanner → Type 0) (before after : List Scanner) (s : Scanner)
    → All P (before ++ s ∷ after)
    → P s
middle-All P [] after s h = h.0
middle-All P (b ∷ before) after s h = middle-All P before after s h.1

pub flag_of-exchange :
    (d k : Delta) (f : Flags) → flag_of k f ≡ true → flag_of k (exchange_flag d f) ≡ true
unfolding exchange_flag
flag_of-exchange is_untracked is_untracked f h = refl
flag_of-exchange is_untracked is_tracked f h = h
flag_of-exchange is_tracked is_untracked f h = h
flag_of-exchange is_tracked is_tracked f h = refl

pub flag_of-set : (d : Delta) (f : Flags) → flag_of d (exchange_flag d f) ≡ true
unfolding exchange_flag
flag_of-set is_untracked f = refl
flag_of-set is_tracked f = refl

-- The flag is only set by a difference of its kind.
pub flag_of-origin :
    (d k : Delta) (f : Flags)
    → flag_of k (exchange_flag d f) ≡ true
    → (flag_of k f ≡ true) ⊎ (k ≡ d)
unfolding exchange_flag
flag_of-origin is_untracked is_untracked f h = inr refl
flag_of-origin is_untracked is_tracked f h = inl h
flag_of-origin is_tracked is_untracked f h = inl h
flag_of-origin is_tracked is_tracked f h = inr refl

-- A callback that stops the scan has both flags set.
pub load_other-stop :
    (d k : Delta) (f : Flags) → flag_of d f ≡ true → load_other d f ≡ stop → flag_of k f ≡ true
unfolding load_other
load_other-stop is_untracked is_untracked f h e = h
load_other-stop is_untracked is_tracked f h e = ground arith
load_other-stop is_tracked is_untracked f h e = ground arith
load_other-stop is_tracked is_tracked f h e = h

pub error-exchange : (d : Delta) (f : Flags) → (exchange_flag d f).error ≡ f.error
unfolding exchange_flag
error-exchange is_untracked f = refl
error-exchange is_tracked f = refl

pub holding-ne : (d : Delta) (ds : List Delta) → holding d ds ≢ idle ds
holding-ne d ds e = cc
