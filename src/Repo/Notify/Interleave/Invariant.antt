-- ===== src/Repo/Notify/Interleave/Invariant.antt =====
-- The flags and the scans of src/repo.cc after any steps.
use gitstatus.Index.Scan.{t_false}
use gitstatus.Repo.Notify.Interleave.{
  exchange, go_on, leave, bail, fail, here, then, All-map, Held, Pending, Scanner, Step, Steps,
  System, error-exchange, flag_of, flag_of-exchange, flag_of-origin, flag_of-set, holding,
  holding-ne, idle, load_other-stop, middle-All, middle-Pending, replace-All, replace-Pending, todo,
}
use gitstatus.Common.{
  All, In, List, [], ap, false, inl, inr, refl, sym, true, ◌++◌, ◌↔◌, ◌∙◌, ◌∷◌, ◌≡◌, ◌⊎◌,
}
use gitstatus.Repo.Notify.{Delta, Flags, exchange_flag, is_tracked, is_true, is_untracked}
use mathlib.Core.Bool.{true≢false}
use mathlib.Core.Path.{subst}

abbrev pub Seen : Delta → Flags → Type 0
Seen k f = (f.error ≡ true) ⊎ (flag_of k f ≡ true)

pub record Inv (start : List Scanner) (f : Flags) (ss : List Scanner) : Type 0 where
  pub held : All (Held f) ss
  pub complete : (k : Delta) → Pending k start → Seen k f ⊎ Pending k ss
  pub sound : (k : Delta) → flag_of k f ≡ true → Pending k start
  pub subset : (k : Delta) → Pending k ss → Pending k start

Held-exchange : (d : Delta) (f : Flags) (s : Scanner) → Held f s → Held (exchange_flag d f) s
Held-exchange d f (idle ds) h = tt
Held-exchange d f (holding k ds) h = flag_of-exchange d k f h

-- A step that leaves the flags and, of one scan, what is to come but for what has been seen.
Inv-same :
    (start : List Scanner) (f : Flags) (before after : List Scanner) (s s' : Scanner)
    → Held f s'
    → ((k : Delta) → In k (todo s) → Seen k f ⊎ In k (todo s'))
    → ((k : Delta) → In k (todo s') → In k (todo s))
    → Inv start f (before ++ s ∷ after)
    → Inv start f (before ++ s' ∷ after)
Inv-same start f before after s s' p keeps back inv = record {
  held = replace-All (Held f) before after s s' p inv.held;
  complete = λ k h. elim (inv.complete k h) [
    | inl seen ↦ inl seen
    | inr h' ↦ replace-Pending (Seen k f) k before after s s' (keeps k) h'
  ];
  sound = inv.sound;
  subset = λ k h. elim (replace-Pending ⊥ k before after s' s (λ i. inr (back k i)) h) [
    | inl z ↦ absurd z
    | inr h' ↦ inv.subset k h'
  ];
}

Seen-exchange : (d k : Delta) (f : Flags) → Seen k f → Seen k (exchange_flag d f)
Seen-exchange d k f (inl e) = inl (error-exchange d f ∙ e)
Seen-exchange d k f (inr h) = inr (flag_of-exchange d k f h)

Inv-exchange :
    (start : List Scanner) (f : Flags) (before after : List Scanner) (d : Delta) (ds : List Delta)
    → Inv start f (before ++ idle (d ∷ ds) ∷ after)
    → Inv start (exchange_flag d f) (before ++ holding d ds ∷ after)
Inv-exchange start f before after d ds inv = record {
  held =
      replace-All (Held (exchange_flag d f)) before after (idle (d ∷ ds)) (holding d ds)
        (flag_of-set d f)
        (All-map (Held f) (Held (exchange_flag d f)) (before ++ idle (d ∷ ds) ∷ after)
          (Held-exchange d f) inv.held);
  complete = λ k h. elim (inv.complete k h) [
    | inl seen ↦ inl (Seen-exchange d k f seen)
    | inr h' ↦
        replace-Pending (Seen k (exchange_flag d f)) k before after (idle (d ∷ ds)) (holding d ds)
          (taken k) h'
  ];
  sound = λ k h. elim (flag_of-origin d k f h) [
    | inl h' ↦ inv.sound k h'
    | inr e ↦ rw e (inv.subset d (middle-Pending d before after (idle (d ∷ ds)) (inl refl)))
  ];
  subset = λ k h.
      elim (replace-Pending ⊥ k before after (holding d ds) (idle (d ∷ ds)) (λ i. inr (inr i)) h) [
        | inl z ↦ absurd z
        | inr h' ↦ inv.subset k h'
      ];
}
  where
    taken : (k : Delta) → In k (d ∷ ds) → Seen k (exchange_flag d f) ⊎ In k ds
    taken k (inl e) = inl (inr (rw e (flag_of-set d f)))
    taken k (inr i) = inr i

Inv-fail :
    (start : List Scanner) (f : Flags) (before after : List Scanner) (ds : List Delta)
    → Inv start f (before ++ idle ds ∷ after)
    → Inv start (record f { error = true }) (before ++ idle [] ∷ after)
Inv-fail start f before after ds inv = record {
  held = replace-All (Held (record f { error = true })) before after (idle ds) (idle []) tt (
      All-map (Held f) (Held (record f { error = true })) (before ++ idle ds ∷ after) same
        inv.held);
  complete = λ k h. inl (inl refl);
  sound = λ k h. inv.sound k (same_flag k h);
  subset = λ k h. elim (replace-Pending ⊥ k before after (idle []) (idle ds) (λ i. absurd i) h) [
    | inl z ↦ absurd z
    | inr h' ↦ inv.subset k h'
  ];
}
  where
    same : (s : Scanner) → Held f s → Held (record f { error = true }) s
    same (idle es) h = tt
    same (holding is_untracked es) h = h
    same (holding is_tracked es) h = h

    same_flag : (k : Delta) → flag_of k (record f { error = true }) ≡ true → flag_of k f ≡ true
    same_flag is_untracked h = h
    same_flag is_tracked h = h

Inv-Step :
    (start : List Scanner) (s t : System)
    → Step s t
    → Inv start s.flags s.scanners
    → Inv start t.flags t.scanners
Inv-Step start s t (exchange f before after d ds e) inv = Inv-exchange start f before after d ds inv
Inv-Step start s t (go_on f before after d ds e) inv =
    Inv-same start f before after (holding d ds) (idle ds) tt (λ k i. inr i) (λ k i. i) inv
Inv-Step start s t (leave f before after d ds e) inv =
    Inv-same start f before after (holding d ds) (idle []) tt
      (λ k i.
        inl (
          inr (load_other-stop d k f (middle-All (Held f) before after (holding d ds) inv.held) e)))
      (λ k i. absurd i) inv
Inv-Step start s t (bail f before after ds e) inv =
    Inv-same start f before after (idle ds) (idle []) tt (λ k i. inl (inl e)) (λ k i. absurd i) inv
Inv-Step start s t (fail f before after ds) inv = Inv-fail start f before after ds inv

Inv-Steps :
    (start : List Scanner) (s t : System)
    → Steps s t
    → Inv start s.flags s.scanners
    → Inv start t.flags t.scanners
Inv-Steps start s t here inv = inv
Inv-Steps start s t (then steps step) inv = Inv-Step start _ t step (Inv-Steps start s _ steps inv)

-- No scan has anything left to do.
abbrev pub Done : List Scanner → Type 0
Done ss = All (λ s. s ≡ idle []) ss

Done-Pending : (k : Delta) (ss : List Scanner) → Done ss → ¬ Pending k ss
Done-Pending k [] h p = p
Done-Pending k (s ∷ ss) h (inl i) = subst (λ x. In k (todo x)) (h.0) i
Done-Pending k (s ∷ ss) h (inr p) = Done-Pending k ss h.1 p

-- Where the scans start between their callbacks, with the two flags as StartDirtyScan finds them.
abbrev pub AllIdle : List Scanner → Type 0
AllIdle ss = All (λ s. s ≡ idle (todo s)) ss

AllIdle-Held : (f : Flags) (ss : List Scanner) → AllIdle ss → All (Held f) ss
AllIdle-Held f [] h = tt
AllIdle-Held f (idle ds ∷ ss) h = (tt, AllIdle-Held f ss h.1)
AllIdle-Held f (holding d ds ∷ ss) h = absurd (holding-ne d ds h.0)

-- In whatever order the steps of the scans come, when all of them have ended and none has failed,
-- the flag for untracked files is set exactly when some scan was to find one, and the flag for
-- unstaged changes exactly when some scan was to find one, although the scans stop early.
pub Steps-flags :
    (f : Flags) (start : List Scanner) (t : System) (k : Delta)
    → f.unstaged ≡ t_false
    → f.untracked ≡ t_false
    → AllIdle start
    → Steps (record { flags = f; scanners = start }) t
    → Done t.scanners
    → t.flags.error ≡ false
    → (flag_of k t.flags ≡ true) ↔ Pending k start
Steps-flags f start t k u v idles steps done fine = (inv.sound k, found)
  where
    clear : (d : Delta) → ¬ (flag_of d f ≡ true)
    clear is_untracked h = true≢false (sym h ∙ ap is_true v)
    clear is_tracked h = true≢false (sym h ∙ ap is_true u)

    inv : Inv start t.flags t.scanners
    inv =
        Inv-Steps start (record { flags = f; scanners = start }) t steps
          (record {
            held = AllIdle-Held f start idles;
            complete = λ d h. inr h;
            sound = λ d h. absurd (clear d h);
            subset = λ d h. h;
          })

    found : Pending k start → flag_of k t.flags ≡ true
    found h = elim (inv.complete k h) [
      | inr p ↦ absurd (Done-Pending k t.scanners done p)
      | inl seen ↦ elim seen [ inl e ↦ absurd (true≢false (sym e ∙ fine)) | inr g ↦ g ]
    ]
