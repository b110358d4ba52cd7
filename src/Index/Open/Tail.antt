-- ===== src/Index/Open/Tail.antt =====
-- The directories that OpenTail of src/index.cc opens.
-- A path with its slash, and the directory that it is in.
use gitstatus.Common.{
  Bool, true, length-append, none, take, ◌+◌, ◌≤◌, length, ap, suc, zero, ℕ, arith, List, Option,
  Option-cases, [], inl, inr, refl, some, sym, ◌++◌, ◌∙◌, ◌∷◌, ◌≡◌, ◌≢◌,
}
use gitstatus.Index.Open.Ancestors.{behind-IsName, lineage-first, without_slash, nonempty_behind}
use gitstatus.Index.Open.Lineage.{
  IsName, StackHolds, pad-StackHolds, IsLineage, AreOpen, IsChild, IsSound, snoc-injective,
}
use gitstatus.Common.Outcome.{Outcome, ok}
use gitstatus.Index.Open.Close.{close_fds-ok}
use gitstatus.Index.Open.{
  open_until, open_names, no_fds, open_tail, pad, split_tail, head_or, open_chain,
}
use gitstatus.Text.Find.{find_last, drop-append, find_last-Lacks, find_last-cut, take-append, Lacks}
use mathlib.Core.Option.{some-injective}
use mathlib.Core.Path.{subst}
use gitstatus.Text.{Bytes, codes}
use mathlib.Core.List.{append_assoc}

record Cut (s q name : Bytes) : Type 0 where
  whole : s ≡ q ++ name
  lacks : Lacks b'/' name
  full : IsName name

child-Cut : (s q name : Bytes) → IsChild q (s ++ b'/' ∷ []) name → Cut s q name
child-Cut s q name (e, l, n) = record {
  whole = snoc-injective s (q ++ name) b'/' b'/' e;
  lacks = l;
  full = n;
}

Cut-IsName : (s q name : Bytes) → Cut s q name → IsName s
Cut-IsName s q name cut = subst IsName (sym cut.whole) (behind-IsName q name cut.full)

split_tail-zero : (s : Bytes) → split_tail zero s ≡ s ∷ []
unfolding split_tail
split_tail-zero s = refl

split_tail-Lacks : (k : ℕ) (s : Bytes) → Lacks b'/' s → split_tail (suc k) s ≡ s ∷ codes "." ∷ []
unfolding split_tail
split_tail-Lacks k s l = rw (find_last-Lacks s (length s) b'/' l)

split_tail-cut :
    (k : ℕ) (s name : Bytes)
    → s ≢ []
    → Lacks b'/' name
    → split_tail (suc k) (s ++ b'/' ∷ name) ≡ name ∷ split_tail k s
unfolding split_tail
split_tail-cut k [] name h l = absurd (h refl)
split_tail-cut k (c ∷ s) name h l =
    rw
      (
        find_last-cut (c ∷ s) b'/' name l,
        take-append (c ∷ s) (b'/' ∷ name),
        drop-append (c ∷ s) b'/' name,
      )
      (ground arith)

module _ {H : Type 0} (Refers : Bytes → H → Type 0) (root : H)
    (open_dir : H → Bytes → Option H) where
  -- A chain that opens has opened its first name from the chain behind it.
  open_chain-some :
      (x : Bytes) (subs : List Bytes) (hs : List H)
      → open_chain open_dir root (x ∷ subs) ≡ some hs
      → (hs' : List H) × (h : H) × (open_chain open_dir root subs ≡ some hs')
        × (open_dir (head_or root hs') x ≡ some h)
        × (h ∷ hs' ≡ hs)
  unfolding open_chain
  open_chain-some x subs hs e = elim (Option-cases (open_chain open_dir root subs)) [
    | inl f ↦ ground arith
    | inr (hs', f) ↦ elim (Option-cases (open_dir (head_or root hs') x)) [
      | inl g ↦ ground arith
      | inr (h, g) ↦ (hs', h, f, g, some-injective (h ∷ hs') hs (ground arith))
    ]
  ]

  -- The names behind the first lead to the directories above s, and from there the first to s.
  abbrev pub Leads : Bytes → List Bytes → List Bytes → Type 0
  Leads s ps [] = ⊥
  Leads s ps (x ∷ subs) =
      (hs : List H)
      → open_chain open_dir root subs ≡ some hs
      → AreOpen Refers ps hs
        × ((h : H) → open_dir (head_or root hs) x ≡ some h → Refers (s ++ b'/' ∷ []) h)

  module _ (sound : IsSound Refers open_dir) (at_root : Refers [] root) where
    -- No place is left: the whole rest is opened from the root.
    whole-Leads : (s : Bytes) (ps : List Bytes) → IsName s → Leads s ps (s ∷ [])
    unfolding open_chain
    whole-Leads s ps n [] e = (tt, λ h o. sound.named [] s root h at_root n o)
    whole-Leads s ps n (h ∷ hs) e = cc

    -- A name in the root, with the root's own descriptor behind it.
    dot-Leads : (s : Bytes) → IsName s → Leads s ([] ∷ []) (s ∷ codes "." ∷ [])
    unfolding open_chain
    dot-Leads s n hs e = elim (Option-cases (open_dir root (codes "."))) [
      | inl f ↦ cc
      | inr (h, f) ↦
          subst
            (λ l.
              AreOpen Refers ([] ∷ []) l
              × ((h' : H) → open_dir (head_or root l) s ≡ some h' → Refers (s ++ b'/' ∷ []) h'))
            (some-injective (h ∷ []) hs (ground arith))
            (
              (sound.dot [] root h at_root f, tt),
              λ h' o. sound.named [] s h h' (sound.dot [] root h at_root f) n o,
            )
    ]

    -- A name in a directory, with the chain to that directory behind it.
    name-Leads :
        (s q' name : Bytes) (ps subs : List Bytes)
        → Cut s (q' ++ b'/' ∷ []) name
        → Leads q' ps subs
        → Leads s ((q' ++ b'/' ∷ []) ∷ ps) (name ∷ subs)
    name-Leads s q' name ps [] cut lead = absurd lead
    name-Leads s q' name ps (x ∷ subs) cut lead = λ hs e.
        let c = open_chain-some x subs hs e in
        let l = lead c.0 c.2 in
        let r = l.1 c.1 c.3 in
        subst
          (λ z.
            AreOpen Refers ((q' ++ b'/' ∷ []) ∷ ps) z
            × ((h' : H) → open_dir (head_or root z) name ≡ some h' → Refers (s ++ b'/' ∷ []) h'))
          c.4
          (
            (r, l.0),
            λ h' o.
                subst (λ z. Refers z h') (ap (λ z. z ++ b'/' ∷ []) (sym cut.whole))
                  (sound.named (q' ++ b'/' ∷ []) name c.1 h' r cut.full o),
          )

    -- The names of the tail of a path, for any number of places.
    pub split_tail-Leads :
        (k : ℕ) (s : Bytes) (ps : List Bytes)
        → IsLineage ((s ++ b'/' ∷ []) ∷ ps)
        → Leads s ps (split_tail k s)
    split_tail-Leads k s [] l = absurd (nonempty_behind s (b'/' ∷ []) (λ e. cc) l)
    split_tail-Leads zero s (q ∷ ps) l =
        subst (Leads s (q ∷ ps)) (sym (split_tail-zero s))
          (whole-Leads s (q ∷ ps) (Cut-IsName s q l.0.0 (child-Cut s q l.0.0 l.0.1)))
    split_tail-Leads (suc k) s (q ∷ []) l =
        let cut = child-Cut s q l.0.0 l.0.1 in
        let whole = cut.whole ∙ ap (λ z. z ++ l.0.0) l.1 in
        let lacks = subst (Lacks b'/') (sym whole) cut.lacks in
        subst (Leads s (q ∷ [])) (sym (split_tail-Lacks k s lacks)) (
          subst (λ z. Leads s (z ∷ []) (s ∷ codes "." ∷ [])) (sym l.1)
            (dot-Leads s (Cut-IsName s q l.0.0 cut)))
    split_tail-Leads (suc k) s (q ∷ q2 ∷ ps) l =
        let cut = child-Cut s q l.0.0 l.0.1 in
        let up = q2 ++ l.1.0.0 in
        let over = subst (λ z. Cut s z l.0.0) l.1.0.1.0 cut in
        let lead =
          split_tail-Leads k up (q2 ∷ ps) ((l.1.0.0, (refl, l.1.0.1.1, l.1.0.1.2)), l.1.1) in
        let split =
          split_tail-cut k up l.0.0 (nonempty_behind q2 l.1.0.0 l.1.0.1.2.full) cut.lacks in
        subst (Leads s (q ∷ q2 ∷ ps))
          (sym (ap (split_tail (suc k)) (over.whole ∙ append_assoc up (b'/' ∷ []) l.0.0) ∙ split))
          (subst (λ z. Leads s (z ∷ q2 ∷ ps) (l.0.0 ∷ split_tail k up)) (sym l.1.0.1.0)
            (name-Leads s up l.0.0 (q2 ∷ ps) (split_tail k up) over lead))

length-split_tail : (k : ℕ) (s : Bytes) → length (split_tail k s) ≤ k + 1
unfolding split_tail
length-split_tail zero s = omega arith
length-split_tail (suc k) s =
    ground (arith, length-split_tail k (take (find_last s (length s) b'/') s))

pad-nil : {H : Type 0} (n : ℕ) → pad {H = H} n [] ≡ no_fds n
pad-nil zero = refl
pad-nil (suc n) = ap (◌∷◌ none) (pad-nil n)

length-pad : {H : Type 0} (n : ℕ) (hs : List H) → length (pad n hs) ≡ n
length-pad zero hs = refl
length-pad (suc n) [] = ap suc (length-pad n [])
length-pad (suc n) (h ∷ hs) = ap suc (length-pad n hs)

module _ {H : Type 0} (Refers : Bytes → H → Type 0) (root : H) (open_dir : H → Bytes → Option H)
    {close_ok : H → Bool} (closes : (h : H) → close_ok h ≡ true) (sound : IsSound Refers open_dir)
    (at_root : Refers [] root) where
  abbrev pub StandsBehind : ℕ → List Bytes → Outcome (List (Option H)) → Type 0
  StandsBehind n ps m =
      (fds : List (Option H)) × (m ≡ ok fds) × StackHolds Refers ps fds × (length fds ≡ n)

  open_names-holds :
      (n : ℕ) (s : Bytes) (ps : List Bytes) (names : List Bytes)
      → length names ≤ n + 1
      → Leads Refers root open_dir s ps names
      → StandsBehind n ps (open_names close_ok n open_dir root names)
  open_names-holds n s ps [] k lead = absurd lead
  open_names-holds n s ps (x ∷ subs) k lead = elim (Option-cases (open_chain open_dir root subs)) [
    | inl f ↦ (
      pad n [],
      ground (arith, f, k, close_fds-ok closes (open_until open_dir root subs), pad-nil {H = H} n),
      pad-StackHolds Refers n ps [] tt,
      length-pad n [],
    )
    | inr (hs, f) ↦
        (pad n hs, ground (arith, f), pad-StackHolds Refers n ps hs (lead hs f).0, length-pad n hs)
  ]

  -- The tests of OpenTail hold for the path of a directory.
  open_tail-names :
      (n : ℕ) (s : Bytes) (c : ℕ) (t : Bytes)
      → c ∷ t ≡ s ++ b'/' ∷ []
      → c ≢ b'/'
      → s ≢ []
      → open_tail close_ok n open_dir root (c ∷ t)
        ≡ open_names close_ok n open_dir root (split_tail n s)
  unfolding open_tail
  open_tail-names n [] c t e f g = absurd (g refl)
  open_tail-names n (d ∷ s) c t e f g =
      let bare = without_slash (c ∷ t) (d ∷ s) (length t) e refl in
      subst
        (λ z.
          open_tail close_ok n open_dir root (c ∷ t)
          ≡ open_names close_ok n open_dir root (split_tail n z))
        bare.1 (ground (arith, bare.0, ap (λ z. length z) e, length-append (d ∷ s) (b'/' ∷ [])))

  pub open_tail-holds :
      (n : ℕ) (s p q : Bytes) (ps : List Bytes)
      → p ≡ s ++ b'/' ∷ []
      → IsLineage (p ∷ q ∷ ps)
      → StandsBehind n (q ∷ ps) (open_tail close_ok n open_dir root p)
  open_tail-holds n s [] q ps e l = absurd (nonempty_behind s (b'/' ∷ []) (λ f. cc) (sym e))
  open_tail-holds n s (c ∷ t) q ps e l =
      let here = subst (λ z. IsLineage (z ∷ q ∷ ps)) e l in
      let full = (Cut-IsName s q here.0.0 (child-Cut s q here.0.0 here.0.1)).full in
      subst (StandsBehind n (q ∷ ps))
        (sym (open_tail-names n s c t e (lineage-first (c ∷ t) (q ∷ ps) c t l refl) full))
        (open_names-holds n s (q ∷ ps) (split_tail n s) (length-split_tail n s)
          (split_tail-Leads Refers root open_dir sound at_root n s (q ∷ ps) here))
