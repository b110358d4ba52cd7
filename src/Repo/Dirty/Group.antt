-- ===== src/Repo/Dirty/Group.antt =====
-- The groups of candidates in `StartDirtyScan` of src/repo.cc.
use gitstatus.Common.{
  In, In-right, sym, suc, zero, ℕ, ◌∙◌, All, Bool, Bool-cases, List, Option, [], ap, arith, false,
  inl, inr, length, refl, some, ◌++◌, ◌∷◌, ◌≡◌, ◌≤◌,
}
use mathlib.Core.Path.{subst}
use mathlib.Core.Option
use gitstatus.Repo.Dirty.{
  dirty_diffs, last_or, seek, start_dirty_scan, Diff, is_outside, same_shard, span_shard,
}
use gitstatus.Repo.Dirty.Seek.{Finds, seek_cases, InGap}
use gitstatus.Text.Compare.{str_lt-nil, not_lt_trans}
use gitstatus.Repo.Shards.{Shard}
use gitstatus.Repo.Shards.Chain.{IsChain}
use gitstatus.Text.{Bytes, str_lt}

-- The paths ascend, from `b` on.
abbrev pub SortedFrom : Bool → Bytes → List Bytes → Type 0
SortedFrom cs b [] = Unit
SortedFrom cs b (p ∷ ps) = (str_lt cs p b ≡ false) × SortedFrom cs p ps

SortedFrom-mono :
    (cs : Bool) (a b : Bytes) (ps : List Bytes)
    → str_lt cs b a ≡ false
    → SortedFrom cs b ps
    → SortedFrom cs a ps
SortedFrom-mono cs a b [] h s = tt
SortedFrom-mono cs a b (p ∷ ps) h s = (not_lt_trans cs a b p h s.0, s.1)

-- All paths of the call lie in one of the shards.
abbrev pub InOneShard : Bool → List Shard → Diff → Type 0
InOneShard cs shards d = (s : Shard) × In s shards × All (λ p. is_outside cs p s ≡ false) d.pathspec

InOneShard-behind :
    (cs : Bool) (xs r : List Shard) (ds : List Diff)
    → All (InOneShard cs r) ds
    → All (InOneShard cs (xs ++ r)) ds
InOneShard-behind cs xs r [] h = tt
InOneShard-behind cs xs r (d ∷ ds) h =
    ((h.0.0, In-right h.0.0 xs r h.0.1, h.0.2), InOneShard-behind cs xs r ds h.1)

InGap-behind : (cs : Bool) (p : Bytes) (xs r : List Shard) → InGap cs p r → InGap cs p (xs ++ r)
InGap-behind cs p [] r g = g
InGap-behind cs p (x ∷ []) [] g = absurd g
InGap-behind cs p (x ∷ []) (t ∷ r) g = inr g
InGap-behind cs p (x ∷ y ∷ xs) r g = inr (InGap-behind cs p (y ∷ xs) r g)

IsChain-behind :
    (cs : Bool) (xs : List Shard) (s : Shard) (r : List Shard)
    → IsChain cs (xs ++ s ∷ r)
    → IsChain cs (s ∷ r)
IsChain-behind cs [] s r c = c
IsChain-behind cs (x ∷ []) s r c = c.2
IsChain-behind cs (x ∷ y ∷ xs) s r c = IsChain-behind cs (y ∷ xs) s r c.2

NoGap : Bool → List Shard → List Bytes → Type 0
NoGap cs shards ps = All (λ p. ¬ InGap cs p shards) ps

abbrev pub pathspecs : List Diff → List Bytes
pathspecs [] = []
pathspecs (d ∷ ds) = d.pathspec ++ pathspecs ds

-- What `span_shard` gives, for the paths behind `p`.
record Spans (P : Bytes → Type 0) (cs : Bool) (s : Shard) (p : Bytes) (ps : List Bytes)
    : Type 0 where
  joins : (span_shard cs s ps).0 ++ (span_shard cs s ps).1 ≡ ps
  inside : All (λ q. is_outside cs q s ≡ false) (span_shard cs s ps).0
  sorted : SortedFrom cs p (span_shard cs s ps).1
  shorter : length (span_shard cs s ps).1 ≤ length ps
  still : All P (span_shard cs s ps).1

span_shard-Spans :
    (P : Bytes → Type 0) (cs : Bool) (s : Shard) (p : Bytes) (ps : List Bytes)
    → str_lt cs p s.start ≡ false
    → SortedFrom cs p ps
    → All P ps
    → Spans P cs s p ps
unfolding span_shard
span_shard-Spans P cs s p [] b o a = record {
  joins = refl;
  inside = tt;
  sorted = tt;
  shorter = omega arith;
  still = a;
}
span_shard-Spans P cs s p (q ∷ qs) b o a = elim (Bool-cases (same_shard cs s q)) [
  | inr e ↦ record {
    joins = rw (e, span_shard);
    inside = rw (e, span_shard) tt;
    sorted = rw (e, span_shard) o;
    shorter = rw (e, span_shard) (omega arith);
    still = rw (e, span_shard) a;
  }
  | inl e ↦
      let b' = not_lt_trans cs s.start p q b o.0 in
      let rest = span_shard-Spans P cs s q qs b' o.1 a.1 in
      record {
        joins = rw (e, span_shard) (ap (◌∷◌ q) rest.joins);
        inside = rw (e, span_shard) (unfold is_outside same_shard in ground arith, rest.inside);
        sorted = rw (e, span_shard) (SortedFrom-mono cs p q _ o.0 rest.sorted);
        shorter = rw (e, span_shard) (omega (arith, rest.shorter));
        still = rw (e, span_shard) rest.still;
      }
]

-- The scan succeeds, hands over the candidates, and keeps to the shards.
pub record Covers (cs : Bool) (shards : List Shard) (ps : List Bytes) (result : Option (List Diff))
    : Type 0 where
  pub diffs : List Diff
  pub result_is : result ≡ some diffs
  pub all_paths : pathspecs diffs ≡ ps
  pub one_shard : All (InOneShard cs shards) diffs

outside-start :
    (cs : Bool) (p : Bytes) (s : Shard) → is_outside cs p s ≡ false → str_lt cs p s.start ≡ false
unfolding is_outside
outside-start cs p s h = ground arith

dirty_diffs-found :
    (cs : Bool) (fuel : ℕ) (shards : List Shard) (p : Bytes) (ps : List Bytes) (s : Shard)
    (r : List Shard)
    → seek cs p shards ≡ some (s ∷ r)
    → dirty_diffs cs (suc fuel) shards (p ∷ ps)
      ≡ Option.map
          (◌∷◌ (record {
            range_start = p;
            range_end = last_or p (span_shard cs s ps).0;
            pathspec = p ∷ (span_shard cs s ps).0;
          }))
          (dirty_diffs cs fuel (s ∷ r) (span_shard cs s ps).1)
unfolding dirty_diffs
dirty_diffs-found cs fuel shards p ps s r e = rw (e, dirty_diffs)

-- One round, given the theorem for the rounds that follow.
dirty_diffs-Covers_found :
    (cs : Bool) (fuel : ℕ) (s : Shard) (r : List Shard) (p : Bytes) (ps : List Bytes)
    (f : Finds cs p (s ∷ r))
    → length ps ≤ fuel
    → IsChain cs (s ∷ r)
    → SortedFrom cs p ps
    → NoGap cs (s ∷ r) (p ∷ ps)
    → ((b : Bytes) (rest : List Bytes)
        → length rest ≤ fuel
        → IsChain cs (f.shard ∷ f.behind)
        → str_lt cs b f.shard.start ≡ false
        → SortedFrom cs b rest
        → NoGap cs (f.shard ∷ f.behind) rest
        → Covers cs (f.shard ∷ f.behind) rest (dirty_diffs cs fuel (f.shard ∷ f.behind) rest))
    → Covers cs (s ∷ r) (p ∷ ps) (dirty_diffs cs (suc fuel) (s ∷ r) (p ∷ ps))
unfolding NoGap
dirty_diffs-Covers_found cs fuel s r p ps f l c o g later = record {
  diffs = diff ∷ rest.diffs;
  result_is =
      dirty_diffs-found cs fuel (s ∷ r) p ps f.shard f.behind f.found
      ∙ ap (Option.map (◌∷◌ diff)) rest.result_is;
  all_paths = ap (◌∷◌ p) (ap (◌++◌ group) rest.all_paths ∙ span.joins);
  one_shard = (
    (
      f.shard,
      subst (In f.shard) (sym f.splits)
          (In-right f.shard f.skipped (f.shard ∷ f.behind) (inl refl)),
      (f.inside, span.inside),
    ),
    subst (λ x. All (InOneShard cs x) rest.diffs) (sym f.splits)
        (InOneShard-behind cs f.skipped (f.shard ∷ f.behind) rest.diffs rest.one_shard),
  );
}
  where
    span : Spans (λ q. ¬ InGap cs q (s ∷ r)) cs f.shard p ps
    span = span_shard-Spans _ cs f.shard p ps (outside-start cs p f.shard f.inside) o g.1

    group : List Bytes
    group = (span_shard cs f.shard ps).0

    diff : Diff
    diff = record { range_start = p; range_end = last_or p group; pathspec = p ∷ group }

    no_gap :
        (qs : List Bytes)
        → All (λ q. ¬ InGap cs q (s ∷ r)) qs
        → All (λ q. ¬ InGap cs q (f.shard ∷ f.behind)) qs
    no_gap [] a = tt
    no_gap (q ∷ qs) a = (
      λ h.
          a.0 (
            subst (InGap cs q) (sym f.splits) (InGap-behind cs q f.skipped (f.shard ∷ f.behind) h)),
      no_gap qs a.1,
    )

    rest :
        Covers cs
          (f.shard ∷ f.behind)
          (span_shard cs f.shard ps).1
          (dirty_diffs cs fuel (f.shard ∷ f.behind) (span_shard cs f.shard ps).1)
    rest =
        later p (span_shard cs f.shard ps).1 (omega (arith, span.shorter))
          (IsChain-behind cs f.skipped f.shard f.behind (subst (IsChain cs) f.splits c))
          (outside-start cs p f.shard f.inside) span.sorted (no_gap _ span.still)

dirty_diffs-Covers :
    (cs : Bool) (fuel : ℕ) (s : Shard) (r : List Shard) (b : Bytes) (ps : List Bytes)
    → length ps ≤ fuel
    → IsChain cs (s ∷ r)
    → str_lt cs b s.start ≡ false
    → SortedFrom cs b ps
    → NoGap cs (s ∷ r) ps
    → Covers cs (s ∷ r) ps (dirty_diffs cs fuel (s ∷ r) ps)
unfolding NoGap
dirty_diffs-Covers cs zero s r b [] l c h o g = record {
  diffs = [];
  result_is = unfold dirty_diffs in refl;
  all_paths = refl;
  one_shard = tt;
}
dirty_diffs-Covers cs zero s r b (p ∷ ps) l c h o g = absurd (omega arith)
dirty_diffs-Covers cs (suc fuel) s r b [] l c h o g = record {
  diffs = [];
  result_is = unfold dirty_diffs in refl;
  all_paths = refl;
  one_shard = tt;
}
dirty_diffs-Covers cs (suc fuel) s r b (p ∷ ps) l c h o g =
    elim (seek_cases cs p s r c (not_lt_trans cs s.start b p h o.0)) [
      | inl gap ↦ absurd (g.0 gap.0)
      | inr f ↦
          dirty_diffs-Covers_found cs fuel s r p ps f (omega arith) c o.1 g
            (λ b' rest. dirty_diffs-Covers cs fuel f.shard f.behind b' rest)
    ]

-- For sorted candidates none of which lies in a gap between two shards, the scan never runs off the
-- end of the shards, hands every candidate to git exactly once and in order, and each call gets
-- candidates of one shard only.
pub start_dirty_scan-Covers :
    (cs : Bool) (s : Shard) (r : List Shard) (ps : List Bytes)
    → IsChain cs (s ∷ r)
    → s.start ≡ []
    → SortedFrom cs [] ps
    → All (λ p. ¬ InGap cs p (s ∷ r)) ps
    → Covers cs (s ∷ r) ps (start_dirty_scan cs (s ∷ r) ps)
unfolding start_dirty_scan NoGap
start_dirty_scan-Covers cs s r ps c e o g =
    dirty_diffs-Covers cs (length ps) s r [] ps (omega arith) c (rw e (str_lt-nil cs [])) o g
