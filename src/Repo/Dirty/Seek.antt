-- ===== src/Repo/Dirty/Seek.antt =====
-- The search for the shard of a path in `StartDirtyScan` of src/repo.cc.
use mathlib.Core.Bool.{true≢false}
use gitstatus.Common.{
  Bool-cases, ap, arith, inl, inr, none, refl, some, sym, ◌++◌, ◌∙◌, ◌≢◌, Bool, List, [], false,
  true, ◌∷◌, ◌≡◌, ◌⊎◌,
}
use gitstatus.Repo.Dirty.{is_outside, seek}
use gitstatus.Repo.Shards.{is_empty}
use gitstatus.Repo.Shards.{dec_back, Shard}
use gitstatus.Repo.Shards.Chain.{dec_back-slash, str_lt-dot_append, str_lt-dot_slash, IsChain}
use gitstatus.Text.Compare.{str_lt-nil, str_lt_asymm, str_lt_trans}
use gitstatus.Text.{Bytes, str_lt}

-- Paths between the end of a shard and the start of the next lie in no shard.
abbrev pub InGap : Bool → Bytes → List Shard → Type 0
InGap cs p [] = ⊥
InGap cs p (s ∷ []) = ⊥
InGap cs p (s ∷ t ∷ r) =
    ((str_lt cs s.end p ≡ true) × (str_lt cs p t.start ≡ true)) ⊎ InGap cs p (t ∷ r)

nonempty_of_lt : (cs : Bool) (x y : Bytes) → str_lt cs x y ≡ true → is_empty y ≡ false
nonempty_of_lt cs x [] h = cc (str_lt-nil cs x)
nonempty_of_lt cs x (b ∷ y) h = refl

-- A path before the start of the first of these shards is in none of them.
seek_before :
    (cs : Bool) (p : Bytes) (s : Shard) (r : List Shard)
    → IsChain cs (s ∷ r)
    → str_lt cs p s.start ≡ true
    → seek cs p (s ∷ r) ≡ none
unfolding seek is_outside
seek_before cs p s [] c h = ground arith
seek_before cs p s (t ∷ r) c h = ground (
  arith,
  seek_before cs p t r c.2
      (str_lt_trans cs p s.start t.start h (str_lt_trans cs s.start s.end t.start c.0 c.1)),
)

InGap-lt :
    (cs : Bool) (p : Bytes) (s : Shard) (r : List Shard)
    → IsChain cs (s ∷ r)
    → InGap cs p (s ∷ r)
    → str_lt cs s.end p ≡ true
InGap-lt cs p s [] c g = absurd g
InGap-lt cs p s (t ∷ r) c (inl g) = g.0
InGap-lt cs p s (t ∷ []) c (inr g) = absurd g
InGap-lt cs p s (t ∷ u ∷ r) c (inr g) =
    str_lt_trans cs s.end t.start p c.1
      (str_lt_trans cs t.start t.end p c.2.0 (InGap-lt cs p t (u ∷ r) c.2 g))

seek-inside :
    (cs : Bool) (p : Bytes) (s : Shard) (r : List Shard)
    → is_outside cs p s ≡ false
    → seek cs p (s ∷ r) ≡ some (s ∷ r)
unfolding seek
seek-inside cs p s r e = rw (e, seek)

seek-outside :
    (cs : Bool) (p : Bytes) (s : Shard) (r : List Shard)
    → is_outside cs p s ≡ true
    → seek cs p (s ∷ r) ≡ seek cs p r
unfolding seek
seek-outside cs p s r e = rw (e, seek)

seek-gap :
    (cs : Bool) (p : Bytes) (s : Shard) (r : List Shard)
    → IsChain cs (s ∷ r)
    → str_lt cs p s.start ≡ false
    → InGap cs p (s ∷ r)
    → seek cs p (s ∷ r) ≡ none
unfolding is_outside
seek-gap cs p s [] c b g = absurd g
seek-gap cs p s (t ∷ r) c b g =
    seek-outside cs p s (t ∷ r)
      (ground (arith, InGap-lt cs p s (t ∷ r) c g, nonempty_of_lt cs s.start s.end c.0))
    ∙ elim (Bool-cases (str_lt cs p t.start)) [
      | inl lt ↦ seek_before cs p t r c.2 lt
      | inr ge ↦ elim g [
        | inl h ↦ absurd (true≢false (sym h.1 ∙ ge))
        | inr h ↦ seek-gap cs p t r c.2 ge h
      ]
    ]

-- The shard that the search finds: what it skipped, and that the path lies in it.
pub record Finds (cs : Bool) (p : Bytes) (shards : List Shard) : Type 0 where
  pub skipped : List Shard
  pub shard : Shard
  pub behind : List Shard
  pub splits : shards ≡ skipped ++ shard ∷ behind
  pub found : seek cs p shards ≡ some (shard ∷ behind)
  pub inside : is_outside cs p shard ≡ false

seek-Finds :
    (cs : Bool) (p : Bytes) (s : Shard) (r : List Shard)
    → IsChain cs (s ∷ r)
    → str_lt cs p s.start ≡ false
    → InGap cs p (s ∷ r) ⊎ Finds cs p (s ∷ r)
unfolding is_outside
seek-Finds cs p s [] c b =
    let e : is_outside cs p s ≡ false = ground arith in
    inr (record {
      skipped = [];
      shard = s;
      behind = [];
      splits = refl;
      found = seek-inside cs p s [] e;
      inside = e;
    })
seek-Finds cs p s (t ∷ r) c b = elim (Bool-cases (is_outside cs p s)) [
  | inr e ↦ inr (record {
    skipped = [];
    shard = s;
    behind = t ∷ r;
    splits = refl;
    found = seek-inside cs p s (t ∷ r) e;
    inside = e;
  })
  | inl e ↦ elim (Bool-cases (str_lt cs p t.start)) [
    | inl lt ↦ inl (inl (ground arith, lt))
    | inr ge ↦ elim (seek-Finds cs p t r c.2 ge) [
      | inl g ↦ inl (inr g)
      | inr f ↦ inr (record {
        skipped = s ∷ f.skipped;
        shard = f.shard;
        behind = f.behind;
        splits = ap (◌∷◌ s) f.splits;
        found = seek-outside cs p s (t ∷ r) e ∙ f.found;
        inside = f.inside;
      })
    ]
  ]
]

-- The search for the shard of a path that is not before the first shard either finds a shard that
-- the path lies in, or the path lies in the gap between two shards and the search runs off the end.
pub seek_cases :
    (cs : Bool) (p : Bytes) (s : Shard) (r : List Shard)
    → IsChain cs (s ∷ r)
    → str_lt cs p s.start ≡ false
    → (InGap cs p (s ∷ r) × (seek cs p (s ∷ r) ≡ none)) ⊎ Finds cs p (s ∷ r)
seek_cases cs p s r c b = elim (seek-Finds cs p s r c b) [
  | inl g ↦ inl (g, seek-gap cs p s r c b g)
  | inr f ↦ inr f
]

-- Where two neighbouring shards are cut at the directory `d/`, every path `d.x` lies in the gap
-- between them, and the search for its shard runs off the end of the list.
pub seek_dotted :
    (cs : Bool) (d x : Bytes) (s t : Shard) (r : List Shard)
    → IsChain cs (s ∷ t ∷ r)
    → t.start ≡ d ++ b'/' ∷ []
    → s.end ≡ dec_back t.start
    → x ≢ []
    → seek cs (d ++ b'.' ∷ x) (s ∷ t ∷ r) ≡ none
seek_dotted cs d x s t r c dir cut h =
    seek-gap cs (d ++ b'.' ∷ x) s (t ∷ r) c
      (str_lt_asymm cs s.start (d ++ b'.' ∷ x) (str_lt_trans cs s.start s.end _ c.0 after))
      (inl (after, rw dir (str_lt-dot_slash cs d x)))
  where
    after : str_lt cs s.end (d ++ b'.' ∷ x) ≡ true
    after = rw (cut, dir, dec_back-slash d) (str_lt-dot_append cs d x h)
