-- ===== src/Daemon/Fields.antt =====
-- What the fields of a response with status are, one for each part of the answer (src/gitstatus.cc).
use gitstatus.Common.{
  Bool, List, Option, [], false, map, none, refl, some, sym, true, ℕ, ◌++◌, ◌∷◌, ◌≡◌,
}
use gitstatus.Common.Int.{pos}
use gitstatus.Common.Outcome.{Ensures, Ensures-ok, >>=-Ensures_eq, on_ok, ok}
use gitstatus.Daemon.{
  Answers, bool_int, count_fields, or_empty, remote_of, status_fields, tribool_int, trim_slash,
  url_of_upstream,
}
use gitstatus.Git.{
  Reference, Remote, count_range, local_branch_name, num_stashes, repo_state, upstream_of,
}
use gitstatus.Index.Scan.{Tribool, t_false, t_true, t_unknown}
use gitstatus.Repo.{IndexStats}
use gitstatus.Response.{Field, int, safe_print, show_int, view}
use gitstatus.Response.Fields.{field_text}
use gitstatus.Text.{Bytes, codes}
use mathlib.Core.Option

abbrev pub bool_text : Bool → Bytes
bool_text true = codes "1"
bool_text false = codes "0"

abbrev pub tribool_text : Tribool → Bytes
tribool_text t_true = codes "1"
tribool_text t_false = codes "0"
tribool_text t_unknown = codes "-1"

-- The number of commits of a range that is named after the upstream, and 0 without one.
abbrev pub CountIs : Answers → (Bytes → Bytes) → Option Reference → Bytes → Type 0
CountIs a range none text = text ≡ codes "0"
CountIs a range (some u) text =
    (n : ℕ) × (count_range (a.revwalk (range u.shorthand)) ≡ ok n) × (text ≡ show_int (pos n))

-- The answers to the queries of one request, in the order in which they are made.
pub record Parts (a : Answers) (size : ℕ) (h : Reference) : Type 0 where
  pub local : Bytes
  pub upstream : Option Reference
  pub remote : Remote
  pub url : Bytes
  pub stats : IndexStats
  pub ahead : Bytes
  pub behind : Bytes
  pub stashes : ℕ
  pub tag : Bytes
  pub local_is : local_branch_name h ≡ ok local
  pub upstream_is : upstream_of a.upstream_rc a.upstream_ref a.upstream_invalid ≡ ok upstream
  pub remote_is : remote_of a upstream ≡ ok remote
  pub url_is : url_of_upstream a upstream ≡ ok url
  pub stats_is : a.index_stats h.target size ≡ ok stats
  pub ahead_is : CountIs a (λ s. s ++ codes "..HEAD") upstream ahead
  pub behind_is : CountIs a (λ s. codes "HEAD.." ++ s) upstream behind
  pub stashes_is : num_stashes a.stash_ok a.stash_calls ≡ ok stashes
  pub tag_is : a.tag_of h.target ≡ ok tag

module _ {a : Answers} {size : ℕ} {h : Reference} where
  -- The fourteen fields behind the 1.
  abbrev pub texts : Parts a size h → List Bytes
  texts p =
      safe_print (trim_slash a.workdir)
      ∷ safe_print (or_empty (Option.map a.oid_hex h.target))
      ∷ safe_print p.local
      ∷ safe_print p.remote.branch
      ∷ safe_print p.remote.name
      ∷ safe_print p.url
      ∷ safe_print (repo_state a.state)
      ∷ bool_text p.stats.has_staged
      ∷ tribool_text p.stats.has_unstaged
      ∷ tribool_text p.stats.has_untracked
      ∷ p.ahead
      ∷ p.behind
      ∷ show_int (pos p.stashes)
      ∷ safe_print p.tag
      ∷ []

bool_text_lem : (b : Bool) → show_int (bool_int b) ≡ bool_text b
unfolding show_int
bool_text_lem true = refl
bool_text_lem false = refl

tribool_text_lem : (t : Tribool) → show_int (tribool_int t) ≡ tribool_text t
unfolding show_int
tribool_text_lem t_true = refl
tribool_text_lem t_false = refl
tribool_text_lem t_unknown = refl

-- The two fields for the counts.
pub record Counted (a : Answers) (u : Option Reference) (c : Field × Field) : Type 0 where
  pub ahead_is : CountIs a (λ s. s ++ codes "..HEAD") u (field_text c.0)
  pub behind_is : CountIs a (λ s. codes "HEAD.." ++ s) u (field_text c.1)

count_fields-Counted :
    (a : Answers) (u : Option Reference) → Ensures (Counted a u) (count_fields a u)
unfolding count_fields safe_print
count_fields-Counted a none = on_ok (record { ahead_is = refl; behind_is = refl })
count_fields-Counted a (some u) =
    >>=-Ensures_eq _ (count_range (a.revwalk (u.shorthand ++ codes "..HEAD"))) _ λ x e.
      >>=-Ensures_eq _ (count_range (a.revwalk (codes "HEAD.." ++ u.shorthand))) _
        λ y f. on_ok (record { ahead_is = (x, e, refl); behind_is = (y, f, refl) })

abbrev Printed : (a : Answers) (size : ℕ) (h : Reference) → List Field → Type 0
Printed a size h fs = (p : Parts a size h) × (map field_text fs ≡ texts p)

-- What is printed are the fields of the answers.
pub status_fields-Parts :
    (a : Answers) (size : ℕ) (h : Reference)
    → Ensures (λ fs. (p : Parts a size h) × (map field_text fs ≡ texts p)) (status_fields a size h)
unfolding status_fields
status_fields-Parts a size h = >>=-Ensures_eq _ (local_branch_name h) _ λ local e1.
    >>=-Ensures_eq _ (upstream_of a.upstream_rc a.upstream_ref a.upstream_invalid) _ λ u e2.
      >>=-Ensures_eq _ (remote_of a u) _ λ remote e3.
        >>=-Ensures_eq _ (url_of_upstream a u) _ λ url e4.
          >>=-Ensures_eq _ (a.index_stats h.target size) _ λ stats e5.
            >>=-Ensures_eq _ (count_fields a u) _ λ c e6.
              >>=-Ensures_eq _ (num_stashes a.stash_ok a.stash_calls) _ λ stashes e7.
                >>=-Ensures_eq _ (a.tag_of h.target) _ λ tag e8.
                  let k =
                    Ensures-ok (Counted a u) (count_fields a u) (count_fields-Counted a u) e6 in
                  on_ok (
                    record {
                      local = local;
                      upstream = u;
                      remote = remote;
                      url = url;
                      stats = stats;
                      ahead = field_text c.0;
                      behind = field_text c.1;
                      stashes = stashes;
                      tag = tag;
                      local_is = e1;
                      upstream_is = e2;
                      remote_is = e3;
                      url_is = e4;
                      stats_is = e5;
                      ahead_is = k.ahead_is;
                      behind_is = k.behind_is;
                      stashes_is = e7;
                      tag_is = e8;
                    },
                    rw (
                      bool_text_lem stats.has_staged,
                      tribool_text_lem stats.has_unstaged,
                      tribool_text_lem stats.has_untracked,
                    ),
                  )

count_fields_of :
    (a : Answers) (u : Option Reference) (x y : Bytes)
    → CountIs a (λ s. s ++ codes "..HEAD") u x
    → CountIs a (λ s. codes "HEAD.." ++ s) u y
    → (c : Field × Field) × (count_fields a u ≡ ok c) × (field_text c.0 ≡ x) × (field_text c.1 ≡ y)
unfolding count_fields safe_print
count_fields_of a none x y h k = (_, refl, sym h, sym k)
count_fields_of a (some u) x y (n, e, t) (m, f, t') =
    ((int (pos n), int (pos m)), rw (e, f), sym t, sym t')

abbrev fields_of :
    {a : Answers} {size : ℕ} {h : Reference} → Parts a size h → Field × Field → List Field
fields_of {a} {h = h} p c =
    view (trim_slash a.workdir)
    ∷ view (or_empty (Option.map a.oid_hex h.target))
    ∷ view p.local
    ∷ view p.remote.branch
    ∷ view p.remote.name
    ∷ view p.url
    ∷ view (repo_state a.state)
    ∷ int (bool_int p.stats.has_staged)
    ∷ int (tribool_int p.stats.has_unstaged)
    ∷ int (tribool_int p.stats.has_untracked)
    ∷ c.0
    ∷ c.1
    ∷ int (pos p.stashes)
    ∷ view p.tag
    ∷ []

-- And whenever there are all the answers, they are printed.
pub Parts-status_fields :
    (a : Answers) (size : ℕ) (h : Reference) (p : Parts a size h)
    → (fs : List Field) × (status_fields a size h ≡ ok fs) × (map field_text fs ≡ texts p)
unfolding status_fields
Parts-status_fields a size h p =
    let (c, e, x, y) = count_fields_of a p.upstream p.ahead p.behind p.ahead_is p.behind_is in
    (
      fields_of p c,
      rw (p.local_is, p.upstream_is, p.remote_is, p.url_is, p.stats_is, e, p.stashes_is, p.tag_is),
      rw (
        x,
        y,
        bool_text_lem p.stats.has_staged,
        tribool_text_lem p.stats.has_unstaged,
        tribool_text_lem p.stats.has_untracked,
      ),
    )
