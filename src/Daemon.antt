-- ===== src/Daemon.antt =====
-- src/gitstatus.cc: one request, and the loop over the requests.
-- The answers of libgit2 to one request are the fields of `Answers`, taken up by the functions of
-- `Git`; those of the repository's own scans are arguments too (see `Repo`).
pub mod Fields
pub mod Once
pub mod Serve
use mathlib.Core.Option
use gitstatus.Common.{
  Bool, List, Option, [], false, if◌then◌else◌, length, ltb, none, some, take, true, ℕ, ◌&&◌, ◌++◌,
  ◌-◌, ◌==◌, ◌∷◌,
}
use gitstatus.Common.Int.{negsuc, pos, ℤ}
use gitstatus.Common.Outcome.{Outcome, aborts, exits, ok, throws, ◌>>=◌, ◌>>◌}
use gitstatus.Git.{
  Rc, Reference, Remote, RepositoryState, Revwalk, char_is, count_range, get_remote, head_of,
  local_branch_name, no_remote, num_stashes, remote_url, repo_state, upstream_of,
}
use gitstatus.Index.Scan.{Tribool, t_false, t_true, t_unknown}
use gitstatus.Repo.{IndexStats}
use gitstatus.Response.{Field, Writer, destroy, dump, int, new_writer, prints, view}
use gitstatus.Text.{Bytes, codes}

pub record Answers : Type 0 where
  pub head_rc : Rc
  pub head_ref : Reference
  pub head_resolved : Option Reference
  -- Repo::GetTagName, awaited
  pub tag_of : Option Bytes → Outcome Bytes
  -- git_repository_workdir
  pub workdir : Bytes
  -- git_oid_tostr_s
  pub oid_hex : Bytes → Bytes
  pub upstream_rc : Rc
  pub upstream_ref : Reference
  pub upstream_invalid : Bool
  -- git_branch_name, git_branch_remote_name, git_remote_lookup, git_remote_url
  pub branch_name : Reference → Option Bytes
  pub remote_name : Reference → Option Bytes
  pub remote_rc : Bytes → Rc
  pub url_of : Bytes → Option Bytes
  pub state : RepositoryState
  -- Repo::GetIndexStats
  pub index_stats : Option Bytes → ℕ → Outcome IndexStats
  pub revwalk : Bytes → Revwalk
  pub stash_ok : Bool
  pub stash_calls : ℕ

-- if (workdir.len > 1 && workdir.ptr[workdir.len - 1] == '/') --workdir.len;
unfoldable pub trim_slash : Bytes → Bytes
trim_slash s =
    if ltb 1 (length s) && char_is s (length s - 1) b'/' then take (length s - 1) s else s

-- static_cast<int>
abbrev pub tribool_int : Tribool → ℤ
tribool_int t_false = pos 0
tribool_int t_true = pos 1
tribool_int t_unknown = negsuc 0

abbrev pub bool_int : Bool → ℤ
bool_int b = if b then pos 1 else pos 0

abbrev pub or_empty : Option Bytes → Bytes
or_empty none = []
or_empty (some s) = s

-- The remote and its URL, if there is an upstream.
unfoldable pub remote_of : Answers → Option Reference → Outcome Remote
remote_of a none = ok no_remote
remote_of a (some upstream) = get_remote (a.branch_name upstream) (a.remote_name upstream)

unfoldable pub url_of_upstream : Answers → Option Reference → Outcome Bytes
url_of_upstream a none = ok []
url_of_upstream a (some upstream) = remote_url (a.remote_name upstream) a.remote_rc a.url_of

-- The two counts of commits, ahead and behind.
unfoldable pub count_fields : Answers → Option Reference → Outcome (Field × Field)
count_fields a none = ok (view (codes "0"), view (codes "0"))
count_fields a (some upstream) = do
  ahead ← count_range (a.revwalk (upstream.shorthand ++ codes "..HEAD"))
  behind ← count_range (a.revwalk (codes "HEAD.." ++ upstream.shorthand))
  ok (int (pos ahead), int (pos behind))

-- What ProcessRequest prints, from the working directory on, in the order of its calls.
unfoldable pub status_fields : Answers → ℕ → Reference → Outcome (List Field)
unfolding remote_of url_of_upstream count_fields trim_slash
status_fields a dirty_max_index_size head = do
  local ← local_branch_name head
  upstream ← upstream_of a.upstream_rc a.upstream_ref a.upstream_invalid
  remote ← remote_of a upstream
  url ← url_of_upstream a upstream
  stats ← a.index_stats head.target dirty_max_index_size
  counts ← count_fields a upstream
  stashes ← num_stashes a.stash_ok a.stash_calls
  tag ← a.tag_of head.target
  ok (
      view (trim_slash a.workdir)
      ∷ view (or_empty (Option.map a.oid_hex head.target))
      ∷ view local
      ∷ view remote.branch
      ∷ view remote.name
      ∷ view url
      ∷ view (repo_state a.state)
      ∷ int (bool_int stats.has_staged)
      ∷ int (tribool_int stats.has_unstaged)
      ∷ int (tribool_int stats.has_untracked)
      ∷ counts.0
      ∷ counts.1
      ∷ int (pos stashes)
      ∷ view tag
      ∷ [])

-- The body of ProcessRequest: none where it returns before `Dump`.
unfoldable pub respond : Outcome (Option Answers) → ℕ → Writer → Outcome (Option (Writer × Bytes))
unfolding status_fields
respond opened dirty_max_index_size w = do
  repo ← opened
  elim repo [
    | none ↦ ok none
    | some a ↦ do
      head ← head_of a.head_rc a.head_ref a.head_resolved
      elim head [
        | none ↦ ok none
        | some h ↦ if length a.workdir == 0 then ok none else do
          fields ← status_fields a dirty_max_index_size h
          out ← dump (prints w fields)
          ok (some out)
      ]
  ]

-- What a request leaves behind: the bytes written, and whether an exception reached the main loop.
pub record Reply : Type 0 where
  pub output : Bytes
  pub thrown : Bool

-- The destructor of the writer runs, and writes if nothing was written yet.
unfoldable pub finish : Writer → Outcome (Option (Writer × Bytes)) → Outcome Reply
finish w (ok none) = do out ← destroy w; ok (record { output = out; thrown = false })
finish w (ok (some (w', out))) = do
  rest ← destroy w'
  ok (record { output = out ++ rest; thrown = false })
finish w throws = do out ← destroy w; ok (record { output = out; thrown = true })
finish w aborts = aborts
finish w (exits n) = exits n

-- ProcessRequest, given what RepoCache::Open returns.
unfoldable pub process_request : Outcome (Option Answers) → ℕ → Bytes → Outcome Reply
unfolding respond finish
process_request opened dirty_max_index_size id =
    let w = new_writer id in finish w (respond opened dirty_max_index_size w)
