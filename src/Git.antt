-- ===== src/Git.antt =====
-- src/git.h and src/git.cc: what the daemon asks of libgit2. The answers of libgit2 are arguments: a
-- return code, and what the call stores where it succeeds.
pub mod Names
use gitstatus.Common.{
  suc, Bool, Option, [], drop, get_elem?, if◌then◌else◌, length, ltb, none, not, some, ℕ, ◌+◌, ◌==◌,
}
use gitstatus.Common.Outcome.{Outcome, ok, throws, verify, ◌>>=◌, ◌>>◌}
use gitstatus.Text.{Bytes, codes, starts_with}

-- The return codes that the code tells apart.
pub data Rc : Type 0 where
  success enotfound einvalidspec euser failure : Rc

-- git_repository_state; `other` is any value that the switch does not name.
pub data RepositoryState : Type 0 where
  state_none merge revert revert_sequence cherrypick cherrypick_sequence bisect : RepositoryState
  rebase rebase_interactive rebase_merge apply_mailbox apply_mailbox_or_rebase other :
      RepositoryState

-- RepoState
unfoldable pub repo_state : RepositoryState → Bytes
repo_state state_none = codes ""
repo_state merge = codes "merge"
repo_state revert = codes "revert"
repo_state revert_sequence = codes "revert-seq"
repo_state cherrypick = codes "cherry"
repo_state cherrypick_sequence = codes "cherry-seq"
repo_state bisect = codes "bisect"
repo_state rebase = codes "rebase"
repo_state rebase_interactive = codes "rebase-i"
repo_state rebase_merge = codes "rebase-m"
repo_state apply_mailbox = codes "am"
repo_state apply_mailbox_or_rebase = codes "am/rebase"
repo_state other = codes "action"

-- The calls of git_revwalk_next: a commit each, until GIT_ITEROVER or another code.
pub data Walk : Type 0 where
  commit : Walk → Walk
  over : Walk
  failed : Walk

-- A revision walk: do git_revwalk_new and git_revwalk_push_range succeed, and what comes then.
pub record Revwalk : Type 0 where
  pub is_new : Bool
  pub is_pushed : Bool
  pub walk : Walk

unfoldable pub count_walk : Walk → ℕ → Outcome ℕ
count_walk (commit w) res = count_walk w (res + 1)
count_walk over res = ok res
count_walk failed res = throws

-- CountRange
unfoldable pub count_range : Revwalk → Outcome ℕ
unfolding count_walk
count_range r = do verify r.is_new; verify r.is_pushed; count_walk r.walk 0

-- OpenRepo
unfoldable pub open_repo {ℓ} : {A : Type ℓ} → Rc → A → Outcome (Option A)
open_repo success repo = ok (some repo)
open_repo enotfound repo = ok none
open_repo _ repo = throws

-- NumStashes: the callback counts its calls.
unfoldable pub num_stashes : Bool → ℕ → Outcome ℕ
num_stashes is_ok calls = do verify is_ok; ok calls

-- git_reference_t
pub data RefType : Type 0 where
  direct symbolic invalid : RefType

pub record Reference : Type 0 where
  pub type : RefType
  -- git_reference_is_branch, git_reference_shorthand
  pub is_branch : Bool
  pub shorthand : Bytes
  -- git_reference_symbolic_target, git_reference_target
  pub symbolic_target : Option Bytes
  pub target : Option Bytes

-- RemoteUrl, from git_branch_remote_name, git_remote_lookup and git_remote_url.
unfoldable pub remote_url : Option Bytes → (Bytes → Rc) → (Bytes → Option Bytes) → Outcome Bytes
remote_url none lookup url = ok []
remote_url (some name) lookup url = elim (lookup name) [
  | success ↦ elim (url name) [ none ↦ ok [] | some u ↦ ok u ]
  | enotfound ↦ ok []
  | einvalidspec ↦ ok []
  | _ ↦ throws
]

-- Head, from git_reference_lookup and git_reference_resolve.
unfoldable pub head_of : Rc → Reference → Option Reference → Outcome (Option Reference)
head_of success ref none = ok (some ref)
head_of success ref (some resolved) = ok (some resolved)
head_of enotfound ref resolved = ok none
head_of _ ref resolved = throws

-- Upstream, from git_branch_upstream and the class of the last error.
unfoldable pub upstream_of : Rc → Reference → Bool → Outcome (Option Reference)
upstream_of success upstream is_invalid = ok (some upstream)
upstream_of enotfound upstream is_invalid = ok none
upstream_of _ upstream is_invalid = do verify is_invalid; ok none

-- kHeadPrefix
abbrev pub head_prefix : Bytes
head_prefix = codes "refs/heads/"

-- LocalBranchName; sizeof(kHeadPrefix) counts the null character too.
unfoldable pub local_branch_name : Reference → Outcome Bytes
local_branch_name ref = elim ref.type [
  | direct ↦ ok (if ref.is_branch then ref.shorthand else [])
  | symbolic ↦ elim ref.symbolic_target [
    | none ↦ ok []
    | some target ↦
        if ltb (length target) (length head_prefix + 1)
        then ok []
        else if not (starts_with target head_prefix)
        then ok []
        else ok (drop (length head_prefix) target)
  ]
  | invalid ↦ throws
]

pub record Remote : Type 0 where
  pub name : Bytes
  pub branch : Bytes

abbrev pub no_remote : Remote
no_remote = record { name = []; branch = [] }

-- branch[i] == c, where the null character ends the string.
abbrev pub char_is : Bytes → ℕ → ℕ → Bool
char_is s i c = elim (get_elem? s i) [ none ↦ 0 == c | some b ↦ b == c ]

-- GetRemote, from git_branch_name and git_branch_remote_name.
unfoldable pub get_remote : Option Bytes → Option Bytes → Outcome Remote
get_remote none remote = ok no_remote
get_remote (some branch) none = ok no_remote
get_remote (some branch) (some remote) = do
  verify (starts_with branch remote)
  verify (char_is branch (length remote) b'/')
  ok (record { name = remote; branch = drop (suc (length remote)) branch })
