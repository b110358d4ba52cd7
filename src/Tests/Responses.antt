-- ===== src/Tests/Responses.antt =====
-- Inputs for src/response.cc and ProcessRequest.
use gitstatus.Git.{
  no_remote, rebase, Reference, direct, enotfound, failure, head_of, local_branch_name, num_stashes,
  over, repo_state, success, upstream_of,
}
use gitstatus.Common.{List, [], false, map, none, refl, some, true, ◌++◌, ◌∷◌, ◌≡◌}
use gitstatus.Common.Int.{negsuc, pos}
use gitstatus.Common.Outcome.{Ensures, ok}
use gitstatus.Daemon.Fields.{Parts, texts}
use gitstatus.Daemon.{remote_of, url_of_upstream, Answers, process_request, status_fields}
use gitstatus.Daemon.Once.{IsAnswer, IsMessage, process_request-IsAnswer, process_request_status}
use gitstatus.Index.Scan.{t_false, t_unknown}
use gitstatus.Repo.{IndexStats}
use gitstatus.Response.{Field, Writer, int, new_writer, prints, safe_print, view}
use gitstatus.Response.Fields.{Holds, field_text, prints-new_writer}
use gitstatus.Text.{Bytes, codes}

abbrev fields : List Field
fields = view (codes "/r") ∷ int (negsuc 0) ∷ []

prints-new_writer_example :
    Holds
      (prints (new_writer (codes "7")) fields)
      (safe_print (codes "7") ∷ (b'1' ∷ []) ∷ map field_text fields)
prints-new_writer_example = prints-new_writer (codes "7") fields

prints_runs :
    (prints (new_writer (codes "7")) fields).strm
    ≡ codes "7" ++ 31 ∷ codes "1" ++ 31 ∷ codes "/r" ++ 31 ∷ codes "-1"
unfolding prints new_writer
prints_runs = refl

unprintable : safe_print (10 ∷ 65 ∷ 200 ∷ 127 ∷ []) ≡ 63 ∷ 65 ∷ 200 ∷ 63 ∷ []
unfolding safe_print
unprintable = refl

abbrev unfinished : Writer
unfinished = record { done = false; request_id = codes "7"; strm = codes "7" }

abbrev head : Reference
head = record {
  type = direct;
  is_branch = true;
  shorthand = codes "master";
  symbolic_target = none;
  target = some (1 ∷ 2 ∷ []);
}

abbrev clean_stats : IndexStats
clean_stats = record { has_staged = false; has_unstaged = t_false; has_untracked = t_unknown }

-- A repository on the branch master, with no upstream.
abbrev answers : Answers
answers = record {
  head_rc = success;
  head_ref = head;
  head_resolved = some head;
  tag_of = λ _. ok (codes "v1");
  workdir = codes "/r/";
  oid_hex = λ _. codes "0102";
  upstream_rc = enotfound;
  upstream_ref = head;
  upstream_invalid = false;
  branch_name = λ _. none;
  remote_name = λ _. none;
  remote_rc = λ _. failure;
  url_of = λ _. none;
  state = rebase;
  index_stats = λ _ _. ok clean_stats;
  revwalk = λ _. record { is_new = true; is_pushed = true; walk = over };
  stash_ok = true;
  stash_calls = 3;
}

abbrev printed : List Field
printed =
    view (codes "/r")
    ∷ view (codes "0102")
    ∷ view (codes "master")
    ∷ view []
    ∷ view []
    ∷ view []
    ∷ view (codes "rebase")
    ∷ int (pos 0)
    ∷ int (pos 0)
    ∷ int (negsuc 0)
    ∷ view (codes "0")
    ∷ view (codes "0")
    ∷ int (pos 3)
    ∷ view (codes "v1")
    ∷ []

status_fields_runs : status_fields answers 100 head ≡ ok printed
unfolding status_fields local_branch_name upstream_of num_stashes repo_state
status_fields_runs = refl

-- What the queries of a request for this repository answer.
answered : Parts answers 100 head
unfolding local_branch_name upstream_of remote_of url_of_upstream num_stashes
answered = record {
  local = codes "master";
  upstream = none;
  remote = no_remote;
  url = [];
  stats = clean_stats;
  ahead = codes "0";
  behind = codes "0";
  stashes = 3;
  tag = codes "v1";
  local_is = refl;
  upstream_is = refl;
  remote_is = refl;
  url_is = refl;
  stats_is = refl;
  ahead_is = refl;
  behind_is = refl;
  stashes_is = refl;
  tag_is = refl;
}

process_request_status_example :
    (out : Bytes) × (process_request (ok (some answers)) 100 (codes "7")
      ≡ ok (record { output = out; thrown = false }))
    × IsMessage out (safe_print (codes "7") ∷ codes "1" ∷ texts answered)
process_request_status_example =
    process_request_status answers 100 (codes "7") head head_is (λ e. cc) answered
  where
    head_is : head_of answers.head_rc answers.head_ref answers.head_resolved ≡ ok (some head)
    head_is = unfold head_of in refl

process_request-IsAnswer_example :
    Ensures
      (IsAnswer (ok (some answers)) 100 (codes "7"))
      (process_request (ok (some answers)) 100 (codes "7"))
process_request-IsAnswer_example = process_request-IsAnswer (ok (some answers)) 100 (codes "7")
