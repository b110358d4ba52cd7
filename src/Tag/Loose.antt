-- ===== src/Tag/Loose.antt =====
-- GetLooseTags of src/tag_db.cc: the files under refs/tags, as ListDir lists them.
use gitstatus.Common.{arith, Bool, true, false, List, [], Option, ◌≡◌, inl, inr, Option-cases}
use gitstatus.Daemon.Serve.Order.{answers}
use gitstatus.Common.Outcome.{Outcome, ok, check, ◌>>◌}
use gitstatus.Dir.{list_dir, read_entries}
use gitstatus.Text.{Bytes}

-- GetLooseTags, given whether open and close succeed and what getdents64 answers.
unfoldable pub get_loose_tags :
    (open_ok close_ok : Bool) → List (Option (List Bytes)) → Outcome (Bool × List Bytes)
get_loose_tags false close_ok answers = ok (false, [])
get_loose_tags true close_ok answers = check close_ok >> ok (list_dir true answers)

list_dir-empty :
    (answers : List (Option (List Bytes)))
    → (list_dir true answers).0 ≡ false
    → (list_dir true answers).1 ≡ []
unfolding list_dir
list_dir-empty answers e = elim (Option-cases (read_entries [] answers)) [
  | inl none_read ↦ rw (none_read, list_dir)
  | inr (entries, e') ↦ let f : (list_dir true answers).0 ≡ true = rw (e', list_dir) in cc
]

-- If GetLooseTags returns false, it leaves no tags, so that the loop of TagForCommit over them does
-- nothing, whether its result is tested or not.
pub get_loose_tags-empty :
    (open_ok close_ok : Bool) (answers : List (Option (List Bytes))) (tags : List Bytes)
    → get_loose_tags open_ok close_ok answers ≡ ok (false, tags)
    → tags ≡ []
unfolding get_loose_tags
get_loose_tags-empty false close_ok answers tags e = cc
get_loose_tags-empty true true answers tags e = ground (arith, list_dir-empty answers)
get_loose_tags-empty true false answers tags e = cc
