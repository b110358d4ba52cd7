-- ===== src/Lib.antt =====
-- A verification library of gitstatusd, the daemon under src/ that answers status requests about git
-- repositories for a shell prompt.
--
-- The daemon reads requests from its standard input, one record of an id and a directory each
-- (src/request.cc), looks the repository up (src/repo_cache.cc), asks libgit2 for the head, the
-- upstream and the state (src/git.cc), scans the index and the work tree in parallel for staged,
-- unstaged and untracked changes (src/repo.cc, src/index.cc, src/dir.cc), finds the tag of the head
-- (src/tag_db.cc), and writes one record of fields (src/response.cc, src/gitstatus.cc).
--
-- The modules and the code that they model:
-- - Common: the shared names, tests on numbers, lists, integers, and Outcome, the results of
--   functions that may raise an exception, abort or exit (src/check.h).
-- - Text: byte strings, StrCmp and its users, FindLast (src/string_cmp.h, src/string_view.h,
--   src/algorithm.h).
-- - Request: ParseRequest and RequestReader. Events stand for the results of select, read, fcntl and
--   kill; Request/Stream relates the reader to the bytes on the wire.
-- - Response: ResponseWriter; Response/Fields reads its output back.
-- - Index: Index/Entry is IsModified and Mode, Index/Dirs is InitDirs, Index/Splits is
--   InitSplits, Index/Scan is the body of the loop of ScanDirs for one directory, over the results
--   of the system calls, and Index/Open is OpenTail and the loop of ScanDirs with its stack of
--   descriptors, over what openat and dup answer; Index/Place is the order of the directories, and
--   Index/Candidates the tasks of GetDirtyCandidates with the caller that waits for them;
--   Index/Candidates/Root is the function as a whole, and Index/Whole the constructor of Index.
-- - Dir: ListDir for Linux on a little-endian machine, over the answers of getdents64 (src/dir.cc);
--   Dir/Compares and Dir/Sorts are about its order. Dir/Readdir is the ListDir of other systems.
-- - Git: the functions of src/git.cc, over the results of the libgit2 calls.
-- - Repo: Repo/Shards is UpdateShards, Repo/Dirty is StartDirtyScan, Repo/Notify its callbacks, one at
--   a time and, in Repo/Notify/Interleave, those of all scans at once;
--   Repo/Stats is GetIndexStats with the staged scan, Repo/Stats/Held the index that it keeps from
--   call to call, and Repo/Async is RunAsync with its counter.
-- - Tag: ParsePack, with Tag/Print and Tag/Render for the files that git writes; what pointers into
--   pack_ read once it is filled again is an argument. Tag/Db is TagHasTarget, UpdatePack and
--   TagForCommit, and Tag/Loose is GetLooseTags (src/tag_db.cc).
-- - Cache: RepoCache::Open (src/repo_cache.cc), over any type of repositories.
-- - Options: ParseOptions (src/options.cc).
-- - Pool: the queue of ThreadPool and what its threads do while they hold the mutex
--   (src/thread_pool.cc, src/thread_pool.h); Pool/Threads is all its threads, one step after another,
--   from the notifications of the destructor to its joins in Pool/Threads/Ends.
-- - Arena: Arena (src/arena.h, src/arena.cc), with the vector as a list, `top_` as an optional index
--   and `operator new` as an argument. Arena/Invariant is what the members mean; Arena/Align and
--   Arena/Grow are the masks and shifts; Arena/Tips, Arena/Push, Arena/Pushed, Arena/Add,
--   Arena/Advance, Arena/Added and Arena/Room are about AddBlock; Arena/Allocated, Arena/Allocate,
--   Arena/Total, Arena/Rest and Arena/Sequence about Allocate; Arena/Reused and Arena/Moved about
--   Reuse, the constructor and the move; Arena/Copy, Arena/Memcpy and Arena/Strings about MemDup and
--   StrDup, over memory as a function.
-- - Mtime: CheckDirMtime and its scope guards (src/check_dir_mtime.cc, src/scope_guard.h), over the
--   answers of the system calls, which it records. Repo/Lifetime is the constructor and the
--   destructor of Repo, with that check and the functions of RunAsync between them.
-- - Logging: LOG with its operands, errno and what is on stderr (src/logging.h, src/logging.cc), and
--   CHECK and VERIFY as such statements; Logging/Statement is about one statement. Logging/Threads is
--   several threads in Flush, with the mutex and the result of std::localtime that they share.
-- - Daemon: ProcessRequest over the answers of its callees, and Daemon/Serve the loop of GitStatus,
--   over any handler with a state of its own. Daemon/Fields is what the fields of a status are.
-- - Tests: inputs at which the definitions and the theorems are tried.
--
-- Conventions. A byte is a number, a string the list of its bytes without a terminator; char is
-- unsigned, as the Makefile says. A loop over a range is recursion on a list; the loop of the
-- daemon runs for a number of rounds, and the theorem about it names the number that the messages
-- need. The reader recurses on the events that remain. Allocate runs on fuel for its calls of
-- itself through AllocateSlow, of which two are enough.
--
-- Not modelled: the start of threads; the construction of objects in an arena, which is the
-- compiler's; a failure of `operator new`; timers, the shell plugin and the build. In Logging a call
-- of fprintf prints the whole line, in one step. The scans use strings without the arenas that hold
-- them.
pub mod Common
pub mod Text
pub mod Request
pub mod Index
pub mod Git
pub mod Repo
pub mod Response
pub mod Cache
pub mod Options
pub mod Tag
pub mod Daemon
pub mod Dir
pub mod Pool
pub mod Arena
pub mod Mtime
pub mod Logging
mod Tests
