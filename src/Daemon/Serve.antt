-- ===== src/Daemon/Serve.antt =====
-- The loop of `GitStatus` in src/gitstatus.cc: read a request, process it, and catch the exceptions.
-- `handler` is ProcessRequest with the state that it keeps between requests, the repository cache.
pub mod Order
use gitstatus.Common.{List, [], suc, zero, ℕ, ◌++◌}
use gitstatus.Common.Outcome.{Outcome, ok, throws}
use gitstatus.Daemon.{Reply}
use gitstatus.Request.{Event, Reader, Request, aborted, exited, message, read_request, waiting}
use gitstatus.Text.{Bytes}

-- How the loop stands when its rounds are used up or the process ends.
pub data End : Type 0 where
  rounds_used : Reader → List Event → End
  blocked : Reader → End
  ended : End

pub record Served (S : Type 0) : Type 0 where
  pub output : Bytes
  pub state : S
  pub end : End

module _ {S : Type 0} (handler : S → Request → S × Outcome Reply) where
  abbrev and_then : Bytes → Served S → Served S
  and_then out s = record s { output = out ++ s.output }

  -- What one message leads to, given the rounds that follow from a state.
  unfoldable pub on_message : S → Outcome Request → (S → Served S) → Served S
  on_message st (ok req) go_on = elim (handler st req).1 [
    | ok reply ↦ and_then reply.output (go_on (handler st req).0)
    | throws ↦ go_on (handler st req).0
    | _ ↦ record { output = []; state = (handler st req).0; end = ended }
  ]
  on_message st throws go_on = go_on st
  on_message st _ go_on = record { output = []; state = st; end = ended }

  -- while (true), for so many rounds.
  unfoldable pub serve : ℕ → S → Reader → List Event → Served S
  unfolding on_message
  serve zero st r es = record { output = []; state = st; end = rounds_used r es }
  serve (suc n) st r es = elim (read_request r es) [
    | message req r' es' ↦ on_message st req (λ st'. serve n st' r' es')
    | waiting r' ↦ record { output = []; state = st; end = blocked r' }
    | exited ↦ record { output = []; state = st; end = ended }
    | aborted ↦ record { output = []; state = st; end = ended }
  ]
