-- ===== src/Transport/Stream/Tests.antt =====
-- The theorems about the transports over a stream at concrete inputs.
use vnano_msg.Common.{
  ◌≡◌, refl, arith, List, [], ◌∷◌, ◌++◌, map, none, some, true, false, ok, Comes, ℕ, ◌==◌, All,
}
use vnano_msg.Core.Pipes.{Msg}
use vnano_msg.Core.Pipebase
use vnano_msg.Core.Sock.{pos}
use vnano_msg.Aio.Fsm
use vnano_msg.Utils.Wire.{putll, getll}
use vnano_msg.Transport.Stream.Usock
use vnano_msg.Transport.Stream.Streamhdr.{compose}
use vnano_msg.Transport.Stream.Session
use vnano_msg.Transport.Stream.Session.{
  Session, Sock, State, Raised, ipc, deliver, pipe_send, pipe_recv, start_pipe,
}
use vnano_msg.Transport.Stream.Session.Frames.{joined}
use vnano_msg.Transport.Stream.Session.Inward.{Allowed, emptied, with_message, asks_body}
use vnano_msg.Transport.Stream.Session.Outward.{filled}
use vnano_msg.Transport.Stream.Session.Runs.{
  Run, opened, turns, writes, arrives, reads, got_in_order, all_read,
}
use vnano_msg.Transport.Stream.Session.Complete.{session_calls_complete}
use vnano_msg.Transport.Stream.Session.Opening.{opens, open_with, result_of}

-- A PAIR socket, which takes messages of up to 1024 bytes.
abbrev pair : Sock
pair = record { added = ok tt; protocol = 16; ispeer = λ q. q == 16; rcvmaxsize = pos 1024 }

opens_example : result_of (open_with ipc pair (compose 16)) ≡ some (State.active, none)
opens_example = opens ipc pair 16 (omega arith)

abbrev fresh : Session
fresh = record Session.init { fsm = record { phase = Fsm.active; queued = false } }

abbrev ready : Session
ready = record fresh {
  state = State.active;
  pipebase = record {
    state = Pipebase.active;
    instate = Pipebase.async;
    outstate = Pipebase.ready;
  };
  instate = Session.hdr;
  usock = record { reading = some 9; writing = none };
  outstate = Session.Outstate.idle;
}

begun : Run ipc pair pair ready ready [] [] [] [] [] []
unfolding start_pipe Session.init Pipebase.start Pipebase.init Usock.recv Usock.idle Fsm.init
begun = opened fresh fresh (refl, refl) (refl, refl) refl refl

abbrev two_bytes : Msg
two_bytes = record { sphdr = 1 ∷ []; hdrs = []; body = 2 ∷ [] }

abbrev head_bytes : List ℕ
head_bytes = 1 ∷ 0 ∷ 0 ∷ 0 ∷ 0 ∷ 0 ∷ 0 ∷ 0 ∷ 2 ∷ []

abbrev body_bytes : List ℕ
body_bytes = 1 ∷ 2 ∷ []

wrote :
    Run ipc pair pair
      (filled ipc two_bytes ready)
      ready
      (head_bytes ++ body_bytes)
      []
      (two_bytes ∷ [])
      []
      []
      []
unfolding pipe_send Pipebase.send Session.send Usock.send Pipebase.settle_side Pipebase.side_after
    Session.header putll Session.init Pipebase.init
wrote = writes two_bytes begun refl refl

came :
    Run ipc pair pair
      (asks_body head_bytes 2 ready)
      (filled ipc two_bytes ready)
      []
      body_bytes
      []
      []
      (two_bytes ∷ [])
      []
unfolding deliver Session.feed Fsm.feed Session.handle Session.came Session.got_header
    Session.accept_size Session.size_in getll Session.too_large Usock.recv Session.init
came = arrives head_bytes (turns wrote) refl

session_calls_complete_example :
    Comes true (pipe_send ipc two_bytes (asks_body head_bytes 2 ready))
    × Comes false (pipe_recv ipc (asks_body head_bytes 2 ready))
    × Comes false (deliver Usock.Told.sent ipc pair (asks_body head_bytes 2 ready))
    × Comes true (deliver (Usock.Told.received body_bytes) ipc pair (asks_body head_bytes 2 ready))
session_calls_complete_example =
    session_calls_complete [] two_bytes body_bytes came tt (omega arith, tt) refl

abbrev full : Session
full = with_message (joined two_bytes) (asks_body head_bytes 2 ready)

all_came : Run ipc pair pair full (filled ipc two_bytes ready) [] [] [] [] (two_bytes ∷ []) []
unfolding deliver Session.feed Fsm.feed Session.handle Session.came Session.has_message
    Pipebase.received Pipebase.complete Session.init
all_came = arrives body_bytes came refl

was_read :
    Run ipc pair pair
      (emptied ipc full)
      (filled ipc two_bytes ready)
      []
      []
      []
      []
      (two_bytes ∷ [])
      (joined two_bytes ∷ [])
unfolding pipe_recv Pipebase.recv Session.recv Usock.recv Pipebase.settle_side Pipebase.side_after
    Session.init
was_read = reads all_came refl

got_in_order_example :
    ((e : List Msg) × (map joined (two_bytes ∷ []) ≡ (joined two_bytes ∷ []) ++ e))
    × All (Allowed (pos 1024)) (joined two_bytes ∷ [])
got_in_order_example = got_in_order ipc was_read tt (omega arith, tt)

all_read_example : map joined (two_bytes ∷ []) ≡ joined two_bytes ∷ []
all_read_example = all_read ipc was_read tt (omega arith, tt) refl refl
