-- ===== src/Transport/Inproc/Tests.antt =====
-- The theorems about the inproc transport at concrete inputs.
use vnano_msg.Common.{Comes, ◌≡◌, refl, arith, [], ◌∷◌, map, none, true, false, ok}
use vnano_msg.Core.Pipes.{Msg}
use vnano_msg.Core.Pipebase
use vnano_msg.Core.Pipebase.{Side}
use vnano_msg.Aio.Fsm
use vnano_msg.Transport.Msgqueue
use vnano_msg.Transport.Msgqueue.{Msgqueue}
use vnano_msg.Transport.Msgqueue.Fifo.{Holds, init-Holds}
use vnano_msg.Transport.Inproc.Sinproc
use vnano_msg.Transport.Inproc.Sinproc.{
  Sinproc, handshake, pipe_send, pipe_recv, deliver, sent, received, flat,
}
use vnano_msg.Transport.Inproc.Sinproc.Fifo.{
  Run, opened, turns, writes, reads, comes, returns, in_order, delivers_all, Carries,
}
use vnano_msg.Transport.Inproc.Sinproc.Complete.{calls_complete, GoesOn}

abbrev one_byte : Msg
one_byte = record { sphdr = 1 ∷ []; hdrs = []; body = [] }

abbrev two_bytes : Msg
two_bytes = record { sphdr = 1 ∷ []; hdrs = []; body = 2 ∷ [] }

-- A queue that takes a second message only if the sizes add up to less than two bytes.
abbrev small_queue : Msgqueue
small_queue = Msgqueue.init 2 (λ c i. record { sphdr = []; hdrs = []; body = [] }) (λ c. none)

small_queue-Holds : Holds small_queue []
small_queue-Holds = init-Holds 2 _ _

-- The ends as the handshake leaves them.
abbrev end : Sinproc
end = record {
  fsm = record { phase = Fsm.active; queued = false };
  state = Sinproc.State.active;
  sending = false;
  receiving = false;
  has_peer = true;
  pipebase = record { state = Pipebase.active; instate = Side.async; outstate = Side.ready };
  queue = small_queue;
  msg = Sinproc.empty_msg;
  event_connect = none;
  event_sent = false;
  event_received = false;
  event_disconnect = false;
}

start : Run end end [] [] [] []
unfolding handshake Sinproc.connect Sinproc.accept Sinproc.deliver_connect Sinproc.raise_connect
    Sinproc.feed Sinproc.handle Sinproc.start_pipe Sinproc.init Fsm.init Fsm.start Fsm.feed
    Fsm.is_idle Pipebase.start Pipebase.init
start = opened small_queue small_queue small_queue-Holds small_queue-Holds refl

abbrev sender : Sinproc
sender = record end {
  msg = flat two_bytes;
  sending = true;
  pipebase = record end.pipebase { outstate = Side.async };
}

abbrev receiver : Sinproc
receiver = record end { event_sent = true }

sent_one : Run sender receiver (two_bytes ∷ []) [] [] []
unfolding pipe_send Pipebase.send Sinproc.send Sinproc.raise_sent Pipebase.settle_side
    Pipebase.side_after
sent_one = writes two_bytes start refl

in_order_example : Carries sender receiver (two_bytes ∷ []) [] × Carries receiver sender [] []
in_order_example = in_order sent_one (omega arith, omega arith) (omega arith, omega arith)

calls_complete_example :
    Comes false (pipe_send one_byte (sender, receiver))
    × Comes false (pipe_recv (sender, receiver))
    × Comes false (deliver sent (ok tt) (sender, receiver))
    × Comes false (deliver received (ok tt) (sender, receiver))
    × GoesOn sender receiver
calls_complete_example =
    calls_complete one_byte (ok tt) sent_one (omega arith, omega arith) (omega arith, omega arith)

-- The receiver's queue once it took the message, and once the socket read it.
abbrev filled : Msgqueue
filled = Msgqueue.write small_queue (flat two_bytes)

abbrev emptied : Msgqueue
emptied = Msgqueue.read (record filled { in_pos = 1 }) (flat two_bytes)

abbrev ready_receiver : Sinproc
ready_receiver = record end {
  queue = filled;
  pipebase = record end.pipebase { instate = Side.ready };
}

abbrev told_sender : Sinproc
told_sender = record sender { msg = Sinproc.empty_msg; event_received = true }

abbrev got_receiver : Sinproc
got_receiver = record end { queue = emptied }

came : Run ready_receiver told_sender [] [] (two_bytes ∷ []) []
unfolding deliver Sinproc.feed Fsm.feed Sinproc.handle Sinproc.take_message Sinproc.raise_received
    Pipebase.received Pipebase.complete Msgqueue.send Msgqueue.is_full Msgqueue.empty Msgqueue.init
came = comes (ok tt) (turns sent_one) refl

was_read : Run got_receiver told_sender [] [] (two_bytes ∷ []) (flat two_bytes ∷ [])
unfolding pipe_recv Pipebase.recv Sinproc.recv Msgqueue.recv Msgqueue.empty Msgqueue.write
    Msgqueue.read Msgqueue.init Pipebase.settle_side Pipebase.side_after
was_read = reads came refl

all_done : Run end got_receiver (two_bytes ∷ []) (flat two_bytes ∷ []) [] []
unfolding deliver Sinproc.feed Fsm.feed Sinproc.handle Pipebase.sent Pipebase.complete
all_done = returns (ok tt) (turns was_read) refl

delivers_all_example :
    ((map flat (two_bytes ∷ []) ≡ flat two_bytes ∷ []) × (end.pipebase.outstate ≡ Side.ready))
    × ((map flat [] ≡ []) × (got_receiver.pipebase.outstate ≡ Side.ready))
delivers_all_example =
    delivers_all all_done (omega arith, omega arith) (omega arith, omega arith) (refl, refl, refl)
      (refl, refl, refl)
