-- ===== src/Transport/Inproc/Sinproc/Steps.antt =====
-- What the calls do on two ends that are connected, by the state of the messages that go one way.
use vnano_msg.Common.{
  Bool, true, false, not, ◌≡◌, arith, Bool-cases, inl, inr, done, abort, Reply, ok, err, eagain,
}
use vnano_msg.Core.Pipes.{Msg, Flags}
use vnano_msg.Core.Pipebase
use vnano_msg.Core.Pipebase.{Pipebase, Side, Transport}
use vnano_msg.Aio.Fsm
use vnano_msg.Transport.Msgqueue
use vnano_msg.Transport.Msgqueue.{Msgqueue}
use vnano_msg.Transport.Inproc.Sinproc.{
  State, Sinproc, Ends, empty_msg, no_flags, flat, send, retry, recv, pipe_send, pipe_recv,
  raise_sent, raise_received, take_message, handle, feed, deliver, sent, received,
}

abbrev pub waits : Flags
waits = record no_flags { release = true }

-- The sender's end once a message is exposed.
abbrev pub exposed : Msg → Sinproc → Sinproc
exposed m s = record s {
  msg = flat m;
  sending = true;
  pipebase = record s.pipebase { outstate = Side.async };
}

pub pipe_send_lem :
    (m : Msg) (s p : Sinproc)
    → s.state ≡ State.active
    → s.sending ≡ false
    → p.event_sent ≡ false
    → s.pipebase.outstate ≡ Side.ready
    → pipe_send m (s, p) ≡ done (waits, (exposed m s, record p { event_sent = true }))
unfolding pipe_send Pipebase.send send raise_sent Pipebase.settle_side Pipebase.side_after
pipe_send_lem m s p a b c d = ground arith

-- The sender's end once the message is acknowledged.
abbrev pub acknowledged : Sinproc → Sinproc
acknowledged s = record s {
  event_received = false;
  sending = false;
  pipebase = record s.pipebase { outstate = Side.ready };
}

pub deliver-received :
    (added : Reply (Unit {0})) (s p : Sinproc)
    → s.state ≡ State.active
    → s.fsm.phase ≡ Fsm.active
    → s.event_received ≡ true
    → s.sending ≡ true
    → s.pipebase.outstate ≡ Side.async
    → deliver received added (s, p) ≡ done (acknowledged s, p)
unfolding deliver feed Fsm.feed handle Pipebase.sent Pipebase.complete
deliver-received added s p a b c d e = ground arith

-- The receiver's end when the message does not fit.
abbrev pub holding : Sinproc → Sinproc
holding s = record s { event_sent = false; receiving = true }

pub deliver-sent_full :
    (added : Reply (Unit {0})) (s p : Sinproc)
    → s.state ≡ State.active
    → s.fsm.phase ≡ Fsm.active
    → s.event_sent ≡ true
    → (Msgqueue.send s.queue p.msg).0 ≡ err eagain
    → deliver sent added (s, p) ≡ done (holding s, p)
unfolding deliver feed Fsm.feed handle take_message
deliver-sent_full added s p a b c d = ground arith

abbrev pub taken : Sinproc → Msg → Sinproc
taken s m = record s {
  event_sent = false;
  queue = (Msgqueue.send s.queue m).1;
  pipebase = record s.pipebase { instate = Side.ready };
}

-- The sender's end when its message was taken.
abbrev pub relieved : Sinproc → Sinproc
relieved p = record p { msg = empty_msg; event_received = true }

pub deliver-sent_room :
    (added : Reply (Unit {0})) (s p : Sinproc)
    → s.state ≡ State.active
    → s.fsm.phase ≡ Fsm.active
    → s.event_sent ≡ true
    → p.event_received ≡ false
    → s.pipebase.instate ≡ Pipebase.Ready.side_of (not (Msgqueue.empty s.queue))
    → (Msgqueue.send s.queue p.msg).0 ≡ ok tt
    → deliver sent added (s, p) ≡ done (taken s p.msg, relieved p)
unfolding deliver feed Fsm.feed handle take_message raise_received Pipebase.received
    Pipebase.complete
deliver-sent_room added s p a b c d i e = ground arith

-- What a read answers, by whether another message is there.
abbrev pub flags_of : Bool → Flags
flags_of true = no_flags
flags_of false = waits

abbrev pub drawn : Sinproc → Msgqueue → Sinproc
drawn s q = record s {
  queue = q;
  pipebase = record s.pipebase { instate = Pipebase.Ready.side_of (not (Msgqueue.empty q)) };
}

pub pipe_recv_plain :
    (s p : Sinproc) (q : Msgqueue) (m : Msg)
    → s.state ≡ State.active
    → s.receiving ≡ false
    → s.pipebase.instate ≡ Side.ready
    → Msgqueue.recv s.queue ≡ done (ok m, q)
    → pipe_recv (s, p) ≡ done (flags_of (not (Msgqueue.empty q)), m, (drawn s q, p))
unfolding pipe_recv Pipebase.recv recv Pipebase.settle_side Pipebase.side_after Pipebase.complete
pipe_recv_plain s p q m a b c d = elim (Bool-cases (Msgqueue.empty q)) [
  | inl e ↦ ground arith
  | inr e ↦ ground arith
]

pub pipe_recv_full :
    (s p : Sinproc) (q : Msgqueue) (m : Msg)
    → s.state ≡ State.active
    → s.receiving ≡ true
    → s.pipebase.instate ≡ Side.ready
    → Msgqueue.recv s.queue ≡ done (ok m, q)
    → (Msgqueue.send q p.msg).0 ≡ err eagain
    → pipe_recv (s, p) ≡ done (flags_of (not (Msgqueue.empty q)), m, (drawn s q, p))
unfolding pipe_recv Pipebase.recv recv retry Pipebase.settle_side Pipebase.side_after
    Pipebase.complete
pipe_recv_full s p q m a b c d f = elim (Bool-cases (Msgqueue.empty q)) [
  | inl e ↦ ground arith
  | inr e ↦ ground arith
]

pub pipe_recv_room :
    (s p : Sinproc) (q q' : Msgqueue) (m : Msg)
    → s.state ≡ State.active
    → s.receiving ≡ true
    → s.pipebase.instate ≡ Side.ready
    → p.event_received ≡ false
    → Msgqueue.recv s.queue ≡ done (ok m, q)
    → Msgqueue.send q p.msg ≡ (ok tt, q')
    → pipe_recv (s, p)
      ≡ done (
        flags_of (not (Msgqueue.empty q')),
        m,
        (record (drawn s q') { receiving = false }, relieved p),
      )
unfolding pipe_recv Pipebase.recv recv retry raise_received Pipebase.settle_side Pipebase.side_after
    Pipebase.complete
pipe_recv_room s p q q' m a b c r d f = elim (Bool-cases (Msgqueue.empty q')) [
  | inl e ↦ ground arith
  | inr e ↦ ground arith
]

pub pipe_send_refused :
    (m : Msg) (w : Ends) → w.0.pipebase.outstate ≡ Side.async → pipe_send m w ≡ abort
unfolding pipe_send Pipebase.send
pipe_send_refused m (s, p) h = ground arith

pub pipe_recv_refused : (w : Ends) → w.0.pipebase.instate ≡ Side.async → pipe_recv w ≡ abort
unfolding pipe_recv Pipebase.recv
pipe_recv_refused (s, p) h = ground arith

pub deliver-sent_refused :
    (added : Reply (Unit {0})) (w : Ends) → w.0.event_sent ≡ false → deliver sent added w ≡ abort
unfolding deliver
deliver-sent_refused added (s, p) h = ground arith

pub deliver-received_refused :
    (added : Reply (Unit {0})) (w : Ends)
    → w.0.event_received ≡ false
    → deliver received added w ≡ abort
unfolding deliver
deliver-received_refused added (s, p) h = ground arith
