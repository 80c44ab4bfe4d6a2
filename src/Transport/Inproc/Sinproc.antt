-- ===== src/Transport/Inproc/Sinproc.antt =====
-- transports/inproc/sinproc.c: one end of a connection within the process. A call works on the object
-- and on its peer, which it reads from, writes to and raises events to.
pub mod Steps
pub mod Way
pub mod Keeps
pub mod Reads
pub mod Fifo
pub mod Complete
use vnano_msg.Common.{
  Bool, true, false, not, ◌&&◌, ◌||◌, Option, none, some, [], ◌++◌, Outcome, done, abort, ◌>>=◌,
  ◌>>◌, assert, Reply, ok, err, eagain, if◌then◌else◌,
}
use vnano_msg.Core.Pipes.{Msg, Flags}
use vnano_msg.Core.Pipebase
use vnano_msg.Core.Pipebase.{Pipebase, Transport}
use vnano_msg.Aio.Fsm
use vnano_msg.Aio.Fsm.{Fsm}
use vnano_msg.Transport.Msgqueue
use vnano_msg.Transport.Msgqueue.{Msgqueue}

-- NN_SINPROC_STATE_*; `readied` is NN_SINPROC_STATE_READY.
pub data State : Type 0 where
  idle connecting readied active disconnected stopping_peer stopping : State

-- NN_FSM_START, NN_FSM_STOP, NN_SINPROC_ACTION_READY, and what a peer raises; `connects` goes to the
-- object that accepts connections.
pub data Event : Type 0 where
  starts stops ready_action connects ready accepted sent received disconnect : Event

-- `struct nn_sinproc`: the flags SENDING and RECEIVING, and which events are in a queue. The event
-- `event_connect` goes to the peer, the others come to the object, or to its owner at the end.
pub record Sinproc : Type 0 where
  pub fsm : Fsm
  pub state : State
  pub sending : Bool
  pub receiving : Bool
  pub has_peer : Bool
  pub pipebase : Pipebase
  pub queue : Msgqueue
  pub msg : Msg
  pub event_connect : Option Event
  pub event_sent : Bool
  pub event_received : Bool
  pub event_disconnect : Bool

abbrev pub empty_msg : Msg
empty_msg = record { sphdr = []; hdrs = []; body = [] }

abbrev pub no_flags : Flags
no_flags = record { release = false; parsed = false }

abbrev pub is_active : State → Bool
is_active active = true
is_active _ = false

abbrev pub is_disconnected : State → Bool
is_disconnected disconnected = true
is_disconnected _ = false

abbrev pub is_none : Option Event → Bool
is_none none = true
is_none (some e) = false

-- `queue` is what `nn_msgqueue_init` made for NN_RCVBUF.
unfoldable pub init : Msgqueue → Sinproc
init queue = record {
  fsm = Fsm.init;
  state = idle;
  sending = false;
  receiving = false;
  has_peer = false;
  pipebase = Pipebase.init;
  queue = queue;
  msg = empty_msg;
  event_connect = none;
  event_sent = false;
  event_received = false;
  event_disconnect = false;
}

unfoldable pub term : Sinproc → Outcome (Unit {0})
term s = do
  assert (not s.event_disconnect)
  assert (not s.event_received)
  assert (not s.event_sent)
  assert (is_none s.event_connect)
  Msgqueue.term s.queue
  Pipebase.term s.pipebase
  assert (Fsm.is_idle s.fsm)

-- An event is raised only if it is not in a queue yet.
unfoldable pub raise_connect : Event → Sinproc → Outcome Sinproc
raise_connect e s = do assert (is_none s.event_connect); done (record s { event_connect = some e })

unfoldable pub raise_sent : Sinproc → Outcome Sinproc
raise_sent p = do assert (not p.event_sent); done (record p { event_sent = true })

unfoldable pub raise_received : Sinproc → Outcome Sinproc
raise_received p = do assert (not p.event_received); done (record p { event_received = true })

unfoldable pub raise_disconnect : Sinproc → Outcome Sinproc
raise_disconnect p = do assert (not p.event_disconnect); done (record p { event_disconnect = true })

-- The object and its peer.
abbrev pub Ends : Type 0
Ends = Sinproc × Sinproc

-- The message as it is exposed to the peer, in one piece.
unfoldable pub flat : Msg → Msg
flat m = record { sphdr = []; hdrs = []; body = m.sphdr ++ m.body }

-- `nn_sinproc_send`; the error for a closed connection fails an assertion of `nn_pipe_send`.
unfoldable pub send : Msg → Ends → Outcome (Flags × Bool × Ends)
send m (s, p) = do
  assert (not (is_disconnected s.state))
  assert (is_active s.state)
  assert (not s.sending)
  p' ← raise_sent p
  done (no_flags, false, (record s { msg = flat m; sending = true }, p'))

-- A message of the peer that did not fit is tried again.
unfoldable pub retry : Ends → Outcome (Ends)
retry (s, p) =
    let (rc, q) = Msgqueue.send s.queue p.msg in
    elim rc [
      | err e ↦ elim e [ eagain ↦ done (s, p) | _ ↦ abort ]
      | ok u ↦ do
        p' ← raise_received (record p { msg = empty_msg })
        done (record s { queue = q; receiving = false }, p')
    ]

unfoldable pub recv : Ends → Outcome (Flags × Bool × Msg × Ends)
recv (s, p) = do
  assert (is_active s.state || is_disconnected s.state)
  (rc, q) ← Msgqueue.recv s.queue
  elim rc [
    | err e ↦ abort
    | ok m ↦ do
      let s1 : Sinproc = record s { queue = q }
      (s', p') ←
          if not (is_disconnected s.state) && s.receiving then retry (s1, p) else done (s1, p)
      done (no_flags, not (Msgqueue.empty s'.queue), m, (s', p'))
  ]

-- The transport of a pipe, over the object and its peer.
abbrev pub transport : Transport
transport = record { World = Ends; send = send; recv = recv }

-- `nn_pipe_send` and `nn_pipe_recv` on the pipe of the object.
unfoldable pub pipe_send : Msg → Ends → Outcome (Flags × Ends)
pipe_send m (s, p) = do
  (rc, b, (s', p')) ← Pipebase.send transport s.pipebase m (s, p)
  done (rc, (record s' { pipebase = b }, p'))

unfoldable pub pipe_recv : Ends → Outcome (Flags × Msg × Ends)
pipe_recv (s, p) = do
  (rc, m, b, (s', p')) ← Pipebase.recv transport s.pipebase (s, p)
  done (rc, m, (record s' { pipebase = b }, p'))

-- A message comes in: it goes to the queue, or stays with the peer.
unfoldable pub take_message : Ends → Outcome (Ends)
take_message (s, p) =
    let empty = Msgqueue.empty s.queue in
    let (rc, q) = Msgqueue.send s.queue p.msg in
    elim rc [
      | err e ↦ elim e [ eagain ↦ done (record s { receiving = true }, p) | _ ↦ abort ]
      | ok u ↦ do
        b ←
            if empty
            then (do (raised, b) ← Pipebase.received s.pipebase; done b)
            else done s.pipebase
        p' ← raise_received (record p { msg = empty_msg })
        done (record s { queue = q; pipebase = b }, p')
    ]

-- The pipe is started, and `nn_sock_add` must take it.
unfoldable pub start_pipe : Reply (Unit {0}) → Sinproc → Outcome Sinproc
start_pipe added s = do
  (rc, b) ← Pipebase.start s.pipebase added
  elim rc [ err e ↦ abort | ok u ↦ done (record s { pipebase = b; state = active }) ]

-- The connection is over, and the owner is told.
unfoldable pub drop_peer : Sinproc → Outcome Sinproc
drop_peer s =
    raise_disconnect
      (record s { pipebase = (Pipebase.stop s.pipebase).1; state = disconnected; has_peer = false })

-- `nn_sinproc_handler`, by the state; `added` is what `nn_sock_add` answers.
unfoldable pub handle : State → Event → Reply (Unit {0}) → Ends → Outcome (Ends)
handle idle starts added (s, p) = done (record s { state = connecting }, p)
handle connecting ready_action added (s, p) = done (record s { state = readied }, p)
handle connecting ready added (s, p) = do
  s1 ← start_pipe added (record s { has_peer = true })
  s2 ← raise_connect accepted s1
  done (s2, p)
handle readied ready added (s, p) = do s' ← start_pipe added s; done (s', p)
handle readied accepted added (s, p) = do
  (rc, b) ← Pipebase.start s.pipebase added
  elim rc [
    | err e ↦ do s' ← drop_peer (record s { pipebase = b }); done (s', p)
    | ok u ↦ done (record s { pipebase = b; state = active }, p)
  ]
handle active sent added (s, p) = take_message (s, p)
handle active received added (s, p) = do
  assert s.sending
  (raised, b) ← Pipebase.sent s.pipebase
  done (record s { pipebase = b; sending = false }, p)
handle active disconnect added (s, p) = do p' ← raise_disconnect p; s' ← drop_peer s; done (s', p')
handle disconnected received added (s, p) = done (s, p)
handle _ _ added (s, p) = abort

-- The start of the shutdown: a peer that is there is told.
unfoldable pub part : State → Ends → Outcome (Ends)
part idle (s, p) = done (record s { state = stopping }, p)
part disconnected (s, p) = done (record s { state = stopping }, p)
part _ (s, p) = do
  p' ← raise_disconnect p
  done (record s { pipebase = (Pipebase.stop s.pipebase).1; state = stopping_peer }, p')

-- `nn_sinproc_shutdown_events`, by the state.
unfoldable pub shutdown_events : State → Event → Ends → Outcome (Ends)
shutdown_events st stops w = part st w
shutdown_events _ received w = done w
shutdown_events stopping_peer disconnect (s, p) = done (record s { state = stopping }, p)
shutdown_events stopping_peer ready w = done w
shutdown_events stopping_peer accepted w = done w
shutdown_events stopping_peer sent w = done w
shutdown_events _ _ w = abort

abbrev pub has_stopped : State → Bool
has_stopped stopping = true
has_stopped _ = false

-- The object has stopped, unless an event for it is still in a queue.
unfoldable pub finish : Sinproc → Outcome Sinproc
finish s =
    let ended : Outcome Sinproc = do
      assert (is_none s.event_connect)
      assert (not s.event_sent)
      fsm ← Fsm.stopped s.fsm
      done (record s { fsm = fsm })
    in if not (has_stopped s.state) || (s.event_received || s.event_disconnect)
      then done s
      else ended

unfoldable pub shut : Event → Ends → Outcome (Ends)
shut e (s, p) = do (s1, p') ← shutdown_events s.state e (s, p); s' ← finish s1; done (s', p')

unfoldable pub feed : Event → Reply (Unit {0}) → Ends → Outcome (Ends)
feed e added (s, p) = Fsm.feed s.fsm (handle s.state e added (s, p)) (shut e (s, p))

-- An event leaves its queue and is handed to the state machine.
unfoldable pub deliver : Event → Reply (Unit {0}) → Ends → Outcome (Ends)
deliver sent added (s, p) = do
  assert s.event_sent
  feed sent added (record s { event_sent = false }, p)
deliver received added (s, p) = do
  assert s.event_received
  feed received added (record s { event_received = false }, p)
deliver disconnect added (s, p) = do
  assert s.event_disconnect
  feed disconnect added (record s { event_disconnect = false }, p)
deliver _ added (s, p) = abort

-- The event `event_connect` of the peer.
unfoldable pub deliver_connect : Reply (Unit {0}) → Ends → Outcome Ends
deliver_connect added (s, p) = elim p.event_connect [
  | none ↦ abort
  | some e ↦ feed e added (s, record p { event_connect = none })
]

-- `nn_sinproc_connect`; the event goes to the object that accepts connections.
unfoldable pub connect : Ends → Outcome (Ends)
connect (s, p) = Fsm.start s.fsm (λ fsm. do
  (s1, p') ← handle s.state starts (ok tt) (s, p)
  s' ← raise_connect connects (record s1 { fsm = fsm })
  done (s', p'))

-- `nn_sinproc_accept`
unfoldable pub accept : Ends → Outcome (Ends)
accept (s, p) = do
  assert (not s.has_peer)
  s1 ← raise_connect ready (record s { has_peer = true })
  (s2, p2) ← Fsm.start s1.fsm (λ fsm. do
    (s', p') ← handle s1.state starts (ok tt) (s1, p)
    done (record s' { fsm = fsm }, p'))
  feed ready_action (ok tt) (s2, p2)

unfoldable pub stop : Ends → Outcome (Ends)
stop (s, p) = Fsm.stop s.fsm (done (s, p)) (λ fsm. shut stops (record s { fsm = fsm }, p))

-- The calls and events by which two ends become connected: one connects, the object that accepts
-- connections takes its event and lets a new end accept, and each of the two is told by the other.
unfoldable pub handshake : Msgqueue → Msgqueue → Outcome Ends
handshake q q' = do
  (s1, _) ← connect (init q, init q')
  assert (not (is_none s1.event_connect))
  (p1, s2) ← accept (init q', record s1 { event_connect = none })
  (s3, p2) ← deliver_connect (ok tt) (s2, p1)
  (p3, s4) ← deliver_connect (ok tt) (p2, s3)
  done (s4, p3)
