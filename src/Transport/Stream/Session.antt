-- ===== src/Transport/Stream/Session.antt =====
-- transports/tcp/stcp.c and transports/ipc/sipc.c: a session sends each message behind its size, and
-- reads the size and then the message. The two do the same, but for one byte in front of the size
-- and an assertion on it.
pub mod Frames
pub mod Inward
pub mod Outward
pub mod Arrive
pub mod Ends
pub mod Runs
pub mod Complete
pub mod Opening
use vnano_msg.Common.{
  ℕ, ◌+◌, ◌%◌, ◌^◌, Bool, true, false, not, ◌&&◌, Option, none, some, List, [], ◌∷◌, ◌++◌, length,
  drop, Outcome, done, abort, ◌>>=◌, ◌>>◌, assert, Reply, ok, err, ltb, ◌==◌, if◌then◌else◌,
}
use vnano_msg.Utils.Wire.{getll, putll}
use vnano_msg.Core.Pipes.{Msg, Flags}
use vnano_msg.Core.Pipebase
use vnano_msg.Core.Pipebase.{Pipebase, Transport}
use vnano_msg.Core.Sock.{ℤ, is_pos}
use vnano_msg.Aio.Fsm
use vnano_msg.Aio.Fsm.{Fsm}
use vnano_msg.Transport.Stream.Usock
use vnano_msg.Transport.Stream.Usock.{Usock}
use vnano_msg.Transport.Stream.Streamhdr
use vnano_msg.Transport.Stream.Streamhdr.{Streamhdr}

pub data Kind : Type 0 where
  tcp ipc : Kind

-- NN_STCP_STATE_*; `finished` is NN_STCP_STATE_DONE.
pub data State : Type 0 where
  idle protohdr stopping_streamhdr active shutting_down finished stopping : State

-- NN_STCP_INSTATE_* and NN_STCP_OUTSTATE_*; `unset` is -1.
pub data Instate : Type 0 where
  unset hdr body hasmsg : Instate

pub data Outstate : Type 0 where
  unset idle sending : Outstate

pub data Event : Type 0 where
  starts stops : Event
  usock : Usock.Told → Event
  streamhdr : Streamhdr.Raised → Event

-- NN_STCP_ERROR and NN_STCP_STOPPED, raised to the owner.
pub data Raised : Type 0 where
  error stopped : Raised

-- `struct nn_stcp`. `events` are those that the header exchange raised and that were not handled
-- yet.
pub record Session : Type 0 where
  pub fsm : Fsm
  pub state : State
  pub usock : Usock
  pub has_usock : Bool
  pub streamhdr : Streamhdr
  pub events : List Streamhdr.Raised
  pub pipebase : Pipebase
  pub instate : Instate
  pub inhdr : List ℕ
  pub inmsg : Msg
  pub outstate : Outstate
  pub outhdr : List ℕ
  pub outmsg : Msg

-- What the socket of the pipe answers: `nn_sock_add`, NN_PROTOCOL, `nn_sock_ispeer` and
-- NN_RCVMAXSIZE.
pub record Sock : Type 0 where
  pub added : Reply (Unit {0})
  pub protocol : ℕ
  pub ispeer : ℕ → Bool
  pub rcvmaxsize : ℤ

abbrev pub no_msg : Msg
no_msg = record { sphdr = []; hdrs = []; body = [] }

abbrev pub nothing : Flags
nothing = record { release = false; parsed = false }

unfoldable pub init : Session
init = record {
  fsm = Fsm.init;
  state = idle;
  usock = Usock.idle;
  has_usock = false;
  streamhdr = Streamhdr.init;
  events = [];
  pipebase = Pipebase.init;
  instate = unset;
  inhdr = [];
  inmsg = no_msg;
  outstate = unset;
  outhdr = [];
  outmsg = no_msg;
}

abbrev pub is_idle_state : State → Bool
is_idle_state idle = true
is_idle_state _ = false

abbrev pub is_active : State → Bool
is_active active = true
is_active _ = false

abbrev pub is_hasmsg : Instate → Bool
is_hasmsg hasmsg = true
is_hasmsg _ = false

abbrev pub may_send : Outstate → Bool
may_send idle = true
may_send _ = false

abbrev pub is_sending : Outstate → Bool
is_sending sending = true
is_sending _ = false

abbrev pub is_some : Option (List ℕ) → Bool
is_some none = false
is_some (some bytes) = true

-- A read of this many bytes is asked for.
abbrev pub reads : ℕ → Option ℕ → Bool
reads n none = false
reads n (some asked) = asked == n

unfoldable pub term : Session → Outcome (Unit {0})
term s = do
  assert (is_idle_state s.state)
  Pipebase.term s.pipebase
  Streamhdr.term s.streamhdr
  assert (Fsm.is_idle s.fsm)

unfoldable pub is_idle : Session → Bool
is_idle s = Fsm.is_idle s.fsm

-- NN_SIPC_MSG_NORMAL stands in front of the size.
abbrev pub prefix : Kind → List ℕ
prefix tcp = []
prefix ipc = 1 ∷ []

-- The size of `inhdr`.
abbrev pub hdr_size : Kind → ℕ
hdr_size tcp = 8
hdr_size ipc = 9

unfoldable pub header : Kind → Msg → List ℕ
header k m = prefix k ++ putll ((length m.sphdr + length m.body) % 2 ^ 64)

-- `nn_stcp_send`
unfoldable pub send : Kind → Msg → Session → Outcome (Flags × Bool × Session)
send k m s = do
  assert (is_active s.state)
  assert (may_send s.outstate)
  let bytes = header k m
  done (
    nothing,
    false,
    record s {
      outmsg = m;
      outhdr = bytes;
      usock = Usock.send (bytes ++ (m.sphdr ++ m.body)) s.usock;
      outstate = sending;
    },
  )

-- `nn_stcp_recv`
unfoldable pub recv : Kind → Session → Outcome (Flags × Bool × Msg × Session)
recv k s = do
  assert (is_active s.state)
  assert (is_hasmsg s.instate)
  done (
    nothing,
    false,
    s.inmsg,
    record s { inmsg = no_msg; instate = hdr; usock = Usock.recv (hdr_size k) s.usock },
  )

-- The size that a header tells. A header is as long as the read that brought it.
unfoldable pub size_in : Kind → List ℕ → Outcome ℕ
size_in tcp bytes = elim (getll bytes) [ none ↦ abort | some n ↦ done n ]
size_in ipc [] = abort
size_in ipc (b ∷ bytes) = do assert (b == 1); elim (getll bytes) [ none ↦ abort | some n ↦ done n ]

-- `opt >= 0 && size > (unsigned)opt`
unfoldable pub too_large : ℤ → ℕ → Bool
too_large opt size = is_pos (λ n. ltb n size) opt

unfoldable pub fail : Session → Outcome (Session × Option Raised)
fail s = done (record s { state = finished }, some error)

unfoldable pub has_message : Session → Outcome (Session × Option Raised)
has_message s = do
  (raised, b) ← Pipebase.received s.pipebase
  done (record s { instate = hasmsg; pipebase = b }, none)

-- The size is known; the special case is that of an empty body.
unfoldable pub accept_size : Kind → Bool → ℕ → Session → Outcome (Session × Option Raised)
accept_size k true size s = fail s
accept_size k false size s =
    if size == 0
    then has_message (record s { inmsg = no_msg })
    else done (record s { inmsg = no_msg; instate = body; usock = Usock.recv size s.usock }, none)

-- A header came.
unfoldable pub got_header : Kind → ℤ → List ℕ → Session → Outcome (Session × Option Raised)
got_header k opt bytes s = do
  size ← size_in k bytes
  accept_size k (too_large opt size) size (record s { inhdr = bytes })

-- Bytes came, by the state of the inbound part.
unfoldable pub came : Instate → Kind → ℤ → List ℕ → Session → Outcome (Session × Option Raised)
came hdr k opt bytes s = got_header k opt bytes s
came body k opt bytes s = has_message (record s { inmsg = record no_msg { body = bytes } })
came _ k opt bytes s = abort

unfoldable pub with_events : Option Streamhdr.Raised → Session → Session
with_events none s = s
with_events (some r) s = record s { events = s.events ++ r ∷ [] }

-- The pipe is started, and the first header is read.
unfoldable pub start_pipe : Kind → Sock → Session → Outcome (Session × Option Raised)
start_pipe k e s = do
  (rc, b) ← Pipebase.start s.pipebase e.added
  elim rc [
    | err x ↦ fail (record s { pipebase = b })
    | ok u ↦ done (
      record s {
        pipebase = b;
        instate = hdr;
        usock = Usock.recv (hdr_size k) s.usock;
        outstate = idle;
        state = active;
      },
      none,
    )
  ]

-- `nn_stcp_handler`, by the state.
unfoldable pub handle : State → Event → Kind → Sock → Session → Outcome (Session × Option Raised)
handle idle starts k e s = do
  (h, u, r) ← Streamhdr.start e.protocol (s.streamhdr, s.usock)
  done (with_events r (record s { streamhdr = h; usock = u; state = protohdr }), none)
handle protohdr (streamhdr Streamhdr.Raised.accepted) k e s = do
  (h, r) ← Streamhdr.stop s.streamhdr
  done (with_events r (record s { streamhdr = h; state = stopping_streamhdr }), none)
handle protohdr (streamhdr Streamhdr.Raised.error) k e s = fail s
handle stopping_streamhdr (streamhdr Streamhdr.Raised.stopped) k e s = start_pipe k e s
handle active (usock Usock.Told.sent) k e s = do
  assert (is_sending s.outstate)
  (raised, b) ← Pipebase.sent s.pipebase
  done (record s { outstate = idle; outmsg = no_msg; pipebase = b }, none)
handle active (usock (Usock.Told.received bytes)) k e s = came s.instate k e.rcvmaxsize bytes s
handle active (usock Usock.Told.shutdown) k e s =
    done (record s { pipebase = (Pipebase.stop s.pipebase).1; state = shutting_down }, none)
handle active (usock Usock.Told.error) k e s =
    fail (record s { pipebase = (Pipebase.stop s.pipebase).1 })
handle shutting_down (usock Usock.Told.error) k e s = fail s
handle _ _ k e s = abort

-- The end of the shutdown, once the header exchange is idle.
unfoldable pub finish : Session → Outcome (Session × Option Raised)
finish s =
    let ended : Outcome (Session × Option Raised) = do
      fsm ← Fsm.stopped s.fsm
      done (record s { fsm = fsm; has_usock = false; state = idle }, some stopped)
    in if Streamhdr.is_idle s.streamhdr then ended else done (s, none)

-- `nn_stcp_shutdown`, by the state.
unfoldable pub shut : State → Event → Session → Outcome (Session × Option Raised)
shut _ stops s = do
  (h, r) ← Streamhdr.stop s.streamhdr
  finish (
      with_events r
        (record s { pipebase = (Pipebase.stop s.pipebase).1; streamhdr = h; state = stopping }))
shut stopping e s = finish s
shut _ e s = abort

unfoldable pub feed : Event → Kind → Sock → Session → Outcome (Session × Option Raised)
feed e k sock s = Fsm.feed s.fsm (handle s.state e k sock s) (shut s.state e s)

-- `nn_stcp_start`, with a socket that is connected.
unfoldable pub start : Kind → Sock → Session → Outcome (Session × Option Raised)
start k e s = do
  assert (not s.has_usock)
  let s1 : Session = record s { has_usock = true }
  Fsm.start s1.fsm (λ fsm. handle s1.state starts k e (record s1 { fsm = fsm }))

unfoldable pub stop : Session → Outcome (Session × Option Raised)
stop s = Fsm.stop s.fsm (done (s, none)) (λ fsm. shut s.state stops (record s { fsm = fsm }))

-- The socket is done with a read or a write that was asked for.
unfoldable pub deliver : Usock.Told → Kind → Sock → Session → Outcome (Session × Option Raised)
deliver Usock.Told.sent k e s = do
  assert (is_some s.usock.writing)
  feed (usock Usock.Told.sent) k e (record s { usock = record s.usock { writing = none } })
deliver (Usock.Told.received bytes) k e s = do
  assert (reads (length bytes) s.usock.reading)
  feed (usock (Usock.Told.received bytes)) k e
      (record s { usock = record s.usock { reading = none } })
deliver told k e s = feed (usock told) k e s

-- The first event of the header exchange is handled.
unfoldable pub next_event : Kind → Sock → Session → Outcome (Session × Option Raised)
next_event k e s = elim s.events [
  | [] ↦ done (s, none)
  | r ∷ rest ↦ feed (streamhdr r) k e (record s {
    events = rest;
    streamhdr = record s.streamhdr { fsm = Fsm.processed s.streamhdr.fsm };
  })
]

-- What the header exchange did, to its socket and to the queue of events.
unfoldable pub apply : Streamhdr × Usock × Option Streamhdr.Raised → Session → Session
apply (h, u, r) s = with_events r (record s { streamhdr = h; usock = u })

-- The transport of a pipe.
abbrev pub transport : Kind → Transport
transport k = record { World = Session; send = send k; recv = recv k }

-- `nn_pipe_send` and `nn_pipe_recv` on the pipe of the session.
unfoldable pub pipe_send : Kind → Msg → Session → Outcome (Flags × Session)
pipe_send k m s = do
  (rc, b, s') ← Pipebase.send (transport k) s.pipebase m s
  done (rc, record s' { pipebase = b })

unfoldable pub pipe_recv : Kind → Session → Outcome (Flags × Msg × Session)
pipe_recv k s = do
  (rc, m, b, s') ← Pipebase.recv (transport k) s.pipebase s
  done (rc, m, record s' { pipebase = b })
