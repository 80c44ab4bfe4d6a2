-- ===== src/Transport/Stream/Session/Outward.antt =====
-- What the outbound part of a session leaves as it is.
use vnano_msg.Common.{
  ℕ, ap, ◌∙◌, not, if◌then◌else◌, ◌≡◌, refl, arith, none, some, List, ◌++◌, done, Bool, true, false,
  Option,
}
use vnano_msg.Core.Pipes.{Msg, Flags}
use vnano_msg.Core.Pipebase
use vnano_msg.Core.Pipebase.{Side}
use vnano_msg.Core.Pipebase.Ready.{side_of}
use vnano_msg.Core.Sock.{ℤ}
use vnano_msg.Aio.Fsm
use vnano_msg.Transport.Stream.Usock
use vnano_msg.Transport.Stream.Session.{
  recv, pipe_recv, is_some, Kind, Session, Sock, header, deliver, feed, handle, send, pipe_send,
  Raised, is_active, no_msg, Outstate, fail, has_message, came, Instate, hdr, body, hasmsg, unset,
  got_header, accept_size,
}
use vnano_msg.Transport.Stream.Session.Frames.{payload}

-- What a write leaves.
abbrev pub filled : Kind → Msg → Session → Session
filled k m s = record s {
  outmsg = m;
  outhdr = header k m;
  usock = record s.usock { writing = some (header k m ++ payload m) };
  outstate = Outstate.sending;
  pipebase = record s.pipebase { outstate = Side.async };
}

pub pipe_send_lem :
    (k : Kind) (m : Msg) (s s' : Session) (rc : Flags)
    → pipe_send k m s ≡ done (rc, s')
    → (s' ≡ filled k m s) × (is_active s.state ≡ true)
unfolding pipe_send Pipebase.send send Usock.send Pipebase.settle_side Pipebase.side_after
pipe_send_lem k m s s' rc h = ground arith

abbrev pub drained : Session → Session
drained s = record s {
  usock = record s.usock { writing = none };
  outstate = Outstate.idle;
  outmsg = no_msg;
  pipebase = record s.pipebase { outstate = Side.ready };
}

pub deliver-sent :
    (k : Kind) (e : Sock) (s s' : Session) (x : Option Raised)
    → s.fsm.phase ≡ Fsm.active
    → s.pipebase.outstate ≡ Side.async
    → deliver Usock.Told.sent k e s ≡ done (s', x)
    → s' ≡ drained s
unfolding deliver feed Fsm.feed handle Pipebase.sent Pipebase.complete fail
deliver-sent k e s s' x p o h = ground arith

-- NN_USOCK_SHUTDOWN and NN_USOCK_ERROR
abbrev pub IsBreak : Usock.Told → Type 0
IsBreak Usock.Told.shutdown = Unit {0}
IsBreak Usock.Told.error = Unit {0}
IsBreak _ = ⊥

-- The outbound part stays as it is.
pub record SameOut (s s' : Session) : Type 0 where
  pub phase : s'.fsm.phase ≡ s.fsm.phase
  pub outstate : s'.outstate ≡ s.outstate
  pub out : s'.pipebase.outstate ≡ s.pipebase.outstate
  pub writing : s'.usock.writing ≡ s.usock.writing

has_message-SameOut :
    (s s' : Session) (x : Option Raised) → has_message s ≡ done (s', x) → SameOut s s'
unfolding has_message Pipebase.received
has_message-SameOut s s' x h = ground arith

came-SameOut :
    (i : Instate) (k : Kind) (o : ℤ) (bytes : List ℕ) (s s' : Session) (x : Option Raised)
    → came i k o bytes s ≡ done (s', x)
    → SameOut s s'
unfolding came got_header accept_size fail Usock.recv
came-SameOut hdr k o bytes s s' x h =
    ground (arith, λ (n : ℕ). has_message-SameOut (record s { inhdr = bytes; inmsg = no_msg }) s' x)
came-SameOut body k o bytes s s' x h =
    let v = has_message-SameOut (record s { inmsg = record no_msg { body = bytes } }) s' x h in
    record { phase = v.phase; outstate = v.outstate; out = v.out; writing = v.writing }
came-SameOut unset k o bytes s s' x h = absurd (ground arith)
came-SameOut hasmsg k o bytes s s' x h = absurd (ground arith)

pub received-SameOut :
    (k : Kind) (e : Sock) (bytes : List ℕ) (s s' : Session) (x : Option Raised)
    → s.fsm.phase ≡ Fsm.active
    → deliver (Usock.Told.received bytes) k e s ≡ done (s', x)
    → SameOut s s'
unfolding deliver feed Fsm.feed handle
received-SameOut k e bytes s s' x run h =
    let now : Session = record s { usock = record s.usock { reading = none } } in
    ground (arith, came-SameOut s.instate k e.rcvmaxsize bytes now s' x)

-- The stream is closed, or broken: the session reads and writes no more.
pub breaks-SameOut :
    (k : Kind) (e : Sock) (t : Usock.Told) (s s' : Session) (x : Option Raised)
    → IsBreak t
    → s.fsm.phase ≡ Fsm.active
    → deliver t k e s ≡ done (s', x)
    → SameOut s s' × (is_active s'.state ≡ false)
unfolding deliver feed Fsm.feed handle fail Pipebase.stop
breaks-SameOut k e Usock.Told.shutdown s s' x b run h = ground arith
breaks-SameOut k e Usock.Told.error s s' x b run h = ground arith
breaks-SameOut k e Usock.Told.sent s s' x b run h = absurd b
breaks-SameOut k e (Usock.Told.received bytes) s s' x b run h = absurd b

pub reads-SameOut :
    (k : Kind) (s s' : Session) (m : Msg) (rc : Flags)
    → pipe_recv k s ≡ done (rc, m, s')
    → SameOut s s'
unfolding pipe_recv Pipebase.recv recv Usock.recv Pipebase.settle_side Pipebase.side_after
reads-SameOut k s s' m rc h = ground arith

-- Whether a write is under way.
pub record Outward (s : Session) (busy : Bool) : Type 0 where
  pub outstate : s.outstate ≡ (if busy then Outstate.sending else Outstate.idle)
  pub out : s.pipebase.outstate ≡ side_of (not busy)
  pub writing : is_some s.usock.writing ≡ busy

pub Outward-SameOut :
    (s s' : Session) (busy : Bool) → SameOut s s' → Outward s busy → Outward s' busy
Outward-SameOut s s' busy e o = record {
  outstate = e.outstate ∙ o.outstate;
  out = e.out ∙ o.out;
  writing = ap is_some e.writing ∙ o.writing;
}

pub filled-Outward : (k : Kind) (m : Msg) (s : Session) → Outward (filled k m s) true
filled-Outward k m s = record { outstate = refl; out = refl; writing = refl }

pub drained-Outward : (s : Session) → Outward (drained s) false
drained-Outward s = record { outstate = refl; out = refl; writing = refl }

pub deliver-sent_idle :
    (k : Kind) (e : Sock) (s s' : Session) (x : Option Raised)
    → is_some s.usock.writing ≡ false
    → deliver Usock.Told.sent k e s ≡ done (s', x)
    → ⊥
unfolding deliver
deliver-sent_idle k e s s' x w h = ground arith
