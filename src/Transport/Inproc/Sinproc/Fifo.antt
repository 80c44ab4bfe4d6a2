-- ===== src/Transport/Inproc/Sinproc/Fifo.antt =====
-- Runs of two connected ends.
use mathlib.Core.List.{append-nil}
use vnano_msg.Common.{
  true, false, not, ◌≡◌, refl, sym, ◌∙◌, arith, List, [], ◌∷◌, ◌++◌, map, none, done, Reply,
  length-append,
}
use vnano_msg.Core.Pipes.{Msg, Flags}
use vnano_msg.Core.Pipebase
use vnano_msg.Core.Pipebase.{Pipebase, Side}
use vnano_msg.Aio.Fsm
use vnano_msg.Transport.Msgqueue.{Msgqueue}
use vnano_msg.Transport.Msgqueue.Chunks.{total-append}
use vnano_msg.Transport.Msgqueue.Fifo.{Holds}
use vnano_msg.Transport.Inproc.Sinproc.{
  State, Sinproc, flat, pipe_send, pipe_recv, deliver, sent, received, handshake, init, connect,
  accept, empty_msg, deliver_connect, raise_connect, feed, handle, start_pipe,
}
use vnano_msg.Transport.Inproc.Sinproc.Keeps.{IsSmall, Both, writes_from, returns_from, comes_from}
use vnano_msg.Transport.Inproc.Sinproc.Reads.{reads_from}
use vnano_msg.Transport.Inproc.Sinproc.Way.{
  pending, is_quiet, Stage, quiet, flying, held, answered, Way, Kept,
}

-- The two ends after a handshake and any calls and events, with what each socket sent and got: the
-- messages that the first end sent, those that the second got, those that the second sent and those
-- that the first got.
pub data Run : Sinproc → Sinproc → List Msg → List Msg → List Msg → List Msg → Type 0 where
  opened :
      {s p : Sinproc} (q q' : Msgqueue)
      → Holds q []
      → Holds q' []
      → handshake q q' ≡ done (s, p)
      → Run s p [] [] [] []
  turns : {s p : Sinproc} {a b c d : List Msg} → Run s p a b c d → Run p s c d a b
  writes :
      {s p s' p' : Sinproc} {a b c d : List Msg} (m : Msg) {rc : Flags}
      → Run s p a b c d
      → pipe_send m (s, p) ≡ done (rc, (s', p'))
      → Run s' p' (a ++ m ∷ []) b c d
  reads :
      {s p s' p' : Sinproc} {a b c d : List Msg} {m : Msg} {rc : Flags}
      → Run s p a b c d
      → pipe_recv (s, p) ≡ done (rc, m, (s', p'))
      → Run s' p' a b c (d ++ m ∷ [])
  comes :
      {s p s' p' : Sinproc} {a b c d : List Msg} (added : Reply (Unit {0}))
      → Run s p a b c d
      → deliver sent added (s, p) ≡ done (s', p')
      → Run s' p' a b c d
  returns :
      {s p s' p' : Sinproc} {a b c d : List Msg} (added : Reply (Unit {0}))
      → Run s p a b c d
      → deliver received added (s, p) ≡ done (s', p')
      → Run s' p' a b c d

-- The ends as the handshake leaves them.
abbrev first_end : Msgqueue → Sinproc
first_end q = record {
  fsm = record { phase = Fsm.active; queued = false };
  state = State.active;
  sending = false;
  receiving = false;
  has_peer = true;
  pipebase = record { state = Pipebase.active; instate = Side.async; outstate = Side.ready };
  queue = q;
  msg = empty_msg;
  event_connect = none;
  event_sent = false;
  event_received = false;
  event_disconnect = false;
}

handshake_lem : (q q' : Msgqueue) → handshake q q' ≡ done (first_end q, first_end q')
unfolding handshake connect accept deliver_connect raise_connect feed handle start_pipe init
    Fsm.init Fsm.start Fsm.feed Fsm.is_idle Pipebase.start Pipebase.init
handshake_lem q q' = refl

first_end-Way : (q q' : Msgqueue) → Holds q' [] → Way (first_end q) (first_end q') quiet []
first_end-Way q q' h = record {
  state = refl;
  running = refl;
  sending = refl;
  out = refl;
  receipt = refl;
  notice = refl;
  receiving = refl;
  queue = h;
  inn = refl;
  behind = tt;
}

opened-Both :
    (q q' : Msgqueue) (s p : Sinproc)
    → Holds q []
    → Holds q' []
    → handshake q q' ≡ done (s, p)
    → Both s p [] [] [] []
opened-Both q q' s p h h' e =
    let e0 = sym e ∙ handshake_lem q q' in
    let es : s ≡ first_end q = cc in
    let ep : p ≡ first_end q' = cc in
    rw (es, ep)
      (record {
        stage = quiet;
        queued = [];
        way = first_end-Way q q' h';
        kept = refl;
        stage' = quiet;
        queued' = [];
        way' = first_end-Way q' q h;
        kept' = refl;
      })

turned : {s p : Sinproc} {a b c d : List Msg} → Both s p a b c d → Both p s c d a b
turned v = record {
  stage = v.stage';
  queued = v.queued';
  way = v.way';
  kept = v.kept';
  stage' = v.stage;
  queued' = v.queued;
  way' = v.way;
  kept' = v.kept;
}

short : (a : List Msg) (m : Msg) → IsSmall (a ++ m ∷ []) → IsSmall a
short a m (n, t) = (omega (arith, length-append a (m ∷ [])), omega (arith, total-append a (m ∷ [])))

pub Run-Both :
    {s p : Sinproc} {a b c d : List Msg}
    → Run s p a b c d
    → IsSmall a
    → IsSmall c
    → Both s p a b c d
Run-Both (opened q q' h h' e) m n = opened-Both q q' _ _ h h' e
Run-Both (turns r) m n = turned (Run-Both r n m)
Run-Both (writes {a = a} {b = b} {c = c} {d = d} x r e) m n =
    let v = Run-Both r (short a x m) n in
    writes_from a b c d x _ v.stage v.queued v.stage' v.queued' v.way v.kept v.way' v.kept' e
Run-Both (reads {a = a} {b = b} {c = c} {d = d} r e) m n =
    let v = Run-Both r m n in
    reads_from a b c d v.stage v.queued v.stage' v.queued' v.way v.kept v.way' v.kept' n e
Run-Both (comes {a = a} {b = b} {c = c} {d = d} added r e) m n =
    let v = Run-Both r m n in
    comes_from a b c d added v.stage v.queued v.stage' v.queued' v.way v.kept v.way' v.kept' n e
Run-Both (returns {a = a} {b = b} {c = c} {d = d} added r e) m n =
    let v = Run-Both r m n in
    returns_from a b c d added v.stage v.queued v.stage' v.queued' v.way v.kept v.way' v.kept' e

-- The messages that a sender sent are, in order and each in one piece, those that the other socket
-- got, those in the message queue of the receiver and the one that the sender exposes, if it was not
-- taken yet.
abbrev pub Carries : Sinproc → Sinproc → List Msg → List Msg → Type 0
Carries s p a b =
    (k : Stage) × (l : List Msg) × Holds p.queue l
    × (map flat a ≡ b ++ l ++ pending k s.msg)
    × (s.sending ≡ not (is_quiet k))

-- After a handshake of two ends and any calls of their sockets and events between them, in any
-- order: the messages that a socket sent are, in order and each in one piece, those that the
-- other socket got, then those in the message queue of the receiver, then the one that the
-- sender exposes, if it was not taken yet; a message is exposed only while the flag SENDING is
-- set. The sizes of the messages that a socket sent add up to less than 2 ^ 64, and so does
-- their number.
pub in_order :
    {s p : Sinproc} {a b c d : List Msg}
    → Run s p a b c d
    → IsSmall a
    → IsSmall c
    → Carries s p a b × Carries p s c d
in_order r m n =
    let v = Run-Both r m n in
    (
      (v.stage, v.queued, v.way.queue, v.kept, v.way.sending),
      (v.stage', v.queued', v.way'.queue, v.kept', v.way'.sending),
    )

-- Nothing is under way to an end or waits for its socket.
abbrev pub IsStill : Sinproc → Type 0
IsStill s = (s.event_sent ≡ false) × (s.event_received ≡ false) × (s.pipebase.instate ≡ Side.async)

all_got :
    {s p : Sinproc} (a b : List Msg) (k : Stage) (l : List Msg)
    → Way s p k l
    → Kept s k l a b
    → IsStill s
    → IsStill p
    → (map flat a ≡ b) × (s.pipebase.outstate ≡ Side.ready)
all_got a b k (m ∷ l) v e x y = absurd (ground (arith, v.inn))
all_got a b quiet [] v e x y = (e ∙ append-nil _ ∙ append-nil _, v.out)
all_got a b flying [] v e x y = absurd (ground (arith, v.notice))
all_got a b held [] v e x y = absurd (ground (arith, v.behind))
all_got a b answered [] v e x y = absurd (ground (arith, v.receipt))

-- After a handshake of two ends and any calls of their sockets and events between them, in any
-- order: once no event SENT or RECEIVED is in a queue and neither pipe is ready for reading,
-- each socket got all messages that the other sent, in order and each in one piece, and both
-- pipes are ready for writing. The sizes of the messages that a socket sent add up to less than
-- 2 ^ 64, and so does their number.
pub delivers_all :
    {s p : Sinproc} {a b c d : List Msg}
    → Run s p a b c d
    → IsSmall a
    → IsSmall c
    → IsStill s
    → IsStill p
    → ((map flat a ≡ b) × (s.pipebase.outstate ≡ Side.ready))
      × ((map flat c ≡ d) × (p.pipebase.outstate ≡ Side.ready))
delivers_all {a = a} {b = b} {c = c} {d = d} r m n x y =
    let v = Run-Both r m n in
    (
      all_got a b v.stage v.queued v.way v.kept x y,
      all_got c d v.stage' v.queued' v.way' v.kept' y x,
    )
