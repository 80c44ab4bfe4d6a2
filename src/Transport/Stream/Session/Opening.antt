-- ===== src/Transport/Stream/Session/Opening.antt =====
-- How a session gets to its first message: the exchange of headers over the stream, with the work
-- that its timer has for the worker.
use vnano_msg.Common.{
  ℕ, ◌%◌, ◌^◌, ◌<◌, ◌≡◌, refl, arith, none, some, List, [], ◌∷◌, ◌++◌, Outcome, done, abort, ◌>>=◌,
  Bool, true, Bool-cases, inl, inr, if◌then◌else◌, Reply, ok, Option,
}
use vnano_msg.Utils.Wire.{puts, gets}
use vnano_msg.Utils.Wire.RoundTrip.{get-put}
use vnano_msg.Core.Pipebase
use vnano_msg.Aio.Fsm
use vnano_msg.Aio.Timer
use vnano_msg.Transport.Stream.Usock
use vnano_msg.Transport.Stream.Streamhdr
use vnano_msg.Transport.Stream.Streamhdr.{Streamhdr, compose, magic, begins}
use vnano_msg.Transport.Stream.Session.{
  Kind, State, Session, Sock, init, start, next_event, apply, handle, feed, start_pipe, fail,
  with_events, Raised,
}

-- The work on the header exchange alone, until it raised an event: the header is written, eight
-- bytes come, and the worker executes the two tasks of the timer.
abbrev pub exchange : Sock → List ℕ → Session → Outcome Session
exchange e bytes s = do
  (h1, u1, r1) ← Streamhdr.feed (Streamhdr.usock Usock.Told.sent) e.ispeer (s.streamhdr, s.usock)
  (h2, u2, r2) ← Streamhdr.feed (Streamhdr.usock (Usock.Told.received bytes)) e.ispeer (h1, u1)
  (h3, u3, r3) ← Streamhdr.run_task e.ispeer (h2, u2)
  (h4, u4, r4) ← Streamhdr.run_task e.ispeer (h3, u3)
  done (apply (h4, u4, r4) s)

-- From the start to the end of the exchange, with the events that it raises.
abbrev pub open_with : Kind → Sock → List ℕ → Outcome (Session × Option Raised)
open_with k e bytes = do
  (s1, r1) ← start k e init
  s2 ← exchange e bytes s1
  (s3, r3) ← next_event k e s2
  elim r3 [ some x ↦ done (s3, some x) | none ↦ next_event k e s3 ]

compose_parts :
    (q : ℕ)
    → q < 2 ^ 16
    → (begins (compose q) magic ≡ true) × (gets (puts (q % 2 ^ 16) ++ 0 ∷ 0 ∷ []) ≡ some q)
unfolding begins compose
compose_parts q h =
    let e : q % 2 ^ 16 ≡ q = omega arith in
    (refl, rw e ((get-put q 0 0 (0 ∷ 0 ∷ []) h (omega arith) (omega arith)).0))

check-compose :
    (ispeer : ℕ → Bool) (q : ℕ) (h : Streamhdr)
    → q < 2 ^ 16
    → Streamhdr.check ispeer (compose q) h
      ≡ Streamhdr.stop_timer
          (if ispeer q
            then Streamhdr.State.stopping_timer_done
            else Streamhdr.State.stopping_timer_error)
          h
unfolding Streamhdr.check begins compose
check-compose ispeer q h l = let (b, g) = compose_parts q l in rw g refl

-- Where the session is then, and what its owner is told.
abbrev pub result_of : Outcome (Session × Option Raised) → Option (State × Option Raised)
result_of (done (s, r)) = some (s.state, r)
result_of abort = none

abbrev pub opened_by : Bool → Reply (Unit {0}) → State × Option Raised
opened_by true (ok u) = (State.active, none)
opened_by _ _ = (State.finished, some Raised.error)

-- A session that is started, whose stream takes its protocol header and brings that of a
-- protocol below 2 ^ 16, and whose timer gets its work done: it becomes active, and its owner is
-- told nothing, exactly if nn_pipebase_ispeer takes the protocol and nn_sock_add takes the pipe;
-- otherwise it is done, and its owner is told of an error.
pub opens :
    (k : Kind) (e : Sock) (q : ℕ)
    → q < 2 ^ 16
    → result_of (open_with k e (compose q)) ≡ some (opened_by (e.ispeer q) e.added)
unfolding start init handle feed next_event apply with_events start_pipe Streamhdr.start
    Streamhdr.init Streamhdr.feed Streamhdr.handle Streamhdr.run_task Streamhdr.forward
    Streamhdr.stop_timer Streamhdr.hand_back Streamhdr.stop Streamhdr.shut Streamhdr.finish
    Timer.init Timer.start Timer.handle Timer.execute Timer.stop Timer.shut Timer.run_task
    Timer.feed Timer.is_idle Fsm.init Fsm.start Fsm.stop Fsm.feed Fsm.stopped Fsm.is_idle
    Fsm.processed Usock.send Usock.recv Usock.idle Pipebase.start Pipebase.init fail
opens k e q h = elim (Bool-cases (e.ispeer q)) [
  | inl accepts ↦ rw (accepts, check-compose e.ispeer q _ h, accepts) (ground arith)
  | inr refuses ↦ rw (refuses, check-compose e.ispeer q _ h, refuses) refl
]
