-- ===== src/Protocol/Survey/Surveyor/Shapes.antt =====
-- The states that a SURVEYOR socket and its timer are in together, before it is stopped.
use vnano_msg.Common.{ℕ, ◌≡◌, refl, Bool, true, false, Option, none, some, Outcome, done}
use vnano_msg.Core.Pipes.{Msg, Pipes}
use vnano_msg.Utils.Wire.{putl}
use vnano_msg.Aio.Fsm
use vnano_msg.Aio.Timer.Worker
use vnano_msg.Aio.Timer.Worker.{Mode, timer_of, start_mode, stop_mode, run_task_mode, expire_mode}
use vnano_msg.Protocol.Priolist.Invariant.{Inv}
use vnano_msg.Protocol.Dist.Total.{TakesWrites, send_total}
use vnano_msg.Protocol.Reqrep.Req.Shapes.{
  Run, early, late, Halt, unstarted, started, run_mode, halt_mode, halted,
}
use vnano_msg.Protocol.Survey.Xsurveyor
use vnano_msg.Protocol.Survey.Xsurveyor.{Xsurveyor}
use vnano_msg.Protocol.Survey.Surveyor.{Surveyor, State, Event, resend, start_survey, handle, feed}
use vnano_msg.Protocol.Survey.Surveyor.Socket
use vnano_msg.Protocol.Survey.Surveyor.Socket.{deliver}

-- No survey, one that goes on, and a timer that stops.
pub data Turn : Type 0 where
  cancelling stopping_timer : Turn

pub data Shape : Type 0 where
  rests : Option ℕ → Shape
  runs : Run → Shape
  halts : Turn → Halt → Shape

abbrev pub turn_state : Turn → State
turn_state cancelling = State.cancelling
turn_state stopping_timer = State.stopping_timer

-- A socket that was started, with a deadline that is not negative.
abbrev pub raw : Xsurveyor → ℕ → ℕ → Msg → Bool → State → Mode → Surveyor
raw x n id q b s m = record {
  xsurveyor = x;
  fsm = record { phase = Fsm.active; queued = false };
  state = s;
  surveyid = id;
  timer = timer_of m;
  tosend = q;
  deadline = some n;
  timedout = b;
}

abbrev pub surveyor_of : Xsurveyor → ℕ → ℕ → Msg → Bool → Shape → Surveyor
surveyor_of x n id q b (rests ms) = raw x n id q b State.passive (Worker.resting false ms)
surveyor_of x n id q b (runs k) = raw x n id q b State.active (run_mode k)
surveyor_of x n id q b (halts t h) = raw x n id q b (turn_state t) (halt_mode h)

-- The survey that is sent, or will be, has the current number.
abbrev pub IsTagged : ℕ → Msg → Shape → Type 0
IsTagged id q (rests ms) = Unit {0}
IsTagged id q _ = q.sphdr ≡ putl id

pub record IsSound (s : Surveyor) : Type 0 where
  pub xsurveyor : Xsurveyor
  pub interval : ℕ
  pub id : ℕ
  pub survey : Msg
  pub overdue : Bool
  pub shape : Shape
  pub same : s ≡ surveyor_of xsurveyor interval id survey overdue shape
  pub fq_Inv : Inv xsurveyor.inpipes
  pub tagged : IsTagged id survey shape

abbrev pub Returns {ℓ} : {W : Type ℓ} → Outcome (Surveyor × W) → Type ℓ
Returns {W = W} m = (s : Surveyor) × (w : W) × (m ≡ done (s, w)) × IsSound s

pub sound :
    (x : Xsurveyor) (n id : ℕ) (q : Msg) (b : Bool)
    → Inv x.inpipes
    → (shape : Shape) → IsTagged id q shape
    → IsSound (surveyor_of x n id q b shape)
sound x n id q b v shape tag = record {
  xsurveyor = x;
  interval = n;
  id = id;
  survey = q;
  overdue = b;
  shape = shape;
  same = refl;
  fq_Inv = v;
  tagged = tag;
}

module _ (ps : Pipes) (writes : TakesWrites ps) (x : Xsurveyor) (n id : ℕ) (q : Msg)
    (v : Inv x.inpipes) where
  open ps use {World}

  -- A survey starts with its timer at rest.
  pub start_survey_returns :
      (b : Bool) (s : State) (ms : Option ℕ) (w : World)
      → q.sphdr ≡ putl id
      → Returns (start_survey ps (raw x n id q b s (Worker.resting false ms)) w)
  unfolding start_survey resend Xsurveyor.send
  start_survey_returns b s ms w tag =
      let (d, w', e) = send_total ps writes q none x.outpipes w in
      let x' : Xsurveyor = record x { outpipes = d } in
      (
        surveyor_of x' n id q b (runs (early n)),
        w',
        rw (start_survey, resend, Xsurveyor.send, e, start_mode ms n) refl,
        sound x' n id q b v (runs (early n)) tag,
      )

  cancelled :
      (b : Bool) (k : Run) (w : World)
      → feed ps Event.cancel (surveyor_of x n id q b (runs k)) w
        ≡ done (surveyor_of x n id q b (halts cancelling (halted k)), w)
  unfolding feed Fsm.feed handle
  cancelled b (early i) w = rw (stop_mode (Worker.starting i)) refl
  cancelled b (late a) w = rw (stop_mode (Worker.running a)) refl

  -- A new survey takes the place of the one before.
  pub cancel_returns :
      (b : Bool) (k : Run) (w : World)
      → q.sphdr ≡ putl id
      → Returns (feed ps Event.cancel (surveyor_of x n id q b (runs k)) w)
  cancel_returns b k w tag = (
    surveyor_of x n id q b (halts cancelling (halted k)),
    w,
    cancelled b k w,
    sound x n id q b v (halts cancelling (halted k)) tag,
  )

  pub recancel_returns :
      (b : Bool) (t : Turn) (h : Halt) (w : World)
      → q.sphdr ≡ putl id
      → Returns (feed ps Event.cancel (surveyor_of x n id q b (halts t h)) w)
  unfolding feed Fsm.feed handle
  recancel_returns b cancelling h w tag = (
    surveyor_of x n id q b (halts cancelling h),
    w,
    refl,
    sound x n id q b v (halts cancelling h) tag,
  )
  recancel_returns b stopping_timer h w tag = (
    surveyor_of x n id q b (halts cancelling h),
    w,
    refl,
    sound x n id q b v (halts cancelling h) tag,
  )

  pub begin_returns :
      (b : Bool) (ms : Option ℕ) (w : World)
      → q.sphdr ≡ putl id
      → Returns (feed ps Event.start_action (surveyor_of x n id q b (rests ms)) w)
  unfolding feed Fsm.feed handle
  begin_returns b ms w tag = start_survey_returns b State.passive ms w tag

  -- The deadline of a survey that goes on.
  pub timeout_lem :
      (b a : Bool) (w : World)
      → feed ps Event.timeout (surveyor_of x n id q b (runs (late a))) w
        ≡ done (surveyor_of x n id q true (halts stopping_timer (started none a)), w)
  unfolding feed Fsm.feed handle
  timeout_lem b a w = rw (stop_mode (Worker.running a)) refl

  -- The timer has stopped, and nothing of it is in the queue.
  stopped_returns :
      (b : Bool) (t : Turn) (ms : Option ℕ) (w : World)
      → q.sphdr ≡ putl id
      → Returns (feed ps Event.stopped (raw x n id q b (turn_state t) (Worker.resting false ms)) w)
  unfolding feed Fsm.feed handle
  stopped_returns b cancelling ms w tag = start_survey_returns b State.cancelling ms w tag
  stopped_returns b stopping_timer ms w tag =
      (surveyor_of x n id q b (rests ms), w, refl, sound x n id q b v (rests ms) tt)

  -- A step of the worker that raises nothing.
  quiet :
      (b : Bool) (shape : Shape) (w : World) (m : Outcome (Surveyor × World))
      → IsTagged id q shape
      → m ≡ done (surveyor_of x n id q b shape, w)
      → Returns m
  quiet b shape w m tag e = (surveyor_of x n id q b shape, w, e, sound x n id q b v shape tag)

  pub run_task_returns :
      (b : Bool) (shape : Shape) (w : World)
      → IsTagged id q shape
      → Returns (Socket.run_task ps (surveyor_of x n id q b shape) w)
  unfolding Socket.run_task deliver Fsm.processed
  run_task_returns b (rests ms) w tag =
      quiet b (rests ms) w _ tag
        (rw (Socket.run_task, run_task_mode (Worker.resting false ms)) refl)
  run_task_returns b (runs (early i)) w tag =
      quiet b (runs (late true)) w _ tag
        (rw (Socket.run_task, run_task_mode (Worker.starting i)) refl)
  run_task_returns b (runs (late a)) w tag =
      quiet b (runs (late a)) w _ tag (rw (Socket.run_task, run_task_mode (Worker.running a)) refl)
  run_task_returns b (halts t (unstarted i)) w tag =
      quiet b (halts t (started (some i) false)) w _ tag
        (rw (Socket.run_task, run_task_mode (Worker.halting_early i)) refl)
  run_task_returns b (halts t (started ms a)) w tag =
      let (s, w', e, k) = stopped_returns b t ms w tag in
      (s, w', rw (Socket.run_task, run_task_mode (Worker.halting ms a)) e, k)

  pub expire_returns :
      (b : Bool) (shape : Shape) (w : World)
      → IsTagged id q shape
      → Returns (Socket.expire ps (surveyor_of x n id q b shape) w)
  unfolding Socket.expire deliver
  expire_returns b (rests ms) w tag =
      quiet b (rests ms) w _ tag (rw (Socket.expire, expire_mode (Worker.resting false ms)) refl)
  expire_returns b (runs (early i)) w tag =
      quiet b (runs (early i)) w _ tag (rw (Socket.expire, expire_mode (Worker.starting i)) refl)
  expire_returns b (runs (late false)) w tag =
      quiet b (runs (late false)) w _ tag
        (rw (Socket.expire, expire_mode (Worker.running false)) refl)
  expire_returns b (runs (late true)) w tag =
      quiet true (halts stopping_timer (started none false)) w _ tag
        (rw (Socket.expire, expire_mode (Worker.running true)) (timeout_lem b false w))
  expire_returns b (halts t (unstarted i)) w tag =
      quiet b (halts t (unstarted i)) w _ tag
        (rw (Socket.expire, expire_mode (Worker.halting_early i)) refl)
  expire_returns b (halts t (started ms a)) w tag =
      quiet b (halts t (started ms false)) w _ tag
        (rw (Socket.expire, expire_mode (Worker.halting ms a)) refl)
