-- ===== src/Protocol/Reqrep/Req/Handled.antt =====
-- What the state machine of a REQ socket does with each event, in the states that it comes in.
use vnano_msg.Common.{ℕ, ◌≡◌, refl, inl, inr, true, false, Option, none, some, Outcome, done, ◌>>=◌}
use vnano_msg.Core.Pipes.{Msg, Flags, Pipes}
use vnano_msg.Aio.Fsm
use vnano_msg.Aio.Timer.Worker
use vnano_msg.Aio.Timer.Worker.{
  Mode, timer_of, after_task, raised_by_task, after_expiry, raised_by_expiry, run_task_mode,
  expire_mode,
}
use vnano_msg.Protocol.Priolist.Invariant.{Inv}
use vnano_msg.Protocol.Priolist.Turns.{IsIdle}
use vnano_msg.Protocol.Reqrep.Xreq.{Xreq}
use vnano_msg.Protocol.Reqrep.Req.{Req, State, Event, leave, handle, feed}
use vnano_msg.Protocol.Reqrep.Req.Socket
use vnano_msg.Protocol.Reqrep.Req.Socket.{deliver}
use vnano_msg.Protocol.Reqrep.Req.Shapes.{
  passive, delayed, answered, Run, early, late, Turn, timed_out, cancelling, stopping_timer,
  unstarted, started, Shape, rests, waits, halts, halted, turn_state, raw, req_of, Returns, sound,
  action_send_returns, leave_lem,
}

module _ (ps : Pipes)
    (writes : (p : ℕ) (m : Msg) (v : ps.World) → (r : Flags × ps.World) × (ps.send p m v ≡ done r))
    (x : Xreq) (n id : ℕ) (q : Msg) (a : Option Msg) (lb : Inv x.lb) (fq : Inv x.fq) where
  open ps use {World}

  -- An event that stops the timer of a request that waits.
  left :
      (e : Event) (t : Turn) (k : Run) (p : ℕ) (w : World)
      → feed ps e (req_of x n id q a (waits k p)) w
        ≡ (do r ← leave (turn_state t) (req_of x n id q a (waits k p)); done (r, w))
      → Returns (feed ps e (req_of x n id q a (waits k p)) w)
  left e t k p w h = (
    req_of x n id q a (halts t (halted k)),
    w,
    rw (h, leave_lem ps writes x n id q a lb fq t k p) refl,
    sound x n id q a lb fq (halts t (halted k)),
  )

  pub in_returns :
      (k : Run) (p : ℕ) (w : World)
      → Returns (feed ps Event.in_action (req_of x n id q a (waits k p)) w)
  unfolding feed Fsm.feed handle
  in_returns k p w = left Event.in_action stopping_timer k p w refl

  pub rm_returns :
      (k : Run) (p : ℕ) (w : World)
      → Returns (feed ps Event.pipe_rm (req_of x n id q a (waits k p)) w)
  unfolding feed Fsm.feed handle
  rm_returns k p w = left Event.pipe_rm timed_out k p w refl

  timeout_returns :
      (k : Run) (p : ℕ) (w : World)
      → Returns (feed ps Event.timeout (req_of x n id q a (waits k p)) w)
  unfolding feed Fsm.feed handle
  timeout_returns k p w = left Event.timeout timed_out k p w refl

  pub out_returns :
      (ms : Option ℕ) (w : World)
      → ¬ IsIdle x.lb
      → Returns (feed ps Event.out_action (req_of x n id q a (rests delayed ms)) w)
  unfolding feed Fsm.feed handle
  out_returns ms w busy =
      action_send_returns ps writes x n id q a lb fq false State.delayed ms w (inr busy)

  pub received_returns :
      (ms : Option ℕ) (w : World)
      → Returns (feed ps Event.received (req_of x n id q a (rests answered ms)) w)
  unfolding feed Fsm.feed handle
  received_returns ms w =
      (req_of x n id q a (rests passive ms), w, refl, sound x n id q a lb fq (rests passive ms))

  -- The timer has stopped, and nothing of it is in the queue.
  stopped_returns :
      (t : Turn) (ms : Option ℕ) (w : World)
      → Returns
          (feed ps Event.stopped (raw x n id q a (turn_state t) (Worker.resting false ms) none) w)
  unfolding feed Fsm.feed handle
  stopped_returns timed_out ms w =
      action_send_returns ps writes x n id q a lb fq true State.timed_out ms w (inl refl)
  stopped_returns cancelling ms w =
      action_send_returns ps writes x n id q a lb fq true State.cancelling ms w (inl refl)
  stopped_returns stopping_timer ms w =
      (req_of x n id q a (rests answered ms), w, refl, sound x n id q a lb fq (rests answered ms))

  -- A step of the worker that raises nothing.
  quiet :
      (shape : Shape) (w : World) (m : Outcome (Req × World))
      → m ≡ done (req_of x n id q a shape, w)
      → Returns m
  quiet shape w m e = (req_of x n id q a shape, w, e, sound x n id q a lb fq shape)

  pub run_task_returns :
      (shape : Shape) (w : World) → Returns (Socket.run_task ps (req_of x n id q a shape) w)
  unfolding Socket.run_task deliver Fsm.processed
  run_task_returns (rests k ms) w =
      quiet (rests k ms) w _ (rw (Socket.run_task, run_task_mode (Worker.resting false ms)) refl)
  run_task_returns (waits (early i) p) w =
      quiet (waits (late true) p) w _ (rw (Socket.run_task, run_task_mode (Worker.starting i)) refl)
  run_task_returns (waits (late b) p) w =
      quiet (waits (late b) p) w _ (rw (Socket.run_task, run_task_mode (Worker.running b)) refl)
  run_task_returns (halts t (unstarted i)) w =
      quiet (halts t (started (some i) false)) w _
        (rw (Socket.run_task, run_task_mode (Worker.halting_early i)) refl)
  run_task_returns (halts t (started ms b)) w =
      let (r, w', e, s) = stopped_returns t ms w in
      (r, w', rw (Socket.run_task, run_task_mode (Worker.halting ms b)) e, s)

  pub expire_returns :
      (shape : Shape) (w : World) → Returns (Socket.expire ps (req_of x n id q a shape) w)
  unfolding Socket.expire deliver
  expire_returns (rests k ms) w =
      quiet (rests k ms) w _ (rw (Socket.expire, expire_mode (Worker.resting false ms)) refl)
  expire_returns (waits (early i) p) w =
      quiet (waits (early i) p) w _ (rw (Socket.expire, expire_mode (Worker.starting i)) refl)
  expire_returns (waits (late false) p) w =
      quiet (waits (late false) p) w _ (rw (Socket.expire, expire_mode (Worker.running false)) refl)
  expire_returns (waits (late true) p) w =
      let (r, w', e, s) = timeout_returns (late false) p w in
      (r, w', rw (Socket.expire, expire_mode (Worker.running true)) e, s)
  expire_returns (halts t (unstarted i)) w =
      quiet (halts t (unstarted i)) w _
        (rw (Socket.expire, expire_mode (Worker.halting_early i)) refl)
  expire_returns (halts t (started ms b)) w =
      quiet (halts t (started ms false)) w _
        (rw (Socket.expire, expire_mode (Worker.halting ms b)) refl)
