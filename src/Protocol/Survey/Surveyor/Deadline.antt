-- ===== src/Protocol/Survey/Surveyor/Deadline.antt =====
-- How a survey whose deadline is over ends.
use vnano_msg.Common.{
  ℕ, ◌≡◌, refl, Bool, true, false, none, some, done, err, efsm, etimedout, arith,
}
use vnano_msg.Core.Pipes.{Msg, Pipes}
use vnano_msg.Aio.Fsm
use vnano_msg.Aio.Timer.Worker
use vnano_msg.Aio.Timer.Worker.{run_task_mode, expire_mode}
use vnano_msg.Protocol.Priolist.Invariant.{Inv}
use vnano_msg.Protocol.Dist.Total.{TakesWrites}
use vnano_msg.Protocol.Reqrep.Xreq.Keeps.{AnswersReads}
use vnano_msg.Protocol.Reqrep.Req.Shapes.{early, late, started}
use vnano_msg.Protocol.Survey.Xsurveyor.{Xsurveyor}
use vnano_msg.Protocol.Survey.Surveyor.{Surveyor, State, handle, feed, inprogress}
use vnano_msg.Protocol.Survey.Surveyor.Socket.{recv, run_task, expire, deliver}
use vnano_msg.Protocol.Survey.Surveyor.Shapes.{
  Shape, cancelling, stopping_timer, rests, runs, halts, surveyor_of, timeout_lem,
}
use vnano_msg.Protocol.Survey.Surveyor.Runs.{Reach, Reach-IsSound}

abbrev pub is_active : State → Bool
is_active State.active = true
is_active _ = false

-- The timer fires, the worker stops it, and the application asks twice.
abbrev pub Ends : (ps : Pipes) → ℕ → Surveyor → ps.World → Type 0
Ends ps fuel s w =
    (t u : Surveyor) × (expire ps s w ≡ done (t, w))
    × (run_task ps t w ≡ done (u, w))
    × (recv ps fuel u w ≡ done (some (err etimedout), record u { timedout = false }, w))
    × (recv ps fuel (record u { timedout = false }) w
        ≡ done (some (err efsm), record u { timedout = false }, w))

module _ (ps : Pipes) (writes : TakesWrites ps) (x : Xsurveyor) (n id : ℕ) (q : Msg) (b : Bool)
    (v : Inv x.inpipes) where
  open ps use {World}

  ends_of :
      (shape : Shape) (fuel : ℕ) (w : World)
      → is_active (surveyor_of x n id q b shape).state ≡ true
      → (surveyor_of x n id q b shape).timer.armed ≡ true
      → Ends ps fuel (surveyor_of x n id q b shape) w
  unfolding expire run_task deliver recv inprogress feed Fsm.feed Fsm.processed handle
  ends_of (runs (late true)) fuel w on armed = (
    surveyor_of x n id q true (halts stopping_timer (started none false)),
    surveyor_of x n id q true (rests none),
    rw (expire, expire_mode (Worker.running true)) (timeout_lem ps writes x n id q v b false w),
    rw (run_task, run_task_mode (Worker.halting none false)) refl,
    refl,
    refl,
  )
  ends_of (runs (late false)) fuel w on armed = absurd (ground arith)
  ends_of (runs (early i)) fuel w on armed = absurd (ground arith)
  ends_of (rests ms) fuel w on armed = absurd (ground arith)
  ends_of (halts cancelling h) fuel w on armed = absurd (ground arith)
  ends_of (halts stopping_timer h) fuel w on armed = absurd (ground arith)

-- In any state that calls lead to after nn_surveyor_init, over pipes that take every write and hand
-- over a message without a header if the transport did not parse it: if a survey goes on and its
-- timer is armed, the expiry of the timer and the task of the worker that follows end the survey.
-- nn_surveyor_recv then says ETIMEDOUT once, whatever is there to be read, and EFSM after that.
pub deadline_reported :
    (ps : Pipes) (s : Surveyor) (fuel : ℕ) (w : ps.World)
    → TakesWrites ps
    → AnswersReads ps
    → Reach ps s
    → is_active s.state ≡ true
    → s.timer.armed ≡ true
    → Ends ps fuel s w
deadline_reported ps s fuel w writes reads reach on armed =
    let k = Reach-IsSound ps writes reads reach in
    rw k.same (
      ends_of ps writes k.xsurveyor k.interval k.id k.survey k.overdue k.fq_Inv k.shape fuel w
        (rw k.same at on) (rw k.same at armed))
