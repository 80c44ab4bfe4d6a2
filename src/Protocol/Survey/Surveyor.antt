-- ===== src/Protocol/Survey/Surveyor.antt =====
-- protocols/survey/surveyor.c: the SURVEYOR socket, which takes responses to its survey until a
-- deadline.
pub mod Socket
pub mod Shapes
pub mod Reads
pub mod Calls
pub mod Runs
pub mod Deadline
use vnano_msg.Common.{
  ℕ, Bool, true, false, not, ◌&&◌, ◌||◌, Option, none, some, Outcome, done, abort, ◌>>=◌, ◌>>◌,
  assert, Reply, ok, err, einval, enoprotoopt, length, ltb, ◌==◌, if◌then◌else◌,
}
use vnano_msg.Core.Pipes.{Msg, Pipes, Events}
use vnano_msg.Utils.Wire.{getl}
use vnano_msg.Aio.Fsm
use vnano_msg.Aio.Fsm.{Fsm}
use vnano_msg.Aio.Timer
use vnano_msg.Aio.Timer.{Timer}
use vnano_msg.Protocol.Survey.{surveyor_type}
use vnano_msg.Protocol.Survey.Xsurveyor
use vnano_msg.Protocol.Survey.Xsurveyor.{Xsurveyor}

-- NN_SURVEYOR_STATE_*
pub data State : Type 0 where
  idle passive active cancelling stopping_timer stopping : State

-- NN_FSM_START, NN_FSM_STOP, the actions START and CANCEL, and what the timer raises.
pub data Event : Type 0 where
  starts stops start_action cancel timeout stopped : Event

-- `struct nn_surveyor`; a negative deadline is `none`.
pub record Surveyor : Type 0 where
  pub xsurveyor : Xsurveyor
  pub fsm : Fsm
  pub state : State
  pub surveyid : ℕ
  pub timer : Timer
  pub tosend : Msg
  pub deadline : Option ℕ
  pub timedout : Bool

-- `nn_surveyor_inprogress`
unfoldable pub inprogress : State → Bool
inprogress idle = false
inprogress passive = false
inprogress stopping = false
inprogress _ = true

unfoldable pub events : Surveyor → Events
events s =
    let e = Xsurveyor.events s.xsurveyor in
    record e { readable = e.readable || not (inprogress s.state) }

-- The tests of `nn_surveyor_recv` on the header of a response.
unfoldable pub is_current : ℕ → Msg → Bool
is_current id m =
    length m.sphdr == 4 && elim (getl m.sphdr) [ none ↦ false | some surveyid ↦ surveyid == id ]

unfoldable pub term : Surveyor → Outcome (Unit {0})
term s = do Timer.term s.timer; assert (Fsm.is_idle s.fsm); Xsurveyor.term s.xsurveyor

-- NN_SURVEYOR_DEADLINE
abbrev pub deadline_option : ℕ
deadline_option = 1

-- The value is its size and the number that it holds.
unfoldable pub setopt : Surveyor → ℕ → ℕ → ℕ → Option ℕ → Reply (Unit {0}) × Surveyor
setopt s level option size value =
    if not (level == surveyor_type)
    then (err enoprotoopt, s)
    else if option == deadline_option
    then (if not (size == 4) then (err einval, s) else (ok tt, record s { deadline = value }))
    else (err enoprotoopt, s)

-- The value and its size.
unfoldable pub getopt : Surveyor → ℕ → ℕ → ℕ → Reply (Option ℕ × ℕ)
getopt s level option size =
    if not (level == surveyor_type)
    then err enoprotoopt
    else if option == deadline_option
    then (if ltb size 4 then err einval else ok (s.deadline, 4))
    else err enoprotoopt

module _ (ps : Pipes) where
  open ps use {World}

  -- `nn_surveyor_resend` sends a copy; the return code of the raw socket is 0.
  unfoldable pub resend : Surveyor → World → Outcome (Surveyor × World)
  resend s w = do
    (x, w') ← Xsurveyor.send ps s.xsurveyor s.tosend w
    done (record s { xsurveyor = x }, w')

  unfoldable pub start_survey : Surveyor → World → Outcome (Surveyor × World)
  start_survey s w = do
    (s', w') ← resend s w
    t ← Timer.start s'.timer s'.deadline
    done (record s' { timer = t; state = active }, w')

  -- `nn_surveyor_handler`, by the state.
  unfoldable pub handle : State → Event → Surveyor → World → Outcome (Surveyor × World)
  handle idle starts s w = done (record s { state = passive }, w)
  handle passive start_action s w = start_survey s w
  handle active cancel s w = do
    t ← Timer.stop s.timer
    done (record s { timer = t; state = cancelling }, w)
  handle active timeout s w = do
    t ← Timer.stop s.timer
    done (record s { timer = t; state = stopping_timer; timedout = true }, w)
  handle cancelling cancel s w = done (s, w)
  handle cancelling stopped s w = start_survey s w
  handle stopping_timer cancel s w = done (record s { state = cancelling }, w)
  handle stopping_timer stopped s w = done (record s { state = passive }, w)
  handle _ _ s w = abort

  -- `nn_surveyor_shutdown` in the state STOPPING: nothing as long as the timer is not idle.
  unfoldable pub shut_down : Surveyor → World → Outcome (Surveyor × World)
  shut_down s w =
      let ended : Outcome (Surveyor × World) = do
        fsm ← Fsm.stopped_noevent s.fsm
        done (record s { fsm = fsm; state = idle }, w)
      in if Timer.is_idle s.timer then ended else done (s, w)

  -- `nn_surveyor_shutdown`, by the state.
  unfoldable pub shut : State → Event → Surveyor → World → Outcome (Surveyor × World)
  shut _ stops s w = do
    t ← Timer.stop s.timer
    shut_down (record s { timer = t; state = stopping }) w
  shut stopping _ s w = shut_down s w
  shut _ _ s w = abort

  unfoldable pub feed : Event → Surveyor → World → Outcome (Surveyor × World)
  feed e s w = Fsm.feed s.fsm (handle s.state e s w) (shut s.state e s w)
