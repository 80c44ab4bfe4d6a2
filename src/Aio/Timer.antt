-- ===== src/Aio/Timer.antt =====
-- aio/timer.c: a timer that a worker thread runs for a state machine. The requests to the worker are
-- the tasks that wait in its queue and the timer in its set of timers.
pub mod Worker
use vnano_msg.Common.{
  ℕ, Bool, true, false, Option, none, some, List, [], ◌∷◌, ◌++◌, Outcome, done, abort, ◌>>=◌, ◌>>◌,
  assert, if◌then◌else◌,
}
use vnano_msg.Aio.Fsm
use vnano_msg.Aio.Fsm.{Fsm}

-- NN_TIMER_STATE_*
pub data State : Type 0 where
  idle active stopping : State

-- The two worker tasks.
pub data Task : Type 0 where
  start_task stop_task : Task

-- NN_FSM_START and NN_FSM_STOP, the execution of a task, and NN_WORKER_TIMER_TIMEOUT.
pub data Event : Type 0 where
  starts stops : Event
  executed : Task → Event
  expired : Event

-- NN_TIMER_TIMEOUT and NN_TIMER_STOPPED, raised to the owner.
pub data Raised : Type 0 where
  timeout stopped : Raised

-- `struct nn_timer`; `timeout` is `none` for -1. `tasks` wait for the worker, and `armed` says that
-- the timer is in its set.
pub record Timer : Type 0 where
  pub fsm : Fsm
  pub state : State
  pub timeout : Option ℕ
  pub tasks : List Task
  pub armed : Bool

unfoldable pub init : Timer
init = record { fsm = Fsm.init; state = idle; timeout = none; tasks = []; armed = false }

abbrev is_idle_state : State → Bool
is_idle_state idle = true
is_idle_state _ = false

unfoldable pub term : Timer → Outcome (Unit {0})
term t = assert (is_idle_state t.state)

unfoldable pub is_idle : Timer → Bool
is_idle t = Fsm.is_idle t.fsm

-- `nn_worker_execute`
unfoldable pub execute : Timer → Task → Timer
execute t task = record t { tasks = t.tasks ++ task ∷ [] }

-- `nn_timer_handler`, by the state of the timer.
unfoldable pub handle : State → Event → Timer → Outcome (Timer × Option Raised)
handle idle starts t = done (execute (record t { state = active }) start_task, none)
handle active (executed start_task) t = elim t.timeout [
  | none ↦ abort
  | some ms ↦ done (record t { armed = true; timeout = none }, none)
]
handle active expired t = elim t.timeout [ none ↦ done (t, some timeout) | some ms ↦ abort ]
handle _ _ t = abort

-- `nn_timer_shutdown`, by the state of the timer.
unfoldable pub shut : State → Event → Timer → Outcome (Timer × Option Raised)
shut _ stops t = done (execute (record t { state = stopping }) stop_task, none)
shut stopping (executed stop_task) t = do
  fsm ← Fsm.stopped t.fsm
  done (record t { fsm = fsm; state = idle; armed = false }, some stopped)
shut stopping _ t = done (t, none)
shut _ _ t = abort

unfoldable pub feed : Event → Timer → Outcome (Timer × Option Raised)
feed e t = Fsm.feed t.fsm (handle t.state e t) (shut t.state e t)

-- A negative timeout is `none`.
unfoldable pub start : Timer → Option ℕ → Outcome Timer
start t ms = elim ms [
  | none ↦ abort
  | some n ↦ Fsm.start t.fsm (λ fsm. do
    (t', raised) ← handle t.state starts (record t { timeout = some n })
    done (record t' { fsm = fsm }))
]

unfoldable pub stop : Timer → Outcome Timer
stop t =
    Fsm.stop t.fsm (done t)
      (λ fsm. do (t', raised) ← shut t.state stops (record t { fsm = fsm }); done t')

-- The worker executes the first task of its queue; nothing if there is none.
unfoldable pub run_task : Timer → Outcome (Timer × Option Raised)
run_task t = elim t.tasks [
  | [] ↦ done (t, none)
  | task ∷ rest ↦ feed (executed task) (record t { tasks = rest })
]

-- The time of an armed timer is over: the worker takes it out of its set.
unfoldable pub expire : Timer → Outcome (Timer × Option Raised)
expire t = if t.armed then feed expired (record t { armed = false }) else done (t, none)
