-- ===== src/Aio/Timer/Worker.antt =====
-- The states that a timer and its worker are in together.
use vnano_msg.Common.{ℕ, ◌≡◌, refl, Bool, true, false, Option, none, some, [], ◌∷◌, done}
use vnano_msg.Aio.Fsm
use vnano_msg.Aio.Fsm.{Fsm}
use vnano_msg.Aio.Timer
use vnano_msg.Aio.Timer.{
  State, Timer, Task, start_task, stop_task, Raised, timeout, stopped, execute, handle, shut, feed,
  run_task, expire,
}

-- `resting`, with its event in the queue or not; `starting`, the worker not having heard of it;
-- `running`, armed or fired; `halting_early` before the worker started it, and `halting`.
pub data Mode : Type 0 where
  resting : Bool → Option ℕ → Mode
  starting : ℕ → Mode
  running : Bool → Mode
  halting_early : ℕ → Mode
  halting : Option ℕ → Bool → Mode

abbrev pub timer_of : Mode → Timer
timer_of (resting q ms) = record {
  fsm = record { phase = Fsm.idle; queued = q };
  state = State.idle;
  timeout = ms;
  tasks = [];
  armed = false;
}
timer_of (starting n) = record {
  fsm = record { phase = Fsm.active; queued = false };
  state = State.active;
  timeout = some n;
  tasks = start_task ∷ [];
  armed = false;
}
timer_of (running a) = record {
  fsm = record { phase = Fsm.active; queued = false };
  state = State.active;
  timeout = none;
  tasks = [];
  armed = a;
}
timer_of (halting_early n) = record {
  fsm = record { phase = Fsm.stopping; queued = false };
  state = State.stopping;
  timeout = some n;
  tasks = start_task ∷ stop_task ∷ [];
  armed = false;
}
timer_of (halting ms a) = record {
  fsm = record { phase = Fsm.stopping; queued = false };
  state = State.stopping;
  timeout = ms;
  tasks = stop_task ∷ [];
  armed = a;
}

-- Where the calls lead.
abbrev pub after_stop : Mode → Mode
after_stop (resting q ms) = resting q ms
after_stop (starting n) = halting_early n
after_stop (running a) = halting none a
after_stop (halting_early n) = halting_early n
after_stop (halting ms a) = halting ms a

abbrev pub after_task : Mode → Mode
after_task (resting q ms) = resting q ms
after_task (starting n) = running true
after_task (running a) = running a
after_task (halting_early n) = halting (some n) false
after_task (halting ms a) = resting true ms

abbrev pub raised_by_task : Mode → Option Raised
raised_by_task (halting ms a) = some stopped
raised_by_task _ = none

abbrev pub after_expiry : Mode → Mode
after_expiry (running a) = running false
after_expiry (halting ms a) = halting ms false
after_expiry m = m

abbrev pub raised_by_expiry : Mode → Option Raised
raised_by_expiry (running true) = some timeout
raised_by_expiry _ = none

pub start_mode :
    (ms : Option ℕ) (n : ℕ)
    → Timer.start (timer_of (resting false ms)) (some n) ≡ done (timer_of (starting n))
unfolding Timer.start Fsm.start Fsm.is_idle handle execute
start_mode ms n = refl

pub stop_mode : (m : Mode) → Timer.stop (timer_of m) ≡ done (timer_of (after_stop m))
unfolding Timer.stop Fsm.stop shut execute
stop_mode (resting q ms) = refl
stop_mode (starting n) = refl
stop_mode (running a) = refl
stop_mode (halting_early n) = refl
stop_mode (halting ms a) = refl

pub run_task_mode :
    (m : Mode) → run_task (timer_of m) ≡ done (timer_of (after_task m), raised_by_task m)
unfolding run_task feed Fsm.feed handle shut Fsm.stopped
run_task_mode (resting q ms) = refl
run_task_mode (starting n) = refl
run_task_mode (running a) = refl
run_task_mode (halting_early n) = refl
run_task_mode (halting ms a) = refl

pub expire_mode :
    (m : Mode) → expire (timer_of m) ≡ done (timer_of (after_expiry m), raised_by_expiry m)
unfolding expire feed Fsm.feed handle shut
expire_mode (resting q ms) = refl
expire_mode (starting n) = refl
expire_mode (running true) = refl
expire_mode (running false) = refl
expire_mode (halting_early n) = refl
expire_mode (halting ms true) = refl
expire_mode (halting ms false) = refl
