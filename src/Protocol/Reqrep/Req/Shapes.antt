-- ===== src/Protocol/Reqrep/Req/Shapes.antt =====
-- The states that a REQ socket and its timer are in together, before it is stopped.
use vnano_msg.Common.{
  ℕ, ◌≡◌, refl, ◌⊎◌, inl, inr, Bool, true, false, Option, none, some, Outcome, done,
}
use vnano_msg.Core.Pipes.{Msg, Flags, Pipes}
use vnano_msg.Aio.Fsm
use vnano_msg.Aio.Fsm.{Fsm}
use vnano_msg.Aio.Timer.Worker.{
  Mode, resting, starting, running, halting_early, halting, timer_of, start_mode, stop_mode,
}
use vnano_msg.Protocol.Priolist.Invariant.{Inv}
use vnano_msg.Protocol.Priolist.Turns.{IsIdle}
use vnano_msg.Protocol.Lb.Balance.{send_best}
use vnano_msg.Protocol.Reqrep.Xreq
use vnano_msg.Protocol.Reqrep.Xreq.{Xreq}
use vnano_msg.Protocol.Reqrep.Req.{Req, State, Event, leave, action_send, handle, feed}

-- No timer, a timer that runs, and a timer that stops.
pub data Rest : Type 0 where
  passive delayed answered : Rest

pub data Run : Type 0 where
  early : ℕ → Run
  late : Bool → Run

pub data Turn : Type 0 where
  timed_out cancelling stopping_timer : Turn

pub data Halt : Type 0 where
  unstarted : ℕ → Halt
  started : Option ℕ → Bool → Halt

pub data Shape : Type 0 where
  rests : Rest → Option ℕ → Shape
  waits : Run → ℕ → Shape
  halts : Turn → Halt → Shape

abbrev pub run_mode : Run → Mode
run_mode (early n) = starting n
run_mode (late a) = running a

abbrev pub halt_mode : Halt → Mode
halt_mode (unstarted n) = halting_early n
halt_mode (started ms a) = halting ms a

abbrev pub halted : Run → Halt
halted (early n) = unstarted n
halted (late a) = started none a

abbrev pub rest_state : Rest → State
rest_state passive = State.passive
rest_state delayed = State.delayed
rest_state answered = State.answered

abbrev pub turn_state : Turn → State
turn_state timed_out = State.timed_out
turn_state cancelling = State.cancelling
turn_state stopping_timer = State.stopping_timer

-- A socket that was started, with an interval that is not negative.
abbrev pub raw : Xreq → ℕ → ℕ → Msg → Option Msg → State → Mode → Option ℕ → Req
raw x n id request reply s m to = record {
  xreq = x;
  fsm = record { phase = Fsm.active; queued = false };
  state = s;
  resend_ivl = some n;
  id = id;
  request = request;
  reply = reply;
  timer = timer_of m;
  sent_to = to;
}

abbrev pub req_of : Xreq → ℕ → ℕ → Msg → Option Msg → Shape → Req
req_of x n id q a (rests k ms) = raw x n id q a (rest_state k) (resting false ms) none
req_of x n id q a (waits k p) = raw x n id q a State.active (run_mode k) (some p)
req_of x n id q a (halts k h) = raw x n id q a (turn_state k) (halt_mode h) none

pub record IsSound (r : Req) : Type 0 where
  pub xreq : Xreq
  pub interval : ℕ
  pub id : ℕ
  pub request : Msg
  pub reply : Option Msg
  pub shape : Shape
  pub same : r ≡ req_of xreq interval id request reply shape
  pub lb_Inv : Inv xreq.lb
  pub fq_Inv : Inv xreq.fq

abbrev pub Returns {ℓ} : {W : Type ℓ} → Outcome (Req × W) → Type ℓ
Returns {W = W} m = (r : Req) × (w : W) × (m ≡ done (r, w)) × IsSound r

pub sound :
    (x : Xreq) (n id : ℕ) (q : Msg) (a : Option Msg)
    → Inv x.lb
    → Inv x.fq
    → (shape : Shape) → IsSound (req_of x n id q a shape)
sound x n id q a lb fq shape = record {
  xreq = x;
  interval = n;
  id = id;
  request = q;
  reply = a;
  shape = shape;
  same = refl;
  lb_Inv = lb;
  fq_Inv = fq;
}

module _ (ps : Pipes)
    (writes : (p : ℕ) (m : Msg) (v : ps.World) → (r : Flags × ps.World) × (ps.send p m v ≡ done r))
    (x : Xreq) (n id : ℕ) (q : Msg) (a : Option Msg) (lb : Inv x.lb) (fq : Inv x.fq) where
  open ps use {World}

  -- Nothing is asserted in vain if the request may be delayed or a pipe waits for it.
  pub action_send_returns :
      (b : Bool) (s : State) (ms : Option ℕ) (w : World)
      → (b ≡ true) ⊎ (¬ IsIdle x.lb)
      → Returns (action_send ps b (raw x n id q a s (resting false ms) none) w)
  unfolding action_send Xreq.send_to
  action_send_returns b s ms w may = elim (send_best ps x.lb q w (λ p v. writes p q v) lb) [
    | inl (e, idle) ↦ elim may [
      | inl allowed ↦ (
        req_of x n id q a (rests delayed ms),
        w,
        rw (action_send, Xreq.send_to, e, allowed) refl,
        sound x n id q a lb fq (rests delayed ms),
      )
      | inr some_pipe ↦ absurd (some_pipe idle)
    ]
    | inr (c, p, rc, w', lb', written, e, held, first, kept) ↦
        let x' : Xreq = record x { lb = lb' } in
        (
          req_of x' n id q a (waits (early n) p),
          w',
          rw (action_send, Xreq.send_to, e, start_mode ms n) refl,
          sound x' n id q a kept fq (waits (early n) p),
        )
  ]

  -- A request that waits stops its timer.
  pub leave_lem :
      (t : Turn) (k : Run) (p : ℕ)
      → leave (turn_state t) (req_of x n id q a (waits k p))
        ≡ done (req_of x n id q a (halts t (halted k)))
  unfolding leave
  leave_lem t (early i) p = rw (leave, stop_mode (starting i)) refl
  leave_lem t (late b) p = rw (leave, stop_mode (running b)) refl

  -- The events, each in the states that it may come in.
  pub sent_returns :
      (shape : Shape) (w : World) → Returns (feed ps Event.sent (req_of x n id q a shape) w)
  unfolding feed Fsm.feed handle
  sent_returns (rests passive ms) w = action_send_returns true State.passive ms w (inl refl)
  sent_returns (rests delayed ms) w =
      (req_of x n id q a (rests delayed ms), w, refl, sound x n id q a lb fq (rests delayed ms))
  sent_returns (rests answered ms) w = action_send_returns true State.answered ms w (inl refl)
  sent_returns (waits k p) w = (
    req_of x n id q a (halts cancelling (halted k)),
    w,
    rw (leave_lem cancelling k p) refl,
    sound x n id q a lb fq (halts cancelling (halted k)),
  )
  sent_returns (halts timed_out h) w =
      (req_of x n id q a (halts cancelling h), w, refl, sound x n id q a lb fq (halts cancelling h))
  sent_returns (halts cancelling h) w =
      (req_of x n id q a (halts cancelling h), w, refl, sound x n id q a lb fq (halts cancelling h))
  sent_returns (halts stopping_timer h) w =
      (req_of x n id q a (halts cancelling h), w, refl, sound x n id q a lb fq (halts cancelling h))
