-- ===== src/Protocol/Reqrep/Req.antt =====
-- protocols/reqrep/req.c: the REQ socket, which sends a request again until a reply to it comes.
pub mod Socket
pub mod Shapes
pub mod Handled
pub mod Arrivals
pub mod Calls
pub mod Runs
pub mod Answers
use vnano_msg.Common.{
  ℕ, zero, suc, ◌+◌, ◌%◌, ◌^◌, Bool, true, false, not, ◌&&◌, Option, none, some, List, [], Outcome,
  done, abort, ◌>>=◌, ◌>>◌, assert, Reply, ok, err, eagain, efsm, einval, enoprotoopt, is_empty,
  length, ltb, ◌==◌, if◌then◌else◌,
}
use vnano_msg.Core.Pipes.{Msg, Pipes, Events}
use vnano_msg.Utils.Wire.{getl, putl}
use vnano_msg.Aio.Fsm
use vnano_msg.Aio.Fsm.{Fsm}
use vnano_msg.Aio.Timer
use vnano_msg.Aio.Timer.{Timer, Raised}
use vnano_msg.Protocol.Reqrep.{req_type}
use vnano_msg.Protocol.Reqrep.Backtrace.{is_bottom}
use vnano_msg.Protocol.Reqrep.Xreq
use vnano_msg.Protocol.Reqrep.Xreq.{Xreq, XreqData}

-- NN_REQ_STATE_*; `answered` is NN_REQ_STATE_DONE.
pub data State : Type 0 where
  idle passive delayed active timed_out cancelling stopping_timer answered stopping : State

-- NN_FSM_START, NN_FSM_STOP, the actions IN, OUT, SENT, RECEIVED and PIPE_RM, and what the timer
-- raises.
pub data Event : Type 0 where
  starts stops in_action out_action sent received pipe_rm timeout stopped : Event

-- `struct nn_req` with its task. A message that was released and not set again is `none`, and a
-- negative interval is `none`.
pub record Req : Type 0 where
  pub xreq : Xreq
  pub fsm : Fsm
  pub state : State
  pub resend_ivl : Option ℕ
  pub id : ℕ
  pub request : Msg
  pub reply : Option Msg
  pub timer : Timer
  pub sent_to : Option ℕ

abbrev pub empty_msg : Msg
empty_msg = record { sphdr = []; hdrs = []; body = [] }

-- `nn_req_inprogress`
unfoldable pub inprogress : State → Bool
inprogress idle = false
inprogress passive = false
inprogress stopping = false
inprogress _ = true

abbrev pub is_delayed : State → Bool
is_delayed delayed = true
is_delayed _ = false

abbrev pub is_answered : State → Bool
is_answered answered = true
is_answered _ = false

abbrev pub is_waiting : State → Bool
is_waiting active = true
is_waiting _ = false

-- `id | 0x80000000`
abbrev pub wire_id : ℕ → ℕ
wire_id id = id % 2 ^ 31 + 2 ^ 31

-- The tests of `nn_req_in` on the header of a reply.
unfoldable pub accepts : ℕ → Msg → Bool
accepts id m =
    length m.sphdr == 4
    && elim (getl m.sphdr) [ none ↦ false | some reqid ↦ is_bottom reqid && reqid == wire_id id ]

unfoldable pub events : Req → Events
events r = record { readable = is_answered r.state; writable = true }

-- The timer stops, and the request was sent to nobody that still counts.
unfoldable pub leave : State → Req → Outcome Req
leave s r = do t ← Timer.stop r.timer; done (record r { timer = t; sent_to = none; state = s })

-- NN_REQ_RESEND_IVL
abbrev pub resend_option : ℕ
resend_option = 1

unfoldable pub term : Req → Outcome (Unit {0})
term r = do Timer.term r.timer; assert (Fsm.is_idle r.fsm); Xreq.term r.xreq

-- The value is its size and the number that it holds.
unfoldable pub setopt : Req → ℕ → ℕ → ℕ → Option ℕ → Reply (Unit {0}) × Req
setopt r level option size value =
    if not (level == req_type)
    then (err enoprotoopt, r)
    else if not (option == resend_option)
    then (err enoprotoopt, r)
    else if not (size == 4)
    then (err einval, r)
    else (ok tt, record r { resend_ivl = value })

-- The value and its size.
unfoldable pub getopt : Req → ℕ → ℕ → ℕ → Reply (Option ℕ × ℕ)
getopt r level option size =
    if not (level == req_type)
    then err enoprotoopt
    else if option == resend_option
    then (if ltb size 4 then err einval else ok (r.resend_ivl, 4))
    else err enoprotoopt

-- Whether the request went to a pipe.
abbrev pub went_to : Option ℕ → ℕ → Bool
went_to none p = false
went_to (some q) p = p == q

module _ (ps : Pipes) where
  open ps use {World}

  -- `nn_req_action_send`; EAGAIN is the one error of `nn_xreq_send_to`.
  unfoldable pub action_send : Bool → Req → World → Outcome (Req × World)
  action_send allow_delay r w = do
    (rc, x, w') ← Xreq.send_to ps r.xreq r.request w
    elim rc [
      | err e ↦ do assert allow_delay; done (record r { xreq = x; state = delayed }, w')
      | ok p ↦ do
        t ← Timer.start r.timer r.resend_ivl
        done (record r { xreq = x; timer = t; sent_to = some p; state = active }, w')
    ]

  -- `nn_req_handler`, by the state.
  unfoldable pub handle : State → Event → Req → World → Outcome (Req × World)
  handle idle starts r w = done (record r { state = passive }, w)
  handle passive sent r w = action_send true r w
  handle delayed out_action r w = action_send false r w
  handle delayed sent r w = done (r, w)
  handle active in_action r w = do r' ← leave stopping_timer r; done (r', w)
  handle active sent r w = do r' ← leave cancelling r; done (r', w)
  handle active pipe_rm r w = do r' ← leave timed_out r; done (r', w)
  handle active timeout r w = do r' ← leave timed_out r; done (r', w)
  handle timed_out stopped r w = action_send true r w
  handle timed_out sent r w = done (record r { state = cancelling }, w)
  handle cancelling stopped r w = action_send true r w
  handle cancelling sent r w = done (r, w)
  handle stopping_timer stopped r w = done (record r { state = answered }, w)
  handle stopping_timer sent r w = done (record r { state = cancelling }, w)
  handle answered received r w = done (record r { state = passive }, w)
  handle answered sent r w = action_send true r w
  handle _ _ r w = abort

  -- `nn_req_shutdown` in the state STOPPING: nothing as long as the timer is not idle.
  unfoldable pub shut_down : Req → World → Outcome (Req × World)
  shut_down r w =
      let ended : Outcome (Req × World) = do
        fsm ← Fsm.stopped_noevent r.fsm
        done (record r { fsm = fsm; state = idle }, w)
      in if Timer.is_idle r.timer then ended else done (r, w)

  -- `nn_req_shutdown`, by the state.
  unfoldable pub shut : State → Event → Req → World → Outcome (Req × World)
  shut _ stops r w = do
    t ← Timer.stop r.timer
    shut_down (record r { timer = t; state = stopping }) w
  shut stopping _ r w = shut_down r w
  shut _ _ r w = abort

  unfoldable pub feed : Event → Req → World → Outcome (Req × World)
  feed e r w = Fsm.feed r.fsm (handle r.state e r w) (shut r.state e r w)
