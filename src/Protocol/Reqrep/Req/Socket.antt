-- ===== src/Protocol/Reqrep/Req/Socket.antt =====
-- protocols/reqrep/req.c: what the socket, its pipes and the worker of its timer call.
use vnano_msg.Common.{
  ℕ, zero, suc, ◌+◌, ◌%◌, ◌^◌, Bool, true, false, not, ◌&&◌, Option, none, some, [], Outcome, done,
  abort, ◌>>=◌, ◌>>◌, assert, Reply, ok, err, eagain, efsm, is_empty, if◌then◌else◌,
}
use vnano_msg.Core.Pipes.{Msg, Pipes}
use vnano_msg.Utils.Wire.{putl}
use vnano_msg.Aio.Fsm
use vnano_msg.Aio.Fsm.{Fsm}
use vnano_msg.Aio.Timer
use vnano_msg.Aio.Timer.{Timer, Raised}
use vnano_msg.Protocol.Reqrep.Req.{
  Req, idle, starts, stops, in_action, out_action, sent, received, pipe_rm, timeout, stopped,
  empty_msg, inprogress, is_delayed, is_answered, is_waiting, wire_id, accepts, went_to, handle,
  shut, feed,
}
use vnano_msg.Protocol.Reqrep.Xreq
use vnano_msg.Protocol.Reqrep.Xreq.{Xreq, XreqData}

module _ (ps : Pipes) where
  open ps use {World}

  -- `id` is what `nn_random_generate` made.
  unfoldable pub init : ℕ → World → Outcome (Req × World)
  init id w = Fsm.start Fsm.init (λ fsm. do
    (r, w') ←
        handle ps idle starts
          (record {
            xreq = Xreq.init;
            fsm = Fsm.init;
            state = idle;
            resend_ivl = some 60000;
            id = id;
            request = empty_msg;
            reply = some empty_msg;
            timer = Timer.init;
            sent_to = none;
          })
          w
    done (record r { fsm = fsm }, w'))

  unfoldable pub stop : Req → World → Outcome (Req × World)
  stop r w = Fsm.stop r.fsm (done (r, w)) (λ fsm. shut ps r.state stops (record r { fsm = fsm }) w)

  -- A reply is there for the request in progress: the header goes, and an active request is told.
  unfoldable pub take_reply : Req → Msg → World → Outcome (Req × World)
  take_reply r m w =
      let r' : Req = record r { reply = some (record m { sphdr = [] }) } in
      if is_waiting r.state then feed ps in_action r' w else done (r', w)

  -- The loop of `nn_req_in`, for as many rounds as `fuel` says; `false` after them. Each message is
  -- read into the place of the reply, and released there if it is not accepted.
  unfoldable pub in_loop : ℕ → Req → World → Outcome (Bool × Req × World)
  in_loop zero r w = done (false, r, w)
  in_loop (suc fuel) r w = do
    (rc, msg, x, w') ← Xreq.recv ps r.xreq r.reply w
    let r' : Req = record r { xreq = x; reply = msg }
    elim rc [
      | err e ↦ done (true, r', w')
      | ok u ↦ elim msg [
        | none ↦ abort
        | some m ↦ elim (inprogress r.state && accepts r.id m) [
          | false ↦ in_loop fuel (record r' { reply = none }) w'
          | true ↦ do (r'', w'') ← take_reply r' m w'; done (true, r'', w'')
        ]
      ]
    ]

  unfoldable pub activate_in : ℕ → Req → XreqData → World → Outcome (Bool × Req × World)
  activate_in fuel r d w = do x ← Xreq.activate_in r.xreq d; in_loop fuel (record r { xreq = x }) w

  unfoldable pub activate_out : Req → XreqData → World → Outcome (Req × World)
  activate_out r d w = do
    x ← Xreq.activate_out r.xreq d
    let r' : Req = record r { xreq = x }
    if is_delayed r.state then feed ps out_action r' w else done (r', w)

  unfoldable pub rm : Req → ℕ → XreqData → World → Outcome (Req × World)
  rm r p d w = do
    x ← Xreq.rm r.xreq d
    let r' : Req = record r { xreq = x }
    if went_to r.sent_to p then feed ps pipe_rm r' w else done (r', w)

  unfoldable pub csend : Req → Msg → World → Outcome (Req × World)
  csend r m w = do
    assert (is_empty m.sphdr)
    let id = (r.id + 1) % 2 ^ 32
    feed ps sent (record r { id = id; request = record m { sphdr = putl (wire_id id) } }) w

  -- `abort` at `none` is the use of a released message.
  unfoldable pub crecv : Req → World → Outcome (Reply Msg × Req × World)
  crecv r w =
      let handed : Outcome (Reply Msg × Req × World) = elim r.reply [
        | none ↦ abort
        | some m ↦ do
          (r', w') ← feed ps received (record r { reply = some empty_msg }) w
          done (ok m, r', w')
      ] in
      if not (inprogress r.state)
      then done (err efsm, r, w)
      else if not (is_answered r.state)
      then done (err eagain, r, w)
      else handed

  -- What the timer raises is processed before anything else happens.
  unfoldable pub deliver : Option Raised → Req → World → Outcome (Req × World)
  deliver none r w = done (r, w)
  deliver (some Raised.timeout) r w = feed ps timeout r w
  deliver (some Raised.stopped) r w =
      feed ps stopped (record r { timer = record r.timer { fsm = Fsm.processed r.timer.fsm } }) w

  -- The worker executes a task of the timer, or its time is over.
  unfoldable pub run_task : Req → World → Outcome (Req × World)
  run_task r w = do (t, raised) ← Timer.run_task r.timer; deliver raised (record r { timer = t }) w

  unfoldable pub expire : Req → World → Outcome (Req × World)
  expire r w = do (t, raised) ← Timer.expire r.timer; deliver raised (record r { timer = t }) w
