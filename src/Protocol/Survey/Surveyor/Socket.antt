-- ===== src/Protocol/Survey/Surveyor/Socket.antt =====
-- protocols/survey/surveyor.c: what the socket and the worker of its timer call. The calls of the
-- pipes are those of the raw socket.
use vnano_msg.Common.{
  ℕ, zero, suc, ◌+◌, ◌%◌, ◌^◌, true, false, not, Option, none, some, [], Outcome, done, abort,
  ◌>>=◌, ◌>>◌, assert, Reply, ok, err, eagain, efsm, etimedout, is_empty, if◌then◌else◌,
}
use vnano_msg.Core.Pipes.{Msg, Pipes}
use vnano_msg.Utils.Wire.{putl}
use vnano_msg.Aio.Fsm
use vnano_msg.Aio.Fsm.{Fsm}
use vnano_msg.Aio.Timer
use vnano_msg.Aio.Timer.{Raised}
use vnano_msg.Protocol.Reqrep.Req.{empty_msg, wire_id}
use vnano_msg.Protocol.Survey.Xsurveyor
use vnano_msg.Protocol.Survey.Surveyor.{
  Surveyor, idle, starts, stops, start_action, cancel, timeout, stopped, inprogress, is_current,
  handle, shut, feed,
}

module _ (ps : Pipes) where
  open ps use {World}

  -- `id` is what `nn_random_generate` made.
  unfoldable pub init : ℕ → World → Outcome (Surveyor × World)
  init id w = Fsm.start Fsm.init (λ fsm. do
    (s, w') ←
        handle ps idle starts
          (record {
            xsurveyor = Xsurveyor.init;
            fsm = Fsm.init;
            state = idle;
            surveyid = id;
            timer = Timer.init;
            tosend = empty_msg;
            deadline = some 1000;
            timedout = false;
          })
          w
    done (record s { fsm = fsm }, w'))

  unfoldable pub stop : Surveyor → World → Outcome (Surveyor × World)
  stop s w = Fsm.stop s.fsm (done (s, w)) (λ fsm. shut ps s.state stops (record s { fsm = fsm }) w)

  -- A survey that is stored is started, or takes the place of the one that goes on.
  unfoldable pub launch : Surveyor → World → Outcome (Reply (Unit {0}) × Surveyor × World)
  launch s w =
      let cancelled : Outcome (Reply (Unit {0}) × Surveyor × World) = do
        (s', w') ← feed ps cancel s w
        done (ok tt, s', w')
      in let started : Outcome (Reply (Unit {0}) × Surveyor × World) = do
        (s', w') ← feed ps start_action s w
        done (ok tt, s', w')
        in if inprogress s.state
          then (if not (Xsurveyor.events s.xsurveyor).writable
              then done (err eagain, s, w)
              else cancelled)
          else started

  unfoldable pub send : Surveyor → Msg → World → Outcome (Reply (Unit {0}) × Surveyor × World)
  send s m w = do
    assert (is_empty m.sphdr)
    let id = wire_id ((s.surveyid + 1) % 2 ^ 32)
    launch (record s { surveyid = id; tosend = record m { sphdr = putl id } }) w

  -- The loop of `nn_surveyor_recv`, for as many rounds as `fuel` says; `none` after them.
  unfoldable pub recv_loop : ℕ → Surveyor → World → Outcome (Option (Reply Msg) × Surveyor × World)
  recv_loop zero s w = done (none, s, w)
  recv_loop (suc fuel) s w = do
    (rc, x, w') ← Xsurveyor.recv ps s.xsurveyor w
    let s' : Surveyor = record s { xsurveyor = x }
    elim rc [
      | err e ↦ elim e [ eagain ↦ done (some (err eagain), s', w') | _ ↦ abort ]
      | ok m ↦ elim (is_current s.surveyid m) [
        | false ↦ recv_loop fuel s' w'
        | true ↦ done (some (ok (record m { sphdr = [] })), s', w')
      ]
    ]

  unfoldable pub recv : ℕ → Surveyor → World → Outcome (Option (Reply Msg) × Surveyor × World)
  recv fuel s w =
      if inprogress s.state
      then recv_loop fuel s w
      else if s.timedout
      then done (some (err etimedout), record s { timedout = false }, w)
      else done (some (err efsm), s, w)

  -- What the timer raises is processed before anything else happens.
  unfoldable pub deliver : Option Raised → Surveyor → World → Outcome (Surveyor × World)
  deliver none s w = done (s, w)
  deliver (some Raised.timeout) s w = feed ps timeout s w
  deliver (some Raised.stopped) s w =
      feed ps stopped (record s { timer = record s.timer { fsm = Fsm.processed s.timer.fsm } }) w

  -- The worker executes a task of the timer, or its time is over.
  unfoldable pub run_task : Surveyor → World → Outcome (Surveyor × World)
  run_task s w = do (t, raised) ← Timer.run_task s.timer; deliver raised (record s { timer = t }) w

  unfoldable pub expire : Surveyor → World → Outcome (Surveyor × World)
  expire s w = do (t, raised) ← Timer.expire s.timer; deliver raised (record s { timer = t }) w
