-- ===== src/Protocol/Reqrep/Req/Answers.antt =====
-- The reply to a request on its way to the application, and a stale reply that gets there first.
use vnano_msg.Common.{
  ℕ, suc, ◌≡◌, refl, ◌∙◌, ap, Bool, true, false, ◌&&◌, Option, none, some, List, [], done, abort,
  ◌>>=◌, ok, err, eagain, efsm, length, arith,
}
use vnano_msg.Core.Pipes.{Msg, Pipes}
use vnano_msg.Utils.Wire.{getl, putl}
use vnano_msg.Utils.Wire.RoundTrip.{get-put}
use vnano_msg.Aio.Fsm
use vnano_msg.Aio.Timer.Worker
use vnano_msg.Aio.Timer.Worker.{Mode, stop_mode, run_task_mode}
use vnano_msg.Protocol.Reqrep.Xreq
use vnano_msg.Protocol.Reqrep.Xreq.{Xreq, XreqData}
use vnano_msg.Protocol.Reqrep.Xreq.Keeps.{AnswersReads}
use vnano_msg.Protocol.Reqrep.Req.{
  Req, State, is_waiting, is_answered, inprogress, accepts, wire_id, handle, feed, leave, empty_msg,
}
use vnano_msg.Protocol.Reqrep.Req.Socket.{
  activate_in, in_loop, take_reply, run_task, deliver, crecv,
}
use vnano_msg.Protocol.Reqrep.Req.Shapes.{
  Shape, early, delayed, timed_out, cancelling, late, started, stopping_timer, answered, passive,
  rests, waits, halts, raw, req_of, IsSound,
}
use vnano_msg.Protocol.Dist.Total.{TakesWrites}
use vnano_msg.Protocol.Reqrep.Req.Runs.{Reach, Reach-IsSound}

-- The header that nn_req_csend makes passes the tests of nn_req_in.
accepts-putl : (id : ℕ) (m : Msg) → m.sphdr ≡ putl (wire_id id) → accepts id m ≡ true
unfolding accepts putl
accepts-putl id m e =
    let g : getl m.sphdr ≡ some (wire_id id) =
      ap getl e ∙ (get-put 0 (wire_id id) 0 [] (omega arith) (omega arith) (omega arith)).1 in
    let l : length m.sphdr ≡ 4 = ap (λ (t : List ℕ). length t) e in
    rw (accepts, l, g) (ground arith)

abbrev pub bare : Msg → Msg
bare m = record m { sphdr = [] }

-- One round of the loop of nn_req_in, with a message that is accepted or not.
module _ (ps : Pipes) (y z : Xreq) (n id : ℕ) (q g : Msg) (a : Option Msg) (s : State) (m : Mode)
    (to : Option ℕ) (fuel : ℕ) (w w' : ps.World)
    (got : Xreq.recv ps y a w ≡ done (ok tt, some g, z, w')) where
  taken :
      (inprogress s && accepts id g) ≡ true
      → in_loop ps (suc fuel) (raw y n id q a s m to) w
        ≡ (take_reply ps (raw z n id q (some g) s m to) g w' >>= λ t. done (true, t.0, t.1))
  unfolding in_loop inprogress
  taken fits = rw (in_loop, got, fits) refl

  released :
      (inprogress s && accepts id g) ≡ false
      → in_loop ps (suc fuel) (raw y n id q a s m to) w
        ≡ in_loop ps fuel (raw z n id q none s m to) w'
  unfolding in_loop inprogress
  released stale = rw (in_loop, got, stale) refl

module _ (ps : Pipes) (x y z : Xreq) (n id : ℕ) (q g : Msg) (a : Option Msg) (b : Bool) (p fuel : ℕ)
    (d : XreqData) (w w' v : ps.World) (signalled : Xreq.activate_in x d ≡ done y)
    (got : Xreq.recv ps y a w ≡ done (ok tt, some g, z, w')) where
  -- A request that waits, with its timer started.
  abbrev waiting : Req
  waiting = req_of x n id q a (waits (late b) p)

  abbrev replied : Req
  replied = req_of z n id q (some (bare g)) (halts stopping_timer (started none b))

  took : accepts id g ≡ true → activate_in ps (suc fuel) waiting d w ≡ done (true, replied, w')
  unfolding activate_in inprogress take_reply feed Fsm.feed handle leave
  took fits =
      rw
        (
          activate_in,
          signalled,
          taken ps y z n id q g a State.active (Worker.running b) (some p) fuel w w' got fits,
          take_reply,
          feed,
          Fsm.feed,
          handle,
          leave,
          stop_mode (Worker.running b),
        )
        refl

  stopped_timer :
      run_task ps replied v ≡ done (req_of z n id q (some (bare g)) (rests answered none), v)
  unfolding run_task deliver Fsm.processed feed Fsm.feed handle
  stopped_timer = rw (run_task, run_task_mode (Worker.halting none b)) refl

-- The part of a sound socket that waits, with no task of its timer left.
by_shape :
    (ps : Pipes) (x : Xreq) (n id : ℕ) (q : Msg) (a : Option Msg) (shape : Shape) (g : Msg)
    (d : XreqData) (fuel : ℕ) (y z : Xreq) (w w' v u : ps.World)
    → is_waiting (req_of x n id q a shape).state ≡ true
    → (req_of x n id q a shape).timer.tasks ≡ []
    → g.sphdr ≡ putl (wire_id (req_of x n id q a shape).id)
    → Xreq.activate_in (req_of x n id q a shape).xreq d ≡ done y
    → Xreq.recv ps y (req_of x n id q a shape).reply w ≡ done (ok tt, some g, z, w')
    → (s : Req) × (activate_in ps (suc fuel) (req_of x n id q a shape) d w ≡ done (true, s, w'))
      × (t : Req) × (run_task ps s v ≡ done (t, v))
      × (r : Req) × (crecv ps t u ≡ done (ok (bare g), r, u))
      × (crecv ps r u ≡ done (err efsm, r, u))
unfolding crecv inprogress feed Fsm.feed handle
by_shape ps x n id q a (waits (late b) p) g d fuel y z w w' v u waits_ok idle same signalled got = (
  replied ps x y z n id q g a b p fuel d w w' v signalled got,
  took ps x y z n id q g a b p fuel d w w' v signalled got (accepts-putl id g same),
  req_of z n id q (some (bare g)) (rests answered none),
  stopped_timer ps x y z n id q g a b p fuel d w w' v signalled got,
  req_of z n id q (some empty_msg) (rests passive none),
  refl,
  refl,
)
by_shape ps x n id q a (waits (early i) p) g d fuel y z w w' v u waits_ok idle same signalled got =
    cc
by_shape ps x n id q a (rests passive ms) g d fuel y z w w' v u waits_ok idle same signalled got =
    cc
by_shape ps x n id q a (rests delayed ms) g d fuel y z w w' v u waits_ok idle same signalled got =
    cc
by_shape ps x n id q a (rests answered ms) g d fuel y z w w' v u waits_ok idle same signalled got =
    cc
by_shape ps x n id q a (halts timed_out h) g d fuel y z w w' v u waits_ok idle same signalled got =
    cc
by_shape ps x n id q a (halts cancelling h) g d fuel y z w w' v u waits_ok idle same signalled got =
    cc
by_shape ps x n id q a (halts stopping_timer h) g d fuel y z w w' v u waits_ok idle same signalled
      got =
    cc

-- After any allowed calls, if a request is with a pipe and its timer was started: a pipe that gets
-- ready for reading and hands over a message with the header that nn_req_csend gave the request has
-- it stored, the next task of the worker stops the timer, and then nn_req_crecv hands the message
-- over without its header. A second nn_req_crecv answers EFSM.
pub reply_delivered :
    (ps : Pipes) (r : Req) (g : Msg) (d : XreqData) (fuel : ℕ) (y z : Xreq) (w w' v u : ps.World)
    → TakesWrites ps
    → AnswersReads ps
    → Reach ps r
    → is_waiting r.state ≡ true
    → r.timer.tasks ≡ []
    → g.sphdr ≡ putl (wire_id r.id)
    → Xreq.activate_in r.xreq d ≡ done y
    → Xreq.recv ps y r.reply w ≡ done (ok tt, some g, z, w')
    → (s : Req) × (activate_in ps (suc fuel) r d w ≡ done (true, s, w'))
      × (t : Req) × (run_task ps s v ≡ done (t, v))
      × (r' : Req) × (crecv ps t u ≡ done (ok (bare g), r', u))
      × (crecv ps r' u ≡ done (err efsm, r', u))
reply_delivered ps r g d fuel y z w w' v u writes reads reach waits_ok idle same signalled got =
    let k = Reach-IsSound ps writes reads reach in
    rw k.same (
      by_shape ps k.xreq k.interval k.id k.request k.reply k.shape g d fuel y z w w' v u
        (rw k.same at waits_ok) (rw k.same at idle) (rw k.same at same) (rw k.same at signalled)
        (rw k.same at got))

lost_by_shape :
    (ps : Pipes) (x : Xreq) (n id : ℕ) (q : Msg) (a : Option Msg) (shape : Shape) (g : Msg)
    (d : XreqData) (fuel : ℕ) (y z z' : Xreq) (w w' w'' v : ps.World)
    → is_answered (req_of x n id q a shape).state ≡ true
    → accepts (req_of x n id q a shape).id g ≡ false
    → Xreq.activate_in (req_of x n id q a shape).xreq d ≡ done y
    → Xreq.recv ps y (req_of x n id q a shape).reply w ≡ done (ok tt, some g, z, w')
    → Xreq.recv ps z none w' ≡ done (err eagain, none, z', w'')
    → (s : Req) × (activate_in ps (suc (suc fuel)) (req_of x n id q a shape) d w
        ≡ done (true, s, w''))
      × (is_answered s.state ≡ true)
      × (crecv ps s v ≡ abort)
unfolding activate_in inprogress in_loop crecv
lost_by_shape ps x n id q a (rests answered ms) g d fuel y z z' w w' w'' v ok_state stale signalled
      got nothing =
    (
      req_of z' n id q none (rests answered ms),
      rw
          (
            activate_in,
            signalled,
            released ps y z n id q g a State.answered (Worker.resting false ms) none (suc fuel) w w'
                got stale,
            in_loop,
            nothing,
          )
          refl,
      refl,
      refl,
    )
lost_by_shape ps x n id q a (rests passive ms) g d fuel y z z' w w' w'' v ok_state stale signalled
      got nothing =
    cc
lost_by_shape ps x n id q a (rests delayed ms) g d fuel y z z' w w' w'' v ok_state stale signalled
      got nothing =
    cc
lost_by_shape ps x n id q a (waits k p) g d fuel y z z' w w' w'' v ok_state stale signalled got
      nothing =
    cc
lost_by_shape ps x n id q a (halts timed_out h) g d fuel y z z' w w' w'' v ok_state stale signalled
      got nothing =
    cc
lost_by_shape ps x n id q a (halts cancelling h) g d fuel y z z' w w' w'' v ok_state stale signalled
      got nothing =
    cc
lost_by_shape ps x n id q a (halts stopping_timer h) g d fuel y z z' w w' w'' v ok_state stale
      signalled got nothing =
    cc

-- In a well-formed socket with an answered request, the reply waits to be handed over. A stale
-- message that a pipe hands over first, with no other behind it, takes its place and is released:
-- the state stays, and nn_req_crecv then uses a message that was released.
pub stale_reply_lost :
    (ps : Pipes) (r : Req) (g : Msg) (d : XreqData) (fuel : ℕ) (x y z : Xreq)
    (w w' w'' v : ps.World)
    → IsSound r
    → is_answered r.state ≡ true
    → accepts r.id g ≡ false
    → Xreq.activate_in r.xreq d ≡ done x
    → Xreq.recv ps x r.reply w ≡ done (ok tt, some g, y, w')
    → Xreq.recv ps y none w' ≡ done (err eagain, none, z, w'')
    → (s : Req) × (activate_in ps (suc (suc fuel)) r d w ≡ done (true, s, w''))
      × (is_answered s.state ≡ true)
      × (crecv ps s v ≡ abort)
stale_reply_lost ps r g d fuel x y z w w' w'' v k there stale signalled got nothing = rw k.same (
    lost_by_shape ps k.xreq k.interval k.id k.request k.reply k.shape g d fuel x y z w w' w'' v
      (rw k.same at there) (rw k.same at stale) (rw k.same at signalled) (rw k.same at got) nothing)
