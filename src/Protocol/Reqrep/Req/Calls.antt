-- ===== src/Protocol/Reqrep/Req/Calls.antt =====
-- The calls that a REQ socket gets before it is stopped, in any order, and that they come back.
use vnano_msg.Common.{
  ℕ, ◌+◌, ◌%◌, ◌^◌, ◌≡◌, refl, inl, inr, true, Option, none, some, Outcome, done, Reply, ok,
  is_empty, Bool-cases, ◌==◌,
}
use vnano_msg.Core.Pipes.{Msg, Pipes}
use vnano_msg.Utils.Wire.{putl}
use vnano_msg.Aio.Fsm
use vnano_msg.Aio.Timer
use vnano_msg.Protocol.Priolist.Invariant.{Inv, IsPriority}
use vnano_msg.Protocol.Priolist.Keeps.{init-Inv}
use vnano_msg.Protocol.Priolist.Turns.{IsIdle}
use vnano_msg.Protocol.Reqrep.Xreq
use vnano_msg.Protocol.Reqrep.Xreq.{Xreq, XreqData}
use vnano_msg.Protocol.Reqrep.Xreq.Keeps.{
  AnswersReads, activate_out_keeps, activate_in_keeps, rm_keeps,
}
use vnano_msg.Protocol.Reqrep.Req.{
  Req, Event, feed, is_answered, wire_id, inprogress, handle, empty_msg,
}
use vnano_msg.Protocol.Reqrep.Req.Socket
use vnano_msg.Protocol.Reqrep.Req.Socket.{
  init, csend, crecv, activate_in, activate_out, rm, run_task, expire,
}
use vnano_msg.Protocol.Reqrep.Req.Shapes.{
  passive, delayed, answered, timed_out, cancelling, stopping_timer, Shape, rests, waits, halts,
  req_of, IsSound, Returns, sound, sent_returns,
}
use vnano_msg.Protocol.Reqrep.Req.Handled.{rm_returns, out_returns, received_returns}
use vnano_msg.Protocol.Reqrep.Req.Arrivals.{ReturnsFrom, in_returns_all}
use vnano_msg.Protocol.Dist.Total.{TakesWrites}

pub init-IsSound : (ps : Pipes) (id : ℕ) (w : ps.World) → Returns (init ps id w)
unfolding init Fsm.start Fsm.init Fsm.is_idle handle Xreq.init Timer.init
init-IsSound ps id w =
    let x : Xreq = Xreq.init in
    (
      req_of x 60000 id empty_msg (some empty_msg) (rests passive none),
      w,
      refl,
      sound x 60000 id empty_msg (some empty_msg) init-Inv init-Inv (rests passive none),
    )

module _ (ps : Pipes) (writes : TakesWrites ps) (reads : AnswersReads ps) (x : Xreq) (n id : ℕ)
    (q : Msg) (a : Option Msg) (v : Inv x.lb) (u : Inv x.fq) where
  open ps use {World}

  pub csend_returns :
      (shape : Shape) (m : Msg) (w : World)
      → is_empty m.sphdr ≡ true
      → Returns (csend ps (req_of x n id q a shape) m w)
  unfolding csend
  csend_returns shape m w bare =
      let id' = (id + 1) % 2 ^ 32 in
      let q' : Msg = record m { sphdr = putl (wire_id id') } in
      by_shape shape (sent_returns ps writes x n id' q' a v u shape w)
    where
      by_shape :
          (shape : Shape)
          → Returns (
              feed ps Event.sent
                (req_of x n
                  ((id + 1) % 2 ^ 32)
                  (record m { sphdr = putl (wire_id ((id + 1) % 2 ^ 32)) })
                  a
                  shape)
                w)
          → Returns (csend ps (req_of x n id q a shape) m w)
      by_shape (rests k ms) r = rw bare r
      by_shape (waits k p) r = rw bare r
      by_shape (halts t h) r = rw bare r

  -- An answered request hands its reply over, which nothing has released.
  pub crecv_returns :
      (shape : Shape) (w : World)
      → (is_answered (req_of x n id q a shape).state ≡ true → (m : Msg) × (a ≡ some m))
      → (rc : Reply Msg) × (r : Req) × (w' : World) × (crecv ps (req_of x n id q a shape) w
          ≡ done (rc, r, w'))
        × IsSound r
  unfolding crecv inprogress
  crecv_returns (rests passive ms) w held = (_, _, _, refl, sound x n id q a v u (rests passive ms))
  crecv_returns (rests delayed ms) w held = (_, _, _, refl, sound x n id q a v u (rests delayed ms))
  crecv_returns (rests answered ms) w held =
      let (m, e) = held refl in
      let (r, w', e', s) = received_returns ps writes x n id q (some empty_msg) v u ms w in
      (ok m, r, w', rw (crecv, e, e') refl, s)
  crecv_returns (waits k p) w held = (_, _, _, refl, sound x n id q a v u (waits k p))
  crecv_returns (halts timed_out h) w held =
      (_, _, _, refl, sound x n id q a v u (halts timed_out h))
  crecv_returns (halts cancelling h) w held =
      (_, _, _, refl, sound x n id q a v u (halts cancelling h))
  crecv_returns (halts stopping_timer h) w held =
      (_, _, _, refl, sound x n id q a v u (halts stopping_timer h))

  moved :
      (y : Xreq) (shape : Shape) (w : World) (m : Outcome (Req × World))
      → Inv y.lb
      → Inv y.fq
      → m ≡ done (req_of y n id q a shape, w)
      → Returns m
  moved y shape w m v' u' e = (req_of y n id q a shape, w, e, sound y n id q a v' u' shape)

  -- What the raw socket does to the pipe comes first.
  pub out_call_returns :
      (shape : Shape) (d : XreqData) (y : Xreq) (w : World)
      → IsPriority d.outitem.priority
      → Xreq.activate_out x d ≡ done y
      → Returns (activate_out ps (req_of x n id q a shape) d w)
  unfolding activate_out
  out_call_returns shape d y w prio e =
      let (v', same, busy) = activate_out_keeps x y d v prio e in
      let u' : Inv y.fq = rw same u in by_shape v' u' busy shape
    where
      by_shape :
          Inv y.lb
          → Inv y.fq
          → ¬ IsIdle y.lb
          → (shape : Shape) → Returns (activate_out ps (req_of x n id q a shape) d w)
      by_shape v' u' busy (rests passive ms) = moved y (rests passive ms) w _ v' u' (rw e refl)
      by_shape v' u' busy (rests delayed ms) =
          rw e (out_returns ps writes y n id q a v' u' ms w busy)
      by_shape v' u' busy (rests answered ms) = moved y (rests answered ms) w _ v' u' (rw e refl)
      by_shape v' u' busy (waits k p) = moved y (waits k p) w _ v' u' (rw e refl)
      by_shape v' u' busy (halts timed_out h) = moved y (halts timed_out h) w _ v' u' (rw e refl)
      by_shape v' u' busy (halts cancelling h) = moved y (halts cancelling h) w _ v' u' (rw e refl)
      by_shape v' u' busy (halts stopping_timer h) =
          moved y (halts stopping_timer h) w _ v' u' (rw e refl)

  pub rm_call_returns :
      (shape : Shape) (p : ℕ) (d : XreqData) (y : Xreq) (w : World)
      → IsPriority d.outitem.priority
      → IsPriority d.initem.priority
      → Xreq.rm x d ≡ done y
      → Returns (rm ps (req_of x n id q a shape) p d w)
  unfolding rm
  rm_call_returns shape p d y w prio prio' e =
      let (v', u') = rm_keeps x y d v u prio prio' e in by_shape v' u' shape
    where
      by_shape :
          Inv y.lb → Inv y.fq → (shape : Shape) → Returns (rm ps (req_of x n id q a shape) p d w)
      by_shape v' u' (rests k ms) = moved y (rests k ms) w _ v' u' (rw e refl)
      by_shape v' u' (waits k p') = elim (Bool-cases (p == p')) [
        | inl there ↦ rw (rm, e, there) (rm_returns ps writes y n id q a v' u' k p' w)
        | inr other ↦ moved y (waits k p') w _ v' u' (rw (rm, e, other) refl)
      ]
      by_shape v' u' (halts t h) = moved y (halts t h) w _ v' u' (rw e refl)

  pub in_call_returns :
      (shape : Shape) (fuel : ℕ) (d : XreqData) (y : Xreq) (w : World)
      → IsPriority d.initem.priority
      → Xreq.activate_in x d ≡ done y
      → ReturnsFrom (activate_in ps fuel (req_of x n id q a shape) d w)
  unfolding activate_in
  in_call_returns shape fuel d y w prio e =
      let (u', same) = activate_in_keeps x y d u prio e in
      let v' : Inv y.lb = rw same v in
      by_shape shape (in_returns_all ps writes reads shape n id q fuel y a w v' u')
    where
      by_shape :
          (shape : Shape)
          → ReturnsFrom (Socket.in_loop ps fuel (req_of y n id q a shape) w)
          → ReturnsFrom (activate_in ps fuel (req_of x n id q a shape) d w)
      by_shape (rests k ms) r = rw e r
      by_shape (waits k p) r = rw e r
      by_shape (halts t h) r = rw e r
