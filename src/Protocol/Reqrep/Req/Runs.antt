-- ===== src/Protocol/Reqrep/Req/Runs.antt =====
-- Sequences of calls on a REQ socket, in the order in which the application, the pipes and the worker
-- of the timer make them.
use vnano_msg.Common.{
  ℕ, ◌≡◌, refl, sym, ◌∙◌, Bool, true, false, Option, none, some, Outcome, done, ◌>>=◌, is_empty,
}
use vnano_msg.Core.Pipes.{Msg, Pipes}
use vnano_msg.Protocol.Priolist.Invariant.{Inv, IsPriority}
use vnano_msg.Protocol.Reqrep.{req_type}
use vnano_msg.Protocol.Reqrep.Xreq
use vnano_msg.Protocol.Reqrep.Xreq.{Xreq, XreqData}
use vnano_msg.Protocol.Reqrep.Xreq.Keeps.{AnswersReads}
use vnano_msg.Protocol.Reqrep.Req.{Req, is_answered, is_waiting, resend_option, setopt}
use vnano_msg.Protocol.Reqrep.Req.Socket.{
  init, csend, crecv, activate_in, activate_out, rm, run_task, expire,
}
use vnano_msg.Protocol.Reqrep.Req.Shapes.{
  Shape, passive, delayed, answered, timed_out, cancelling, stopping_timer, rests, waits, halts,
  req_of, IsSound, Returns, sound,
}
use vnano_msg.Protocol.Reqrep.Req.Handled.{run_task_returns, expire_returns}
use vnano_msg.Protocol.Dist.Total.{TakesWrites}
use vnano_msg.Protocol.Reqrep.Req.Calls.{
  init-IsSound, csend_returns, crecv_returns, out_call_returns, rm_call_returns, in_call_returns,
}

pub data Call : Type 0 where
  csends : Msg → Call
  crecvs : Call
  ins : ℕ → XreqData → Call
  outs : XreqData → Call
  rms : ℕ → XreqData → Call
  sets_interval : ℕ → Call
  tasks : Call
  expires : Call

-- A call with its answer left out.
unfoldable pub call : (ps : Pipes) → Call → Req → ps.World → Outcome (Req × ps.World)
call ps (csends m) r w = csend ps r m w
call ps crecvs r w = do (rc, r', w') ← crecv ps r w; done (r', w')
call ps (ins fuel d) r w = do (ended, r', w') ← activate_in ps fuel r d w; done (r', w')
call ps (outs d) r w = activate_out ps r d w
call ps (rms p d) r w = rm ps r p d w
call ps (sets_interval n) r w = done ((setopt r req_type resend_option 4 (some n)).1, w)
call ps tasks r w = run_task ps r w
call ps expires r w = expire ps r w

-- A message comes without a header, a pipe with priorities that exist and in a state in which the
-- call of the raw socket comes back, and a reply is asked for that nothing has released.
abbrev pub IsAllowed : Call → Req → Type 0
IsAllowed (csends m) r = is_empty m.sphdr ≡ true
IsAllowed crecvs r = is_answered r.state ≡ true → (m : Msg) × (r.reply ≡ some m)
IsAllowed (ins fuel d) r =
    IsPriority d.initem.priority × ((y : Xreq) × (Xreq.activate_in r.xreq d ≡ done y))
IsAllowed (outs d) r =
    IsPriority d.outitem.priority × ((y : Xreq) × (Xreq.activate_out r.xreq d ≡ done y))
IsAllowed (rms p d) r =
    IsPriority d.outitem.priority
    × IsPriority d.initem.priority
    × ((y : Xreq) × (Xreq.rm r.xreq d ≡ done y))
IsAllowed _ r = Unit {0}

pub data Reach (ps : Pipes) : Req → Type 0 where
  start : {r : Req} (id : ℕ) (w w' : ps.World) → init ps id w ≡ done (r, w') → Reach ps r
  next :
      {r s : Req} (c : Call) (w w' : ps.World)
      → Reach ps r
      → IsAllowed c r
      → call ps c r w ≡ done (s, w')
      → Reach ps s

abbrev pub is_some {ℓ} : {A : Type ℓ} → Option A → Bool
is_some none = false
is_some (some a) = true

module _ (x : Xreq) (n id : ℕ) (q : Msg) (a : Option Msg) where
  req_of-xreq : (shape : Shape) → (req_of x n id q a shape).xreq ≡ x
  req_of-xreq (rests k ms) = refl
  req_of-xreq (waits k p) = refl
  req_of-xreq (halts t h) = refl

  req_of-reply : (shape : Shape) → (req_of x n id q a shape).reply ≡ a
  req_of-reply (rests k ms) = refl
  req_of-reply (waits k p) = refl
  req_of-reply (halts t h) = refl

  held_reply :
      (shape : Shape)
      → IsAllowed crecvs (req_of x n id q a shape)
      → is_answered (req_of x n id q a shape).state ≡ true
      → (m : Msg) × (a ≡ some m)
  held_reply shape h e = let (m, f) = h e in (m, sym (req_of-reply shape) ∙ f)

  -- A pipe is remembered exactly as long as the request is with it.
  req_of-waiting :
      (shape : Shape)
      → is_waiting (req_of x n id q a shape).state ≡ is_some (req_of x n id q a shape).sent_to
  req_of-waiting (rests passive ms) = refl
  req_of-waiting (rests delayed ms) = refl
  req_of-waiting (rests answered ms) = refl
  req_of-waiting (waits k p) = refl
  req_of-waiting (halts timed_out h) = refl
  req_of-waiting (halts cancelling h) = refl
  req_of-waiting (halts stopping_timer h) = refl

  setopt-req_of :
      (i : ℕ) (shape : Shape)
      → (setopt (req_of x n id q a shape) req_type resend_option 4 (some i)).1
        ≡ req_of x i id q a shape
  unfolding setopt
  setopt-req_of i (rests k ms) = refl
  setopt-req_of i (waits k p) = refl
  setopt-req_of i (halts t h) = refl

call-req_of :
    (ps : Pipes)
    → TakesWrites ps
    → AnswersReads ps
    → (x : Xreq) (n id : ℕ) (q : Msg) (a : Option Msg) → Inv x.lb
    → Inv x.fq
    → (shape : Shape) (c : Call) (w : ps.World) → IsAllowed c (req_of x n id q a shape)
    → Returns (call ps c (req_of x n id q a shape) w)
unfolding call
call-req_of ps writes reads x n id q a v u shape (csends m) w h =
    csend_returns ps writes reads x n id q a v u shape m w h
call-req_of ps writes reads x n id q a v u shape crecvs w h =
    let (rc, r, w', e, s) =
      crecv_returns ps writes reads x n id q a v u shape w (held_reply x n id q a shape h) in
    (r, w', rw e refl, s)
call-req_of ps writes reads x n id q a v u shape (ins fuel d) w h =
    let (prio, (y, e)) = h in
    let (b, r, w', e', s) =
      in_call_returns ps writes reads x n id q a v u shape fuel d y w prio
        (rw (req_of-xreq x n id q a shape) at e) in
    (r, w', rw e' refl, s)
call-req_of ps writes reads x n id q a v u shape (outs d) w h =
    let (prio, (y, e)) = h in
    out_call_returns ps writes reads x n id q a v u shape d y w prio
      (rw (req_of-xreq x n id q a shape) at e)
call-req_of ps writes reads x n id q a v u shape (rms p d) w h =
    let (prio, prio', (y, e)) = h in
    rm_call_returns ps writes reads x n id q a v u shape p d y w prio prio'
      (rw (req_of-xreq x n id q a shape) at e)
call-req_of ps writes reads x n id q a v u shape (sets_interval i) w h = (
  req_of x i id q a shape,
  w,
  rw (setopt-req_of x n id q a i shape) refl,
  sound x i id q a v u shape,
)
call-req_of ps writes reads x n id q a v u shape tasks w h =
    run_task_returns ps writes x n id q a v u shape w
call-req_of ps writes reads x n id q a v u shape expires w h =
    expire_returns ps writes x n id q a v u shape w

call-IsSound :
    (ps : Pipes)
    → TakesWrites ps
    → AnswersReads ps
    → (r : Req) (c : Call) (w : ps.World) → IsSound r
    → IsAllowed c r
    → Returns (call ps c r w)
call-IsSound ps writes reads r c w s allowed = rw s.same (
    call-req_of ps writes reads s.xreq s.interval s.id s.request s.reply s.lb_Inv s.fq_Inv s.shape c
      w (rw s.same at allowed))

IsSound-waiting : (r : Req) → IsSound r → is_waiting r.state ≡ is_some r.sent_to
IsSound-waiting r s = rw s.same (req_of-waiting s.xreq s.interval s.id s.request s.reply s.shape)

pub Reach-IsSound :
    (ps : Pipes) → TakesWrites ps → AnswersReads ps → {r : Req} → Reach ps r → IsSound r
Reach-IsSound ps writes reads (start {r = r} id w w' h) =
    let (r', v, e, s) = init-IsSound ps id w in let same : r' ≡ r = cc in rw (← same) s
Reach-IsSound ps writes reads (next {r = r} {s = t} c w w' reach allowed h) =
    let (t', v, e, s) =
      call-IsSound ps writes reads r c w (Reach-IsSound ps writes reads reach) allowed in
    let same : t' ≡ t = cc in rw (← same) s

-- Over pipes that take every write, and hand over a message without a header if the transport did
-- not parse it: after nn_req_init and any allowed calls, each allowed call comes back. No event comes
-- to the state machine or to its timer that it has no case for, and no assertion fails. A pipe is
-- remembered as the one that has the request exactly in the state ACTIVE.
pub call_returns :
    (ps : Pipes) (r : Req) (c : Call) (w : ps.World)
    → TakesWrites ps
    → AnswersReads ps
    → Reach ps r
    → IsAllowed c r
    → (s : Req) × (w' : ps.World) × (call ps c r w ≡ done (s, w'))
      × (is_waiting s.state ≡ is_some s.sent_to)
call_returns ps r c w writes reads reach allowed =
    let (s, w', e, k) =
      call-IsSound ps writes reads r c w (Reach-IsSound ps writes reads reach) allowed in
    (s, w', e, IsSound-waiting s k)
