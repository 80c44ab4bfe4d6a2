-- ===== src/Protocol/Survey/Surveyor/Calls.antt =====
-- What a SURVEYOR socket does with each call that it gets before it is stopped.
use vnano_msg.Common.{
  ℕ, ◌+◌, ◌%◌, ◌^◌, ◌≡◌, refl, ◌⊎◌, inl, inr, Bool, true, false, none, some, Outcome, done, ◌>>=◌,
  >>=-eq-done, arith, is_empty,
}
use vnano_msg.Core.Pipes.{Msg, Pipes}
use vnano_msg.Utils.Wire.{putl}
use vnano_msg.Aio.Fsm
use vnano_msg.Aio.Timer
use vnano_msg.Protocol.Priolist.{Data}
use vnano_msg.Protocol.Priolist.Invariant.{Inv, IsPriority}
use vnano_msg.Protocol.Priolist.Keeps.{init-Inv, activate-Inv, rm-Inv}
use vnano_msg.Protocol.Fq
use vnano_msg.Protocol.Dist
use vnano_msg.Protocol.Dist.Total.{TakesWrites}
use vnano_msg.Protocol.Reqrep.Req.{empty_msg, wire_id}
use vnano_msg.Protocol.Reqrep.Xreq.Keeps.{AnswersReads}
use vnano_msg.Protocol.Survey.{surveyor_type}
use vnano_msg.Protocol.Survey.Xsurveyor
use vnano_msg.Protocol.Survey.Xsurveyor.{Xsurveyor}
use vnano_msg.Protocol.Survey.Surveyor.{Surveyor, handle, inprogress, deadline_option, setopt}
use vnano_msg.Protocol.Survey.Surveyor.Socket.{init, launch, send, recv, run_task, expire}
use vnano_msg.Protocol.Survey.Surveyor.Shapes.{
  Shape, cancelling, stopping_timer, rests, runs, halts, surveyor_of, IsTagged, Returns, sound,
  cancel_returns, recancel_returns, begin_returns, run_task_returns, expire_returns,
}
use vnano_msg.Protocol.Survey.Surveyor.Reads.{recv_returns}

pub data Call : Type 0 where
  sends : Msg → Call
  recvs : ℕ → Call
  ins outs rms : Data → Call
  sets_deadline : ℕ → Call
  tasks expires : Call

-- A call with its answer left out.
unfoldable pub call : (ps : Pipes) → Call → Surveyor → ps.World → Outcome (Surveyor × ps.World)
call ps (sends m) s w = do (rc, s', w') ← send ps s m w; done (s', w')
call ps (recvs fuel) s w = do (rc, s', w') ← recv ps fuel s w; done (s', w')
call ps (ins d) s w = do
  x ← Xsurveyor.activate_in s.xsurveyor d
  done (record s { xsurveyor = x }, w)
call ps (outs d) s w = do
  x ← Xsurveyor.activate_out s.xsurveyor d
  done (record s { xsurveyor = x }, w)
call ps (rms d) s w = done (record s { xsurveyor = Xsurveyor.rm s.xsurveyor d }, w)
call ps (sets_deadline n) s w = done ((setopt s surveyor_type deadline_option 4 (some n)).1, w)
call ps tasks s w = run_task ps s w
call ps expires s w = expire ps s w

-- A message comes without a header, and a pipe with a priority that exists and in a state in which
-- the call of the raw socket comes back.
abbrev pub IsAllowed : Call → Surveyor → Type 0
IsAllowed (sends m) s = is_empty m.sphdr ≡ true
IsAllowed (ins d) s =
    IsPriority d.priority × ((y : Xsurveyor) × (Xsurveyor.activate_in s.xsurveyor d ≡ done y))
IsAllowed (outs d) s = (y : Xsurveyor) × (Xsurveyor.activate_out s.xsurveyor d ≡ done y)
IsAllowed (rms d) s = IsPriority d.priority
IsAllowed _ s = Unit {0}

pub init-IsSound : (ps : Pipes) (id : ℕ) (w : ps.World) → Returns (init ps id w)
unfolding init Fsm.start Fsm.init Fsm.is_idle handle Xsurveyor.init Timer.init
init-IsSound ps id w =
    let x : Xsurveyor = Xsurveyor.init in
    (
      surveyor_of x 1000 id empty_msg false (rests none),
      w,
      refl,
      sound x 1000 id empty_msg false init-Inv (rests none) tt,
    )

-- What the raw socket does to a pipe leaves the rest as it is.
activate_in-Inv :
    (x y : Xsurveyor) (d : Data)
    → IsPriority d.priority
    → Inv x.inpipes
    → Xsurveyor.activate_in x d ≡ done y
    → Inv y.inpipes
unfolding Xsurveyor.activate_in
activate_in-Inv x y d prio v h =
    let (fq, e, rest) = >>=-eq-done (Fq.activate x.inpipes d) _ h in
    let same : y.inpipes ≡ fq = ground (arith, rest) in
    rw same (activate-Inv x.inpipes fq d prio v e)

activate_out-Inv :
    (x y : Xsurveyor) (d : Data)
    → Inv x.inpipes
    → Xsurveyor.activate_out x d ≡ done y
    → Inv y.inpipes
unfolding Xsurveyor.activate_out
activate_out-Inv x y d v h =
    let (dist, e, rest) = >>=-eq-done (Dist.activate x.outpipes d.pipe) _ h in
    let same : y.inpipes ≡ x.inpipes = ground (arith, rest) in rw same v

module _ (ps : Pipes) (writes : TakesWrites ps) (reads : AnswersReads ps) (x : Xsurveyor) (n id : ℕ)
    (q : Msg) (b : Bool) (v : Inv x.inpipes) where
  open ps use {World}

  -- The survey is tagged, whatever was there before.
  launch_returns :
      (shape : Shape) (w : World)
      → q.sphdr ≡ putl id
      → Returns (do (rc, s, w') ← launch ps (surveyor_of x n id q b shape) w; done (s, w'))
  unfolding launch inprogress Xsurveyor.events
  launch_returns (rests ms) w tag =
      let (s, w', e, k) = begin_returns ps writes x n id q v b ms w tag in (s, w', rw e refl, k)
  launch_returns (runs r) w tag =
      let (s, w', e, k) = cancel_returns ps writes x n id q v b r w tag in (s, w', rw e refl, k)
  launch_returns (halts cancelling h) w tag =
      let (s, w', e, k) = recancel_returns ps writes x n id q v b cancelling h w tag in
      (s, w', rw e refl, k)
  launch_returns (halts stopping_timer h) w tag =
      let (s, w', e, k) = recancel_returns ps writes x n id q v b stopping_timer h w tag in
      (s, w', rw e refl, k)

module _ (ps : Pipes) (writes : TakesWrites ps) (reads : AnswersReads ps) (x : Xsurveyor) (n id : ℕ)
    (q : Msg) (b : Bool) (v : Inv x.inpipes) where
  open ps use {World}

  stored :
      (shape : Shape) (m : Msg) (w : World)
      → is_empty m.sphdr ≡ true
      → send ps (surveyor_of x n id q b shape) m w
        ≡ launch ps
            (surveyor_of x n
              (wire_id ((id + 1) % 2 ^ 32))
              (record m { sphdr = putl (wire_id ((id + 1) % 2 ^ 32)) })
              b
              shape)
            w
  unfolding send
  stored (rests ms) m w bare = rw bare refl
  stored (runs r) m w bare = rw bare refl
  stored (halts t h) m w bare = rw bare refl

  send_returns :
      (shape : Shape) (m : Msg) (w : World)
      → is_empty m.sphdr ≡ true
      → Returns (call ps (sends m) (surveyor_of x n id q b shape) w)
  unfolding call
  send_returns shape m w bare =
      let id' = wire_id ((id + 1) % 2 ^ 32) in
      rw (stored shape m w bare)
        (launch_returns ps writes reads x n id' (record m { sphdr = putl id' }) b v shape w refl)

  moved :
      (y : Xsurveyor) (shape : Shape) (w : World) (m : Outcome (Surveyor × World))
      → Inv y.inpipes
      → IsTagged id q shape
      → m ≡ done (surveyor_of y n id q b shape, w)
      → Returns m
  moved y shape w m u tag e = (surveyor_of y n id q b shape, w, e, sound y n id q b u shape tag)

  surveyor_of-xsurveyor : (shape : Shape) → (surveyor_of x n id q b shape).xsurveyor ≡ x
  surveyor_of-xsurveyor (rests ms) = refl
  surveyor_of-xsurveyor (runs r) = refl
  surveyor_of-xsurveyor (halts t h) = refl

  replaced :
      (y : Xsurveyor) (shape : Shape)
      → ◌≡◌ {A = Surveyor}
          (record (surveyor_of x n id q b shape) { xsurveyor = y })
          (surveyor_of y n id q b shape)
  replaced y (rests ms) = refl
  replaced y (runs r) = refl
  replaced y (halts t h) = refl

  set_deadline :
      (i : ℕ) (shape : Shape)
      → (setopt (surveyor_of x n id q b shape) surveyor_type deadline_option 4 (some i)).1
        ≡ surveyor_of x i id q b shape
  unfolding setopt
  set_deadline i (rests ms) = refl
  set_deadline i (runs r) = refl
  set_deadline i (halts t h) = refl

  pub call_of :
      (shape : Shape) (c : Call) (w : World)
      → IsTagged id q shape
      → IsAllowed c (surveyor_of x n id q b shape)
      → Returns (call ps c (surveyor_of x n id q b shape) w)
  unfolding call Xsurveyor.rm
  call_of shape (sends m) w tag h = send_returns shape m w h
  call_of shape (recvs fuel) w tag h =
      let (rc, s, w', e, k) = recv_returns ps reads n id q b shape fuel x w v tag in
      (s, w', rw e refl, k)
  call_of shape (ins d) w tag (prio, (y, e)) =
      let e' = rw (surveyor_of-xsurveyor shape) at e in
      moved y shape w _ (activate_in-Inv x y d prio v e') tag (rw (e, replaced y shape) refl)
  call_of shape (outs d) w tag (y, e) =
      let e' = rw (surveyor_of-xsurveyor shape) at e in
      moved y shape w _ (activate_out-Inv x y d v e') tag (rw (e, replaced y shape) refl)
  call_of shape (rms d) w tag prio =
      moved (Xsurveyor.rm x d) shape w _ (rm-Inv x.inpipes d prio v) tag
        (rw (surveyor_of-xsurveyor shape, replaced (Xsurveyor.rm x d) shape) refl)
  call_of shape (sets_deadline i) w tag h = (
    surveyor_of x i id q b shape,
    w,
    rw (set_deadline i shape) refl,
    sound x i id q b v shape tag,
  )
  call_of shape tasks w tag h = run_task_returns ps writes x n id q v b shape w tag
  call_of shape expires w tag h = expire_returns ps writes x n id q v b shape w tag

  pub tagged_or_over :
      (shape : Shape)
      → IsTagged id q shape
      → (inprogress (surveyor_of x n id q b shape).state ≡ false)
        ⊎ ((surveyor_of x n id q b shape).tosend.sphdr
            ≡ putl (surveyor_of x n id q b shape).surveyid)
  unfolding inprogress
  tagged_or_over (rests ms) tag = inl refl
  tagged_or_over (runs r) tag = inr tag
  tagged_or_over (halts t h) tag = inr tag
