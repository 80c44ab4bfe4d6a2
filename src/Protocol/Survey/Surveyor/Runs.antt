-- ===== src/Protocol/Survey/Surveyor/Runs.antt =====
-- Sequences of calls on a SURVEYOR socket, in the order in which the application, the pipes and the
-- worker of the timer make them.
use vnano_msg.Common.{ℕ, ◌≡◌, ◌⊎◌, false, done}
use vnano_msg.Core.Pipes.{Pipes}
use vnano_msg.Utils.Wire.{putl}
use vnano_msg.Protocol.Dist.Total.{TakesWrites}
use vnano_msg.Protocol.Reqrep.Xreq.Keeps.{AnswersReads}
use vnano_msg.Protocol.Survey.Surveyor.{Surveyor, inprogress}
use vnano_msg.Protocol.Survey.Surveyor.Socket.{init}
use vnano_msg.Protocol.Survey.Surveyor.Shapes.{IsSound, Returns}
use vnano_msg.Protocol.Survey.Surveyor.Calls.{
  Call, call, IsAllowed, init-IsSound, call_of, tagged_or_over,
}

pub data Reach (ps : Pipes) : Surveyor → Type 0 where
  start : {s : Surveyor} (id : ℕ) (w w' : ps.World) → init ps id w ≡ done (s, w') → Reach ps s
  next :
      {s t : Surveyor} (c : Call) (w w' : ps.World)
      → Reach ps s
      → IsAllowed c s
      → call ps c s w ≡ done (t, w')
      → Reach ps t

call-IsSound :
    (ps : Pipes)
    → TakesWrites ps
    → AnswersReads ps
    → (s : Surveyor) (c : Call) (w : ps.World) → IsSound s
    → IsAllowed c s
    → Returns (call ps c s w)
call-IsSound ps writes reads s c w k allowed = rw k.same (
    call_of ps writes reads k.xsurveyor k.interval k.id k.survey k.overdue k.fq_Inv k.shape c w
      k.tagged (rw k.same at allowed))

pub Reach-IsSound :
    (ps : Pipes) → TakesWrites ps → AnswersReads ps → {s : Surveyor} → Reach ps s → IsSound s
Reach-IsSound ps writes reads (start {s = s} id w w' h) =
    let (s', v, e, k) = init-IsSound ps id w in let same : s' ≡ s = cc in rw (← same) k
Reach-IsSound ps writes reads (next {s = s} {t = t} c w w' reach allowed h) =
    let (t', v, e, k) =
      call-IsSound ps writes reads s c w (Reach-IsSound ps writes reads reach) allowed in
    let same : t' ≡ t = cc in rw (← same) k

IsSound-tagged :
    (ps : Pipes)
    → TakesWrites ps
    → AnswersReads ps
    → (s : Surveyor) → IsSound s
    → (inprogress s.state ≡ false) ⊎ (s.tosend.sphdr ≡ putl s.surveyid)
IsSound-tagged ps writes reads s k = rw k.same (
    tagged_or_over ps writes reads k.xsurveyor k.interval k.id k.survey k.overdue k.fq_Inv k.shape
      k.tagged)

-- Over pipes that take every write, and hand over a message without a header if the transport did
-- not parse it: after nn_surveyor_init and any allowed calls, each allowed call comes back. No event
-- comes to the state machine or to its timer that it has no case for, and no assertion fails. While
-- a survey goes on, the stored survey has the number that nn_surveyor_recv compares responses with
-- as its header.
pub survey_tagged :
    (ps : Pipes) (s : Surveyor) (c : Call) (w : ps.World)
    → TakesWrites ps
    → AnswersReads ps
    → Reach ps s
    → IsAllowed c s
    → (t : Surveyor) × (w' : ps.World) × (call ps c s w ≡ done (t, w'))
      × ((inprogress t.state ≡ false) ⊎ (t.tosend.sphdr ≡ putl t.surveyid))
survey_tagged ps s c w writes reads reach allowed =
    let (t, w', e, k) =
      call-IsSound ps writes reads s c w (Reach-IsSound ps writes reads reach) allowed in
    (t, w', e, IsSound-tagged ps writes reads t k)
