-- ===== src/Protocol/SurveyTests.antt =====
-- The theorems about the BUS and SURVEYOR sockets at concrete inputs.
use vnano_msg.Common.{
  ℕ, ◌≡◌, refl, ◌⊎◌, inr, false, Option, none, some, [], ◌∷◌, Outcome, done, abort, Reply, ok,
  arith, mem, ◌==◌, if◌then◌else◌,
}
use vnano_msg.Core.Pipes.{Msg, Flags, Pipes, logged}
use vnano_msg.Utils.Wire.{putl}
use vnano_msg.Aio.Fsm
use vnano_msg.Aio.Timer
use vnano_msg.Protocol.Priolist
use vnano_msg.Protocol.Priolist.{Data}
use vnano_msg.Protocol.Fq
use vnano_msg.Protocol.Dist
use vnano_msg.Protocol.Dist.Broadcast.{IsCounted, targets, remaining, addressed}
use vnano_msg.Protocol.Dist.Total.{TakesWrites}
use vnano_msg.Protocol.Reqrep.Xreq.Keeps.{AnswersReads}
use vnano_msg.Protocol.Bus.Xbus
use vnano_msg.Protocol.Bus.Xbus.{Xbus}
use vnano_msg.Protocol.Bus.Forward.{HasAddresses, forward_others}
use vnano_msg.Protocol.Survey.Xsurveyor
use vnano_msg.Protocol.Survey.Xsurveyor.{Xsurveyor}
use vnano_msg.Protocol.Survey.Surveyor
use vnano_msg.Protocol.Survey.Surveyor.{Surveyor, inprogress}
use vnano_msg.Protocol.Survey.Surveyor.Socket
use vnano_msg.Protocol.Survey.Surveyor.Calls.{sends, tasks, call}
use vnano_msg.Protocol.Survey.Surveyor.Runs
use vnano_msg.Protocol.Survey.Surveyor.Runs.{Reach, survey_tagged}
use vnano_msg.Protocol.Survey.Surveyor.Deadline.{Ends, deadline_reported}

abbrev hi : Msg
hi = record { sphdr = []; hdrs = []; body = 104 ∷ 105 ∷ [] }

abbrev ready : Flags
ready = record { release = false; parsed = false }

-- Pipe 7 has a message, and no other can be read.
abbrev seventh : Pipes
seventh = record {
  World = ℕ;
  send = λ p m w. done (ready, w);
  recv = λ p w. if p == 7 then done (ready, hi, w) else abort;
}

seventh-HasAddresses : HasAddresses seventh
seventh-HasAddresses p v r h = ground arith

abbrev queue : Fq.Fq
queue = record {
  slots = λ i.
      if i == 0
      then record { pipes = 7 ∷ []; current = some 7 }
      else record { pipes = []; current = none };
  current = some 1;
}

abbrev bus : Xbus
bus = record { outpipes = record { count = 3; pipes = 3 ∷ 7 ∷ 9 ∷ [] }; inpipes = queue }

bus-IsCounted : IsCounted bus.outpipes
bus-IsCounted = record { count = refl; small = omega arith; distinct = (refl, (refl, (refl, tt))) }

abbrev bus_left_by : Outcome (Option (Reply Msg) × Xbus × ℕ) → Xbus
bus_left_by (done (rc, x, w)) = x
bus_left_by abort = bus

abbrev tagged_hi : Msg
tagged_hi = record hi { sphdr = Xbus.pipe_id 7 }

abbrev read_bus : Xbus
read_bus = bus_left_by (Xbus.recv_loop seventh 2 bus 0)

forward_others_example :
    (p v : ℕ) × (flags : Flags) × (n : Msg) × (y : Xbus) × (seventh.recv p v ≡ done (flags, n, 0))
    × (n.sphdr ≡ [])
    × (Xbus.send (logged (λ q. ready)) read_bus tagged_hi []
        ≡ done (ok tt, y, addressed n (targets (some p) (3 ∷ 7 ∷ 9 ∷ []))))
    × (mem p (targets (some p) (3 ∷ 7 ∷ 9 ∷ [])) ≡ false)
    × (y.outpipes.pipes ≡ remaining (λ q. ready) (some p) (3 ∷ 7 ∷ 9 ∷ []))
unfolding Xbus.recv_loop Fq.recv Priolist.getpipe Priolist.advance Priolist.settle
forward_others_example =
    forward_others seventh (λ q. ready) 2 bus read_bus 0 0 tagged_hi [] seventh-HasAddresses
      bus-IsCounted refl

-- Pipes that take everything, and bring a survey response in the state 1.
abbrev bringing : Pipes
bringing = record { World = ℕ; send = λ p m w. done (ready, w); recv = λ p w. done (ready, hi, w) }

abbrev takes : TakesWrites bringing
takes p m v = ((ready, v), refl)

abbrev reads : AnswersReads bringing
reads p v = (ready, hi, v, refl, inr refl)

abbrev blank : Surveyor
blank = record {
  xsurveyor = Xsurveyor.init;
  fsm = Fsm.init;
  state = Surveyor.idle;
  surveyid = 0;
  timer = Timer.init;
  tosend = hi;
  deadline = none;
  timedout = false;
}

abbrev left_by : Outcome (Surveyor × ℕ) → Surveyor
left_by (done (s, w)) = s
left_by abort = blank

-- A survey is made, and the worker arms its timer.
abbrev new_surveyor : Surveyor
new_surveyor = left_by (Socket.init bringing 5 0)

abbrev asked : Surveyor
asked = left_by (call bringing (sends hi) new_surveyor 0)

abbrev timed : Surveyor
timed = left_by (call bringing tasks asked 0)

new_surveyor-Reach : Reach bringing new_surveyor
unfolding Socket.init Fsm.start Fsm.init Fsm.is_idle Surveyor.handle Xsurveyor.init Timer.init
new_surveyor-Reach = Runs.start 5 0 0 refl

asked-Reach : Reach bringing asked
unfolding call Socket.init Socket.send Socket.launch Surveyor.feed Surveyor.handle Surveyor.resend
    Surveyor.start_survey Surveyor.inprogress Xsurveyor.init Xsurveyor.send Dist.init Dist.send
    Fsm.init Fsm.start Fsm.is_idle Fsm.feed Timer.init Timer.start Timer.handle Timer.execute
asked-Reach = Runs.next (sends hi) 0 0 new_surveyor-Reach refl refl

timed-Reach : Reach bringing timed
unfolding call Socket.init Socket.send Socket.launch Socket.run_task Socket.deliver Surveyor.feed
    Surveyor.handle Surveyor.resend Surveyor.start_survey Surveyor.inprogress Xsurveyor.init
    Xsurveyor.send Dist.init Dist.send Fsm.init Fsm.start Fsm.is_idle Fsm.feed Timer.init
    Timer.start Timer.handle Timer.execute Timer.run_task Timer.feed
timed-Reach = Runs.next tasks 0 0 asked-Reach tt refl

survey_tagged_example :
    (t : Surveyor) × (w : ℕ) × (call bringing (sends hi) timed 0 ≡ done (t, w))
    × ((inprogress t.state ≡ false) ⊎ (t.tosend.sphdr ≡ putl t.surveyid))
survey_tagged_example = survey_tagged bringing timed (sends hi) 0 takes reads timed-Reach refl

deadline_reported_example : Ends bringing 3 timed 0
unfolding call Socket.init Socket.send Socket.launch Socket.run_task Socket.deliver Surveyor.feed
    Surveyor.handle Surveyor.resend Surveyor.start_survey Surveyor.inprogress Xsurveyor.init
    Xsurveyor.send Dist.init Dist.send Fsm.init Fsm.start Fsm.is_idle Fsm.feed Timer.init
    Timer.start Timer.handle Timer.execute Timer.run_task Timer.feed
deadline_reported_example = deadline_reported bringing timed 3 0 takes reads timed-Reach refl refl
