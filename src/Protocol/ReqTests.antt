-- ===== src/Protocol/ReqTests.antt =====
-- The theorems about the REQ socket at concrete inputs.
use vnano_msg.Common.{
  ℕ, ◌≡◌, refl, true, false, Option, none, some, [], ◌∷◌, ◌++◌, inr, Outcome, done, abort, Reply,
  ok, err, efsm, arith,
}
use vnano_msg.Core.Pipes.{Msg, Flags, Pipes}
use vnano_msg.Utils.Wire.{putl, getl}
use vnano_msg.Utils.ItemList
use vnano_msg.Aio.Fsm
use vnano_msg.Aio.Timer
use vnano_msg.Protocol.Priolist
use vnano_msg.Protocol.Priolist.{Data}
use vnano_msg.Protocol.Lb
use vnano_msg.Protocol.Fq
use vnano_msg.Protocol.Pipeline.{set_priority}
use vnano_msg.Protocol.Reqrep.Xreq
use vnano_msg.Protocol.Reqrep.Xreq.{Xreq, XreqData, split_word}
use vnano_msg.Protocol.Reqrep.Xreq.Keeps.{AnswersReads}
use vnano_msg.Protocol.Reqrep.Req.{
  Req, State, is_waiting, is_answered, wire_id, accepts, inprogress, feed, handle, action_send,
  leave,
}
use vnano_msg.Protocol.Reqrep.Req.Socket.{
  init, csend, crecv, activate_in, activate_out, in_loop, take_reply, run_task, deliver,
}
use vnano_msg.Protocol.Priolist.Keeps.{init-Inv}
use vnano_msg.Protocol.Reqrep.Req.Shapes
use vnano_msg.Protocol.Reqrep.Req.Shapes.{req_of, rests, IsSound, sound}
use vnano_msg.Protocol.Dist.Total.{TakesWrites}
use vnano_msg.Protocol.Reqrep.Req.Runs
use vnano_msg.Protocol.Reqrep.Req.Runs.{
  Call, csends, outs, ins, tasks, call, is_some, Reach, call_returns,
}
use vnano_msg.Protocol.Reqrep.Req.Answers.{bare, reply_delivered, stale_reply_lost}

-- Pipes on which one message waits, a reply to the request whose number is the state.
abbrev ready : Flags
ready = record { release = false; parsed = false }

abbrev last : Flags
last = record { release = true; parsed = false }

abbrev reply_to : ℕ → Msg
reply_to n = record { sphdr = []; hdrs = []; body = putl (wire_id n) ++ 111 ∷ 107 ∷ [] }

abbrev numbered : Pipes
numbered = record {
  World = ℕ;
  send = λ p m w. done (ready, w);
  recv = λ p w. done (last, reply_to w, w);
}

abbrev writes : TakesWrites numbered
writes p m v = ((ready, v), refl)

abbrev reads : AnswersReads numbered
reads p v = (last, reply_to v, v, refl, inr refl)

abbrev hi : Msg
hi = record { sphdr = []; hdrs = []; body = 104 ∷ 105 ∷ [] }

abbrev seven : XreqData
seven = record {
  outitem = record { pipe = 7; priority = 1 };
  initem = record { pipe = 7; priority = 1 };
}

abbrev blank : Req
blank = record {
  xreq = Xreq.init;
  fsm = Fsm.init;
  state = State.idle;
  resend_ivl = none;
  id = 0;
  request = hi;
  reply = none;
  timer = Timer.init;
  sent_to = none;
}

abbrev left_by : Outcome (Req × ℕ) → Req
left_by (done (r, w)) = r
left_by abort = blank

abbrev raw_left_by : Outcome Xreq → Xreq
raw_left_by (done x) = x
raw_left_by abort = Xreq.init

-- A request is made, pipe 7 comes for it, and the worker starts the timer.
abbrev new_req : Req
new_req = left_by (init numbered 0 1)

abbrev asked : Req
asked = left_by (call numbered (csends hi) new_req 1)

abbrev sent : Req
sent = left_by (call numbered (outs seven) asked 1)

abbrev timed : Req
timed = left_by (call numbered tasks sent 1)

new_req-Reach : Reach numbered new_req
unfolding call init csend feed Fsm.init Fsm.start Fsm.is_idle Fsm.feed Fsm.stop handle action_send
    leave Xreq.init Xreq.send_to Xreq.activate_out Xreq.activate_in Xreq.recv split_word Lb.send
    Fq.recv Priolist.init Priolist.activate Priolist.add Priolist.is_active Priolist.get_priority
    Priolist.getpipe Priolist.advance Priolist.settle set_priority Timer.init Timer.start Timer.stop
    Timer.run_task Timer.feed Timer.handle Timer.shut Timer.execute activate_out activate_in in_loop
    take_reply accepts inprogress run_task deliver putl getl Fsm.stopped Fsm.processed
new_req-Reach = Runs.start 0 1 1 refl

asked-Reach : Reach numbered asked
unfolding call init csend feed Fsm.init Fsm.start Fsm.is_idle Fsm.feed Fsm.stop handle action_send
    leave Xreq.init Xreq.send_to Xreq.activate_out Xreq.activate_in Xreq.recv split_word Lb.send
    Fq.recv Priolist.init Priolist.activate Priolist.add Priolist.is_active Priolist.get_priority
    Priolist.getpipe Priolist.advance Priolist.settle set_priority Timer.init Timer.start Timer.stop
    Timer.run_task Timer.feed Timer.handle Timer.shut Timer.execute activate_out activate_in in_loop
    take_reply accepts inprogress run_task deliver putl getl Fsm.stopped Fsm.processed
asked-Reach = Runs.next (csends hi) 1 1 new_req-Reach refl refl

sent-Reach : Reach numbered sent
unfolding call init csend feed Fsm.init Fsm.start Fsm.is_idle Fsm.feed Fsm.stop handle action_send
    leave Xreq.init Xreq.send_to Xreq.activate_out Xreq.activate_in Xreq.recv split_word Lb.send
    Fq.recv Priolist.init Priolist.activate Priolist.add Priolist.is_active Priolist.get_priority
    Priolist.getpipe Priolist.advance Priolist.settle set_priority Timer.init Timer.start Timer.stop
    Timer.run_task Timer.feed Timer.handle Timer.shut Timer.execute activate_out activate_in in_loop
    take_reply accepts inprogress run_task deliver putl getl Fsm.stopped Fsm.processed
sent-Reach =
    Runs.next (outs seven) 1 1 asked-Reach
      (omega arith, (raw_left_by (Xreq.activate_out asked.xreq seven), refl)) refl

timed-Reach : Reach numbered timed
unfolding call init csend feed Fsm.init Fsm.start Fsm.is_idle Fsm.feed Fsm.stop handle action_send
    leave Xreq.init Xreq.send_to Xreq.activate_out Xreq.activate_in Xreq.recv split_word Lb.send
    Fq.recv Priolist.init Priolist.activate Priolist.add Priolist.is_active Priolist.get_priority
    Priolist.getpipe Priolist.advance Priolist.settle set_priority Timer.init Timer.start Timer.stop
    Timer.run_task Timer.feed Timer.handle Timer.shut Timer.execute activate_out activate_in in_loop
    take_reply accepts inprogress run_task deliver putl getl Fsm.stopped Fsm.processed
timed-Reach = Runs.next tasks 1 1 sent-Reach tt refl

abbrev in_done : Xreq
in_done = raw_left_by (Xreq.activate_in timed.xreq seven)

call_returns_example :
    (s : Req) × (w : ℕ) × (call numbered (ins 3 seven) timed 1 ≡ done (s, w))
    × (is_waiting s.state ≡ is_some s.sent_to)
unfolding call init csend feed Fsm.init Fsm.start Fsm.is_idle Fsm.feed Fsm.stop handle action_send
    leave Xreq.init Xreq.send_to Xreq.activate_out Xreq.activate_in Xreq.recv split_word Lb.send
    Fq.recv Priolist.init Priolist.activate Priolist.add Priolist.is_active Priolist.get_priority
    Priolist.getpipe Priolist.advance Priolist.settle set_priority Timer.init Timer.start Timer.stop
    Timer.run_task Timer.feed Timer.handle Timer.shut Timer.execute activate_out activate_in in_loop
    take_reply accepts inprogress run_task deliver putl getl Fsm.stopped Fsm.processed
call_returns_example =
    call_returns numbered timed (ins 3 seven) 1 writes reads timed-Reach
      (omega arith, (in_done, refl))

-- What is left of a read.
abbrev read_left_by : Outcome (Reply (Unit {0}) × Option Msg × Xreq × ℕ) → Xreq
read_left_by (done (rc, m, x, w)) = x
read_left_by abort = Xreq.init

abbrev headed : ℕ → Msg
headed n = record { sphdr = putl (wire_id n); hdrs = []; body = 111 ∷ 107 ∷ [] }

reply_delivered_example :
    (s : Req) × (activate_in numbered 3 timed seven 1 ≡ done (true, s, 1))
    × (t : Req) × (run_task numbered s 1 ≡ done (t, 1))
    × (r : Req) × (crecv numbered t 1 ≡ done (ok (bare (headed 1)), r, 1))
    × (crecv numbered r 1 ≡ done (err efsm, r, 1))
unfolding call init csend feed Fsm.init Fsm.start Fsm.is_idle Fsm.feed Fsm.stop handle action_send
    leave Xreq.init Xreq.send_to Xreq.activate_out Xreq.activate_in Xreq.recv split_word Lb.send
    Fq.recv Priolist.init Priolist.activate Priolist.add Priolist.is_active Priolist.get_priority
    Priolist.getpipe Priolist.advance Priolist.settle set_priority Timer.init Timer.start Timer.stop
    Timer.run_task Timer.feed Timer.handle Timer.shut Timer.execute activate_out activate_in in_loop
    take_reply accepts inprogress run_task deliver putl getl Fsm.stopped Fsm.processed
reply_delivered_example =
    reply_delivered numbered timed (headed 1) seven 2 in_done
      (read_left_by (Xreq.recv numbered in_done timed.reply 1)) 1 1 1 1 writes reads timed-Reach
      refl refl refl refl refl

-- A socket with an answered request, to which pipe 7 brings another message.
abbrev answered : Req
answered = req_of Xreq.init 60000 1 hi (some (bare (headed 1))) (rests Shapes.answered none)

answered-IsSound : IsSound answered
unfolding Xreq.init
answered-IsSound =
    sound Xreq.init 60000 1 hi (some (bare (headed 1))) init-Inv init-Inv
      (rests Shapes.answered none)

abbrev in_again : Xreq
in_again = raw_left_by (Xreq.activate_in answered.xreq seven)

abbrev emptied : Xreq
emptied = read_left_by (Xreq.recv numbered in_again answered.reply 5)

stale_reply_lost_example :
    (s : Req) × (activate_in numbered 2 answered seven 5 ≡ done (true, s, 5))
    × (is_answered s.state ≡ true)
    × (crecv numbered s 5 ≡ abort)
unfolding Xreq.init Xreq.activate_in Xreq.recv split_word Fq.recv Priolist.init Priolist.activate
    Priolist.getpipe Priolist.advance Priolist.settle accepts putl getl ItemList.without
    ItemList.next
stale_reply_lost_example =
    stale_reply_lost numbered answered (headed 5) seven 0 in_again emptied emptied 5 5 5 5
      answered-IsSound refl refl refl refl refl
