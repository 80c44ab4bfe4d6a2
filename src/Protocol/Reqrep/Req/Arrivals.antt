-- ===== src/Protocol/Reqrep/Req/Arrivals.antt =====
-- The loop of nn_req_in comes back, whatever the messages are that it reads.
use vnano_msg.Common.{
  ℕ, zero, suc, ◌≡◌, refl, inl, inr, Bool, true, false, ◌&&◌, Option, none, some, [], Outcome, done,
  Bool-cases,
}
use vnano_msg.Core.Pipes.{Msg, Pipes}
use vnano_msg.Protocol.Priolist.Invariant.{Inv}
use vnano_msg.Protocol.Dist.Total.{TakesWrites}
use vnano_msg.Protocol.Reqrep.Xreq.{Xreq}
use vnano_msg.Protocol.Reqrep.Xreq.Keeps.{AnswersReads, recv_total}
use vnano_msg.Protocol.Reqrep.Req.{Req, State, is_waiting, inprogress, accepts}
use vnano_msg.Aio.Timer.Worker.{Mode, resting}
use vnano_msg.Protocol.Reqrep.Req.Socket.{in_loop, take_reply}
use vnano_msg.Protocol.Reqrep.Req.Shapes.{
  rest_state, turn_state, run_mode, halt_mode, timed_out, cancelling, stopping_timer, passive,
  delayed, answered, raw, Rest, Turn, Shape, rests, waits, halts, req_of, IsSound, Returns, sound,
}
use vnano_msg.Protocol.Reqrep.Req.Handled.{in_returns}

-- A loop of reads comes back well-formed, and tells whether it came to its end.
abbrev pub ReturnsFrom : {W : Type 0} → Outcome (Bool × Req × W) → Type 0
ReturnsFrom {W} m = (b : Bool) × (r : Req) × (w : W) × (m ≡ done (b, r, w)) × IsSound r

module _ (ps : Pipes) (writes : TakesWrites ps) (reads : AnswersReads ps) where
  open ps use {World}

  -- `nn_req_in` in a state where each of its rounds keeps what makes a socket well-formed.
  in_loop_returns :
      (n id : ℕ) (q : Msg) (s : State) (m : Mode) (to : Option ℕ)
      → ((y : Xreq) (b : Option Msg) → Inv y.lb → Inv y.fq → IsSound (raw y n id q b s m to))
      → ((y : Xreq) (g : Msg) (v : World)
          → Inv y.lb
          → Inv y.fq
          → Returns (take_reply ps (raw y n id q (some g) s m to) g v))
      → (fuel : ℕ) (x : Xreq) (a : Option Msg) (w : World) → Inv x.lb
      → Inv x.fq
      → ReturnsFrom (in_loop ps fuel (raw x n id q a s m to) w)
  unfolding in_loop inprogress
  in_loop_returns n id q s m to keep take zero x a w v u =
      (false, raw x n id q a s m to, w, refl, keep x a v u)
  in_loop_returns n id q s m to keep take (suc fuel) x a w v u =
      let ih = in_loop_returns n id q s m to keep take fuel in
      elim (recv_total ps x a w reads u) [
        | inl (e, msg, y, w', got, same, u') ↦
            (true, raw y n id q msg s m to, w', rw (in_loop, got) refl, keep y msg (rw same v) u')
        | inr (g, y, w', got, same, u') ↦ elim (Bool-cases (inprogress s && accepts id g)) [
          | inl fits ↦
              let (r, w'', e, ok_r) = take y g w' (rw same v) u' in
              (true, r, w'', rw (in_loop, got, fits, e) refl, ok_r)
          | inr stale ↦
              let (b, r, w'', e, ok_r) = ih y none w' (rw same v) u' in
              (b, r, w'', rw (in_loop, got, stale) e, ok_r)
        ]
      ]

  -- A reply that comes when the socket does not wait for one is kept, and nothing is told.
  kept_reply :
      (y : Xreq) (n id : ℕ) (q g : Msg) (shape : Shape) (s : State) (m : Mode) (to : Option ℕ)
      (w : World)
      → is_waiting s ≡ false
      → ((b : Option Msg) → req_of y n id q b shape ≡ raw y n id q b s m to)
      → Inv y.lb
      → Inv y.fq
      → Returns (take_reply ps (raw y n id q (some g) s m to) g w)
  unfolding take_reply
  kept_reply y n id q g shape s m to w idle same v u =
      let b : Option Msg = some (record g { sphdr = [] }) in
      (
        raw y n id q b s m to,
        w,
        rw (take_reply, idle) refl,
        rw (← same b) (sound y n id q b v u shape),
      )

  rest_idle : (k : Rest) → is_waiting (rest_state k) ≡ false
  rest_idle passive = refl
  rest_idle delayed = refl
  rest_idle answered = refl

  turn_idle : (t : Turn) → is_waiting (turn_state t) ≡ false
  turn_idle timed_out = refl
  turn_idle cancelling = refl
  turn_idle stopping_timer = refl

  pub in_returns_all :
      (shape : Shape) (n id : ℕ) (q : Msg) (fuel : ℕ) (x : Xreq) (a : Option Msg) (w : World)
      → Inv x.lb
      → Inv x.fq
      → ReturnsFrom (in_loop ps fuel (req_of x n id q a shape) w)
  unfolding take_reply
  in_returns_all (rests k ms) n id q fuel x a w v u =
      in_loop_returns n id q (rest_state k) (resting false ms) none
        (λ y b v' u'. sound y n id q b v' u' (rests k ms))
        (λ y g z v' u'.
          kept_reply y n id q g (rests k ms) (rest_state k) (resting false ms) none z (rest_idle k)
            (λ b. refl) v' u')
        fuel x a w v u
  in_returns_all (waits k p) n id q fuel x a w v u =
      in_loop_returns n id q State.active (run_mode k) (some p)
        (λ y b v' u'. sound y n id q b v' u' (waits k p))
        (λ y g z v' u'. in_returns ps writes y n id q (some (record g { sphdr = [] })) v' u' k p z)
        fuel x a w v u
  in_returns_all (halts t h) n id q fuel x a w v u =
      in_loop_returns n id q (turn_state t) (halt_mode h) none
        (λ y b v' u'. sound y n id q b v' u' (halts t h))
        (λ y g z v' u'.
          kept_reply y n id q g (halts t h) (turn_state t) (halt_mode h) none z (turn_idle t)
            (λ b. refl) v' u')
        fuel x a w v u
