-- ===== src/Core/Pipebase/Ready.antt =====
-- When a pipe is ready, as the events and the RELEASE flags tell the socket type.
use vnano_msg.Common.{
  ◌≡◌, refl, sym, ◌∙◌, Bool, true, false, not, ◌||◌, Outcome, done, abort, Outcome-cases, ok, arith,
  inl, inr, ◌⊎◌, [],
}
use vnano_msg.Core.Pipes.{Msg, Flags}
use vnano_msg.Core.Pipebase.{
  active, Side, ready, async, Pipebase, init, start, complete, received, sent, Transport,
  settle_side, side_after, send, recv,
}

module _ (t : Transport) where
  -- A started pipe after calls of both sides, and whether the socket type takes it to be ready for
  -- reading and for writing: it is from the event on, until a call answers RELEASE. The socket type
  -- reads and writes only then.
  pub data Reach : Pipebase → Bool → Bool → Type 0 where
    started : {p : Pipebase} → start init (ok tt) ≡ done (ok tt, p) → Reach p false true
    got :
        {p p' : Pipebase} {i o raised : Bool}
        → Reach p i o
        → received p ≡ done (raised, p')
        → Reach p' (i || raised) o
    gone :
        {p p' : Pipebase} {i o raised : Bool}
        → Reach p i o
        → sent p ≡ done (raised, p')
        → Reach p' i (o || raised)
    writes :
        {p p' : Pipebase} {i : Bool} (m : Msg) (w w' : t.World) (rc : Flags)
        → Reach p i true
        → send t p m w ≡ done (rc, p', w')
        → Reach p' i (not rc.release)
    reads :
        {p p' : Pipebase} {o : Bool} (m : Msg) (w w' : t.World) (rc : Flags)
        → Reach p true o
        → recv t p w ≡ done (rc, m, p', w')
        → Reach p' (not rc.release) o

-- A side that is ready or waits for the transport, as the socket type knows.
abbrev pub side_of : Bool → Side
side_of true = ready
side_of false = async

abbrev pub pipe_of : Bool → Bool → Pipebase
pipe_of i o = record { state = active; instate = side_of i; outstate = side_of o }

complete_side :
    (b raised : Bool) (s : Side)
    → complete (side_of b) ≡ done (raised, s)
    → s ≡ side_of (b || raised)
unfolding complete
complete_side true raised s h = absurd (ground arith)
complete_side false true s h = ground arith
complete_side false false s h = absurd (ground arith)

-- What a call does on a side that is ready or not, by what the callback does.
abbrev pub Answers {ℓ} : {A B : Type ℓ} → Bool → Outcome A → Outcome B → Type ℓ
Answers false callback call = call ≡ abort
Answers {A = A} {B = B} true callback call =
    ((callback ≡ abort) × (call ≡ abort))
    ⊎ (((a : A) × (callback ≡ done a)) × ((b : B) × (call ≡ done b)))

abbrev flags_after : Bool → Flags → Flags
flags_after true rc = rc
flags_after false rc = record rc { release = true }

not_release :
    (called : Bool) (rc : Flags) → rc.release ≡ false → not (flags_after called rc).release ≡ called
not_release true rc h = rw h refl
not_release false rc h = refl

module _ (t : Transport) where
  send_done :
      (i called : Bool) (m : Msg) (w v : t.World) (rc : Flags)
      → t.send m w ≡ done (rc, called, v)
      → send t (pipe_of i true) m w ≡ done (flags_after called rc, pipe_of i called, v)
  unfolding send side_after settle_side complete
  send_done i true m w v rc e = rw e refl
  send_done i false m w v rc e = rw e refl

  recv_done :
      (o called : Bool) (m : Msg) (w v : t.World) (rc : Flags)
      → t.recv w ≡ done (rc, called, m, v)
      → recv t (pipe_of true o) w ≡ done (flags_after called rc, m, pipe_of called o, v)
  unfolding recv side_after settle_side complete
  recv_done o true m w v rc e = rw e refl
  recv_done o false m w v rc e = rw e refl

  send_aborts :
      (i : Bool) (m : Msg) (w : t.World) → t.send m w ≡ abort → send t (pipe_of i true) m w ≡ abort
  unfolding send
  send_aborts i m w e = rw e refl

  recv_aborts : (o : Bool) (w : t.World) → t.recv w ≡ abort → recv t (pipe_of true o) w ≡ abort
  unfolding recv
  recv_aborts o w e = rw e refl

  refused :
      (b : Bool) (m : Msg) (w : t.World)
      → (send t (pipe_of b false) m w ≡ abort) × (recv t (pipe_of false b) w ≡ abort)
  unfolding send recv
  refused b m w = (refl, refl)

  send-Answers :
      (i o : Bool) (m : Msg) (w : t.World) → Answers o (t.send m w) (send t (pipe_of i o) m w)
  send-Answers i false m w = (refused i m w).0
  send-Answers i true m w = elim (Outcome-cases (t.send m w)) [
    | inl failed ↦ inl (failed, send_aborts i m w failed)
    | inr ((rc, called, v), e) ↦ inr ((_, e), (_, send_done i called m w v rc e))
  ]

  recv-Answers : (i o : Bool) (w : t.World) → Answers i (t.recv w) (recv t (pipe_of i o) w)
  recv-Answers false o w = (refused o (record { sphdr = []; hdrs = []; body = [] }) w).1
  recv-Answers true o w = elim (Outcome-cases (t.recv w)) [
    | inl failed ↦ inl (failed, recv_aborts o w failed)
    | inr ((rc, called, m, v), e) ↦ inr ((_, e), (_, recv_done o called m w v rc e))
  ]

  module _
      (quiet_send : (m : Msg) (w w' : t.World) (rc : Flags) (called : Bool)
        → t.send m w ≡ done (rc, called, w')
        → rc.release ≡ false)
      (quiet_recv : (m : Msg) (w w' : t.World) (rc : Flags) (called : Bool)
        → t.recv w ≡ done (rc, called, m, w')
        → rc.release ≡ false) where
    written :
        (i : Bool) (p' : Pipebase) (m : Msg) (w w' : t.World) (rc : Flags)
        → send t (pipe_of i true) m w ≡ done (rc, p', w')
        → p' ≡ pipe_of i (not rc.release)
    written i p' m w w' rc h = elim (Outcome-cases (t.send m w)) [
      | inl failed ↦ let a = send_aborts i m w failed in cc
      | inr ((rc0, called, v), e) ↦
          let k = not_release called rc0 (quiet_send m w v rc0 called e) in
          let a = sym h ∙ send_done i called m w v rc0 e in
          let r : rc ≡ flags_after called rc0 = cc in
          let q : p' ≡ pipe_of i called = cc in rw (r, k) q
    ]

    taken :
        (o : Bool) (p' : Pipebase) (m : Msg) (w w' : t.World) (rc : Flags)
        → recv t (pipe_of true o) w ≡ done (rc, m, p', w')
        → p' ≡ pipe_of (not rc.release) o
    taken o p' m w w' rc h = elim (Outcome-cases (t.recv w)) [
      | inl failed ↦ let a = recv_aborts o w failed in cc
      | inr ((rc0, called, m0, v), e) ↦
          let k = not_release called rc0 (quiet_recv m0 w v rc0 called e) in
          let a = sym h ∙ recv_done o called m0 w v rc0 e in
          let r : rc ≡ flags_after called rc0 = cc in
          let q : p' ≡ pipe_of called o = cc in rw (r, k) q
    ]

    completed_in :
        (i o raised : Bool) (p' : Pipebase)
        → received (pipe_of i o) ≡ done (raised, p')
        → p' ≡ pipe_of (i || raised) o
    unfolding received complete
    completed_in true o raised p' h = absurd (ground arith)
    completed_in false o true p' h = cc
    completed_in false o false p' h = absurd (ground arith)

    completed_out :
        (i o raised : Bool) (p' : Pipebase)
        → sent (pipe_of i o) ≡ done (raised, p')
        → p' ≡ pipe_of i (o || raised)
    unfolding sent complete
    completed_out i true raised p' h = absurd (ground arith)
    completed_out i false true p' h = cc
    completed_out i false false p' h = absurd (ground arith)

    first : (p : Pipebase) → start init (ok tt) ≡ done (ok tt, p) → p ≡ pipe_of false true
    unfolding start init
    first p h = cc

    -- With a transport whose callbacks never answer RELEASE themselves, a started pipe is in one
    -- of four states after any calls of both sides, each told by what the socket type knows: it is
    -- active, and a side is idle if it is taken to be ready and waits for the transport if not.
    pub Reach-pipe_of : {p : Pipebase} {i o : Bool} → Reach t p i o → p ≡ pipe_of i o
    Reach-pipe_of (started h) = first _ h
    Reach-pipe_of (got r h) = completed_in _ _ _ _ (rw (Reach-pipe_of r) at h)
    Reach-pipe_of (gone r h) = completed_out _ _ _ _ (rw (Reach-pipe_of r) at h)
    Reach-pipe_of (writes m w w' rc r h) = written _ _ m w w' rc (rw (Reach-pipe_of r) at h)
    Reach-pipe_of (reads m w w' rc r h) = taken _ _ m w w' rc (rw (Reach-pipe_of r) at h)

    -- With a transport whose callbacks never answer RELEASE themselves, after any calls of both
    -- sides on a started pipe a side that is not ready fails its assertion, and on one that is the
    -- call comes back exactly if the callback does.
    pub ready_calls :
        {p : Pipebase} {i o : Bool} (m : Msg) (w : t.World)
        → Reach t p i o
        → Answers o (t.send m w) (send t p m w) × Answers i (t.recv w) (recv t p w)
    ready_calls {i = i} {o = o} m w r =
        rw (Reach-pipe_of r) (send-Answers i o m w, recv-Answers i o w)
