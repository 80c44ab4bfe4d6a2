-- ===== src/Protocol/Fq/Fair.antt =====
-- Which pipe a fair queue reads from.
use vnano_msg.Common.{ℕ, ◌≡◌, ◌⊎◌, inl, inr, done, ok, err, eagain}
use vnano_msg.Core.Pipes.{Msg, Flags, drop_release, Pipes}
use vnano_msg.Protocol.Priolist.Invariant.{Inv}
use vnano_msg.Protocol.Priolist.Keeps.{advance-Inv}
use vnano_msg.Protocol.Priolist.Turns.{getpipe_best, advance_total, IsWaiting, IsIdle, IsFirst}
use vnano_msg.Protocol.Fq.{Fq, recv}

-- Over pipes that answer every read, `nn_fq_recv` on a well-formed queue comes back. It says EAGAIN,
-- changing nothing, only if no pipe waits to be read. Otherwise it reads one message from a waiting
-- pipe of a priority that no waiting pipe beats, returns that pipe and its flags without RELEASE,
-- and leaves a well-formed queue.
pub recv_best :
    (ps : Pipes) (fq : Fq) (w : ps.World)
    → ((x : ℕ) (v : ps.World) → (r : Flags × Msg × ps.World) × (ps.recv x v ≡ done r))
    → Inv fq
    → ((recv ps fq w ≡ done (err eagain, fq, w)) × IsIdle fq)
      ⊎ ((c x : ℕ) × (rc : Flags) × (m : Msg) × (w' : ps.World) × (fq' : Fq) × (ps.recv x w
            ≡ done (rc, m, w'))
          × (recv ps fq w ≡ done (ok (drop_release rc, m, x), fq', w'))
          × IsWaiting fq c x
          × IsFirst fq c
          × Inv fq')
unfolding recv
recv_best ps fq w answers v = elim (getpipe_best fq v) [
  | inl (idle, nobody) ↦ inl (rw (idle, recv), nobody)
  | inr (c, x, served, held, best) ↦
      let ((rc, m, w'), r) = answers x w in
      let (fq', a) = advance_total fq x rc.release v served in
      inr (
        c,
        x,
        rc,
        m,
        w',
        fq',
        r,
        rw (served, r, a, recv),
        held,
        best,
        advance-Inv fq fq' rc.release v a,
      )
]
