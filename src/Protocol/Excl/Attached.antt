-- ===== src/Protocol/Excl/Attached.antt =====
-- What an `Excl` may hold, and whom it talks to.
use vnano_msg.Common.{
  ℕ, ◌≡◌, ◌⊎◌, inl, inr, false, not, none, some, done, Reply, ok, err, eisconn, arith, Option-cases,
  Outcome-cases,
}
use vnano_msg.Core.Pipes.{Msg, Flags, drop_release, Pipes}
use vnano_msg.Protocol.Excl.{
  Excl, init, add, rm, activate_in, activate_out, can_send, can_recv, send, recv,
}

-- The pipes ready for reading and for writing are no others than the attached one.
pub record IsAttached (e : Excl) : Type 0 where
  pub reads : (e.inpipe ≡ none) ⊎ (e.inpipe ≡ e.pipe)
  pub writes : (e.outpipe ≡ none) ⊎ (e.outpipe ≡ e.pipe)

-- One completed call on the socket's side; `ps` is what the pipes answer.
pub data Step (ps : Pipes) (e : Excl) : Excl → Type 0 where
  added : (p : ℕ) → Step ps e (add e p).1
  removed : (p : ℕ) {e' : Excl} → rm e p ≡ done e' → Step ps e e'
  readable : (p : ℕ) {e' : Excl} → activate_in e p ≡ done e' → Step ps e e'
  writable : (p : ℕ) {e' : Excl} → activate_out e p ≡ done e' → Step ps e e'
  sent :
      (m : Msg) (w w' : ps.World) (r : Reply Flags) {e' : Excl}
      → send ps e m w ≡ done (r, e', w')
      → Step ps e e'
  received :
      (w w' : ps.World) (r : Reply (Flags × Msg)) {e' : Excl}
      → recv ps e w ≡ done (r, e', w')
      → Step ps e e'

Step-IsAttached : (ps : Pipes) {e e' : Excl} → Step ps e e' → IsAttached e → IsAttached e'
unfolding add rm init activate_in activate_out send recv
Step-IsAttached ps {e} (added p) a = ground arith
Step-IsAttached ps (removed p h) a = ground arith
Step-IsAttached ps (readable p h) a = ground arith
Step-IsAttached ps (writable p h) a = ground arith
Step-IsAttached ps (sent m w w' r h) a = ground arith
Step-IsAttached ps (received w w' r h) a = ground arith

pub data Reach (ps : Pipes) : Excl → Type 0 where
  start : Reach ps init
  step : {e e' : Excl} → Reach ps e → Step ps e e' → Reach ps e'

-- After any sequence of completed calls on a fresh `Excl`, over any pipes, the pipe ready for
-- reading and the pipe ready for writing are each the attached pipe, or none.
pub Reach-IsAttached : (ps : Pipes) {e : Excl} → Reach ps e → IsAttached e
unfolding init
Reach-IsAttached ps start = ground arith
Reach-IsAttached ps (step r s) = Step-IsAttached ps s (Reach-IsAttached ps r)

-- A message that `nn_excl_send` takes went to the attached pipe. The caller gets that pipe's flags
-- without RELEASE, the pipe stays attached, and it may be written again exactly unless it answered
-- RELEASE.
pub send_to_attached :
    (ps : Pipes) (e e' : Excl) (m : Msg) (w w' : ps.World) (f : Flags)
    → IsAttached e
    → send ps e m w ≡ done (ok f, e', w')
    → (p : ℕ) × (rc : Flags) × (e.pipe ≡ some p)
      × (ps.send p m w ≡ done (rc, w'))
      × (f ≡ drop_release rc)
      × (can_send e' ≡ not rc.release)
      × (e'.pipe ≡ some p)
unfolding send can_send
send_to_attached ps e e' m w w' f a h = elim (Option-cases e.outpipe) [
  | inl no_pipe ↦ absurd (ground arith)
  | inr (p, o) ↦ elim (Outcome-cases (ps.send p m w)) [
    | inl aborted ↦ absurd (ground arith)
    | inr ((rc, w2), s) ↦
        (p, rc, ground arith, ground arith, ground arith, ground arith, ground arith)
  ]
]

-- While a pipe is attached a second one is refused with EISCONN and nothing changes. Once it is
-- removed, any pipe is accepted, and neither reading nor writing is possible before it is ready.
pub add_exclusive :
    (e e' : Excl) (p q : ℕ)
    → e.pipe ≡ some p
    → rm e p ≡ done e'
    → (add e q ≡ (err eisconn, e))
      × ((add e' q).0 ≡ ok tt)
      × ((add e' q).1.pipe ≡ some q)
      × (can_send (add e' q).1 ≡ false)
      × (can_recv (add e' q).1 ≡ false)
unfolding add rm init can_send can_recv
add_exclusive e e' p q h r = (ground arith, ground arith, ground arith, ground arith, ground arith)
