-- ===== src/Protocol/Pair/Contract.antt =====
-- The events of a PAIR socket against what its calls answer.
use vnano_msg.Common.{
  ℕ, ◌≡◌, refl, Bool, true, false, Outcome, done, Reply, ok, err, eagain, Option-cases, inl, inr,
}
use vnano_msg.Core.Pipes.{Msg, Flags, Pipes}
use vnano_msg.Protocol.Excl
use vnano_msg.Protocol.Excl.{Excl, can_send, can_recv}
use vnano_msg.Protocol.Pair.{Xpair, events, send, recv, discard_flags}

-- What a call comes back with when the events told that it is ready or not.
abbrev pub Agrees {ℓ} : {A X W : Type ℓ} → Bool → X → W → Outcome (Reply A × X × W) → Type ℓ
Agrees false x w r = r ≡ done (err eagain, x, w)
Agrees {A = A} {X = X} {W = W} true x w r =
    (a : A) × (x' : X) × (w' : W) × (r ≡ done (ok a, x', w'))

send-Agrees :
    (ps : Pipes) (e : Excl) (m : Msg) (w : ps.World)
    → ((p : ℕ) (m : Msg) (v : ps.World) → (r : Flags × ps.World) × (ps.send p m v ≡ done r))
    → Agrees (Excl.can_send e) (record { excl = e }) w (send ps (record { excl = e }) m w)
unfolding send Excl.send Excl.can_send
send-Agrees ps e m w answers = elim (Option-cases e.outpipe) [
  | inl gone ↦ rw gone refl
  | inr (p, there) ↦ let ((rc, w'), r) = answers p m w in rw (there, r) (_, _, _, refl)
]

recv-Agrees :
    (ps : Pipes) (e : Excl) (w : ps.World)
    → ((p : ℕ) (v : ps.World) → (r : Flags × Msg × ps.World) × (ps.recv p v ≡ done r))
    → Agrees (Excl.can_recv e) (record { excl = e }) w (recv ps (record { excl = e }) w)
unfolding recv discard_flags Excl.recv Excl.can_recv
recv-Agrees ps e w answers = elim (Option-cases e.inpipe) [
  | inl gone ↦ rw gone refl
  | inr (p, there) ↦ let ((rc, m, w'), r) = answers p w in rw (there, r) (_, _, _, refl)
]

-- Over pipes that answer every call, `nn_xpair_events` tells what the calls do: a socket that is
-- not writable answers EAGAIN to a send, and one that is not readable to a receive, and nothing
-- changes; a writable socket takes the message and a readable one hands one over.
pub events_true :
    (ps : Pipes) (x : Xpair) (m : Msg) (w : ps.World)
    → ((p : ℕ) (m : Msg) (v : ps.World) → (r : Flags × ps.World) × (ps.send p m v ≡ done r))
    → ((p : ℕ) (v : ps.World) → (r : Flags × Msg × ps.World) × (ps.recv p v ≡ done r))
    → Agrees (events x).writable x w (send ps x m w) × Agrees (events x).readable x w (recv ps x w)
unfolding events
events_true ps x m w writes reads =
    (send-Agrees ps x.excl m w writes, recv-Agrees ps x.excl w reads)
