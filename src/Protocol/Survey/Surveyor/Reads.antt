-- ===== src/Protocol/Survey/Surveyor/Reads.antt =====
-- Reads of the SURVEYOR sockets come back.
use vnano_msg.Common.{
  ℕ, zero, suc, ◌≡◌, refl, ◌⊎◌, inl, inr, Bool, true, false, Option, none, some, [], Outcome, done,
  Reply, ok, err, eagain, efsm, etimedout, take, drop, length, ltb, arith, Bool-cases,
}
use vnano_msg.Core.Pipes.{Msg, Flags, Pipes}
use vnano_msg.Aio.Timer.Worker.{Mode}
use vnano_msg.Protocol.Priolist.Invariant.{Inv}
use vnano_msg.Protocol.Fq.Fair.{recv_best}
use vnano_msg.Protocol.Reqrep.Xreq.{split_word}
use vnano_msg.Protocol.Reqrep.Xreq.Keeps.{AnswersReads, unheaded, reads_done}
use vnano_msg.Protocol.Survey.Xsurveyor
use vnano_msg.Protocol.Survey.Xsurveyor.{Xsurveyor}
use vnano_msg.Protocol.Survey.Surveyor.{Surveyor, State, inprogress, is_current}
use vnano_msg.Protocol.Survey.Surveyor.Socket.{recv_loop, recv}
use vnano_msg.Protocol.Survey.Surveyor.Shapes.{
  cancelling, stopping_timer, Shape, rests, runs, halts, raw, surveyor_of, IsTagged, IsSound, sound,
}

split_cases :
    (m : Msg)
    → m.sphdr ≡ []
    → (split_word m ≡ done (err eagain)) ⊎ ((m' : Msg) × (split_word m ≡ done (ok m')))
unfolding split_word
split_cases m bare = elim (Bool-cases (ltb (length m.body) 4)) [
  | inl short ↦ inl (rw short refl)
  | inr long ↦ inr (record m { sphdr = take 4 m.body; body = drop 4 m.body }, rw (long, bare) refl)
]

-- A read that comes back: EAGAIN is its one error.
abbrev pub Read : (ps : Pipes) → Xsurveyor → ps.World → Type 0
Read ps x w =
    (y : Xsurveyor) × (w' : ps.World) × Inv y.inpipes
    × ((Xsurveyor.recv ps x w ≡ done (err eagain, y, w'))
        ⊎ ((m : Msg) × (Xsurveyor.recv ps x w ≡ done (ok m, y, w'))))

pub recv_total :
    (ps : Pipes) (x : Xsurveyor) (w : ps.World) → AnswersReads ps → Inv x.inpipes → Read ps x w
unfolding Xsurveyor.recv
recv_total ps x w reads v = elim (recv_best ps x.inpipes w (reads_done ps reads) v) [
  | inl (e, idle) ↦ (x, w, v, inl (rw (Xsurveyor.recv, e) refl))
  | inr (c, p, rc, m, w', fq, got, e, held, first, kept) ↦
      let (f, m', u', e', h) = reads p w in
      let same : ◌≡◌ {A = Outcome (Flags × Msg × ps.World)} (done (rc, m, w')) (done (f, m', u')) =
        cc in
      elim (Bool-cases rc.parsed) [
        | inl parsed ↦
            (record x { inpipes = fq }, w', kept, inr (m, rw (Xsurveyor.recv, e, parsed) refl))
        | inr unparsed ↦ elim (split_cases m (unheaded rc f m m' w' u' same h unparsed)) [
          | inl s ↦
              (record x { inpipes = fq }, w', kept, inl (rw (Xsurveyor.recv, e, unparsed, s) refl))
          | inr (n, s) ↦ (
            record x { inpipes = fq },
            w',
            kept,
            inr (n, rw (Xsurveyor.recv, e, unparsed, s) refl),
          )
        ]
      ]
]

-- A call of `nn_surveyor_recv` that comes back.
abbrev pub ReturnsFrom : {W : Type 0} → Outcome (Option (Reply Msg) × Surveyor × W) → Type 0
ReturnsFrom {W} m =
    (rc : Option (Reply Msg)) × (s : Surveyor) × (w : W) × (m ≡ done (rc, s, w)) × IsSound s

module _ (ps : Pipes) (reads : AnswersReads ps) (n id : ℕ) (q : Msg) where
  open ps use {World}

  recv_loop_returns :
      (b : Bool) (s : State) (m : Mode)
      → ((y : Xsurveyor) → Inv y.inpipes → IsSound (raw y n id q b s m))
      → (fuel : ℕ) (x : Xsurveyor) (w : World) → Inv x.inpipes
      → ReturnsFrom (recv_loop ps fuel (raw x n id q b s m) w)
  unfolding recv_loop
  recv_loop_returns b s m keep zero x w v = (none, raw x n id q b s m, w, refl, keep x v)
  recv_loop_returns b s m keep (suc fuel) x w v =
      let ih = recv_loop_returns b s m keep fuel in
      let (y, w', u, outcome) = recv_total ps x w reads v in
      elim outcome [
        | inl e ↦ (some (err eagain), raw y n id q b s m, w', rw (recv_loop, e) refl, keep y u)
        | inr (g, e) ↦ elim (Bool-cases (is_current id g)) [
          | inl current ↦ (
            some (ok (record g { sphdr = [] })),
            raw y n id q b s m,
            w',
            rw (recv_loop, e) (ground (arith, current)),
            keep y u,
          )
          | inr stale ↦
              let (rc, t, w'', e', k) = ih y w' u in
              (rc, t, w'', rw (recv_loop, e) (ground (arith, stale, e')), k)
        ]
      ]

  pub recv_returns :
      (b : Bool) (shape : Shape) (fuel : ℕ) (x : Xsurveyor) (w : World)
      → Inv x.inpipes
      → IsTagged id q shape
      → ReturnsFrom (recv ps fuel (surveyor_of x n id q b shape) w)
  unfolding recv inprogress
  recv_returns true (rests ms) fuel x w v tag =
      (some (err etimedout), _, w, refl, sound x n id q false v (rests ms) tt)
  recv_returns false (rests ms) fuel x w v tag =
      (some (err efsm), _, w, refl, sound x n id q false v (rests ms) tt)
  recv_returns b (runs k) fuel x w v tag =
      recv_loop_returns b _ _ (λ y u. sound y n id q b u (runs k) tag) fuel x w v
  recv_returns b (halts cancelling h) fuel x w v tag =
      recv_loop_returns b _ _ (λ y u. sound y n id q b u (halts cancelling h) tag) fuel x w v
  recv_returns b (halts stopping_timer h) fuel x w v tag =
      recv_loop_returns b _ _ (λ y u. sound y n id q b u (halts stopping_timer h) tag) fuel x w v
