-- ===== src/Protocol/Bus/Forward.antt =====
-- A raw BUS socket whose messages are sent back to it, as a device does.
use vnano_msg.Common.{
  ℕ, zero, suc, ◌^◌, ◌<◌, ◌≡◌, refl, false, inl, inr, some, List, [], ◌∷◌, ◌++◌, done, ok, err,
  is_empty, mem, arith, Bool-cases, Option-cases, Outcome-cases, >>=-eq-done,
}
use vnano_msg.Core.Pipes.{Msg, Flags, Pipes, Log, logged}
use vnano_msg.Utils.Wire.{putll}
use vnano_msg.Utils.Wire.RoundTrip.{get-put}
use vnano_msg.Protocol.Fq
use vnano_msg.Protocol.Fq.{Fq}
use vnano_msg.Protocol.Priolist
use vnano_msg.Protocol.Dist.Broadcast.{IsCounted, targets, remaining, addressed, send_broadcast}
use vnano_msg.Protocol.Bus.Xbus.{Xbus, pipe_id, excluded_by, distribute, send, recv_loop}

excluded_by-pipe_id : (p : ℕ) → p < 2 ^ 64 → excluded_by (pipe_id p) ≡ some p
unfolding excluded_by pipe_id putll
excluded_by-pipe_id p h = (get-put 0 0 p [] (omega arith) (omega arith) h).2

pipe_id_not_empty : (p : ℕ) → is_empty (pipe_id p) ≡ false
unfolding pipe_id
pipe_id_not_empty p = refl

-- What a read of the fair queue hands over came from a pipe.
read_from :
    (ps : Pipes) (fq fq' : Fq) (w w' : ps.World) (rc : Flags) (m : Msg) (p : ℕ)
    → Fq.recv ps fq w ≡ done (ok (rc, m, p), fq', w')
    → (flags : Flags) × (ps.recv p w ≡ done (flags, m, w'))
unfolding Fq.recv
read_from ps fq fq' w w' rc m p h =
    let (found, e, rest) = >>=-eq-done (Priolist.getpipe fq) _ h in
    elim (Option-cases found) [
      | inl none_found ↦ absurd (ground (arith, rest))
      | inr (q, one) ↦ elim (Outcome-cases (ps.recv q w)) [
        | inl lost ↦ absurd (ground (arith, rest))
        | inr ((flags, n, v), got) ↦ elim (Outcome-cases (Priolist.advance fq flags.release)) [
          | inl lost ↦ absurd (ground (arith, rest))
          | inr (fq2, turned) ↦
              let same : (n ≡ m) × (v ≡ w') × (q ≡ p) = ground (arith, rest) in
              (flags, ground arith)
        ]
      ]
    ]

-- A message that the loop hands over names the pipe that it came from.
loop_tags :
    (ps : Pipes) (fuel : ℕ) (x x' : Xbus) (w w' : ps.World) (m : Msg)
    → recv_loop ps fuel x w ≡ done (some (ok m), x', w')
    → (p : ℕ) × (v : ps.World) × (flags : Flags) × (n : Msg) × (ps.recv p v ≡ done (flags, n, w'))
      × (n.sphdr ≡ [])
      × (m ≡ record n { sphdr = pipe_id p })
      × (x'.outpipes ≡ x.outpipes)
unfolding recv_loop
loop_tags ps zero x x' w w' m h = absurd (ground arith)
loop_tags ps (suc fuel) x x' w w' m h = elim (Outcome-cases (Fq.recv ps x.inpipes w)) [
  | inl lost ↦ absurd (ground (arith, h))
  | inr ((err e, fq, v), got) ↦ absurd (ground (arith, h))
  | inr ((ok (flags, n, p), fq, v), got) ↦ elim (Bool-cases (is_empty n.sphdr)) [
    | inl bare ↦
        let (flags', from) = read_from ps x.inpipes fq w v flags n p got in
        let same : (v ≡ w') × (m ≡ record n { sphdr = pipe_id p }) × (x'.outpipes ≡ x.outpipes) =
          ground (arith, h) in
        (p, w, flags', n, rw (← same.0) from, ground (arith, bare), same.1, same.2)
    | inr headed ↦ loop_tags ps fuel (record x { inpipes = fq }) x' v w' m (ground (arith, h))
  ]
]

targets-mem : (p : ℕ) (l : List ℕ) → mem p (targets (some p) l) ≡ false
targets-mem p [] = refl
targets-mem p (q ∷ l) = ground (arith, targets-mem p l)

-- Pipes of which only those with an address of 64 bits are read.
abbrev pub HasAddresses : Pipes → Type 0
HasAddresses ps =
    (p : ℕ) (v : ps.World) (r : Flags × Msg × ps.World) → ps.recv p v ≡ done r → p < 2 ^ 64

-- A tag leads to the distributor, with the message as it was before.
send_tagged :
    (ps : Pipes) (x : Xbus) (n : Msg) (p : ℕ) (w : ps.World)
    → n.sphdr ≡ []
    → p < 2 ^ 64
    → send ps x (record n { sphdr = pipe_id p }) w ≡ distribute ps x n (some p) w
unfolding send
send_tagged ps x n p w bare h =
    let same : ◌≡◌ {A = Msg} (record n { sphdr = [] }) n = ground (arith, bare) in
    rw (pipe_id_not_empty p, excluded_by-pipe_id p h, same) refl

-- A message that nn_xbus_recv hands over had no header when it was read, and names the pipe that it
-- came from, provided that an address has at most 64 bits. Given to nn_xbus_send on the same
-- socket, it is written as it was read, once to every pipe that may be written to but that one, and
-- not back to it; the pipes that answer RELEASE may not be written to afterwards.
pub forward_others :
    (ps : Pipes) (answer : ℕ → Flags) (fuel : ℕ) (x x' : Xbus) (w w' : ps.World) (m : Msg)
    (log : Log)
    → HasAddresses ps
    → IsCounted x.outpipes
    → recv_loop ps fuel x w ≡ done (some (ok m), x', w')
    → (p : ℕ) × (v : ps.World) × (flags : Flags) × (n : Msg) × (y : Xbus) × (ps.recv p v
        ≡ done (flags, n, w'))
      × (n.sphdr ≡ [])
      × (send (logged answer) x' m log
          ≡ done (ok tt, y, log ++ addressed n (targets (some p) x.outpipes.pipes)))
      × (mem p (targets (some p) x.outpipes.pipes) ≡ false)
      × (y.outpipes.pipes ≡ remaining answer (some p) x.outpipes.pipes)
unfolding distribute
forward_others ps answer fuel x x' w w' m log addresses counted h =
    let (p, v, flags, n, from, bare, tagged, kept) = loop_tags ps fuel x x' w w' m h in
    let (d, sent, left, count) = send_broadcast answer x.outpipes n (some p) log counted in
    let named = send_tagged (logged answer) x' n p log bare (addresses p v (flags, n, w') from) in
    (
      p,
      v,
      flags,
      n,
      record x' { outpipes = d },
      from,
      bare,
      rw (tagged, named, kept, sent) refl,
      targets-mem p x.outpipes.pipes,
      left,
    )
