-- ===== src/Protocol/Dist/Total.antt =====
-- Sending to all comes back when each pipe takes the message.
use vnano_msg.Common.{ℕ, ◌≡◌, refl, Bool-cases, inl, inr, Option, List, [], ◌∷◌, done, ◌==◌}
use vnano_msg.Core.Pipes.{Msg, Flags, Pipes}
use vnano_msg.Protocol.Dist.{Dist, is_excluded, dec32, send_loop, send}

-- Pipes that take every write.
abbrev pub TakesWrites : Pipes → Type 0
TakesWrites ps =
    (p : ℕ) (m : Msg) (v : ps.World) → (r : Flags × ps.World) × (ps.send p m v ≡ done r)

module _ (ps : Pipes) (writes : TakesWrites ps) (m : Msg) (ex : Option ℕ) where
  open ps use {World}

  send_loop_total :
      (l : List ℕ) (n : ℕ) (w : World)
      → (r : List ℕ × ℕ × World) × (send_loop ps l m ex n w ≡ done r)
  unfolding send_loop
  send_loop_total [] n w = (_, refl)
  send_loop_total (p ∷ l) n w = elim (Bool-cases (is_excluded ex p)) [
    | inl skipped ↦
        let ((l', n', w'), e) = send_loop_total l n w in
        ((p ∷ l', n', w'), rw (send_loop, skipped, e) refl)
    | inr written ↦
        let ((flags, w1), taken) = writes p m w in
        elim (Bool-cases flags.release) [
          | inl gone ↦
              let (r, e) = send_loop_total l (dec32 n) w1 in
              (r, rw (send_loop, written, taken, gone, e) refl)
          | inr stays ↦
              let ((l', n', w'), e) = send_loop_total l n w1 in
              ((p ∷ l', n', w'), rw (send_loop, written, taken, stays, e) refl)
        ]
  ]

  pub send_total :
      (d : Dist) (w : World) → (d' : Dist) × (w' : World) × (send ps d m ex w ≡ done (d', w'))
  unfolding send
  send_total d w = elim (Bool-cases (d.count == 0)) [
    | inl nobody ↦ (d, w, rw (send, nobody) refl)
    | inr somebody ↦
        let ((l, n, w'), e) = send_loop_total d.pipes d.count w in
        (record { count = n; pipes = l }, w', rw (send, somebody, e) refl)
  ]
