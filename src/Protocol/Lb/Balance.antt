-- ===== src/Protocol/Lb/Balance.antt =====
-- Which pipe a load balancer writes to.
use vnano_msg.Common.{
  ℕ, ◌-◌, ◌≡◌, sym, ap, ◌∙◌, ◌⊎◌, inl, inr, false, some, List, [], ◌∷◌, ◌++◌, length, Outcome, done,
  ◌>>=◌, ok, err, eagain, arith,
}
use mathlib.Core.List.{append_assoc, append-nil, Perm}
use vnano_msg.Core.Pipes.{Msg, Flags, drop_release, Pipes, logged, Log}
use vnano_msg.Protocol.Priolist.Invariant.{Inv}
use vnano_msg.Protocol.Priolist.Keeps.{advance-Inv}
use vnano_msg.Protocol.Priolist.Turns.{getpipe_best, advance_total, IsWaiting, IsIdle, IsFirst}
use vnano_msg.Protocol.Priolist.Ring.{ring, turn_step, ring_perm}
use vnano_msg.Protocol.Lb.{Lb, send}

-- Over pipes that take every write, `nn_lb_send` on a well-formed balancer comes back. It says
-- EAGAIN, changing nothing, only if no pipe waits to be written. Otherwise it writes the message to
-- one waiting pipe of a priority that no waiting pipe beats, returns that pipe and its flags without
-- RELEASE, and leaves a well-formed balancer.
pub send_best :
    (ps : Pipes) (lb : Lb) (m : Msg) (w : ps.World)
    → ((x : ℕ) (v : ps.World) → (r : Flags × ps.World) × (ps.send x m v ≡ done r))
    → Inv lb
    → ((send ps lb m w ≡ done (err eagain, lb, w)) × IsIdle lb)
      ⊎ ((c x : ℕ) × (rc : Flags) × (w' : ps.World) × (lb' : Lb) × (ps.send x m w ≡ done (rc, w'))
          × (send ps lb m w ≡ done (ok (drop_release rc, x), lb', w'))
          × IsWaiting lb c x
          × IsFirst lb c
          × Inv lb')
unfolding send
send_best ps lb m w answers v = elim (getpipe_best lb v) [
  | inl (idle, nobody) ↦ inl (rw (idle, send), nobody)
  | inr (c, x, served, held, best) ↦
      let ((rc, w'), r) = answers x w in
      let (lb', a) = advance_total lb x rc.release v served in
      inr (
        c,
        x,
        rc,
        w',
        lb',
        r,
        rw (served, r, a, send),
        held,
        best,
        advance-Inv lb lb' rc.release v a,
      )
]

-- A run of messages through `nn_lb_send`; it stops at the first that is not taken.
unfoldable pub send_all : (ps : Pipes) → Lb → List Msg → ps.World → Outcome (Lb × ps.World)
send_all ps lb [] w = done (lb, w)
send_all ps lb (m ∷ ms) w = do
  (r, lb', w') ← send ps lb m w
  elim r [ err e ↦ done (lb', w') | ok a ↦ send_all ps lb' ms w' ]

-- The messages handed out to pipes in order, each to the next.
abbrev pub deal : List ℕ → List Msg → Log
deal [] ms = []
deal (x ∷ xs) [] = []
deal (x ∷ xs) (m ∷ ms) = (x, m) ∷ deal xs ms

-- The answer of a pipe that stays ready.
abbrev pub steady : Flags
steady = record { release = false; parsed = false }

send_all-deal :
    (xs ys : List ℕ) (ms : List Msg) (lb : Lb) (c : ℕ) (log : Log)
    → length ms ≡ length xs
    → Inv lb
    → lb.current ≡ some c
    → ring (lb.slots (c - 1)) ≡ xs ++ ys
    → (lb' : Lb) × (send_all (logged (λ _. steady)) lb ms log ≡ done (lb', log ++ deal xs ms))
unfolding send_all send
send_all-deal [] ys [] lb c log n v cur e = (lb, rw append-nil)
send_all-deal [] ys (m ∷ ms) lb c log n v cur e = absurd (omega arith)
send_all-deal (x ∷ xs) ys [] lb c log n v cur e = absurd (omega arith)
send_all-deal (x ∷ xs) ys (m ∷ ms) lb c log n v cur e =
    let (lb1, t) = turn_step lb c x (xs ++ ys) v cur e in
    let (lb', ih) =
      send_all-deal xs (ys ++ x ∷ []) ms lb1 c (log ++ (x, m) ∷ []) (omega arith) t.valid t.stays
        (t.rest ∙ append_assoc xs ys (x ∷ [])) in
    (
      lb',
      rw (t.served, t.moved)
          (ih ∙ ap (λ (l : Log). done (lb', l)) (append_assoc log ((x, m) ∷ []) (deal xs ms))),
    )

-- Over pipes that take every message and stay ready, as many messages as the current priority has
-- waiting pipes go one to each of these pipes: the first to the pipe whose turn it is, and the
-- others to those behind it in the slot, and from its beginning on, in order.
pub send_all_balanced :
    (lb : Lb) (c : ℕ) (ms : List Msg)
    → Inv lb
    → lb.current ≡ some c
    → length ms ≡ length (lb.slots (c - 1)).pipes
    → (lb' : Lb) × Perm (ring (lb.slots (c - 1))) (lb.slots (c - 1)).pipes
      × (send_all (logged (λ _. steady)) lb ms [] ≡ done (lb', deal (ring (lb.slots (c - 1))) ms))
send_all_balanced lb c ms v cur n =
    let (perm, same) = ring_perm lb c v cur in
    let (lb', e) =
      send_all-deal (ring (lb.slots (c - 1))) [] ms lb c [] (n ∙ sym same) v cur
        (sym (append-nil _)) in
    (lb', perm, e)
