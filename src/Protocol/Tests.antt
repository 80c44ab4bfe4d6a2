-- ===== src/Protocol/Tests.antt =====
-- The theorems about src/protocols/utils at concrete inputs, and runs of the functions.
use vnano_msg.Common.{
  ℕ, ◌+◌, ◌≡◌, refl, ◌⊎◌, false, not, none, some, List, [], ◌∷◌, map, done, ok, err, eagain,
  eisconn, arith, length,
}
use mathlib.Core.List.{Perm}
use vnano_msg.Core.Pipes.{Msg, Flags, drop_release, Pipes, logged}
use vnano_msg.Protocol.Excl
use vnano_msg.Protocol.Excl.{Excl}
use vnano_msg.Protocol.Excl.Attached.{IsAttached, Reach-IsAttached, send_to_attached, add_exclusive}
use vnano_msg.Protocol.Priolist
use vnano_msg.Protocol.Priolist.{Priolist, Data, Slot, put, getpipe, activate}
use vnano_msg.Protocol.Priolist.Invariant.{Inv}
use vnano_msg.Protocol.Priolist.Turns.{Reach-Inv, getpipe_best, IsWaiting, IsIdle, IsFirst}
use vnano_msg.Protocol.Priolist.Turns
use vnano_msg.Protocol.Priolist.Ring.{ring, turns, turns-round}
use vnano_msg.Protocol.Fq.{Fq}
use vnano_msg.Protocol.Fq
use vnano_msg.Protocol.Fq.Fair.{recv_best}
use vnano_msg.Protocol.Lb.Balance.{send_all, deal, steady, send_all_balanced}
use vnano_msg.Protocol.Dist
use vnano_msg.Protocol.Dist.{Dist}
use vnano_msg.Protocol.Dist.Broadcast.{IsCounted, send_broadcast}

abbrev hello : Msg
hello = record { sphdr = []; hdrs = []; body = 104 ∷ 105 ∷ [] }

-- Pipe 7 stays ready, every other pipe answers RELEASE.
abbrev answer : ℕ → Flags
answer p = record { release = not (Excl.is_pipe p (some 7)); parsed = false }

abbrev attached : Excl
attached = record { pipe = some 7; inpipe = none; outpipe = some 7 }

attached-Reach : Excl.Attached.Reach (logged answer) attached
unfolding Excl.init Excl.add Excl.activate_out
attached-Reach =
    Excl.Attached.step (Excl.Attached.step Excl.Attached.start (Excl.Attached.added 7))
      (Excl.Attached.writable 7 refl)

Reach-IsAttached_example : IsAttached attached
Reach-IsAttached_example = Reach-IsAttached (logged answer) attached-Reach

send_to_attached_example :
    (p : ℕ) × (rc : Flags) × (some 7 ≡ some p)
    × ((logged answer).send p hello [] ≡ done (rc, (7, hello) ∷ []))
    × (answer 7 ≡ drop_release rc)
    × (Excl.can_send attached ≡ not rc.release)
    × (some 7 ≡ some p)
unfolding Excl.send
send_to_attached_example =
    send_to_attached (logged answer) attached attached hello [] ((7, hello) ∷ []) (answer 7)
      Reach-IsAttached_example refl

add_exclusive_example :
    (Excl.add attached 8 ≡ (err eisconn, attached))
    × ((Excl.add Excl.init 8).0 ≡ ok tt)
    × ((Excl.add Excl.init 8).1.pipe ≡ some 8)
    × (Excl.can_send (Excl.add Excl.init 8).1 ≡ false)
    × (Excl.can_recv (Excl.add Excl.init 8).1 ≡ false)
unfolding Excl.rm
add_exclusive_example = add_exclusive attached Excl.init 7 8 refl refl

-- Pipes 7 and 8 at priority 2, one after the other.
abbrev one_active : Priolist
one_active = record {
  slots = put Priolist.init.slots 1 (record { pipes = 7 ∷ []; current = some 7 });
  current = some 2;
}

abbrev two_active : Priolist
two_active = record {
  slots = put one_active.slots 1 (record { pipes = 7 ∷ 8 ∷ []; current = some 7 });
  current = some 2;
}

two_active-Reach : Turns.Reach two_active
unfolding Priolist.init activate
two_active-Reach =
    Turns.step
      (Turns.step Turns.start
        (Turns.activated (record { pipe = 7; priority = 2 }) {p' = one_active} (omega arith) refl))
      (Turns.activated (record { pipe = 8; priority = 2 }) {p' = two_active} (omega arith) refl)

Reach-Inv_example : Inv two_active
Reach-Inv_example = Reach-Inv two_active-Reach

turns-round_example :
    (r : List ℕ) × (turns (length r) two_active ≡ done (map some r))
    × Perm r (two_active.slots 1).pipes
turns-round_example = turns-round two_active 2 Reach-Inv_example refl

-- Pipes that have a greeting to read at any time.
abbrev greeting : Pipes
greeting = record {
  World = ℕ;
  send = λ p m w. done (steady, w);
  recv = λ p w. done (steady, hello, w + 1);
}

recv_best_example :
    ((Fq.recv greeting two_active 0 ≡ done (err eagain, two_active, 0)) × IsIdle two_active)
    ⊎ ((c x : ℕ) × (rc : Flags) × (m : Msg) × (w : ℕ) × (fq : Fq) × (greeting.recv x 0
          ≡ done (rc, m, w))
        × (Fq.recv greeting two_active 0 ≡ done (ok (drop_release rc, m, x), fq, w))
        × IsWaiting two_active c x
        × IsFirst two_active c
        × Inv fq)
recv_best_example =
    recv_best greeting two_active 0 (λ x v. ((steady, hello, v + 1), refl)) Reach-Inv_example

send_all_balanced_example :
    (lb : Priolist) × Perm (ring (two_active.slots 1)) (two_active.slots 1).pipes
    × (send_all (logged (λ _. steady)) two_active (hello ∷ hello ∷ []) []
        ≡ done (lb, deal (ring (two_active.slots 1)) (hello ∷ hello ∷ [])))
send_all_balanced_example =
    send_all_balanced two_active 2 (hello ∷ hello ∷ []) Reach-Inv_example refl refl

abbrev three_pipes : Dist
three_pipes = record { count = 3; pipes = 5 ∷ 7 ∷ 9 ∷ [] }

three_pipes-IsCounted : IsCounted three_pipes
three_pipes-IsCounted = record {
  count = refl;
  small = omega arith;
  distinct = (refl, (refl, (refl, tt)));
}

send_broadcast_example :
    (d : Dist) × (Dist.send (logged answer) three_pipes hello (some 9) []
      ≡ done (d, (5, hello) ∷ (7, hello) ∷ []))
    × (d.pipes ≡ 7 ∷ 9 ∷ [])
    × (d.count ≡ length d.pipes)
send_broadcast_example = send_broadcast answer three_pipes hello (some 9) [] three_pipes-IsCounted
