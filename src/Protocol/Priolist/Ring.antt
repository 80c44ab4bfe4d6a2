-- ===== src/Protocol/Priolist/Ring.antt =====
-- Within a priority the turn goes round: every pipe of the slot has it once in a round.
use mathlib.Core.List.{append_assoc, append-nil, Perm, perm_append_comm}
use mathlib.Core.Path.{subst}
use vnano_msg.Common.{
  ℕ, zero, suc, ◌+◌, ◌-◌, ◌≤◌, ◌≡◌, refl, sym, ap, ◌∙◌, Bool, true, false, Option, none, some, List,
  [], ◌∷◌, ◌++◌, map, arith, is_empty, Outcome, done, ◌>>=◌, mem, length, length-append, IsDistinct,
  if◌then◌else◌,
}
use vnano_msg.Utils.ItemList.{begin, without}
use vnano_msg.Utils.ItemList.Split.{
  before, after, before-append-after, before-append, after-append, next-after, without-append,
  without-IsDistinct,
}
use vnano_msg.Protocol.Priolist.{
  Slot, Priolist, max_slots, put, or_begin, settle, settled, getpipe, pass_turn, advance,
}
use vnano_msg.Protocol.Priolist.Settle.{IsBest}
use vnano_msg.Protocol.Priolist.Invariant.{Inv, put_self}
use vnano_msg.Protocol.Priolist.Keeps.{advance-Inv}
use vnano_msg.Protocol.Priolist.Turns.{current_turn}

abbrev pub ring_from : List ℕ → Option ℕ → List ℕ
ring_from l none = []
ring_from l (some x) = x ∷ after x l ++ before x l

-- The pipes of a slot from the one whose turn it is, once round.
abbrev pub ring : Slot → List ℕ
ring s = ring_from s.pipes s.current

ring_from-append :
    (x : ℕ) (b a : List ℕ) → IsDistinct (b ++ x ∷ a) → ring_from (b ++ x ∷ a) (some x) ≡ x ∷ a ++ b
ring_from-append x b a d = rw (after-append x b a d, before-append x b a d)

keep_turn :
    (x : ℕ) (b a : List ℕ)
    → IsDistinct (b ++ x ∷ a)
    → ring_from (b ++ x ∷ a) (or_begin (begin a) (b ++ x ∷ a)) ≡ (a ++ b) ++ x ∷ []
keep_turn x [] [] d = ring_from-append x [] [] d
keep_turn x (y ∷ b) [] d = ring_from-append y [] (b ++ x ∷ []) d ∙ append-nil (y ∷ (b ++ x ∷ []))
keep_turn x b (y ∷ a) d =
    let e = append_assoc b (x ∷ []) (y ∷ a) in
    rw (← e) (ring_from-append y (b ++ x ∷ []) a (rw e d) ∙ sym (append_assoc (y ∷ a) b (x ∷ [])))

drop_turn :
    (b a : List ℕ) → IsDistinct (b ++ a) → ring_from (b ++ a) (or_begin (begin a) (b ++ a)) ≡ a ++ b
drop_turn [] [] d = refl
drop_turn (y ∷ b) [] d =
    rw append-nil (ring_from-append y [] b (rw append-nil at d) ∙ append-nil (y ∷ b))
drop_turn b (y ∷ a) d = ring_from-append y b a d

-- The turn passes to the next pipe of the ring. The one that had it goes to the end, or leaves.
ring-pass_turn :
    (s : Slot) (x : ℕ) (release : Bool)
    → IsDistinct s.pipes
    → mem x s.pipes ≡ true
    → ring (pass_turn s x release) ≡ (
        if release
        then after x s.pipes ++ before x s.pipes
        else (after x s.pipes ++ before x s.pipes) ++ x ∷ [])
ring-pass_turn s x true d m =
    let b = before x s.pipes in
    let a = after x s.pipes in
    let e : s.pipes ≡ b ++ x ∷ a = sym (before-append-after x s.pipes m) in
    let w : without x s.pipes ≡ b ++ a = ap (without x) e ∙ without-append x b a (rw e at d) in
    rw (next-after x s.pipes, w) (drop_turn b a (rw w at (without-IsDistinct x s.pipes d)))
ring-pass_turn s x false d m =
    let b = before x s.pipes in
    let a = after x s.pipes in
    let e : s.pipes ≡ b ++ x ∷ a = sym (before-append-after x s.pipes m) in
    rw (next-after x s.pipes) (
      subst (λ l. ring_from l (or_begin (begin a) l) ≡ (a ++ b) ++ x ∷ []) (sym e)
        (keep_turn x b a (subst IsDistinct e d)))

settle_here :
    (n : ℕ) (f : ℕ → Slot) (c : ℕ)
    → 1 ≤ n
    → is_empty (f (c - 1)).pipes ≡ false
    → settle n f c ≡ some c
unfolding settle
settle_here zero f c h e = absurd (omega arith)
settle_here (suc n) f c h e = rw e

-- `n` rounds of `nn_priolist_getpipe` and `nn_priolist_advance` without release.
unfoldable pub turns : ℕ → Priolist → Outcome (List (Option ℕ))
turns zero p = done []
turns (suc n) p = do x ← getpipe p; p' ← advance p false; xs ← turns n p'; done (x ∷ xs)

-- What one turn comes to: the head of the ring is served, and goes to its end.
pub record Turned (p : Priolist) (c x : ℕ) (r : List ℕ) (p' : Priolist) : Type 0 where
  pub served : getpipe p ≡ done (some x)
  pub moved : advance p false ≡ done p'
  pub valid : Inv p'
  pub stays : p'.current ≡ some c
  pub rest : ring (p'.slots (c - 1)) ≡ r ++ x ∷ []

pub turn_step :
    (p : Priolist) (c x : ℕ) (r : List ℕ)
    → Inv p
    → p.current ≡ some c
    → ring (p.slots (c - 1)) ≡ x ∷ r
    → (p' : Priolist) × Turned p c x r p'
unfolding getpipe advance
turn_step p c x r v cur e =
    let best : IsBest p.slots 1 (some c) = rw cur at v.best in
    let (y, turn, held) = current_turn p c v cur in
    let s = pass_turn (p.slots (c - 1)) y false in
    let f = put p.slots (c - 1) s in
    let p' : Priolist = record { slots = f; current = settled f c } in
    let here : settled f c ≡ some c =
      settle_here (max_slots + 1 - c) f c (omega arith) (rw (put_self p.slots (c - 1) s) best.2) in
    let goes : advance p false ≡ done p' = ground arith in
    let split : x ∷ r ≡ y ∷ after y (p.slots (c - 1)).pipes ++ before y (p.slots (c - 1)).pipes =
      sym e ∙ rw turn in
    let passed = ring-pass_turn (p.slots (c - 1)) y false (v.slots (c - 1)).distinct held in
    (
      p',
      record {
        served = ground arith;
        moved = goes;
        valid = advance-Inv p p' false v goes;
        stays = here;
        rest = rw (put_self p.slots (c - 1) s) (ground (arith, passed));
      },
    )

turns-prefix :
    (xs ys : List ℕ) (p : Priolist) (c : ℕ)
    → Inv p
    → p.current ≡ some c
    → ring (p.slots (c - 1)) ≡ xs ++ ys
    → turns (length xs) p ≡ done (map some xs)
unfolding turns
turns-prefix [] ys p c v cur e = refl
turns-prefix (x ∷ xs) ys p c v cur e =
    let (p', t) = turn_step p c x (xs ++ ys) v cur e in
    let ih =
      turns-prefix xs (ys ++ x ∷ []) p' c t.valid t.stays (t.rest ∙ append_assoc xs ys (x ∷ [])) in
    rw (t.served, t.moved, ih)

-- The ring of the current slot holds its pipes, each once.
pub ring_perm :
    (p : Priolist) (c : ℕ)
    → Inv p
    → p.current ≡ some c
    → Perm (ring (p.slots (c - 1))) (p.slots (c - 1)).pipes
      × (length (ring (p.slots (c - 1))) ≡ length (p.slots (c - 1)).pipes)
ring_perm p c v cur =
    let (x, turn, held) = current_turn p c v cur in
    let l = (p.slots (c - 1)).pipes in
    let e = before-append-after x l held in
    (
      rw turn (
          subst (Perm (x ∷ after x l ++ before x l)) e
            (perm_append_comm (x ∷ after x l) (before x l))),
      rw turn (
          omega (
            arith,
            ap length e,
            length-append (before x l) (x ∷ after x l),
            length-append (after x l) (before x l),
          )),
    )

-- Without releases, as many turns as the current priority has active pipes serve each of them
-- exactly once, from the one whose turn it is.
pub turns-round :
    (p : Priolist) (c : ℕ)
    → Inv p
    → p.current ≡ some c
    → (r : List ℕ) × (turns (length r) p ≡ done (map some r)) × Perm r (p.slots (c - 1)).pipes
turns-round p c v cur = (
  ring (p.slots (c - 1)),
  turns-prefix (ring (p.slots (c - 1))) [] p c v cur (sym (append-nil _)),
  (ring_perm p c v cur).0,
)
