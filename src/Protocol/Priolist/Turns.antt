-- ===== src/Protocol/Priolist/Turns.antt =====
-- Whose turn it is: the best priority first, and within a priority every pipe in its turn.
use vnano_msg.Common.{
  ℕ, ◌-◌, ◌≤◌, ◌≡◌, refl, Bool, true, false, none, some, List, [], ◌∷◌, arith, is_empty, done, mem,
  ltb, Bool-cases, Option-cases, ◌⊎◌, inl, inr, tests,
}
use vnano_msg.Protocol.Priolist.{
  Data, Priolist, max_slots, put, settled, getpipe, pass_turn, advance, init, rm, activate,
}
use vnano_msg.Protocol.Priolist.Settle.{IsBest}
use vnano_msg.Protocol.Priolist.Invariant.{Inv, IsPriority}
use vnano_msg.Protocol.Priolist.Keeps.{init-Inv, rm-Inv, activate-Inv, advance-Inv}

-- The calls of a load balancer or a fair queue, with priorities that they let pass.
pub data Step (p : Priolist) : Priolist → Type 0 where
  removed : (d : Data) → IsPriority d.priority → Step p (rm p d)
  activated :
      (d : Data) {p' : Priolist} → IsPriority d.priority → activate p d ≡ done p' → Step p p'
  advanced : (release : Bool) {p' : Priolist} → advance p release ≡ done p' → Step p p'

pub data Reach : Priolist → Type 0 where
  start : Reach init
  step : {p p' : Priolist} → Reach p → Step p p' → Reach p'

Step-Inv : {p p' : Priolist} → Step p p' → Inv p → Inv p'
Step-Inv {p} (removed d ok) v = rm-Inv p d ok v
Step-Inv {p} {p'} (activated d ok h) v = activate-Inv p p' d ok v h
Step-Inv {p} {p'} (advanced release h) v = advance-Inv p p' release v h

-- Whatever sequence of calls led to a list: every slot holds distinct pipes, one of which has the
-- turn unless it is empty, and `current` is the best priority that has an active pipe, or -1 if
-- there is none.
pub Reach-Inv : {p : Priolist} → Reach p → Inv p
Reach-Inv start = init-Inv
Reach-Inv (step r s) = Step-Inv s (Reach-Inv r)

not-mem_of_empty : (y : ℕ) (l : List ℕ) → is_empty l ≡ true → mem y l ≡ false
not-mem_of_empty y [] h = refl
not-mem_of_empty y (x ∷ l) h = cc

-- The current slot of a well-formed list has a pipe whose turn it is.
pub current_turn :
    (p : Priolist) (c : ℕ)
    → Inv p
    → p.current ≡ some c
    → (x : ℕ) × ((p.slots (c - 1)).current ≡ some x) × (mem x (p.slots (c - 1)).pipes ≡ true)
current_turn p c v cur =
    let best : IsBest p.slots 1 (some c) = rw cur at v.best in
    elim (Option-cases (p.slots (c - 1)).current) [
      | inl null ↦ absurd (ground (arith, (v.slots (c - 1)).turn, best.2))
      | inr (x, turn) ↦ (x, turn, ground (arith, (v.slots (c - 1)).turn))
    ]

-- Pipe `y` is active at priority `j`.
abbrev pub IsWaiting : Priolist → ℕ → ℕ → Type 0
IsWaiting p j y = (1 ≤ j) × (j ≤ max_slots) × (mem y (p.slots (j - 1)).pipes ≡ true)

-- No pipe is active at any priority.
abbrev pub IsIdle : Priolist → Type 0
IsIdle p = (j y : ℕ) → ¬ IsWaiting p j y

-- No active pipe has a better priority than `c`.
abbrev pub IsFirst : Priolist → ℕ → Type 0
IsFirst p c = (j y : ℕ) → IsWaiting p j y → c ≤ j

-- `nn_priolist_getpipe` on a well-formed list dereferences no NULL. It returns NULL only if no pipe
-- is active at any priority, and otherwise an active pipe of a priority that no active pipe beats.
pub getpipe_best :
    (p : Priolist)
    → Inv p
    → ((getpipe p ≡ done none) × IsIdle p)
      ⊎ ((c x : ℕ) × (getpipe p ≡ done (some x)) × IsWaiting p c x × IsFirst p c)
unfolding getpipe
getpipe_best p v = elim (Option-cases p.current) [
  | inl idle ↦
      let best : IsBest p.slots 1 none = rw idle at v.best in
      inl (
        ground arith,
        λ j y waits.
            ground (arith, not-mem_of_empty y (p.slots (j - 1)).pipes (best j waits.0 waits.1)),
      )
  | inr (c, cur) ↦
      let best : IsBest p.slots 1 (some c) = rw cur at v.best in
      let (x, turn, held) = current_turn p c v cur in
      inr (
        c,
        x,
        ground arith,
        (best.0, best.1, held),
        λ j y waits. elim (Bool-cases (ltb j c)) [
          | inl below ↦ absurd (
              ground (
                arith,
                not-mem_of_empty y (p.slots (j - 1)).pipes (best.3 j waits.0 (omega tests)),
              ))
          | inr above ↦ ground arith
        ],
      )
]

-- After `nn_priolist_getpipe` found a pipe, `nn_priolist_advance` asserts nothing that fails.
pub advance_total :
    (p : Priolist) (x : ℕ) (release : Bool)
    → Inv p
    → getpipe p ≡ done (some x)
    → (p' : Priolist) × (advance p release ≡ done p')
unfolding advance getpipe
advance_total p x release v e = elim (Option-cases p.current) [
  | inl idle ↦ absurd (ground arith)
  | inr (c, cur) ↦
      let (y, turn, held) = current_turn p c v cur in
      (
        record {
          slots = put p.slots (c - 1) (pass_turn (p.slots (c - 1)) y release);
          current = settled (put p.slots (c - 1) (pass_turn (p.slots (c - 1)) y release)) c;
        },
        ground arith,
      )
]
