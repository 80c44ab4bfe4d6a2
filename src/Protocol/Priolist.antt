-- ===== src/Protocol/Priolist.antt =====
-- protocols/utils/priolist.c: the active pipes by priority, with the pipe whose turn it is. A
-- `nn_priolist_data` is named by its pipe, and its list item is in the list when the slot of its
-- priority holds it.
pub mod Settle
pub mod Invariant
pub mod Keeps
pub mod Turns
pub mod Ring
use vnano_msg.Common.{
  ℕ, zero, suc, ◌+◌, ◌-◌, Bool, true, false, not, Option, none, some, List, [], Outcome, done,
  abort, ◌>>=◌, ◌>>◌, assert, mem, is_empty, ◌==◌, ltb, if◌then◌else◌,
}
use vnano_msg.Utils.ItemList.{begin, next, without, push_back}

-- NN_PRIOLIST_SLOTS
abbrev pub max_slots : ℕ
max_slots = 16

-- `struct nn_priolist_data`
pub record Data : Type 0 where
  pub pipe : ℕ
  pub priority : ℕ

pub record Slot : Type 0 where
  pub pipes : List ℕ
  pub current : Option ℕ

-- The array of slots by its index; `current` is `none` for -1. The callers keep every priority
-- within 1 and 16, and the theorems say that no other slot is read.
pub record Priolist : Type 0 where
  pub slots : ℕ → Slot
  pub current : Option ℕ

abbrev pub put : (ℕ → Slot) → ℕ → Slot → ℕ → Slot
put f i s j = if j == i then s else f j

abbrev pub is_item : Option ℕ → ℕ → Bool
is_item none x = false
is_item (some y) x = y == x

-- `it ? it : nn_list_begin (l)`
abbrev pub or_begin : Option ℕ → List ℕ → Option ℕ
or_begin none l = begin l
or_begin (some x) l = some x

unfoldable pub init : Priolist
init = record { slots = λ i. record { pipes = []; current = none }; current = none }

all_empty : ℕ → (ℕ → Slot) → Bool
all_empty zero f = true
all_empty (suc n) f = if is_empty (f n).pipes then all_empty n f else false

-- `nn_list_term` asserts that the list is empty.
unfoldable pub term : Priolist → Outcome (Unit {0})
unfolding all_empty
term p = assert (all_empty max_slots p.slots)

unfoldable pub add : ℕ → ℕ → Data
add pipe priority = record { pipe = pipe; priority = priority }

-- The loop that both `nn_priolist_rm` and `nn_priolist_advance` end with: from the slot of priority
-- `c` on, the first that is not empty. It goes round at most once for each priority left.
unfoldable pub settle : ℕ → (ℕ → Slot) → ℕ → Option ℕ
settle zero f c = none
settle (suc rounds) f c =
    let rest = settle rounds f (c + 1) in
    if is_empty (f (c - 1)).pipes then if ltb max_slots (c + 1) then none else rest else some c

abbrev pub settled : (ℕ → Slot) → ℕ → Option ℕ
settled f c = settle (max_slots + 1 - c) f c

unfoldable pub rm : Priolist → Data → Priolist
rm p d =
    let i = d.priority - 1 in
    let slot = p.slots i in
    let rest = without d.pipe slot.pipes in
    let moved = or_begin (next d.pipe slot.pipes) rest in
    let slots = put p.slots i (record { pipes = rest; current = moved }) in
    if not (mem d.pipe slot.pipes)
    then p
    else if not (is_item slot.current d.pipe)
    then record p { slots = put p.slots i (record slot { pipes = rest }) }
    else if not (is_item p.current d.priority)
    then record p { slots = slots }
    else record { slots = slots; current = settled slots d.priority }

-- The priority that is current after one slot was filled: none was, or it was a lower one.
abbrev pub raise : Option ℕ → ℕ → Option ℕ
raise none c = some c
raise (some k) c = if ltb c k then some c else some k

-- `nn_list_insert` asserts that the item is in no list.
unfoldable pub activate : Priolist → Data → Outcome Priolist
activate p d =
    let i = d.priority - 1 in
    let slot = p.slots i in
    let filled = push_back slot.pipes d.pipe in
    do
      assert (not (mem d.pipe slot.pipes))
      done (
          if is_empty slot.pipes
          then record {
            slots = put p.slots i (record { pipes = filled; current = some d.pipe });
            current = raise p.current d.priority;
          }
          else record p { slots = put p.slots i (record slot { pipes = filled }) })

unfoldable pub is_active : Priolist → Bool
is_active p = elim p.current [ none ↦ false | some c ↦ true ]

-- The outer `abort` is the dereference of a slot's NULL `current`.
unfoldable pub getpipe : Priolist → Outcome (Option ℕ)
getpipe p = elim p.current [
  | none ↦ done none
  | some c ↦ elim (p.slots (c - 1)).current [ none ↦ abort | some x ↦ done (some x) ]
]

-- The slot after its turn moved on from `x`, which leaves the list if `release` is set.
abbrev pub pass_turn : Slot → ℕ → Bool → Slot
pass_turn s x release =
    let rest = if release then without x s.pipes else s.pipes in
    record { pipes = rest; current = or_begin (next x s.pipes) rest }

-- The first `abort` is `nn_assert (self->current > 0)`.
unfoldable pub advance : Priolist → Bool → Outcome Priolist
advance p release = elim p.current [
  | none ↦ abort
  | some c ↦ elim (p.slots (c - 1)).current [
    | none ↦ abort
    | some x ↦
        let slots = put p.slots (c - 1) (pass_turn (p.slots (c - 1)) x release) in
        done (record { slots = slots; current = settled slots c })
  ]
]

unfoldable pub get_priority : Priolist → Option ℕ
get_priority p = p.current
