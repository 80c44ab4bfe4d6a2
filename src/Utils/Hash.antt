-- ===== src/Utils/Hash.antt =====
-- utils/hash.c: a table of chains. A `struct nn_hash_item` is its key with the number of the
-- structure that it stands in, which `nn_cont` tells; `array` is a store of which `slots` cells count.
pub mod Chains
pub mod Rehash
pub mod Refine
pub mod Runs
pub mod Calls
use Prim.Native.Nat.{bit_xor}
use vnano_msg.Common.{
  ℕ, zero, suc, ◌+◌, ◌-◌, ◌*◌, ◌/◌, ◌%◌, ◌^◌, Bool, true, false, ◌&&◌, not, Option, none, some,
  List, [], ◌∷◌, ◌++◌, Outcome, done, abort, ◌>>=◌, ◌>>◌, assert, ltb, ◌==◌, if◌then◌else◌, update,
}

pub record Item : Type 0 where
  pub key : ℕ
  pub owner : ℕ

-- `struct nn_hash`, and the links of the structures: `listed` tells of each, by its number, whether its
-- item is in a list.
pub record Hash : Type 0 where
  pub slots : ℕ
  pub items : ℕ
  pub array : ℕ → List Item
  pub listed : ℕ → Bool

-- NN_HASH_INITIAL_SLOTS
abbrev pub initial_slots : ℕ
initial_slots = 32

-- Arithmetic of `uint32_t`.
abbrev word : ℕ
word = 2 ^ 32

hash_key : ℕ → ℕ
hash_key key =
    let a = bit_xor (bit_xor key 61) (key / 2 ^ 16) in
    let b = (a + a * 2 ^ 3 % word) % word in
    let c = bit_xor b (b / 2 ^ 4) in let d = c * 0x27d4eb2d % word in bit_xor d (d / 2 ^ 15)

-- `nn_hash_key (key) % self->slots`
unfoldable pub slot : ℕ → ℕ → ℕ
unfolding hash_key
slot slots key = hash_key key % slots

-- No structure is in a list at first, as `nn_hash_item_init` leaves each.
unfoldable pub init : Hash
init = record { slots = initial_slots; items = 0; array = λ i. []; listed = λ o. false }

unfoldable pub item_init : Hash → ℕ → Hash
item_init h owner = record h { listed = update h.listed owner false }

unfoldable pub item_term : Hash → ℕ → Outcome (Unit {0})
item_term h owner = assert (not (h.listed owner))

-- The assertion of `nn_list_term` on each slot.
all_empty : ℕ → (ℕ → List Item) → Bool
all_empty zero array = true
all_empty (suc n) array = elim (array n) [ [] ↦ all_empty n array | x ∷ xs ↦ false ]

unfoldable pub term : Hash → Outcome (Unit {0})
unfolding all_empty
term h = assert (all_empty h.slots h.array)

-- The links that `nn_list_insert` makes, at the end of the slot of the key.
unfoldable pub append : ℕ → (ℕ → List Item) → Item → ℕ → List Item
append slots array it = let s = slot slots it.key in update array s (array s ++ it ∷ [])

-- The `while` loop of `nn_hash_rehash`, over one of the old slots. `nn_list_erase` finds each item in
-- its list and takes it out, so that the assertion of `nn_list_insert` holds right behind it, and the
-- item is in a list afterwards as before.
unfoldable pub move_chain : ℕ → List Item → (ℕ → List Item) → ℕ → List Item
move_chain slots [] array = array
move_chain slots (it ∷ its) array = move_chain slots its (append slots array it)

-- The `for` loop, with `n` of the old slots left from slot `i` on.
unfoldable pub move_all : ℕ → (ℕ → List Item) → ℕ → ℕ → (ℕ → List Item) → ℕ → List Item
move_all slots old i zero array = array
move_all slots old i (suc n) array = move_all slots old (suc i) n (move_chain slots (old i) array)

unfoldable pub rehash : Hash → Hash
rehash h =
    let slots = h.slots * 2 % word in
    record h { slots = slots; array = move_all slots h.array 0 h.slots (λ i. []) }

-- The search of `nn_hash_get` in one slot.
unfoldable pub find : ℕ → List Item → Option Item
find key [] = none
find key (it ∷ its) = if it.key == key then some it else find key its

-- The loop of assertions in `nn_hash_insert`.
unfoldable pub is_absent : ℕ → List Item → Bool
is_absent key [] = true
is_absent key (it ∷ its) = not (it.key == key) && is_absent key its

-- `nn_slow (self->items * 2 > self->slots && self->slots < 0x80000000)`
unfoldable pub is_crowded : Hash → Bool
is_crowded h = ltb h.slots (h.items * 2 % word) && ltb h.slots 0x80000000

-- `nn_list_insert`, which asserts that the item is in no list.
unfoldable pub list_insert : Hash → Item → Outcome Hash
list_insert h it = do
  assert (not (h.listed it.owner))
  done (record h { array = append h.slots h.array it; listed = update h.listed it.owner true })

unfoldable pub insert : Hash → ℕ → ℕ → Outcome Hash
insert h key owner = do
  assert (is_absent key (h.array (slot h.slots key)))
  linked ← list_insert h (record { key = key; owner = owner })
  let h' : Hash = record linked { items = (linked.items + 1) % word }
  done (if is_crowded h' then rehash h' else h')

-- An item is taken out of a list. The code finds it by its links; none is the answer for a list that
-- does not have it.
unfoldable pub remove : Item → List Item → Option (List Item)
remove it [] = none
remove it (x ∷ xs) =
    if x.key == it.key && x.owner == it.owner
    then some xs
    else elim (remove it xs) [ none ↦ none | some r ↦ some (x ∷ r) ]

-- `nn_list_erase` asserts that the item is in a list, which is that of its key, as the key of an item
-- is set by `nn_hash_insert` only.
unfoldable pub erase : Hash → Item → Outcome Hash
erase h it = do
  assert (h.listed it.owner)
  let s = slot h.slots it.key
  elim (remove it (h.array s)) [
    | none ↦ abort
    | some r ↦ done (record h {
      items = (h.items + word - 1) % word;
      array = update h.array s r;
      listed = update h.listed it.owner false;
    })
  ]

unfoldable pub get : Hash → ℕ → Option Item
get h key = find key (h.array (slot h.slots key))
