-- ===== src/Utils/Hash/Calls.antt =====
-- One call on a well-formed table, in terms of what is found before and after.
use vnano_msg.Common.{ℕ, ◌≡◌, refl, true, false, none, some, Outcome, done, abort, update, arith}
use vnano_msg.Utils.Hash.{Item, Hash, insert, erase, get}
use vnano_msg.Utils.Hash.Refine.{
  IsGood, Map, put, withdraw, holds, Agrees, Represents, insert-Agrees, erase-Agrees,
}

Agrees-done :
    (m : Outcome Hash) (f : Map) → Agrees m (done f) → (h : Hash) × (m ≡ done h) × Represents h f
Agrees-done (done h) f r = (h, refl, r)
Agrees-done abort f r = absurd r

Agrees-abort : (m : Outcome Hash) → Agrees m abort → m ≡ abort
Agrees-abort (done h) r = absurd r
Agrees-abort abort r = refl

-- The map that a table is.
abbrev pub map_of : Hash → Map
map_of h = record { found = get h; used = h.listed }

abbrev pub with_item : Hash → ℕ → ℕ → Map
with_item h k o = record {
  found = update (get h) k (some (record { key = k; owner = o }));
  used = update h.listed o true;
}

abbrev pub without_item : Hash → Item → Map
without_item h it = record {
  found = update (get h) it.key none;
  used = update h.listed it.owner false;
}

-- A key that is not found is put for a structure that is in no list, and the table finds it then.
pub insert-free :
    (h : Hash) (k o : ℕ)
    → IsGood h
    → get h k ≡ none
    → h.listed o ≡ false
    → (h' : Hash) × (insert h k o ≡ done h') × Represents h' (with_item h k o)
insert-free h k o g e u =
    let q : put (map_of h) k o ≡ done (with_item h k o) = rw (put, e, u) refl in
    let a = insert-Agrees h (map_of h) k o (g, λ j. refl, λ j. refl) in
    Agrees-done (insert h k o) _ (rw q at a)

-- A key that is found is not put again.
pub insert-used :
    (h : Hash) (k o : ℕ) (it : Item) → IsGood h → get h k ≡ some it → insert h k o ≡ abort
insert-used h k o it g e =
    let q : put (map_of h) k o ≡ abort = rw (put, e) refl in
    let a = insert-Agrees h (map_of h) k o (g, λ j. refl, λ j. refl) in
    Agrees-abort (insert h k o) (rw q at a)

-- An item that is found, and in a list, is erased; the table finds nothing under its key then.
pub erase-found :
    (h : Hash) (it : Item)
    → IsGood h
    → get h it.key ≡ some it
    → h.listed it.owner ≡ true
    → (h' : Hash) × (erase h it ≡ done h') × Represents h' (without_item h it)
erase-found h it g e u =
    let t : holds it (get h it.key) ≡ true = ground (arith, e) in
    let q : withdraw (map_of h) it ≡ done (without_item h it) = rw (withdraw, u, t) refl in
    let a = erase-Agrees h (map_of h) it (g, λ j. refl, λ j. refl) in
    Agrees-done (erase h it) _ (rw q at a)
