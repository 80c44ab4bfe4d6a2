-- ===== src/Utils/Hash/Refine.antt =====
-- The table as a finite map, from its creation on and through every doubling.
use vnano_msg.Common.{
  ℕ, ◌+◌, ◌*◌, ◌%◌, ◌^◌, ◌<◌, ◌≡◌, refl, ◌∙◌, Bool, true, false, Option, none, some, List, arith,
  ◌==◌, ◌&&◌, if◌then◌else◌, inl, inr, Bool-cases, Option-cases, update, Outcome, done, abort,
}
use vnano_msg.Utils.Hash.{
  Item, Hash, slot, append, init, is_absent, is_crowded, rehash, list_insert, insert, erase, remove,
  get,
}
use vnano_msg.Utils.Hash.Chains.{
  is_absent_lem, find-remove, remove-eq-none, remove-eq-some, All-remove, HasDistinctKeys-remove,
}
use vnano_msg.Utils.Hash.Rehash.{
  IsPlaced, lookup, lookup-append, IsPlaced-append, lookup-move_all_self, IsPlaced-move_all_self,
}

pub record IsGood (h : Hash) : Type 0 where
  pub some_slots : 0 < h.slots
  pub few_slots : h.slots < 2 ^ 32
  pub placed : IsPlaced h.slots h.array

pub init-IsGood : IsGood init
unfolding init
init-IsGood = record { some_slots = omega arith; few_slots = omega arith; placed = λ i. (tt, tt) }

rehash-IsGood : (h : Hash) → IsGood h → h.slots < 2 ^ 31 → IsGood (rehash h)
unfolding rehash
rehash-IsGood h g s = record {
  some_slots = ground arith;
  few_slots = ground arith;
  placed = IsPlaced-move_all_self h.slots (h.slots * 2 % 2 ^ 32) h.array g.placed;
}

-- Doubling the slots changes nothing that a search finds.
get-rehash : (h : Hash) (k : ℕ) → IsGood h → get (rehash h) k ≡ get h k
unfolding rehash get
get-rehash h k g =
    lookup-move_all_self h.slots (h.slots * 2 % 2 ^ 32) h.array k g.placed g.some_slots

-- A finite map with the set of the structures in it, and what the operations are to do with it: a
-- key is put once, for a structure that is not in it, and an item is dropped that is there.
pub record Map : Type 0 where
  pub found : ℕ → Option Item
  pub used : ℕ → Bool

abbrev pub empty_map : Map
empty_map = record { found = λ k. none; used = λ o. false }

abbrev pub put : Map → ℕ → ℕ → Outcome Map
put f k o = elim (f.found k) [
  | none ↦
      if f.used o
      then abort
      else done (record {
        found = update f.found k (some (record { key = k; owner = o }));
        used = update f.used o true;
      })
  | some it ↦ abort
]

abbrev pub same_item : Item → Item → Bool
same_item x y = x.key == y.key && x.owner == y.owner

abbrev pub holds : Item → Option Item → Bool
holds it none = false
holds it (some x) = same_item x it

abbrev pub withdraw : Map → Item → Outcome Map
withdraw f it =
    if f.used it.owner && holds it (f.found it.key)
    then done (record { found = update f.found it.key none; used = update f.used it.owner false })
    else abort

-- A table that is well-formed, finds what the map has, and links the structures in it.
abbrev pub Represents : Hash → Map → Type 0
Represents h f = IsGood h × ((k : ℕ) → get h k ≡ f.found k) × ((o : ℕ) → h.listed o ≡ f.used o)

abbrev pub Agrees : Outcome Hash → Outcome Map → Type 0
Agrees (done h) (done f) = Represents h f
Agrees abort abort = Unit {0}
Agrees _ _ = ⊥

-- The item is in its slot, and the slots are doubled if they are crowded.
module _ (h : Hash) (f : Map) (k o : ℕ) (g : IsGood h) (r : (j : ℕ) → get h j ≡ f.found j)
    (u : (j : ℕ) → h.listed j ≡ f.used j) (free : f.found k ≡ none) where
  abbrev pub new_item : Item
  new_item = record { key = k; owner = o }

  abbrev pub longer : Hash
  longer = record h {
    items = (h.items + 1) % 2 ^ 32;
    array = append h.slots h.array new_item;
    listed = update h.listed o true;
  }

  abbrev pub more : Map
  more = record { found = update f.found k (some new_item); used = update f.used o true }

  longer-Represents : Represents longer more
  unfolding get
  longer-Represents = (
    record {
      some_slots = g.some_slots;
      few_slots = g.few_slots;
      placed = IsPlaced-append h.slots h.array new_item g.placed (ground (arith, r k));
    },
    λ j. ground (arith, r j, lookup-append h.slots h.array new_item j),
    λ j. ground (arith, u j),
  )

  settled-Represents : Represents (if is_crowded longer then rehash longer else longer) more
  unfolding is_crowded rehash
  settled-Represents = elim (Bool-cases (is_crowded longer)) [
    | inl e ↦ rw e (
      rehash-IsGood longer longer-Represents.0 (ground arith),
      λ j. get-rehash longer j longer-Represents.0 ∙ longer-Represents.1 j,
      longer-Represents.2,
    )
    | inr e ↦ rw e longer-Represents
  ]

pub insert-Agrees :
    (h : Hash) (f : Map) (k o : ℕ) → Represents h f → Agrees (insert h k o) (put f k o)
unfolding insert list_insert get
insert-Agrees h f k o (g, r, u) = elim (Option-cases (f.found k)) [
  | inl free ↦
      let a : is_absent k (h.array (slot h.slots k)) ≡ true =
        ground (arith, is_absent_lem k (h.array (slot h.slots k)), r k) in
      elim (Bool-cases (f.used o)) [
        | inl used ↦ rw (a, u o, put, free, used) tt
        | inr fresh ↦ rw (a, u o, put, free, fresh) (settled-Represents h f k o g r u free)
      ]
  | inr (it, used) ↦
      let a : is_absent k (h.array (slot h.slots k)) ≡ false =
        ground (arith, is_absent_lem k (h.array (slot h.slots k)), r k) in
      rw (a, put, used) tt
]

IsPlaced-remove :
    (n : ℕ) (a : ℕ → List Item) (it : Item) (l : List Item)
    → IsPlaced n a
    → remove it (a (slot n it.key)) ≡ some l
    → IsPlaced n (update a (slot n it.key) l)
IsPlaced-remove n a it l p e i = elim (Bool-cases (slot n it.key == i)) [
  | inl same ↦
      let at : slot n it.key ≡ i = ground arith in
      let q = p (slot n it.key) in
      rw same (
        All-remove (λ (x : Item). slot n x.key ≡ i) it (a (slot n it.key)) l (rw (← at) q.0) e,
        HasDistinctKeys-remove it (a (slot n it.key)) l q.1 e,
      )
  | inr other ↦ rw other (p i)
]

lookup-remove :
    (n : ℕ) (a : ℕ → List Item) (it : Item) (l : List Item) (k : ℕ)
    → IsPlaced n a
    → remove it (a (slot n it.key)) ≡ some l
    → lookup n (update a (slot n it.key) l) k ≡ (if it.key == k then none else lookup n a k)
lookup-remove n a it l k p e = elim (Bool-cases (slot n it.key == slot n k)) [
  | inl same ↦
      let at : slot n it.key ≡ slot n k = ground arith in
      rw (same, ← at) (find-remove it (a (slot n it.key)) l k (p (slot n it.key)).1 e)
  | inr other ↦ let differ : (it.key == k) ≡ false = ground arith in rw (other, differ) refl
]

pub erase-Agrees :
    (h : Hash) (f : Map) (it : Item) → Represents h f → Agrees (erase h it) (withdraw f it)
unfolding erase get
erase-Agrees h f it (g, r, u) = elim (Bool-cases (f.used it.owner)) [
  | inr apart ↦ rw (erase, u it.owner, apart) tt
  | inl linked ↦
      let s = slot h.slots it.key in
      elim (Option-cases (remove it (h.array s))) [
        | inl e ↦
            let q = remove-eq-none it (h.array s) (g.placed s).1 e in
            let n : holds it (f.found it.key) ≡ false = ground (arith, r it.key, q) in
            rw (erase, u it.owner, linked, e, n) tt
        | inr (l, e) ↦
            let q = remove-eq-some it (h.array s) l (g.placed s).1 e in
            let n : holds it (f.found it.key) ≡ true = ground (arith, r it.key, q) in
            rw (erase, u it.owner, linked, e, n)
              (
                record {
                  some_slots = g.some_slots;
                  few_slots = g.few_slots;
                  placed = IsPlaced-remove h.slots h.array it l g.placed e;
                },
                λ j. ground (arith, lookup-remove h.slots h.array it l j g.placed e, r j),
                λ j. ground (arith, u j),
              )
      ]
]
