-- ===== src/Protocol/Reqrep/Xrep/Registry.antt =====
-- The table of a raw REP socket names each pipe that is there by its key.
use vnano_msg.Common.{
  ℕ, ◌+◌, ◌%◌, ◌^◌, ◌<◌, ◌≡◌, refl, ◌∙◌, ap, inl, inr, Bool, true, false, none, some, List, [], ◌∷◌,
  done, Outcome-cases, Bool-cases, update, arith, ◌==◌, mem, IsDistinct,
}
use vnano_msg.Utils.Hash
use vnano_msg.Utils.Hash.{Hash, Item, item_init, item_term}
use vnano_msg.Utils.Hash.Refine.{IsGood}
use vnano_msg.Utils.Hash.Calls.{insert-free, erase-found}
use vnano_msg.Utils.ItemList.{without}
use vnano_msg.Utils.ItemList.Split.{mem-without, mem-without_ne, without-IsDistinct}
use vnano_msg.Protocol.Fq
use vnano_msg.Protocol.Fq.{Fq}
use vnano_msg.Protocol.Pipeline.{valid_priority}
use vnano_msg.Protocol.Reqrep.Xrep.{Xrep, XrepData, add, rm, activate_in, set_out}

abbrev pub item_of : Xrep → ℕ → Item
item_of x p = record { key = (x.datas p).key; owner = p }

-- The table has a pipe's item under the key that its data hold.
abbrev pub IsRegistered : Xrep → ℕ → Type 0
IsRegistered x p = Hash.get x.outpipes (x.datas p).key ≡ some (item_of x p)

-- The pipes of the list are registered, and whatever the table finds is the item of one of them.
pub record IsRegistry (x : Xrep) (pipes : List ℕ) : Type 0 where
  pub good : IsGood x.outpipes
  pub linked : (p : ℕ) → mem p pipes ≡ true → x.outpipes.listed p ≡ true
  pub distinct : IsDistinct pipes
  pub registered : (p : ℕ) → mem p pipes ≡ true → IsRegistered x p
  pub small : (p : ℕ) → mem p pipes ≡ true → (x.datas p).key < 2 ^ 31
  pub owned :
      (k : ℕ) (it : Item)
      → Hash.get x.outpipes k ≡ some it
      → (mem it.owner pipes ≡ true) × ((x.datas it.owner).key ≡ k)

-- The same table, and the same keys.
abbrev pub IsSame : Xrep → Xrep → Type 0
IsSame x y = (y.outpipes ≡ x.outpipes) × ((q : ℕ) → (y.datas q).key ≡ (x.datas q).key)

pub IsRegistry-same :
    (x y : Xrep) (pipes : List ℕ) → IsSame x y → IsRegistry x pipes → IsRegistry y pipes
IsRegistry-same x y pipes s r = record {
  good = rw s.0 r.good;
  linked = λ p h. rw s.0 (r.linked p h);
  distinct = r.distinct;
  registered = λ p h. rw (s.0, s.1 p) (r.registered p h);
  small = λ p h. rw (s.1 p) (r.small p h);
  owned = λ k it h. let o = r.owned k it (rw s.0 at h) in (o.0, s.1 it.owner ∙ o.1);
}

pub set_out-IsSame : (x : Xrep) (p : ℕ) (b : Bool) → IsSame x (set_out x p b)
unfolding set_out
set_out-IsSame x p b = (refl, λ q. ground arith)

pub activate_in-IsSame : (x y : Xrep) (p : ℕ) → activate_in x p ≡ done y → IsSame x y
unfolding activate_in
activate_in-IsSame x y p h = elim (Outcome-cases (Fq.activate x.inpipes (x.datas p).initem)) [
  | inl e ↦ absurd (ground arith)
  | inr (fq, e) ↦ (ground arith, λ q. ground arith)
]

mem-ne : (a b : ℕ) (l : List ℕ) → mem a l ≡ true → mem b l ≡ false → (b == a) ≡ false
mem-ne a b [] h n = cc
mem-ne a b (x ∷ l) h n = ground (arith, mem-ne a b l)

pub item_init-IsGood : (h : Hash) (p : ℕ) → IsGood h → IsGood (item_init h p)
unfolding item_init
item_init-IsGood h p g = record {
  some_slots = g.some_slots;
  few_slots = g.few_slots;
  placed = g.placed;
}

pub item_init-get : (h : Hash) (p k : ℕ) → Hash.get (item_init h p) k ≡ Hash.get h k
unfolding item_init Hash.get
item_init-get h p k = refl

item_init-listed : (h : Hash) (p : ℕ) → (item_init h p).listed p ≡ false
unfolding item_init
item_init-listed h p = ground arith

joined :
    (t h : Hash) (p : ℕ) (pipes : List ℕ) (q : ℕ)
    → ((a : ℕ) → mem a pipes ≡ true → t.listed a ≡ true)
    → ((a : ℕ) → h.listed a ≡ update (item_init t p).listed p true a)
    → mem q (p ∷ pipes) ≡ true
    → h.listed q ≡ true
unfolding item_init
joined t h p pipes q l u m = elim (Bool-cases (p == q)) [
  | inl e ↦ ground (arith, u q)
  | inr e ↦ ground (arith, u q, l q (ground arith))
]

pub add-IsRegistry :
    (x : Xrep) (pipes : List ℕ) (p prio : ℕ)
    → IsRegistry x pipes
    → mem p pipes ≡ false
    → valid_priority prio ≡ true
    → Hash.get x.outpipes (x.next_key % 2 ^ 31) ≡ none
    → (y : Xrep) × (add x p prio ≡ done y) × IsRegistry y (p ∷ pipes)
unfolding add item_init Hash.get
add-IsRegistry x pipes p prio r new prio_ok free =
    let key = x.next_key % 2 ^ 31 in
    let (h, e, (g, f, u)) =
      insert-free (item_init x.outpipes p) key p (item_init-IsGood x.outpipes p r.good)
        (item_init-get x.outpipes p key ∙ free) (item_init-listed x.outpipes p) in
    (
      record x {
        next_key = (x.next_key + 1) % 2 ^ 32;
        outpipes = h;
        datas = update x.datas p (record { key = key; initem = Fq.add p prio; out = false });
      },
      rw (prio_ok, e) refl,
      record {
        good = g;
        linked = λ q m. joined x.outpipes h p pipes q r.linked u m;
        distinct = (new, r.distinct);
        registered = λ q m. there h f q m;
        small = λ q m. low q m;
        owned = λ k it m. back h f k it m;
      },
    )
  where
    new_data : XrepData
    new_data = record { key = x.next_key % 2 ^ 31; initem = Fq.add p prio; out = false }

    Finds : Hash → Type 0
    Finds h =
        (j : ℕ)
        → Hash.get h j
          ≡ update (Hash.get x.outpipes) (x.next_key % 2 ^ 31)
              (some (record { key = x.next_key % 2 ^ 31; owner = p })) j

    there :
        (h : Hash)
        → Finds h
        → (q : ℕ) → mem q (p ∷ pipes) ≡ true
        → Hash.get h (update x.datas p new_data q).key
          ≡ some (record { key = (update x.datas p new_data q).key; owner = q })
    there h f q m = elim (Bool-cases (p == q)) [
      | inl e ↦ ground (arith, f (x.next_key % 2 ^ 31))
      | inr e ↦ ground (arith, f (x.datas q).key, r.registered q (ground arith))
    ]

    low : (q : ℕ) → mem q (p ∷ pipes) ≡ true → (update x.datas p new_data q).key < 2 ^ 31
    low q m = elim (Bool-cases (p == q)) [
      | inl e ↦ ground arith
      | inr e ↦ ground (arith, r.small q (ground arith))
    ]

    back :
        (h : Hash)
        → Finds h
        → (k : ℕ) (it : Item) → Hash.get h k ≡ some it
        → (mem it.owner (p ∷ pipes) ≡ true) × ((update x.datas p new_data it.owner).key ≡ k)
    back h f k it m = elim (Bool-cases (x.next_key % 2 ^ 31 == k)) [
      | inl e ↦ (ground (arith, f k), ground (arith, f k))
      | inr e ↦
          let (held, same) = r.owned k it (ground (arith, f k)) in
          (ground arith, ground (arith, mem-ne it.owner p pipes held new))
    ]

mem_of_without : (x y : ℕ) (l : List ℕ) → mem x (without y l) ≡ true → mem x l ≡ true
mem_of_without x y l h = elim (Bool-cases (mem x l)) [
  | inl e ↦ e
  | inr e ↦ cc (mem-without x y l e)
]

without-absent : (x : ℕ) (l : List ℕ) → IsDistinct l → mem x (without x l) ≡ false
unfolding without
without-absent x [] d = refl
without-absent x (y ∷ l) d = ground (arith, without-absent x l d.1)

without-ne : (x y : ℕ) (l : List ℕ) → IsDistinct l → mem y (without x l) ≡ true → (x == y) ≡ false
without-ne x y l d h = mem-ne y x (without x l) h (without-absent x l d)

still :
    (x : Xrep) (p q k : ℕ) → (x.datas q).key ≡ k → ((x.datas p).key == k) ≡ false → (q == p) ≡ false
still x p q k e n = elim (Bool-cases (q == p)) [
  | inl s ↦
      let same : q ≡ p = ground arith in
      let both : (x.datas q).key ≡ (x.datas p).key = ap (λ t. (x.datas t).key) same in
      absurd (ground arith)
  | inr s ↦ s
]

item_term-left : (t : Hash) (p : ℕ) → t.listed p ≡ false → item_term t p ≡ done tt
unfolding item_term
item_term-left t p h = rw h refl

pub rm-IsRegistry :
    (x : Xrep) (pipes : List ℕ) (p : ℕ)
    → IsRegistry x pipes
    → mem p pipes ≡ true
    → (y : Xrep) × (rm x p ≡ done y) × IsRegistry y (without p pipes)
unfolding rm
rm-IsRegistry x pipes p r h =
    let (t, e, (g, f, u)) =
      erase-found x.outpipes (item_of x p) r.good (r.registered p h) (r.linked p h) in
    let left : item_term t p ≡ done tt = item_term-left t p (ground (arith, u p)) in
    (
      record x { inpipes = Fq.rm x.inpipes (x.datas p).initem; outpipes = t },
      rw (e, left) refl,
      record {
        good = g;
        linked = λ q m.
            let kept = mem_of_without q p pipes m in
            let other : (p == q) ≡ false = without-ne p q pipes r.distinct m in
            ground (arith, u q, r.linked q kept);
        distinct = without-IsDistinct p pipes r.distinct;
        registered = λ q m.
            let kept = mem_of_without q p pipes m in
            let other : (p == q) ≡ false = without-ne p q pipes r.distinct m in
            ground (arith, f (x.datas q).key, r.registered q kept, r.registered p h);
        small = λ q m. r.small q (mem_of_without q p pipes m);
        owned = λ k it m.
            let (held, same) = r.owned k it (ground (arith, f k)) in
            let other : (it.owner == p) ≡ false = still x p it.owner k same (ground (arith, f k)) in
            (mem-without_ne it.owner p pipes other held, same);
      },
    )
