-- ===== src/Protocol/Trie/Count/Writes.antt =====
-- What a write to a child array makes of the children.
use vnano_msg.Common.{
  ℕ, suc, ◌+◌, ◌-◌, ◌≤◌, ◌≡◌, refl, sym, ◌∙◌, true, ◌||◌, Option, none, some, arith, ◌==◌, ltb,
  if◌then◌else◌, Bool-cases, inl, inr,
}
use vnano_msg.Protocol.Trie.{
  Tree, null, Children, sparse, dense, Kids, no_kid, kid, Slots, no_slot, kid_at, node_next,
}
use vnano_msg.Protocol.Trie.Nodes.{
  kids_number, add_kid, set_child, nulls_before, nulls_after, kids_min, kids_max, fill_slots,
}
use vnano_msg.Protocol.Trie.Subscribe.{widen, to_dense}
use vnano_msg.Protocol.Trie.Count.Arrays.{
  or_null, child, slots_number, distinct_kids, well_formed_array, kid_at-add_kid, kid_at-set_kid,
  slot_at-set_slot, slot_at-nulls_before, slot_at-nulls, slot_at-nulls_after,
  slots_number-nulls_before, slots_number-nulls_after, slots_number-fill_slots, kids_within,
  kids_within-wider, kids_within-range, slot_at-fill_slots, slot_at-outside, or_else,
}

-- A write to a dense array whose range holds the character.
child-set_slot :
    (lo hi nbr : ℕ) (ss : Slots) (c : ℕ) (t : Tree) (x : ℕ)
    → lo ≤ c
    → c ≤ hi
    → slots_number ss ≡ suc (hi - lo)
    → child (set_child (dense lo hi nbr ss) c t) x
      ≡ (if c == x then t else child (dense lo hi nbr ss) x)
unfolding node_next set_child
child-set_slot lo hi nbr ss c t x a b n =
    ground (arith, slot_at-set_slot ss (c - lo) t (x - lo) (omega arith))

child-set_kid :
    (ks : Kids) (c : ℕ) (u t : Tree) (x : ℕ)
    → node_next (sparse ks) c ≡ some u
    → child (set_child (sparse ks) c t) x ≡ (if c == x then t else child (sparse ks) x)
unfolding node_next set_child
child-set_kid ks c u t x h = ground (arith, kid_at-set_kid ks c u t x h)

dense_range :
    (lo hi nbr : ℕ) (ss : Slots) (c : ℕ) (u : Tree)
    → node_next (dense lo hi nbr ss) c ≡ some u
    → (lo ≤ c) × (c ≤ hi)
unfolding node_next
dense_range lo hi nbr ss c u h = ground arith

-- A write through the pointer of `nn_node_next`.
pub child-set_child :
    (ch : Children) (c : ℕ) (u t : Tree) (x : ℕ)
    → well_formed_array ch ≡ true
    → node_next ch c ≡ some u
    → child (set_child ch c t) x ≡ (if c == x then t else child ch x)
child-set_child (sparse ks) c u t x w h = child-set_kid ks c u t x h
child-set_child (dense lo hi nbr ss) c u t x w h =
    let (a, b) = dense_range lo hi nbr ss c u h in
    child-set_slot lo hi nbr ss c t x a b (ground arith)

pub child-add_kid :
    (ks : Kids) (c : ℕ) (t : Tree) (x : ℕ)
    → kid_at ks c ≡ none
    → child (sparse (add_kid ks c t)) x ≡ (if c == x then t else child (sparse ks) x)
unfolding node_next
child-add_kid ks c t x h = ground (arith, kid_at-add_kid ks c t x h)

-- A wider range has the same children.
child-wider_before :
    (lo hi nbr nbr' : ℕ) (ss : Slots) (c x : ℕ)
    → c ≤ lo
    → lo ≤ hi
    → child (dense c hi nbr (nulls_before (lo - c) ss)) x ≡ child (dense lo hi nbr' ss) x
unfolding node_next
child-wider_before lo hi nbr nbr' ss c x a b =
    ground (arith, slot_at-nulls_before (lo - c) ss (x - c))

child-wider_after :
    (lo hi nbr nbr' : ℕ) (ss : Slots) (c x : ℕ)
    → hi ≤ c
    → lo ≤ hi
    → slots_number ss ≡ suc (hi - lo)
    → child (dense lo c nbr (nulls_after ss (c - hi))) x ≡ child (dense lo hi nbr' ss) x
unfolding node_next
child-wider_after lo hi nbr nbr' ss c x a b n = elim (Bool-cases (ltb hi x)) [
  | inl out ↦
      let e = slot_at-outside ss (x - lo) (ground arith) in
      ground (arith, slot_at-nulls_after ss (c - hi) (x - lo))
  | inr within ↦ ground (arith, slot_at-nulls_after ss (c - hi) (x - lo))
]

child-same :
    (lo hi nbr nbr' : ℕ) (ss : Slots) (x : ℕ)
    → child (dense lo hi nbr ss) x ≡ child (dense lo hi nbr' ss) x
unfolding node_next
child-same lo hi nbr nbr' ss x = refl

-- Step 3 on a dense array gives the new character its child and leaves the others.
pub child-widen :
    (lo hi nbr : ℕ) (ss : Slots) (c : ℕ) (t : Tree) (x : ℕ)
    → well_formed_array (dense lo hi nbr ss) ≡ true
    → child (set_child (widen lo hi nbr ss c) c t) x
      ≡ (if c == x then t else child (dense lo hi nbr ss) x)
unfolding widen
child-widen lo hi nbr ss c t x w =
    let a : lo ≤ hi = ground arith in
    let n : slots_number ss ≡ suc (hi - lo) = ground arith in
    elim (Bool-cases (ltb c lo)) [
      | inl low ↦
          let b : c ≤ lo = ground arith in
          rw (low, sym (child-wider_before lo hi (nbr + 1) nbr ss c x b a))
            (child-set_slot c hi (nbr + 1) (nulls_before (lo - c) ss) c t x (omega arith)
              (omega arith) (omega (arith, slots_number-nulls_before (lo - c) ss)))
      | inr not_low ↦ elim (Bool-cases (ltb hi c)) [
        | inl high ↦
            let b : hi ≤ c = ground arith in
            rw (not_low, high, sym (child-wider_after lo hi (nbr + 1) nbr ss c x b a n))
              (child-set_slot lo c (nbr + 1) (nulls_after ss (c - hi)) c t x (omega arith)
                (omega arith) (omega (arith, slots_number-nulls_after ss (c - hi))))
        | inr within ↦
            rw (not_low, within, child-same lo hi nbr (nbr + 1) ss x)
              (child-set_slot lo hi (nbr + 1) ss c t x (ground arith) (ground arith) n)
      ]
    ]

kid_at-outside :
    (ks : Kids) (lo hi x : ℕ)
    → kids_within ks lo hi ≡ true
    → (ltb x lo || ltb hi x) ≡ true
    → kid_at ks x ≡ none
unfolding kid_at
kid_at-outside no_kid lo hi x w o = refl
kid_at-outside (kid y t ks) lo hi x w o = ground (arith, kid_at-outside ks lo hi x)

or_else_null : (o : Option Tree) → or_else o null ≡ or_null o
or_else_null none = refl
or_else_null (some t) = refl

-- The dense array of sparse children has the same children.
child-fill_slots :
    (ks : Kids) (lo hi nbr : ℕ) (x : ℕ)
    → distinct_kids ks ≡ true
    → kids_within ks lo hi ≡ true
    → child (dense lo hi nbr (fill_slots ks lo (nulls_before (hi - lo + 1) no_slot))) x
      ≡ child (sparse ks) x
unfolding node_next
child-fill_slots ks lo hi nbr x d w = elim (Bool-cases (ltb x lo || ltb hi x)) [
  | inl out ↦ rw (out, kid_at-outside ks lo hi x w out) refl
  | inr within ↦
      let e : lo + (x - lo) ≡ x = ground arith in
      rw
        (
          within,
          slot_at-fill_slots ks lo hi (nulls_before (hi - lo + 1) no_slot) (x - lo) d w
              (omega (arith, slots_number-nulls_before (hi - lo + 1) no_slot)),
          slot_at-nulls (hi - lo + 1) (x - lo),
          e,
        )
        (or_else_null (kid_at ks x))
]

one_more : (n : ℕ) → n + 1 + 0 ≡ suc n
one_more n = omega arith

-- Step 3 on a full sparse array gives the new character its child and leaves the others.
pub child-to_dense :
    (ks : Kids) (c : ℕ) (t : Tree) (x : ℕ)
    → distinct_kids ks ≡ true
    → child (set_child (to_dense ks c) c t) x ≡ (if c == x then t else child (sparse ks) x)
unfolding to_dense
child-to_dense ks c t x d =
    let lo = if ltb (kids_min ks 255) c then kids_min ks 255 else c in
    let hi = if ltb c (kids_max ks 0) then kids_max ks 0 else c in
    let nbr = kids_number ks + 1 in
    let within =
      kids_within-wider ks (kids_min ks 255) (kids_max ks 0) lo hi (ground arith) (ground arith)
        (kids_within-range ks 255 0) in
    rw (sym (child-fill_slots ks lo hi nbr x d within)) (
      child-set_slot lo hi nbr (fill_slots ks lo (nulls_before (hi - lo + 1) no_slot)) c t x
        (ground arith) (ground arith)
        (slots_number-fill_slots ks lo (nulls_before (hi - lo + 1) no_slot)
          ∙ slots_number-nulls_before (hi - lo + 1) no_slot
          ∙ one_more (hi - lo)))
