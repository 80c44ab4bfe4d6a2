-- ===== src/Protocol/Trie/Count/Forms.antt =====
-- `nn_trie_subscribe` keeps a trie well formed.
use vnano_msg.Common.{
  ℕ, zero, suc, ◌+◌, ◌-◌, ◌≤◌, ◌≡◌, refl, Bool, true, false, ◌&&◌, none, some, arith, ltb,
  if◌then◌else◌, Bool-cases, inl, inr,
}
use vnano_msg.Protocol.Trie.{
  Tree, Children, sparse, dense, Kids, no_kid, kid, Slots, no_slot, slot, kid_at, node_next,
}
use vnano_msg.Protocol.Trie.Nodes.{
  kids_number, add_kid, set_kid, set_slot, set_child, nulls_before, nulls_after, kids_min, kids_max,
  fill_slots,
}
use vnano_msg.Protocol.Trie.Subscribe.{widen, to_dense}
use vnano_msg.Protocol.Trie.Count.Arrays.{
  is_null, slots_number, distinct_kids, well_formed_array, kid_at-add_kid, kid_at-set_kid,
  slots_number-set_slot, slots_number-nulls_before, slots_number-nulls_after,
  slots_number-fill_slots,
}
use vnano_msg.Protocol.Trie.Count.Subscribed.{
  well_formed, well_formed_children, well_formed_kids, well_formed_slots,
}

-- The array and all below it.
abbrev pub well_formed_node : Children → Bool
well_formed_node ch = well_formed_array ch && well_formed_children ch

abbrev pub IsGood : Tree → Type 0
IsGood t = (is_null t ≡ false) × (well_formed t ≡ true)

-- Sparse arrays.
pub kids-add_kid :
    (ks : Kids) (c : ℕ) (t : Tree)
    → distinct_kids ks ≡ true
    → well_formed_kids ks ≡ true
    → kid_at ks c ≡ none
    → IsGood t
    → (distinct_kids (add_kid ks c t) && well_formed_kids (add_kid ks c t)) ≡ true
unfolding kid_at add_kid well_formed_kids
kids-add_kid no_kid c t d w n (g, g') = ground arith
kids-add_kid (kid x u ks) c t d w n g = ground (arith, kids-add_kid ks c t, kid_at-add_kid ks c t x)

pub kids-set_kid :
    (ks : Kids) (c : ℕ) (u t : Tree)
    → distinct_kids ks ≡ true
    → well_formed_kids ks ≡ true
    → kid_at ks c ≡ some u
    → IsGood t
    → (distinct_kids (set_kid ks c t) && well_formed_kids (set_kid ks c t)) ≡ true
unfolding kid_at set_kid well_formed_kids
kids-set_kid no_kid c u t d w n g = cc
kids-set_kid (kid x v ks) c u t d w n (g, g') =
    ground (arith, kids-set_kid ks c u t, kid_at-set_kid ks c u t x)

-- Dense arrays.
slots-set_slot :
    (ss : Slots) (i : ℕ) (t : Tree)
    → well_formed_slots ss ≡ true
    → well_formed t ≡ true
    → well_formed_slots (set_slot ss i t) ≡ true
unfolding set_slot well_formed_slots
slots-set_slot no_slot i t w g = refl
slots-set_slot (slot u ss) zero t w g = ground arith
slots-set_slot (slot u ss) (suc i) t w g = ground (arith, slots-set_slot ss i t)

slots-nulls_before :
    (n : ℕ) (ss : Slots)
    → well_formed_slots ss ≡ true
    → well_formed_slots (nulls_before n ss) ≡ true
unfolding nulls_before well_formed_slots well_formed
slots-nulls_before zero ss w = w
slots-nulls_before (suc n) ss w = slots-nulls_before n ss w

slots-nulls_after :
    (ss : Slots) (n : ℕ) → well_formed_slots ss ≡ true → well_formed_slots (nulls_after ss n) ≡ true
unfolding nulls_after well_formed_slots
slots-nulls_after no_slot n w = slots-nulls_before n no_slot refl
slots-nulls_after (slot t ss) n w = ground (arith, slots-nulls_after ss n)

slots-fill_slots :
    (ks : Kids) (lo : ℕ) (ss : Slots)
    → well_formed_kids ks ≡ true
    → well_formed_slots ss ≡ true
    → well_formed_slots (fill_slots ks lo ss) ≡ true
unfolding fill_slots well_formed_kids
slots-fill_slots no_kid lo ss w v = v
slots-fill_slots (kid x t ks) lo ss w v =
    slots-fill_slots ks lo (set_slot ss (x - lo) t) (ground arith)
      (slots-set_slot ss (x - lo) t v (ground arith))

pub node-set_child :
    (ch : Children) (c : ℕ) (u t : Tree)
    → well_formed_node ch ≡ true
    → node_next ch c ≡ some u
    → IsGood t
    → well_formed_node (set_child ch c t) ≡ true
unfolding set_child node_next well_formed_children
node-set_child (sparse ks) c u t w e g = kids-set_kid ks c u t (ground arith) (ground arith) e g
node-set_child (dense lo hi nbr ss) c u t w e (g, g') =
    ground (arith, slots_number-set_slot ss (c - lo) t, slots-set_slot ss (c - lo) t)

node-write_dense :
    (lo hi nbr : ℕ) (ss : Slots) (c : ℕ) (t : Tree)
    → lo ≤ hi
    → slots_number ss ≡ suc (hi - lo)
    → well_formed_slots ss ≡ true
    → well_formed t ≡ true
    → well_formed_node (set_child (dense lo hi nbr ss) c t) ≡ true
unfolding set_child well_formed_children
node-write_dense lo hi nbr ss c t a n w g =
    ground (arith, slots_number-set_slot ss (c - lo) t, slots-set_slot ss (c - lo) t)

pub node-widen :
    (lo hi nbr : ℕ) (ss : Slots) (c : ℕ) (t : Tree)
    → well_formed_node (dense lo hi nbr ss) ≡ true
    → well_formed t ≡ true
    → well_formed_node (set_child (widen lo hi nbr ss c) c t) ≡ true
unfolding widen well_formed_children
node-widen lo hi nbr ss c t w g =
    let a : lo ≤ hi = ground arith in
    let n : slots_number ss ≡ suc (hi - lo) = ground arith in
    let v : well_formed_slots ss ≡ true = ground arith in
    elim (Bool-cases (ltb c lo)) [
      | inl low ↦ rw low (
          node-write_dense c hi (nbr + 1) (nulls_before (lo - c) ss) c t (ground arith)
            (ground (arith, slots_number-nulls_before (lo - c) ss))
            (slots-nulls_before (lo - c) ss v) g)
      | inr not_low ↦ elim (Bool-cases (ltb hi c)) [
        | inl high ↦
            rw (not_low, high)
              (node-write_dense lo c (nbr + 1) (nulls_after ss (c - hi)) c t (ground arith)
                (ground (arith, slots_number-nulls_after ss (c - hi)))
                (slots-nulls_after ss (c - hi) v) g)
        | inr within ↦ rw (not_low, within) (node-write_dense lo hi (nbr + 1) ss c t a n v g)
      ]
    ]

filled_number :
    (ks : Kids) (lo n : ℕ) → slots_number (fill_slots ks lo (nulls_before (n + 1) no_slot)) ≡ suc n
filled_number ks lo n = omega (
  arith,
  slots_number-fill_slots ks lo (nulls_before (n + 1) no_slot),
  slots_number-nulls_before (n + 1) no_slot,
)

pub node-to_dense :
    (ks : Kids) (c : ℕ) (t : Tree)
    → well_formed_kids ks ≡ true
    → well_formed t ≡ true
    → well_formed_node (set_child (to_dense ks c) c t) ≡ true
unfolding to_dense well_formed_slots
node-to_dense ks c t w g =
    let lo = if ltb (kids_min ks 255) c then kids_min ks 255 else c in
    let hi = if ltb c (kids_max ks 0) then kids_max ks 0 else c in
    node-write_dense lo hi (kids_number ks + 1)
      (fill_slots ks lo (nulls_before (hi - lo + 1) no_slot)) c t (ground arith)
      (filled_number ks lo (hi - lo))
      (slots-fill_slots ks lo (nulls_before (hi - lo + 1) no_slot) w
        (slots-nulls_before (hi - lo + 1) no_slot refl))
      g
