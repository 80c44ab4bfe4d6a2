-- ===== src/Protocol/Trie/Count/Arrays.antt =====
-- Child arrays by the child that each character has.
use vnano_msg.Common.{
  ℕ, zero, suc, ◌+◌, ◌-◌, ◌≤◌, ◌<◌, ◌≡◌, refl, ap, ◌∙◌, Bool, true, false, ◌&&◌, not, Option, none,
  some, arith, ◌==◌, ltb, leb, if◌then◌else◌, Bool-cases, inl, inr,
}
use vnano_msg.Protocol.Trie.{
  Tree, null, node, Children, sparse, dense, Kids, no_kid, kid, Slots, no_slot, slot, kid_at,
  slot_at, node_next,
}
use vnano_msg.Protocol.Trie.Nodes.{
  add_kid, set_kid, set_slot, nulls_before, nulls_after, kids_min, kids_max, fill_slots,
}

abbrev pub or_null : Option Tree → Tree
or_null none = null
or_null (some t) = t

abbrev pub child : Children → ℕ → Tree
child ch c = or_null (node_next ch c)

abbrev pub is_null : Tree → Bool
is_null null = true
is_null (node r p ch) = false

abbrev is_absent : Option Tree → Bool
is_absent none = true
is_absent (some t) = false

abbrev pub slots_number : Slots → ℕ
slots_number no_slot = 0
slots_number (slot t ss) = suc (slots_number ss)

-- Sparse children are nodes, each with a character of its own.
abbrev pub distinct_kids : Kids → Bool
distinct_kids no_kid = true
distinct_kids (kid x t ks) = not (is_null t) && is_absent (kid_at ks x) && distinct_kids ks

-- A dense array has a slot for each character of its range.
abbrev pub well_formed_array : Children → Bool
well_formed_array (sparse ks) = distinct_kids ks
well_formed_array (dense lo hi nbr ss) = leb lo hi && slots_number ss == suc (hi - lo)

pub kid_at-add_kid :
    (ks : Kids) (c : ℕ) (t : Tree) (x : ℕ)
    → kid_at ks c ≡ none
    → kid_at (add_kid ks c t) x ≡ (if c == x then some t else kid_at ks x)
unfolding kid_at add_kid
kid_at-add_kid no_kid c t x h = ground arith
kid_at-add_kid (kid y u ks) c t x h = ground (arith, kid_at-add_kid ks c t x)

pub kid_at-set_kid :
    (ks : Kids) (c : ℕ) (u t : Tree) (x : ℕ)
    → kid_at ks c ≡ some u
    → kid_at (set_kid ks c t) x ≡ (if c == x then some t else kid_at ks x)
unfolding kid_at set_kid
kid_at-set_kid no_kid c u t x h = cc
kid_at-set_kid (kid y v ks) c u t x h = ground (arith, kid_at-set_kid ks c u t x)

pub slot_at-set_slot :
    (ss : Slots) (i : ℕ) (t : Tree) (j : ℕ)
    → i < slots_number ss
    → slot_at (set_slot ss i t) j ≡ (if i == j then t else slot_at ss j)
unfolding slot_at set_slot
slot_at-set_slot no_slot i t j h = absurd (omega arith)
slot_at-set_slot (slot u ss) zero t zero h = ground arith
slot_at-set_slot (slot u ss) zero t (suc j) h = ground arith
slot_at-set_slot (slot u ss) (suc i) t zero h = ground arith
slot_at-set_slot (slot u ss) (suc i) t (suc j) h = ground (arith, slot_at-set_slot ss i t j)

pub slots_number-set_slot :
    (ss : Slots) (i : ℕ) (t : Tree) → slots_number (set_slot ss i t) ≡ slots_number ss
unfolding set_slot
slots_number-set_slot no_slot i t = refl
slots_number-set_slot (slot u ss) zero t = refl
slots_number-set_slot (slot u ss) (suc i) t = ap suc (slots_number-set_slot ss i t)

pub slot_at-nulls_before :
    (n : ℕ) (ss : Slots) (i : ℕ)
    → slot_at (nulls_before n ss) i ≡ (if ltb i n then null else slot_at ss (i - n))
unfolding slot_at nulls_before
slot_at-nulls_before zero ss i = ground arith
slot_at-nulls_before (suc n) ss zero = ground arith
slot_at-nulls_before (suc n) ss (suc i) =
    let e : suc i - suc n ≡ i - n = omega arith in ground (arith, slot_at-nulls_before n ss i)

slot_at-no_slot : (i : ℕ) → slot_at no_slot i ≡ null
unfolding slot_at
slot_at-no_slot i = refl

pub slot_at-nulls : (n i : ℕ) → slot_at (nulls_before n no_slot) i ≡ null
slot_at-nulls n i = ground (arith, slot_at-nulls_before n no_slot i, slot_at-no_slot (i - n))

pub slot_at-nulls_after : (ss : Slots) (n i : ℕ) → slot_at (nulls_after ss n) i ≡ slot_at ss i
unfolding slot_at nulls_after
slot_at-nulls_after no_slot n i = slot_at-nulls n i
slot_at-nulls_after (slot t ss) n zero = refl
slot_at-nulls_after (slot t ss) n (suc i) = slot_at-nulls_after ss n i

pub slots_number-nulls_before :
    (n : ℕ) (ss : Slots) → slots_number (nulls_before n ss) ≡ n + slots_number ss
unfolding nulls_before
slots_number-nulls_before zero ss = omega arith
slots_number-nulls_before (suc n) ss = omega (arith, slots_number-nulls_before n ss)

pub slots_number-nulls_after :
    (ss : Slots) (n : ℕ) → slots_number (nulls_after ss n) ≡ slots_number ss + n
unfolding nulls_after
slots_number-nulls_after no_slot n = omega (arith, slots_number-nulls_before n no_slot)
slots_number-nulls_after (slot t ss) n = omega (arith, slots_number-nulls_after ss n)

pub slots_number-fill_slots :
    (ks : Kids) (lo : ℕ) (ss : Slots) → slots_number (fill_slots ks lo ss) ≡ slots_number ss
unfolding fill_slots
slots_number-fill_slots no_kid lo ss = refl
slots_number-fill_slots (kid x t ks) lo ss =
    slots_number-fill_slots ks lo (set_slot ss (x - lo) t) ∙ slots_number-set_slot ss (x - lo) t

abbrev pub kids_within : Kids → ℕ → ℕ → Bool
kids_within no_kid lo hi = true
kids_within (kid x t ks) lo hi = leb lo x && leb x hi && kids_within ks lo hi

pub kids_within-wider :
    (ks : Kids) (lo hi lo' hi' : ℕ)
    → lo' ≤ lo
    → hi ≤ hi'
    → kids_within ks lo hi ≡ true
    → kids_within ks lo' hi' ≡ true
kids_within-wider no_kid lo hi lo' hi' a b h = refl
kids_within-wider (kid x t ks) lo hi lo' hi' a b h =
    ground (arith, kids_within-wider ks lo hi lo' hi')

pub kids_min-le : (ks : Kids) (g : ℕ) → kids_min ks g ≤ g
unfolding kids_min
kids_min-le no_kid g = omega arith
kids_min-le (kid x t ks) g = ground (arith, kids_min-le ks (if ltb g x then g else x))

pub kids_max-ge : (ks : Kids) (g : ℕ) → g ≤ kids_max ks g
unfolding kids_max
kids_max-ge no_kid g = omega arith
kids_max-ge (kid x t ks) g = ground (arith, kids_max-ge ks (if ltb x g then g else x))

pub kids_within-range :
    (ks : Kids) (g h : ℕ) → kids_within ks (kids_min ks g) (kids_max ks h) ≡ true
unfolding kids_min kids_max
kids_within-range no_kid g h = refl
kids_within-range (kid x t ks) g h =
    let g' = if ltb g x then g else x in
    let h' = if ltb x h then h else x in
    ground (arith, kids_within-range ks g' h', kids_min-le ks g', kids_max-ge ks h')

abbrev pub or_else : Option Tree → Tree → Tree
or_else none u = u
or_else (some t) u = t

-- The written slots are the children, and the others stay.
pub slot_at-fill_slots :
    (ks : Kids) (lo hi : ℕ) (ss : Slots) (i : ℕ)
    → distinct_kids ks ≡ true
    → kids_within ks lo hi ≡ true
    → hi < lo + slots_number ss
    → slot_at (fill_slots ks lo ss) i ≡ or_else (kid_at ks (lo + i)) (slot_at ss i)
unfolding kid_at fill_slots
slot_at-fill_slots no_kid lo hi ss i d w n = refl
slot_at-fill_slots (kid x t ks) lo hi ss i d w n =
    let tail : distinct_kids ks ≡ true = ground arith in
    let within : kids_within ks lo hi ≡ true = ground arith in
    let ih =
      slot_at-fill_slots ks lo hi (set_slot ss (x - lo) t) i tail within
        (omega (arith, slots_number-set_slot ss (x - lo) t)) in
    let here = slot_at-set_slot ss (x - lo) t i (ground arith) in
    elim (Bool-cases (x == lo + i)) [
      | inl same ↦ rw same (ih ∙ ground (arith, here))
      | inr other ↦ rw other (ih ∙ rw here (ground arith))
    ]

pub slot_at-outside : (ss : Slots) (i : ℕ) → slots_number ss ≤ i → slot_at ss i ≡ null
unfolding slot_at
slot_at-outside no_slot i h = refl
slot_at-outside (slot t ss) zero h = absurd (omega arith)
slot_at-outside (slot t ss) (suc i) h = slot_at-outside ss i (omega arith)
