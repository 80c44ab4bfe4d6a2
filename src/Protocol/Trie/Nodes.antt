-- ===== src/Protocol/Trie/Nodes.antt =====
-- Changes to the child array of a node.
use vnano_msg.Common.{ℕ, zero, suc, ◌-◌, ltb, ◌==◌, if◌then◌else◌}
use vnano_msg.Protocol.Trie.{
  Tree, null, node, Children, sparse, dense, Kids, no_kid, kid, Slots, no_slot, slot,
}

unfoldable pub kids_number : Kids → ℕ
kids_number no_kid = 0
kids_number (kid x t ks) = suc (kids_number ks)

-- A new last element of the sparse arrays.
unfoldable pub add_kid : Kids → ℕ → Tree → Kids
add_kid no_kid c t = kid c t no_kid
add_kid (kid x u ks) c t = kid x u (add_kid ks c t)

-- A write through the pointer that `nn_node_next` returns.
unfoldable pub set_kid : Kids → ℕ → Tree → Kids
set_kid no_kid c t = no_kid
set_kid (kid x u ks) c t = if x == c then kid x t ks else kid x u (set_kid ks c t)

unfoldable pub set_slot : Slots → ℕ → Tree → Slots
set_slot no_slot i t = no_slot
set_slot (slot u ss) zero t = slot t ss
set_slot (slot u ss) (suc i) t = slot u (set_slot ss i t)

unfoldable pub set_child : Children → ℕ → Tree → Children
set_child (sparse ks) c t = sparse (set_kid ks c t)
set_child (dense lo hi nbr ss) c t = dense lo hi nbr (set_slot ss (c - lo) t)

-- The two `memmove`s that take a child out of the sparse arrays.
unfoldable pub remove_kid : Kids → ℕ → Kids
remove_kid no_kid c = no_kid
remove_kid (kid x t ks) c = if x == c then ks else kid x t (remove_kid ks c)

-- `n` NULL pointers before the slots, and behind them.
unfoldable pub nulls_before : ℕ → Slots → Slots
nulls_before zero ss = ss
nulls_before (suc n) ss = slot null (nulls_before n ss)

unfoldable pub nulls_after : Slots → ℕ → Slots
nulls_after no_slot n = nulls_before n no_slot
nulls_after (slot t ss) n = slot t (nulls_after ss n)

-- The range of the characters of sparse children, from a first guess on.
unfoldable pub kids_min : Kids → ℕ → ℕ
kids_min no_kid lo = lo
kids_min (kid x t ks) lo = kids_min ks (if ltb lo x then lo else x)

unfoldable pub kids_max : Kids → ℕ → ℕ
kids_max no_kid hi = hi
kids_max (kid x t ks) hi = kids_max ks (if ltb x hi then hi else x)

-- Sparse children written to the slots of a range that begins at `lo`.
unfoldable pub fill_slots : Kids → ℕ → Slots → Slots
fill_slots no_kid lo ss = ss
fill_slots (kid x t ks) lo ss = fill_slots ks lo (set_slot ss (x - lo) t)

-- The children of a range that begins at `lo`, as sparse children.
unfoldable pub slots_kids : ℕ → Slots → Kids
slots_kids lo no_slot = no_kid
slots_kids lo (slot null ss) = slots_kids (suc lo) ss
slots_kids lo (slot (node r p ch) ss) = kid lo (node r p ch) (slots_kids (suc lo) ss)
