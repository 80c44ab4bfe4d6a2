-- ===== src/Protocol/Trie.antt =====
-- protocols/pubsub/trie.c: the subscriptions of a SUB socket as a patricia trie. A pointer to a node
-- is a `Tree`, and a function that changes `*node` returns the new tree. Each loop down the trie
-- takes fuel, and leaves one character of its data behind in every round.
pub mod Nodes
pub mod Subscribe
pub mod Unsubscribe
pub mod Count
mod Tests
use vnano_msg.Common.{
  ℕ, zero, suc, ◌+◌, ◌-◌, Bool, true, false, not, ◌||◌, Option, none, some, List, [], ◌∷◌, ◌++◌,
  Outcome, done, abort, length, drop, ltb, ◌==◌, if◌then◌else◌,
}

-- NN_TRIE_PREFIX_MAX and NN_TRIE_SPARSE_MAX
abbrev pub prefix_max : ℕ
prefix_max = 10

abbrev pub sparse_max : ℕ
sparse_max = 8

-- `struct nn_trie_node`: the first `prefix_len` characters of `prefix`, and the children: by the
-- characters in `sparse.children`, of which `type` tells the number, or by a range of characters.
mutual
  pub data Tree : Type 0 where
    null : Tree
    node : ℕ → List ℕ → Children → Tree

  pub data Children : Type 0 where
    sparse : Kids → Children
    dense : ℕ → ℕ → ℕ → Slots → Children

  pub data Kids : Type 0 where
    no_kid : Kids
    kid : ℕ → Tree → Kids → Kids

  pub data Slots : Type 0 where
    no_slot : Slots
    slot : Tree → Slots → Slots

-- `nn_node_check_prefix`
unfoldable pub check_prefix : List ℕ → List ℕ → ℕ
check_prefix [] d = 0
check_prefix (x ∷ p) [] = 0
check_prefix (x ∷ p) (y ∷ d) = if x == y then suc (check_prefix p d) else 0

unfoldable pub kid_at : Kids → ℕ → Option Tree
kid_at no_kid c = none
kid_at (kid x t ks) c = if x == c then some t else kid_at ks c

-- Out of the range there is no pointer; `node_next` rules it out.
unfoldable pub slot_at : Slots → ℕ → Tree
slot_at no_slot i = null
slot_at (slot t ss) zero = t
slot_at (slot t ss) (suc i) = slot_at ss i

-- `nn_node_next`: `none` is a NULL pointer to a pointer, `some null` a pointer to a NULL pointer.
unfoldable pub node_next : Children → ℕ → Option Tree
node_next (sparse ks) c = kid_at ks c
node_next (dense lo hi nbr ss) c = if ltb c lo || ltb hi c then none else some (slot_at ss (c - lo))

-- `nn_node_compact`
unfoldable pub compact : Tree → Tree
compact (node zero p (sparse (kid c (node r q ch) no_kid))) =
    if ltb prefix_max (length p + length q + 1)
    then node zero p (sparse (kid c (node r q ch) no_kid))
    else node r (p ++ c ∷ q) ch
compact t = t

-- `nn_trie_match`. The read `*data` behind the end of the data is a fault.
unfoldable pub match_loop : ℕ → Tree → List ℕ → Outcome Bool
match_loop zero t d = abort
match_loop (suc fuel) null d = done false
match_loop (suc fuel) (node r p ch) d = elim (check_prefix p d == length p) [
  | false ↦ done false
  | true ↦ elim (r == 0) [
    | false ↦ done true
    | true ↦ elim (drop (length p) d) [
      | [] ↦ abort
      | c ∷ rest ↦ elim (node_next ch c) [ none ↦ done false | some t ↦ match_loop fuel t rest ]
    ]
  ]
]

unfoldable pub trie_match : Tree → List ℕ → Outcome Bool
trie_match t d = match_loop (suc (length d)) t d

-- `nn_trie_init`
unfoldable pub trie_init : Tree
trie_init = null
