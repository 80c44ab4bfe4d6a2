-- ===== src/Protocol/Trie/Unsubscribe.antt =====
-- `nn_trie_unsubscribe` and `nn_node_unsubscribe`.
use vnano_msg.Common.{
  ℕ, zero, suc, ◌+◌, ◌-◌, true, false, ◌&&◌, none, some, List, [], ◌∷◌, Outcome, done, abort, ◌>>=◌,
  length, drop, ltb, ◌==◌, if◌then◌else◌,
}
use vnano_msg.Protocol.Trie.{
  Tree, null, node, Children, sparse, dense, no_kid, Slots, no_slot, slot, sparse_max, check_prefix,
  node_next, compact,
}
use vnano_msg.Protocol.Trie.Nodes.{kids_number, set_child, remove_kid, slots_kids}

-- The return codes 0, 1 and -EINVAL.
pub data Removal : Type 0 where
  kept removed missing : Removal

-- The label `found`: the node of the subscription.
unfoldable pub found : Tree → Removal × Tree
found null = (missing, null)
found (node zero p ch) = (missing, node zero p ch)
found (node (suc zero) p (sparse no_kid)) = (removed, null)
found (node (suc zero) p ch) = (removed, compact (node zero p ch))
found (node (suc (suc r)) p ch) = (kept, node (suc r) p ch)

-- The leading NULL pointers of a dense array, and the array without them.
unfoldable pub trim_left : ℕ → Slots → ℕ × Slots
trim_left lo no_slot = (lo, no_slot)
trim_left lo (slot null ss) = trim_left (suc lo) ss
trim_left lo (slot (node r p ch) ss) = (lo, slot (node r p ch) ss)

-- The index of the last slot that is not NULL (0 if there is none), and the array up to it.
unfoldable pub last_index : Slots → ℕ
last_index no_slot = 0
last_index (slot t no_slot) = 0
last_index (slot t (slot u ss)) =
    let i = last_index (slot u ss) in
    if i == 0 then elim u [ null ↦ 0 | node r p ch ↦ 1 ] else suc i

unfoldable pub take_slots : ℕ → Slots → Slots
take_slots zero ss = no_slot
take_slots (suc n) no_slot = no_slot
take_slots (suc n) (slot t ss) = slot t (take_slots n ss)

-- The child at `c` was destroyed; `ch` holds NULL in its place.
unfoldable pub prune : ℕ → List ℕ → Children → ℕ → Outcome Tree
prune r p (sparse ks) c =
    let rest = remove_kid ks c in
    done (if (kids_number rest == 0) && (r == 0) then null else compact (node r p (sparse rest)))
prune r p (dense lo hi nbr ss) c =
    if ltb (sparse_max + 1) nbr
    then if c == lo
      then (let (lo', ss') = trim_left lo ss in done (node r p (dense lo' hi (nbr - 1) ss')))
      else if c == hi
      then (let i = last_index ss in
          done (node r p (dense lo (i + lo) (nbr - 1) (take_slots (suc i) ss))))
      else done (node r p (dense lo hi (nbr - 1) ss))
    else (let ks = slots_kids lo ss in
        if kids_number ks == sparse_max then done (node 0 p (sparse ks)) else abort)

-- What the node makes of the result for its child at `c`.
unfoldable pub replace : ℕ → List ℕ → Children → ℕ → Removal × Tree → Outcome (Removal × Tree)
replace r p ch c (kept, t) = done (kept, node r p (set_child ch c t))
replace r p ch c (rc, node r' p' ch') = done (removed, node r p (set_child ch c (node r' p' ch')))
replace r p ch c (rc, null) = do t ← prune r p (set_child ch c null) c; done (removed, t)

-- A NULL `*self` is dereferenced unless there is no data.
unfoldable pub unsubscribe_loop : ℕ → Tree → List ℕ → Outcome (Removal × Tree)
unsubscribe_loop zero t d = abort
unsubscribe_loop (suc fuel) t [] = done (found t)
unsubscribe_loop (suc fuel) null (x ∷ d) = abort
unsubscribe_loop (suc fuel) (node r p ch) (x ∷ d) = elim (check_prefix p (x ∷ d) == length p) [
  | false ↦ done (kept, node r p ch)
  | true ↦ elim (drop (length p) (x ∷ d)) [
    | [] ↦ done (found (node r p ch))
    | c ∷ rest ↦ elim (node_next ch c) [
      | none ↦ done (kept, node r p ch)
      | some t ↦ do a ← unsubscribe_loop fuel t rest; replace r p ch c a
    ]
  ]
]

unfoldable pub unsubscribe : Tree → List ℕ → Outcome (Removal × Tree)
unsubscribe t d = unsubscribe_loop (suc (length d)) t d
