-- ===== src/Protocol/Trie/Subscribe.antt =====
-- `nn_trie_subscribe`.
use vnano_msg.Common.{
  ℕ, zero, suc, ◌+◌, ◌-◌, ◌%◌, ◌^◌, Bool, true, false, none, some, List, [], ◌∷◌, length, take,
  drop, get_or, ltb, ◌==◌, if◌then◌else◌,
}
use vnano_msg.Protocol.Trie.{
  Tree, null, node, Children, sparse, dense, Kids, no_kid, kid, Slots, no_slot, prefix_max,
  sparse_max, check_prefix, node_next, compact,
}
use vnano_msg.Protocol.Trie.Nodes.{
  kids_number, add_kid, set_child, nulls_before, nulls_after, kids_min, kids_max, fill_slots,
}

-- Step 4: the nodes for the rest of a subscription. The last of them gets its count in step 5.
unfoldable pub make_nodes : ℕ → List ℕ → Tree
make_nodes zero d = null
make_nodes (suc fuel) d = elim (drop prefix_max d) [
  | [] ↦ node 1 (take prefix_max d) (sparse no_kid)
  | c ∷ rest ↦ node 0 (take prefix_max d) (sparse (kid c (make_nodes fuel rest) no_kid))
]

-- The nodes for all that is left; a round takes a character off it.
abbrev pub made : List ℕ → Tree
made d = make_nodes (suc (length d)) d

-- Step 5: `++refcount`, and whether it became 1.
unfoldable pub count_up : ℕ → List ℕ → Children → Tree × Bool
count_up r p ch = let r' = (r + 1) % 2 ^ 32 in (node r' p ch, r' == 1)

-- Step 3 on a dense array: a wider range if the character is out of it.
unfoldable pub widen : ℕ → ℕ → ℕ → Slots → ℕ → Children
widen lo hi nbr ss c =
    if ltb c lo
    then dense c hi (nbr + 1) (nulls_before (lo - c) ss)
    else if ltb hi c
    then dense lo c (nbr + 1) (nulls_after ss (c - hi))
    else dense lo hi (nbr + 1) ss

-- Step 3 on a full sparse array: the dense array of its children, with room for the character.
unfoldable pub to_dense : Kids → ℕ → Children
to_dense ks c =
    let lo0 = kids_min ks 255 in
    let hi0 = kids_max ks 0 in
    let lo = if ltb lo0 c then lo0 else c in
    let hi = if ltb c hi0 then hi0 else c in
    dense lo hi (kids_number ks + 1) (fill_slots ks lo (nulls_before (hi - lo + 1) no_slot))

-- Steps 3 to 5. The node that replaces a full sparse one starts with `refcount` 0.
unfoldable pub adjust : ℕ → List ℕ → Children → List ℕ → Tree × Bool
adjust r p ch [] = count_up r p ch
adjust r p (sparse ks) (c ∷ rest) =
    if ltb (kids_number ks) sparse_max
    then (node r p (sparse (add_kid ks c (made rest))), true)
    else (node 0 p (set_child (to_dense ks c) c (made rest)), true)
adjust r p (dense lo hi nbr ss) (c ∷ rest) =
    (node r p (set_child (widen lo hi nbr ss c) c (made rest)), true)

-- Step 2: a node for the part of the prefix that matches, above the rest of the old node.
abbrev pub split : ℕ → List ℕ → Children → ℕ → Children
split r p ch pos = sparse (kid (get_or p pos 0) (compact (node r (drop (pos + 1) p) ch)) no_kid)

-- Step 1 takes the way down; the result says whether the subscription is a fresh one.
unfoldable pub subscribe_loop : ℕ → Tree → List ℕ → Tree × Bool
subscribe_loop zero t d = (t, false)
subscribe_loop (suc fuel) null d = (made d, true)
subscribe_loop (suc fuel) (node r p ch) d =
    let pos = check_prefix p d in
    let rest = drop pos d in
    elim (ltb pos (length p)) [
      | true ↦ adjust 0 (take pos p) (split r p ch pos) rest
      | false ↦ elim rest [
        | [] ↦ count_up r p ch
        | c ∷ after ↦ elim (node_next ch c) [
          | none ↦ adjust r p ch (c ∷ after)
          | some t ↦ elim t [
            | null ↦ adjust r p ch (c ∷ after)
            | node r' p' ch' ↦
                let (t', fresh) = subscribe_loop fuel (node r' p' ch') after in
                (node r p (set_child ch c t'), fresh)
          ]
        ]
      ]
    ]

unfoldable pub subscribe : Tree → List ℕ → Tree × Bool
subscribe t d = subscribe_loop (suc (length d)) t d
