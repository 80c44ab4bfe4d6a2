-- ===== src/Protocol/Trie/Count/Formed.antt =====
-- The loop of `nn_trie_subscribe` keeps a trie well formed.
use vnano_msg.Common.{
  ℕ, zero, suc, ◌+◌, ◌-◌, ◌%◌, ◌^◌, ◌<◌, ◌≡◌, refl, sym, ap, ◌∙◌, true, List, [], ◌∷◌, arith,
  length, length-drop, take, drop, get_or, ltb, Bool-cases, inl, inr,
}
use vnano_msg.Protocol.Trie.{
  Tree, null, node, Children, sparse, dense, no_kid, kid, prefix_max, sparse_max, check_prefix,
  kid_at, node_next, compact,
}
use vnano_msg.Protocol.Trie.Nodes.{kids_number, add_kid, set_child}
use vnano_msg.Protocol.Trie.Subscribe.{
  make_nodes, made, count_up, widen, to_dense, adjust, split, subscribe_loop, subscribe,
}
use vnano_msg.Protocol.Trie.Count.Arrays.{child, distinct_kids}
use vnano_msg.Protocol.Trie.Count.Adjust.{kid_at-absent}
use vnano_msg.Protocol.Trie.Count.Subscribed.{
  well_formed, well_formed_children, well_formed_kids, compact-IsNode, check_prefix_ends,
}
use vnano_msg.Protocol.Trie.Count.Forms.{
  well_formed_node, IsGood, kids-add_kid, node-set_child, node-widen, node-to_dense,
}
use vnano_msg.Protocol.Trie.Count.Fresh.{
  loop_split, loop_here, loop_new, loop_down, child_well_formed, or_null-some, Tree-cases,
  List-cases,
}

node-IsGood :
    (r : ℕ) (p : List ℕ) (ch : Children) → well_formed_node ch ≡ true → IsGood (node r p ch)
unfolding well_formed
node-IsGood r p ch w = (refl, w)

one_kid : (c : ℕ) (t : Tree) → IsGood t → well_formed_node (sparse (kid c t no_kid)) ≡ true
unfolding well_formed_children well_formed_kids kid_at
one_kid c t (g, g') = ground arith

make_nodes-IsGood : (n : ℕ) (d : List ℕ) → length d < n → IsGood (make_nodes n d)
unfolding make_nodes well_formed_children
make_nodes-IsGood zero d h = absurd (omega arith)
make_nodes-IsGood (suc n) d h = go (drop prefix_max d) refl (make_nodes-IsGood n)
  where
    go :
        (q : List ℕ)
        → drop prefix_max d ≡ q
        → ((d' : List ℕ) → length d' < n → IsGood (make_nodes n d'))
        → IsGood (elim q [
          | [] ↦ node 1 (take prefix_max d) (sparse no_kid)
          | c ∷ rest ↦ node 0 (take prefix_max d) (sparse (kid c (make_nodes n rest) no_kid))
        ])
    go [] e ih = node-IsGood 1 (take prefix_max d) (sparse no_kid) refl
    go (c ∷ rest) e ih =
        let l : suc (length rest) ≡ length d - prefix_max =
          ap length (sym e) ∙ length-drop prefix_max d in
        node-IsGood 0 (take prefix_max d) (sparse (kid c (make_nodes n rest) no_kid))
          (one_kid c (make_nodes n rest) (ih rest (omega arith)))

made-IsGood : (d : List ℕ) → IsGood (made d)
made-IsGood d = make_nodes-IsGood (suc (length d)) d (omega arith)

compact-well_formed : (t : Tree) → well_formed t ≡ true → well_formed (compact t) ≡ true
unfolding compact well_formed well_formed_children well_formed_kids kid_at
compact-well_formed (node zero p (sparse (kid c (node r q ch) no_kid))) w = ground arith
compact-well_formed t w = w

count_up-IsGood :
    (r : ℕ) (p : List ℕ) (ch : Children) → well_formed_node ch ≡ true → IsGood ((count_up r p ch).0)
unfolding count_up
count_up-IsGood r p ch w = node-IsGood ((r + 1) % 2 ^ 32) p ch w

adjust-IsGood :
    (r : ℕ) (p : List ℕ) (ch : Children) (c : ℕ) (rest : List ℕ)
    → well_formed_node ch ≡ true
    → child ch c ≡ null
    → IsGood ((adjust r p ch (c ∷ rest)).0)
unfolding adjust well_formed_children
adjust-IsGood r p (sparse ks) c rest w e =
    let d : distinct_kids ks ≡ true = ground arith in
    let v : well_formed_kids ks ≡ true = ground arith in
    elim (Bool-cases (ltb (kids_number ks) sparse_max)) [
      | inl room ↦ rw room (
          node-IsGood r p (sparse (add_kid ks c (made rest)))
            (kids-add_kid ks c (made rest) d v (kid_at-absent ks c d e) (made-IsGood rest)))
      | inr full ↦ rw full (
          node-IsGood 0 p (set_child (to_dense ks c) c (made rest))
            (node-to_dense ks c (made rest) v ((made-IsGood rest).1)))
    ]
adjust-IsGood r p (dense lo hi nbr ss) c rest w e =
    node-IsGood r p (set_child (widen lo hi nbr ss c) c (made rest))
      (node-widen lo hi nbr ss c (made rest) w ((made-IsGood rest).1))

split-IsGood :
    (r : ℕ) (p : List ℕ) (ch : Children) (d rest : List ℕ)
    → well_formed_node ch ≡ true
    → check_prefix p d < length p
    → drop (check_prefix p d) d ≡ rest
    → IsGood ((adjust 0 (take (check_prefix p d) p) (split r p ch (check_prefix p d)) rest).0)
unfolding adjust node_next kid_at
split-IsGood r p ch d rest w h e = go rest e
  where
    lower : Tree
    lower = node r (drop (check_prefix p d + 1) p) ch

    upper_good : well_formed_node (split r p ch (check_prefix p d)) ≡ true
    upper_good = one_kid (get_or p (check_prefix p d) 0) (compact lower) (
      compact-IsNode r (drop (check_prefix p d + 1) p) ch,
      compact-well_formed lower ((node-IsGood r (drop (check_prefix p d + 1) p) ch w).1),
    )

    go :
        (rest : List ℕ)
        → drop (check_prefix p d) d ≡ rest
        → IsGood ((adjust 0 (take (check_prefix p d) p) (split r p ch (check_prefix p d)) rest).0)
    go [] e =
        count_up-IsGood 0 (take (check_prefix p d) p) (split r p ch (check_prefix p d)) upper_good
    go (c ∷ rest) e =
        adjust-IsGood 0 (take (check_prefix p d) p) (split r p ch (check_prefix p d)) c rest
          upper_good (ground (arith, check_prefix_ends p d c rest h e))

first-IsGood : (n : ℕ) (d : List ℕ) → IsGood ((subscribe_loop (suc n) null d).0)
unfolding subscribe_loop
first-IsGood n d = made-IsGood d

subscribe_loop-IsGood :
    (n : ℕ) (t : Tree) (d : List ℕ)
    → length d < n
    → well_formed t ≡ true
    → IsGood ((subscribe_loop n t d).0)
unfolding well_formed
subscribe_loop-IsGood zero t d l w = absurd (omega arith)
subscribe_loop-IsGood (suc n) null d l w = first-IsGood n d
subscribe_loop-IsGood (suc n) (node r p ch) d l w =
    elim (Bool-cases (ltb (check_prefix p d) (length p))) [
      | inl ends ↦
          let h : check_prefix p d < length p = ground arith in
          rw (loop_split n r p ch d h) (split-IsGood r p ch d (drop (check_prefix p d) d) w h refl)
      | inr covers ↦ elim (List-cases (drop (check_prefix p d) d)) [
        | inl here ↦ rw (loop_here n r p ch d covers here) (count_up-IsGood r p ch w)
        | inr (c, after, more) ↦ elim (Tree-cases (child ch c)) [
          | inl gone ↦
              rw (loop_new n r p ch d c after covers more gone)
                (adjust-IsGood r p ch c after w gone)
          | inr (r', p', ch', there) ↦
              let t = node r' p' ch' in
              let next = or_null-some (node_next ch c) r' p' ch' there in
              let shorter : suc (length after) ≡ length d - check_prefix p d =
                ap length (sym more) ∙ length-drop (check_prefix p d) d in
              let ih =
                subscribe_loop-IsGood n t after (omega arith)
                  (child_well_formed ch c t (ground arith) next) in
              rw (loop_down n r p ch d c after r' p' ch' covers more next) (
                node-IsGood r p (set_child ch c ((subscribe_loop n t after).0))
                  (node-set_child ch c t ((subscribe_loop n t after).0) w next ih))
        ]
      ]
    ]

-- `nn_trie_subscribe` keeps a trie well formed: sparse children are nodes with distinct characters,
-- and a dense array has a slot for each character of its range.
pub subscribe-well_formed :
    (t : Tree) (d : List ℕ) → well_formed t ≡ true → well_formed ((subscribe t d).0) ≡ true
unfolding subscribe
subscribe-well_formed t d w = (subscribe_loop-IsGood (suc (length d)) t d (omega arith) w).1
