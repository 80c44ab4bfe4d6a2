-- ===== src/Protocol/Trie/Tests.antt =====
-- The theorems about trie.c at concrete inputs, and runs of its functions.
use vnano_msg.Common.{
  ℕ, ◌≡◌, refl, ◌↔◌, true, false, List, [], ◌∷◌, done, abort, Option, some, none, arith, ◌⊎◌,
  Outcome,
}
use vnano_msg.Protocol.Trie.{
  Tree, null, node, sparse, no_kid, trie_match, match_loop, check_prefix, node_next, kid_at,
  slot_at, compact,
}
use vnano_msg.Protocol.Trie.Nodes.{
  kids_number, add_kid, set_child, kids_min, kids_max, set_slot, fill_slots, nulls_before, set_kid,
  remove_kid,
}
use vnano_msg.Protocol.Trie.Subscribe.{
  subscribe, subscribe_loop, adjust, count_up, make_nodes, to_dense, widen,
}
use vnano_msg.Protocol.Trie.Unsubscribe.{
  unsubscribe, unsubscribe_loop, found, replace, prune, Removal,
}
use vnano_msg.Protocol.Trie.Count.{count, count_loop}
use vnano_msg.Protocol.Trie.Count.Match.{IsSubscribed, match-IsSubscribed}
use vnano_msg.Protocol.Trie.Count.Subscribed.{well_formed, forgets, forgets_loop, IsCountedOnce}
use vnano_msg.Protocol.Trie.Count.Fresh.{subscribe_once}
use vnano_msg.Protocol.Trie.Count.Formed.{subscribe-well_formed}
use vnano_msg.Protocol.Trie.Count.Matched.{BeginsWith, match-subscribe}

-- Subscribed to "ab", and asked for "ac".
abbrev ab : Tree
ab = node 1 (97 ∷ 98 ∷ []) (sparse no_kid)

abbrev ac : List ℕ
ac = 97 ∷ 99 ∷ []

ab-well_formed : well_formed ab ≡ true
unfolding well_formed
ab-well_formed = refl

ab-forgets : forgets ab ac ≡ false
unfolding forgets forgets_loop
ab-forgets = refl

ac-count : count ab ac ≡ 0
unfolding count count_loop check_prefix
ac-count = refl

match-IsSubscribed_example :
    (trie_match ab (97 ∷ 98 ∷ 5 ∷ []) ≡ done true) ↔ IsSubscribed ab (97 ∷ 98 ∷ 5 ∷ [])
match-IsSubscribed_example = match-IsSubscribed ab (97 ∷ 98 ∷ 5 ∷ [])

subscribe_once_example : IsCountedOnce ab ac (subscribe ab ac)
subscribe_once_example = subscribe_once ab ac ab-well_formed ab-forgets (omega (arith, ac-count))

subscribe-well_formed_example : well_formed ((subscribe ab ac).0) ≡ true
subscribe-well_formed_example = subscribe-well_formed ab ac ab-well_formed

match-subscribe_example :
    (trie_match ((subscribe ab ac).0) (97 ∷ 99 ∷ 5 ∷ []) ≡ done true)
    ↔ ((trie_match ab (97 ∷ 99 ∷ 5 ∷ []) ≡ done true) ⊎ BeginsWith ac (97 ∷ 99 ∷ 5 ∷ []))
match-subscribe_example =
    match-subscribe ab ac (97 ∷ 99 ∷ 5 ∷ []) ab-well_formed ab-forgets (omega (arith, ac-count))

abbrev subscribe_all : Tree → List (List ℕ) → Tree
subscribe_all t [] = t
subscribe_all t (s ∷ ss) = subscribe_all ((subscribe t s).0) ss

-- After "a", and then "a1" to "a9", the subscription to "a" is lost.
abbrev nine : Tree
nine = subscribe_all null (
    (97 ∷ [])
    ∷ (97 ∷ 1 ∷ [])
    ∷ (97 ∷ 2 ∷ [])
    ∷ (97 ∷ 3 ∷ [])
    ∷ (97 ∷ 4 ∷ [])
    ∷ (97 ∷ 5 ∷ [])
    ∷ (97 ∷ 6 ∷ [])
    ∷ (97 ∷ 7 ∷ [])
    ∷ (97 ∷ 8 ∷ [])
    ∷ (97 ∷ 9 ∷ [])
    ∷ [])

nine_run : count nine (97 ∷ []) ≡ 0
unfolding count count_loop subscribe subscribe_loop adjust count_up check_prefix node_next kid_at
    kids_number compact make_nodes add_kid set_child to_dense kids_min kids_max slot_at set_slot
    fill_slots nulls_before set_kid widen
nine_run = refl

nine_run_other : trie_match nine (97 ∷ 9 ∷ 5 ∷ []) ≡ done true
unfolding trie_match match_loop subscribe subscribe_loop adjust count_up check_prefix node_next
    kid_at kids_number compact make_nodes add_kid set_child to_dense kids_min kids_max slot_at
    set_slot fill_slots nulls_before set_kid widen
nine_run_other = refl

-- With "ab" and "ac", the data "a" is read behind its end.
short_run : trie_match ((subscribe ab ac).0) (97 ∷ []) ≡ abort
unfolding trie_match match_loop subscribe subscribe_loop adjust count_up check_prefix node_next
    kid_at kids_number compact
short_run = refl

-- Without "ab" itself, "abc" and "ax" are: taking "ab" away removes "abc".
abbrev two : Tree
two = subscribe_all null ((97 ∷ 98 ∷ 99 ∷ []) ∷ (97 ∷ 120 ∷ []) ∷ [])

abbrev count_after : List ℕ → Outcome (Removal × Tree) → Option ℕ
count_after s (done a) = some (count (a.1) s)
count_after s abort = none

prefix_run : count_after (97 ∷ 98 ∷ 99 ∷ []) (unsubscribe two (97 ∷ 98 ∷ [])) ≡ some 0
unfolding count count_loop unsubscribe unsubscribe_loop found replace prune remove_kid subscribe
    subscribe_loop adjust count_up check_prefix node_next kid_at kids_number compact make_nodes
    add_kid set_child to_dense kids_min kids_max slot_at set_slot fill_slots nulls_before set_kid
    widen
prefix_run = refl
