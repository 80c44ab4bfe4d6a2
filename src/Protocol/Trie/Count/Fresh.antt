-- ===== src/Protocol/Trie/Count/Fresh.antt =====
-- The loop of `nn_trie_subscribe` against the counts.
use mathlib.Core.List.{append-nil}
use vnano_msg.Common.{
  ℕ, zero, suc, ◌+◌, ◌-◌, ◌^◌, ◌<◌, ◌≡◌, refl, sym, ap, ◌∙◌, true, false, Option, none, some, List,
  [], ◌∷◌, ◌++◌, arith, length, take, drop, ltb, Bool-cases, Option-cases, inl, inr, ◌⊎◌,
}
use vnano_msg.Protocol.Trie.{
  Tree, null, node, Children, sparse, dense, Kids, no_kid, kid, Slots, no_slot, slot, check_prefix,
  kid_at, slot_at, node_next,
}
use vnano_msg.Protocol.Trie.Nodes.{set_child}
use vnano_msg.Protocol.Trie.Subscribe.{count_up, adjust, split, subscribe_loop, subscribe}
use vnano_msg.Protocol.Trie.Count.{
  count, strip, strip-check_prefix, strip-shorter, append_of_strip, check_prefix-le, count-null,
}
use vnano_msg.Protocol.Trie.Count.Match.{count-prefix}
use vnano_msg.Protocol.Trie.Count.Arrays.{or_null, child, well_formed_array}
use vnano_msg.Protocol.Trie.Count.Adjust.{count-made, drops_count}
use vnano_msg.Protocol.Trie.Count.Subscribed.{
  well_formed, well_formed_children, well_formed_kids, well_formed_slots, forgets_loop, forgets,
  IsCountedOnce, count_up_once, adjust_once, split_once, down_once, child_below,
}

-- The branches of a round.
module _ (n r : ℕ) (p : List ℕ) (ch : Children) (d : List ℕ) where
  pub loop_split :
      check_prefix p d < length p
      → subscribe_loop (suc n) (node r p ch) d
        ≡ adjust 0
            (take (check_prefix p d) p)
            (split r p ch (check_prefix p d))
            (drop (check_prefix p d) d)
  unfolding subscribe_loop
  loop_split h =
      let e : ltb (check_prefix p d) (length p) ≡ true = ground arith in rw (subscribe_loop, e) refl

  pub loop_here :
      ltb (check_prefix p d) (length p) ≡ false
      → drop (check_prefix p d) d ≡ []
      → subscribe_loop (suc n) (node r p ch) d ≡ count_up r p ch
  unfolding subscribe_loop
  loop_here e f = rw (subscribe_loop, e, f) refl

  pub loop_new :
      (c : ℕ) (after : List ℕ)
      → ltb (check_prefix p d) (length p) ≡ false
      → drop (check_prefix p d) d ≡ c ∷ after
      → child ch c ≡ null
      → subscribe_loop (suc n) (node r p ch) d ≡ adjust r p ch (c ∷ after)
  unfolding subscribe_loop
  loop_new c after e f g = elim (Option-cases (node_next ch c)) [
    | inl gone ↦ rw (subscribe_loop, e, f, gone) refl
    | inr (t, next) ↦
        let z : t ≡ null = sym (ap or_null next) ∙ g in rw (subscribe_loop, e, f, next, z) refl
  ]

  pub loop_down :
      (c : ℕ) (after : List ℕ) (r' : ℕ) (p' : List ℕ) (ch' : Children)
      → ltb (check_prefix p d) (length p) ≡ false
      → drop (check_prefix p d) d ≡ c ∷ after
      → node_next ch c ≡ some (node r' p' ch')
      → subscribe_loop (suc n) (node r p ch) d ≡ (
        node r p (set_child ch c ((subscribe_loop n (node r' p' ch') after).0)),
        (subscribe_loop n (node r' p' ch') after).1,
      )
  unfolding subscribe_loop
  loop_down c after r' p' ch' e f g = rw (subscribe_loop, e, f, g) refl

kid_well_formed :
    (ks : Kids) (c : ℕ) (t : Tree)
    → well_formed_kids ks ≡ true
    → kid_at ks c ≡ some t
    → well_formed t ≡ true
unfolding kid_at well_formed_kids
kid_well_formed no_kid c t w e = absurd (ground arith)
kid_well_formed (kid x u ks) c t w e = ground (arith, kid_well_formed ks c t)

slot_well_formed :
    (ss : Slots) (i : ℕ) → well_formed_slots ss ≡ true → well_formed (slot_at ss i) ≡ true
unfolding slot_at well_formed_slots well_formed
slot_well_formed no_slot i w = refl
slot_well_formed (slot t ss) zero w = ground arith
slot_well_formed (slot t ss) (suc i) w = slot_well_formed ss i (ground arith)

pub child_well_formed :
    (ch : Children) (c : ℕ) (t : Tree)
    → well_formed_children ch ≡ true
    → node_next ch c ≡ some t
    → well_formed t ≡ true
unfolding node_next well_formed_children
child_well_formed (sparse ks) c t w e = kid_well_formed ks c t w e
child_well_formed (dense lo hi nbr ss) c t w e = ground (arith, slot_well_formed ss (c - lo) w)

strip_rest :
    (p d : List ℕ)
    → ltb (check_prefix p d) (length p) ≡ false
    → strip p d ≡ some (drop (check_prefix p d) d)
strip_rest p d e =
    let all : check_prefix p d ≡ length p = ground (arith, check_prefix-le p d) in
    strip-check_prefix p d ∙ ground arith

pub or_null-some :
    (o : Option Tree) (r : ℕ) (p : List ℕ) (ch : Children)
    → or_null o ≡ node r p ch
    → o ≡ some (node r p ch)
or_null-some none r p ch e = absurd (ground arith)
or_null-some (some t) r p ch e = ap some e

pub Tree-cases :
    (t : Tree) → (t ≡ null) ⊎ ((r : ℕ) × (p : List ℕ) × (ch : Children) × (t ≡ node r p ch))
Tree-cases null = inl refl
Tree-cases (node r p ch) = inr (r, p, ch, refl)

pub List-cases : (l : List ℕ) → (l ≡ []) ⊎ ((c : ℕ) × (rest : List ℕ) × (l ≡ c ∷ rest))
List-cases [] = inl refl
List-cases (c ∷ rest) = inr (c, rest, refl)

forgets_new :
    (n r : ℕ) (p d : List ℕ) (ch : Children) (c : ℕ) (after : List ℕ)
    → strip p d ≡ some (c ∷ after)
    → child ch c ≡ null
    → forgets_loop (suc n) (node r p ch) d ≡ drops_count r ch
unfolding forgets_loop
forgets_new n r p d ch c after e f = rw (forgets_loop, e, f) refl

forgets_down :
    (n r : ℕ) (p d : List ℕ) (ch : Children) (c : ℕ) (after : List ℕ) (r' : ℕ) (p' : List ℕ)
    (ch' : Children)
    → strip p d ≡ some (c ∷ after)
    → child ch c ≡ node r' p' ch'
    → forgets_loop (suc n) (node r p ch) d ≡ forgets_loop n (node r' p' ch') after
unfolding forgets_loop
forgets_down n r p d ch c after r' p' ch' e f = rw (forgets_loop, e, f) refl

null_once : (n : ℕ) (d : List ℕ) → IsCountedOnce null d (subscribe_loop (suc n) null d)
unfolding subscribe_loop
null_once n d = ((λ s. omega (arith, count-made d s, count-null s)), rw (count-null d) refl)

subscribe_loop_once :
    (n : ℕ) (t : Tree) (d : List ℕ)
    → length d < n
    → well_formed t ≡ true
    → forgets_loop n t d ≡ false
    → count t d + 1 < 2 ^ 32
    → IsCountedOnce t d (subscribe_loop n t d)
unfolding well_formed
subscribe_loop_once zero t d l w k b = absurd (omega arith)
subscribe_loop_once (suc n) null d l w k b = null_once n d
subscribe_loop_once (suc n) (node r p ch) d l w k b =
    let arr : well_formed_array ch ≡ true = ground arith in
    let below : well_formed_children ch ≡ true = ground arith in
    elim (Bool-cases (ltb (check_prefix p d) (length p))) [
      | inl ends ↦
          let h : check_prefix p d < length p = ground arith in
          rw (loop_split n r p ch d h) (split_once r p ch d h)
      | inr covers ↦
          let e = strip_rest p d covers in
          elim (List-cases (drop (check_prefix p d) d)) [
            | inl here ↦
                let eq : d ≡ p ++ [] = append_of_strip p d [] (e ∙ ap some here) in
                let eq' : d ≡ p = eq ∙ append-nil p in
                let room : r + 1 < 2 ^ 32 = rw (eq', count-prefix r p ch) at b in
                rw (loop_here n r p ch d covers here, eq') (count_up_once r p ch room)
            | inr (c, after, more) ↦
                let s = e ∙ ap some more in
                let eq : d ≡ p ++ c ∷ after = append_of_strip p d (c ∷ after) s in
                elim (Tree-cases (child ch c)) [
                  | inl gone ↦
                      let kept = sym (forgets_new n r p d ch c after s gone) ∙ k in
                      rw (loop_new n r p ch d c after covers more gone, eq)
                        (adjust_once r p ch c after arr gone kept)
                  | inr (r', p', ch', there) ↦
                      let next = or_null-some (node_next ch c) r' p' ch' there in
                      let kept = sym (forgets_down n r p d ch c after r' p' ch' s there) ∙ k in
                      let room : count (node r' p' ch') after + 1 < 2 ^ 32 =
                        rw (eq, child_below r p c after ch, there) at b in
                      rw (loop_down n r p ch d c after r' p' ch' covers more next, eq)
                        (down_once r p ch c after (node r' p' ch')
                          (subscribe_loop n (node r' p' ch') after) arr next
                          (subscribe_loop_once n (node r' p' ch') after
                            (omega (arith, strip-shorter p d (c ∷ after) s))
                            (child_well_formed ch c (node r' p' ch') below next) kept room))
                ]
          ]
    ]

-- On a well-formed trie, and unless the way of the string ends at a node that loses its own
-- subscriptions, `nn_trie_subscribe` adds 1 to the count of the string, below 2 ^ 32, changes no
-- other count, and tells whether the string was new.
pub subscribe_once :
    (t : Tree) (d : List ℕ)
    → well_formed t ≡ true
    → forgets t d ≡ false
    → count t d + 1 < 2 ^ 32
    → IsCountedOnce t d (subscribe t d)
unfolding subscribe forgets
subscribe_once t d w k b = subscribe_loop_once (suc (length d)) t d (omega arith) w k b
