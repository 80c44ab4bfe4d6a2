-- ===== src/Protocol/Trie/Count/Subscribed.antt =====
-- `nn_trie_subscribe` against the counts.
use mathlib.Core.List.{append-nil}
use vnano_msg.Common.{
  ℕ, zero, suc, ◌+◌, ◌^◌, ◌<◌, ◌≡◌, refl, sym, ap, ◌∙◌, Bool, true, false, ◌&&◌, none, some, List,
  [], ◌∷◌, ◌++◌, arith, length, take, drop, get_or, ◌==◌,
}
use vnano_msg.Protocol.Trie.{
  Tree, null, node, Children, sparse, dense, Kids, no_kid, kid, Slots, no_slot, slot, check_prefix,
  kid_at, node_next, compact,
}
use vnano_msg.Protocol.Trie.Nodes.{kids_number, set_child}
use vnano_msg.Protocol.Trie.Subscribe.{count_up, adjust, split}
use vnano_msg.Protocol.Trie.Count.{count, strip, count-null}
use vnano_msg.Protocol.Trie.Count.Match.{count-prefix, count-below}
use vnano_msg.Protocol.Trie.Count.Strings.{hits, count-split}
use vnano_msg.Protocol.Trie.Count.Arrays.{or_null, child, is_null, well_formed_array}
use vnano_msg.Protocol.Trie.Count.Writes.{child-set_child}
use vnano_msg.Protocol.Trie.Count.Adjust.{
  count_in-child, count_grow, count-count_up, count-adjust, drops_count,
}

-- Every node has a well-formed array.
unfoldable mutual
  pub well_formed : Tree → Bool
  well_formed null = true
  well_formed (node r p ch) = well_formed_array ch && well_formed_children ch

  pub well_formed_children : Children → Bool
  well_formed_children (sparse ks) = well_formed_kids ks
  well_formed_children (dense lo hi nbr ss) = well_formed_slots ss

  pub well_formed_kids : Kids → Bool
  well_formed_kids no_kid = true
  well_formed_kids (kid x t ks) = well_formed t && well_formed_kids ks

  pub well_formed_slots : Slots → Bool
  well_formed_slots no_slot = true
  well_formed_slots (slot t ss) = well_formed t && well_formed_slots ss

-- Whether the way of the string ends at a node that step 3 makes forget its subscriptions.
unfoldable pub forgets_loop : ℕ → Tree → List ℕ → Bool
forgets_loop zero t d = false
forgets_loop (suc fuel) null d = false
forgets_loop (suc fuel) (node r p ch) d = elim (strip p d) [
  | none ↦ false
  | some rest ↦ elim rest [
    | [] ↦ false
    | c ∷ after ↦ elim (child ch c) [
      | null ↦ drops_count r ch
      | node r' p' ch' ↦ forgets_loop fuel (node r' p' ch') after
    ]
  ]
]

unfoldable pub forgets : Tree → List ℕ → Bool
forgets t d = forgets_loop (suc (length d)) t d

-- The result counts the string once more, and tells whether it is the first time.
abbrev pub IsCountedOnce : Tree → List ℕ → Tree × Bool → Type 0
IsCountedOnce t d result =
    ((s : List ℕ) → count (result.0) s ≡ count t s + hits d s) × (result.1 ≡ (count t d == 0))

pub count_up_once :
    (r : ℕ) (p : List ℕ) (ch : Children)
    → r + 1 < 2 ^ 32
    → IsCountedOnce (node r p ch) p (count_up r p ch)
unfolding count_up
count_up_once r p ch h = ((λ s. count-count_up r p s ch h), fresh)
  where
    fresh : (count_up r p ch).1 ≡ (count (node r p ch) p == 0)
    fresh = rw (count-prefix r p ch) (ground arith)

pub child_below :
    (r : ℕ) (p : List ℕ) (c : ℕ) (s : List ℕ) (ch : Children)
    → count (node r p ch) (p ++ c ∷ s) ≡ count (child ch c) s
child_below r p c s ch = count-below r p c s ch ∙ count_in-child ch c s

pub adjust_once :
    (r : ℕ) (p : List ℕ) (ch : Children) (c : ℕ) (rest : List ℕ)
    → well_formed_array ch ≡ true
    → child ch c ≡ null
    → drops_count r ch ≡ false
    → IsCountedOnce (node r p ch) (p ++ c ∷ rest) (adjust r p ch (c ∷ rest))
unfolding adjust
adjust_once r p ch c rest w e k = (
  (λ s. count-adjust r p ch c rest s w e k),
  fresh ch
      ∙ rw (child_below r p c rest ch ∙ ap (λ (u : Tree). count u rest) e ∙ count-null rest) refl,
)
  where
    fresh : (ch : Children) → (adjust r p ch (c ∷ rest)).1 ≡ true
    fresh (sparse ks) = ground arith
    fresh (dense lo hi nbr ss) = refl

take-check_prefix : (p d : List ℕ) → take (check_prefix p d) p ++ drop (check_prefix p d) d ≡ d
unfolding check_prefix
take-check_prefix [] d = refl
take-check_prefix (x ∷ p) [] = refl
take-check_prefix (x ∷ p) (y ∷ d) = ground (arith, take-check_prefix p d)

-- Behind the part of a prefix that matches, the string goes on otherwise.
pub check_prefix_ends :
    (p d : List ℕ) (c : ℕ) (rest : List ℕ)
    → check_prefix p d < length p
    → drop (check_prefix p d) d ≡ c ∷ rest
    → (get_or p (check_prefix p d) 0 == c) ≡ false
unfolding check_prefix
check_prefix_ends [] d c rest h e = absurd (omega arith)
check_prefix_ends (x ∷ p) [] c rest h e = absurd (ground arith)
check_prefix_ends (x ∷ p) (y ∷ d) c rest h e = ground (arith, check_prefix_ends p d c rest)

transfer :
    (t t' : Tree) (d d' : List ℕ) (result : Tree × Bool)
    → ((s : List ℕ) → count t s ≡ count t' s)
    → d ≡ d'
    → IsCountedOnce t d result
    → IsCountedOnce t' d' result
transfer t t' d d' result same e (counted, fresh) =
    ((λ s. counted s ∙ rw (same s, e) refl), fresh ∙ rw (same d, e) refl)

pub compact-IsNode : (r : ℕ) (p : List ℕ) (ch : Children) → is_null (compact (node r p ch)) ≡ false
unfolding compact
compact-IsNode zero p (sparse (kid c (node r q ch) no_kid)) = ground arith
compact-IsNode r p ch = ground arith

-- Step 2 and what follows it.
module _ (r : ℕ) (p : List ℕ) (ch : Children) (d : List ℕ)
    (ends : check_prefix p d < length p) where
  abbrev pub upper : Children
  upper = split r p ch (check_prefix p d)

  split_rest :
      (rest : List ℕ)
      → drop (check_prefix p d) d ≡ rest
      → IsCountedOnce
          (node 0 (take (check_prefix p d) p) upper)
          (take (check_prefix p d) p ++ rest)
          (adjust 0 (take (check_prefix p d) p) upper rest)
  unfolding adjust node_next kid_at kids_number
  split_rest [] e =
      transfer _ _ _ _ _ (λ s. refl) (sym (append-nil (take (check_prefix p d) p)))
        (count_up_once 0 (take (check_prefix p d) p) upper (omega arith))
  split_rest (c ∷ rest) e =
      adjust_once 0 (take (check_prefix p d) p) upper c rest
        (ground (arith, compact-IsNode r (drop (check_prefix p d + 1) p) ch))
        (ground (arith, check_prefix_ends p d c rest ends e)) refl

  pub split_once :
      IsCountedOnce
        (node r p ch)
        d
        (adjust 0 (take (check_prefix p d) p) upper (drop (check_prefix p d) d))
  split_once =
      transfer _ _ _ _ _ (λ s. count-split r p ch (check_prefix p d) s ends) (take-check_prefix p d)
        (split_rest (drop (check_prefix p d) d) refl)

-- A step of the way down.
pub down_once :
    (r : ℕ) (p : List ℕ) (ch : Children) (c : ℕ) (after : List ℕ) (t : Tree) (result : Tree × Bool)
    → well_formed_array ch ≡ true
    → node_next ch c ≡ some t
    → IsCountedOnce t after result
    → IsCountedOnce (node r p ch) (p ++ c ∷ after) (node r p (set_child ch c (result.0)), result.1)
down_once r p ch c after t result w e (counted, fresh) =
    let here : child ch c ≡ t = ap or_null e in
    (
      (λ s.
          count_grow c after (result.0) ch (set_child ch c (result.0))
            (λ x. child-set_child ch c t (result.0) x w e) (λ s'. rw here (counted s')) r p s),
      fresh ∙ rw (child_below r p c after ch, here) refl,
    )
