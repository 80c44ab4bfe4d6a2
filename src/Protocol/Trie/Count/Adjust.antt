-- ===== src/Protocol/Trie/Count/Adjust.antt =====
-- Steps 3 to 5 of `nn_trie_subscribe` against the counts.
use mathlib.Core.List.{append-nil}
use vnano_msg.Common.{
  ℕ, zero, suc, ◌+◌, ◌-◌, ◌%◌, ◌^◌, ◌<◌, ◌≡◌, refl, sym, ap, ◌∙◌, Bool, true, false, ◌&&◌, not,
  Option, none, some, List, [], ◌∷◌, ◌++◌, arith, length, length-drop, take, drop, take-append-drop,
  ◌==◌, ltb, if◌then◌else◌, Bool-cases, inl, inr,
}
use vnano_msg.Protocol.Trie.{
  Tree, null, node, Children, sparse, dense, Kids, no_kid, kid, prefix_max, sparse_max, kid_at,
  node_next,
}
use vnano_msg.Protocol.Trie.Nodes.{kids_number, add_kid, set_child}
use vnano_msg.Protocol.Trie.Subscribe.{make_nodes, made, count_up, widen, to_dense, adjust}
use vnano_msg.Protocol.Trie.Count.{count, strip, behind, count_at, count_in, count-null, count-node}
use vnano_msg.Protocol.Trie.Count.Strings.{hits, hits_behind, hits-append, count-one_kid}
use vnano_msg.Protocol.Trie.Count.Arrays.{or_null, child, distinct_kids, well_formed_array}
use vnano_msg.Protocol.Trie.Count.Writes.{child-add_kid, child-widen, child-to_dense}

pub count_in-child : (ch : Children) (c : ℕ) (s : List ℕ) → count_in ch c s ≡ count (child ch c) s
count_in-child ch c s = go (node_next ch c)
  where
    go : (o : Option Tree) → count_at count o s ≡ count (or_null o) s
    go none = sym (count-null s)
    go (some t) = refl

-- The count at a node from its children, a missing one being NULL.
pub count-children :
    (r : ℕ) (p s : List ℕ) (ch : Children)
    → count (node r p ch) s ≡ behind r (λ c. count (child ch c)) (strip p s)
count-children r p s ch = count-node r p s ch ∙ go (strip p s)
  where
    go : (o : Option (List ℕ)) → behind r (count_in ch) o ≡ behind r (λ c. count (child ch c)) o
    go none = refl
    go (some []) = refl
    go (some (c ∷ rest)) = count_in-child ch c rest

behind_leaf : (o : Option (List ℕ)) → behind 1 (count_in (sparse no_kid)) o ≡ hits_behind [] o
unfolding node_next kid_at
behind_leaf none = refl
behind_leaf (some []) = refl
behind_leaf (some (x ∷ s)) = refl

behind_chain :
    (c : ℕ) (rest : List ℕ) (t : Tree)
    → ((s : List ℕ) → count t s ≡ hits rest s)
    → (o : Option (List ℕ))
    → behind 0 (λ x s. if c == x then count t s else 0) o ≡ hits_behind (c ∷ rest) o
behind_chain c rest t h none = refl
behind_chain c rest t h (some []) = refl
behind_chain c rest t h (some (x ∷ s)) = ground (arith, h s)

-- The nodes of one string count that string once.
count-make_nodes : (n : ℕ) (d s : List ℕ) → length d < n → count (make_nodes n d) s ≡ hits d s
unfolding make_nodes
count-make_nodes zero d s h = absurd (omega arith)
count-make_nodes (suc n) d s h =
    go (drop prefix_max d) refl (count-make_nodes n)
    ∙ sym (hits-append (take prefix_max d) (drop prefix_max d) s)
    ∙ ap (λ (l : List ℕ). hits l s) (take-append-drop prefix_max d)
  where
    go :
        (q : List ℕ)
        → drop prefix_max d ≡ q
        → ((d' s' : List ℕ) → length d' < n → count (make_nodes n d') s' ≡ hits d' s')
        → count
            (elim q [
              | [] ↦ node 1 (take prefix_max d) (sparse no_kid)
              | c ∷ rest ↦ node 0 (take prefix_max d) (sparse (kid c (make_nodes n rest) no_kid))
            ])
            s
          ≡ hits_behind q (strip (take prefix_max d) s)
    go [] e ih =
        count-node 1 (take prefix_max d) s (sparse no_kid)
        ∙ behind_leaf (strip (take prefix_max d) s)
    go (c ∷ rest) e ih =
        let l : suc (length rest) ≡ length d - prefix_max =
          ap length (sym e) ∙ length-drop prefix_max d in
        count-one_kid 0 (take prefix_max d) c (make_nodes n rest) s
        ∙ behind_chain c rest (make_nodes n rest) (λ s'. ih rest s' (omega arith))
            (strip (take prefix_max d) s)

pub count-made : (d s : List ℕ) → count (made d) s ≡ hits d s
count-made d s = count-make_nodes (suc (length d)) d s (omega arith)

-- The count after one child became another, which counts one more string.
module _ (c : ℕ) (rest : List ℕ) (t : Tree) (ch ch' : Children)
    (writes : (x : ℕ) → child ch' x ≡ (if c == x then t else child ch x))
    (grows : (s : List ℕ) → count t s ≡ count (child ch c) s + hits rest s) where
  behind_grow :
      (r : ℕ) (o : Option (List ℕ))
      → behind r (λ x. count (child ch' x)) o
        ≡ behind r (λ x. count (child ch x)) o + hits_behind (c ∷ rest) o
  behind_grow r none = refl
  behind_grow r (some []) = omega arith
  behind_grow r (some (x ∷ s)) = elim (Bool-cases (c == x)) [
    | inl same ↦ let e : c ≡ x = ground arith in rw (writes x, same) (grows s ∙ rw e refl)
    | inr other ↦ rw (writes x, other) (omega arith)
  ]

  pub count_grow :
      (r : ℕ) (p s : List ℕ)
      → count (node r p ch') s ≡ count (node r p ch) s + hits (p ++ c ∷ rest) s
  count_grow r p s =
      count-children r p s ch'
      ∙ behind_grow r (strip p s)
      ∙ sym (ap (λ k. k + hits_behind (c ∷ rest) (strip p s)) (count-children r p s ch))
      ∙ ap (λ k. count (node r p ch) s + k) (sym (hits-append p (c ∷ rest) s))

behind_suc :
    (r : ℕ) (f : ℕ → List ℕ → ℕ) (o : Option (List ℕ))
    → behind (r + 1) f o ≡ behind r f o + hits_behind [] o
behind_suc r f none = refl
behind_suc r f (some []) = refl
behind_suc r f (some (x ∷ s)) = omega arith

-- Step 5 counts the string of the node once more.
pub count-count_up :
    (r : ℕ) (p s : List ℕ) (ch : Children)
    → r + 1 < 2 ^ 32
    → count ((count_up r p ch).0) s ≡ count (node r p ch) s + hits p s
unfolding count_up
count-count_up r p s ch h =
    let w : (r + 1) % 2 ^ 32 ≡ r + 1 = omega arith in
    rw w (
      count-node (r + 1) p s ch
      ∙ behind_suc r (count_in ch) (strip p s)
      ∙ sym (ap (λ k. k + hits_behind [] (strip p s)) (count-node r p s ch))
      ∙ ap (λ k. count (node r p ch) s + k)
          (sym (hits-append p [] s) ∙ ap (λ (l : List ℕ). hits l s) (append-nil p)))

-- Whether step 3 makes a dense array of a node with subscriptions of its own.
abbrev pub drops_count : ℕ → Children → Bool
drops_count r (sparse ks) = not (ltb (kids_number ks) sparse_max) && not (r == 0)
drops_count r (dense lo hi nbr ss) = false

made_grows :
    (ch : Children) (c : ℕ) (rest : List ℕ)
    → child ch c ≡ null
    → (s : List ℕ) → count (made rest) s ≡ count (child ch c) s + hits rest s
made_grows ch c rest e s =
    let none_yet : count (child ch c) s ≡ 0 = ap (λ (u : Tree). count u s) e ∙ count-null s in
    omega (arith, count-made rest s)

pub kid_at-absent :
    (ks : Kids) (c : ℕ) → distinct_kids ks ≡ true → child (sparse ks) c ≡ null → kid_at ks c ≡ none
unfolding node_next kid_at
kid_at-absent no_kid c w e = refl
kid_at-absent (kid x null ks) c w e = absurd (ground arith)
kid_at-absent (kid x (node r p ch) ks) c w e = elim (Bool-cases (x == c)) [
  | inl same ↦ absurd (ground arith)
  | inr other ↦ rw other (kid_at-absent ks c (ground arith) (rw other at e))
]

-- Steps 3 and 4 count the new string once, unless they lose the subscriptions of the node.
pub count-adjust :
    (r : ℕ) (p : List ℕ) (ch : Children) (c : ℕ) (rest s : List ℕ)
    → well_formed_array ch ≡ true
    → child ch c ≡ null
    → drops_count r ch ≡ false
    → count ((adjust r p ch (c ∷ rest)).0) s ≡ count (node r p ch) s + hits (p ++ c ∷ rest) s
unfolding adjust
count-adjust r p (sparse ks) c rest s w e k = elim (Bool-cases (ltb (kids_number ks) sparse_max)) [
  | inl room ↦ rw room (
      count_grow c rest (made rest) (sparse ks) (sparse (add_kid ks c (made rest)))
        (λ x. child-add_kid ks c (made rest) x (kid_at-absent ks c w e))
        (made_grows (sparse ks) c rest e) r p s)
  | inr full ↦
      let z : r ≡ 0 = ground arith in
      rw (full, z)
        (count_grow c rest (made rest) (sparse ks) (set_child (to_dense ks c) c (made rest))
          (λ x. child-to_dense ks c (made rest) x w) (made_grows (sparse ks) c rest e) 0 p s)
]
count-adjust r p (dense lo hi nbr ss) c rest s w e k =
    count_grow c rest (made rest) (dense lo hi nbr ss)
      (set_child (widen lo hi nbr ss c) c (made rest))
      (λ x. child-widen lo hi nbr ss c (made rest) x w) (made_grows (dense lo hi nbr ss) c rest e) r
      p s
