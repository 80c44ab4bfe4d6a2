-- ===== src/Protocol/Trie/Count/Strings.antt =====
-- Counts along a path of nodes: splitting and joining prefixes, and the nodes of one string.
use vnano_msg.Common.{
  ℕ, zero, suc, ◌+◌, ◌<◌, ◌≡◌, refl, sym, ap, ◌∙◌, Option, none, some, List, [], ◌∷◌, ◌++◌, arith,
  length, take, drop, get_or, ◌==◌, ltb, if◌then◌else◌, Bool-cases, inl, inr,
}
use vnano_msg.Protocol.Trie.{
  Tree, node, Children, sparse, kid, no_kid, prefix_max, kid_at, node_next, compact,
}
use vnano_msg.Protocol.Trie.Subscribe.{split}
use vnano_msg.Protocol.Trie.Count.{count, strip, behind, count_in, count-node}

-- 1 at the string itself, and 0 elsewhere.
abbrev pub hits : List ℕ → List ℕ → ℕ
hits [] [] = 1
hits [] (y ∷ s) = 0
hits (x ∷ d) [] = 0
hits (x ∷ d) (y ∷ s) = if x == y then hits d s else 0

abbrev pub hits_behind : List ℕ → Option (List ℕ) → ℕ
hits_behind q none = 0
hits_behind q (some s) = hits q s

pub hits-append : (p q s : List ℕ) → hits (p ++ q) s ≡ hits_behind q (strip p s)
hits-append [] q s = refl
hits-append (x ∷ p) q [] = refl
hits-append (x ∷ p) q (y ∷ s) = ground (arith, hits-append p q s)

-- A node over a longer prefix counts as two nodes.
pub behind-append :
    (r : ℕ) (f : ℕ → List ℕ → ℕ) (p : List ℕ) (c : ℕ) (q s : List ℕ)
    → behind r f (strip (p ++ c ∷ q) s)
      ≡ behind 0 (λ x rest. if c == x then behind r f (strip q rest) else 0) (strip p s)
behind-append r f [] c q [] = refl
behind-append r f [] c q (y ∷ s) = ground arith
behind-append r f (x ∷ p) c q [] = refl
behind-append r f (x ∷ p) c q (y ∷ s) = ground (arith, behind-append r f p c q s)

-- The count of a node with one child.
pub count-one_kid :
    (r : ℕ) (p : List ℕ) (c : ℕ) (t : Tree) (s : List ℕ)
    → count (node r p (sparse (kid c t no_kid))) s
      ≡ behind r (λ x rest. if c == x then count t rest else 0) (strip p s)
unfolding node_next kid_at
count-one_kid r p c t s = count-node r p s _ ∙ go (strip p s)
  where
    go :
        (o : Option (List ℕ))
        → behind r (count_in (sparse (kid c t no_kid))) o
          ≡ behind r (λ x rest. if c == x then count t rest else 0) o
    go none = refl
    go (some []) = refl
    go (some (x ∷ rest)) = ground arith

pub count-join :
    (p : List ℕ) (c r : ℕ) (q : List ℕ) (ch : Children) (s : List ℕ)
    → count (node 0 p (sparse (kid c (node r q ch) no_kid))) s ≡ count (node r (p ++ c ∷ q) ch) s
count-join p c r q ch s =
    count-one_kid 0 p c (node r q ch) s
    ∙ go (strip p s)
    ∙ sym (behind-append r (count_in ch) p c q s)
    ∙ sym (count-node r (p ++ c ∷ q) s ch)
  where
    go :
        (o : Option (List ℕ))
        → behind 0 (λ x rest. if c == x then count (node r q ch) rest else 0) o
          ≡ behind 0 (λ x rest. if c == x then behind r (count_in ch) (strip q rest) else 0) o
    go none = refl
    go (some []) = refl
    go (some (x ∷ rest)) = rw (count-node r q rest ch)

-- Merging a node with its only child changes no count.
pub count-compact : (t : Tree) (s : List ℕ) → count (compact t) s ≡ count t s
unfolding compact
count-compact (node zero p (sparse (kid c (node r q ch) no_kid))) s =
    elim (Bool-cases (ltb prefix_max (length p + length q + 1))) [
      | inl long ↦ rw long
      | inr short ↦ rw short (sym (count-join p c r q ch s))
    ]
count-compact t s = refl

split_at : (p : List ℕ) (i : ℕ) → i < length p → take i p ++ get_or p i 0 ∷ drop (i + 1) p ≡ p
split_at [] i h = absurd (omega arith)
split_at (x ∷ p) zero h = refl
split_at (x ∷ p) (suc i) h =
    let e : suc i + 1 ≡ suc (i + 1) = omega arith in
    rw e (ap (λ (l : List ℕ). x ∷ l) (split_at p i (omega arith)))

-- So does splitting a node in two.
pub count-split :
    (r : ℕ) (p : List ℕ) (ch : Children) (i : ℕ) (s : List ℕ)
    → i < length p
    → count (node 0 (take i p) (split r p ch i)) s ≡ count (node r p ch) s
count-split r p ch i s h =
    count-one_kid 0 (take i p) (get_or p i 0) (compact (node r (drop (i + 1) p) ch)) s
    ∙ go (strip (take i p) s)
    ∙ sym (count-one_kid 0 (take i p) (get_or p i 0) (node r (drop (i + 1) p) ch) s)
    ∙ count-join (take i p) (get_or p i 0) r (drop (i + 1) p) ch s
    ∙ ap (λ (l : List ℕ). count (node r l ch) s) (split_at p i h)
  where
    go :
        (o : Option (List ℕ))
        → behind 0
            (λ x rest.
              if get_or p i 0 == x then count (compact (node r (drop (i + 1) p) ch)) rest else 0)
            o
          ≡ behind 0
              (λ x rest. if get_or p i 0 == x then count (node r (drop (i + 1) p) ch) rest else 0)
              o
    go none = refl
    go (some []) = refl
    go (some (x ∷ rest)) = rw (count-compact (node r (drop (i + 1) p) ch) rest)
