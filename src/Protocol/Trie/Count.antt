-- ===== src/Protocol/Trie/Count.antt =====
-- How often a trie is subscribed to a string: the specification of trie.c.
pub mod Match
pub mod Strings
pub mod Arrays
pub mod Writes
pub mod Adjust
pub mod Subscribed
pub mod Fresh
pub mod Forms
pub mod Formed
pub mod Matched
use vnano_msg.Common.{
  ℕ, zero, suc, ◌+◌, ◌-◌, ◌≤◌, ◌<◌, ◌≡◌, refl, sym, ap, ◌∙◌, Bool, true, false, Option, none, some,
  List, [], ◌∷◌, ◌++◌, arith, length, drop, length-drop, ◌==◌, if◌then◌else◌, Bool-cases, inl, inr,
}
use vnano_msg.Protocol.Trie.{Tree, null, node, Children, check_prefix, node_next}

-- The count in the node that the string leads to, 0 if there is no such node.
unfoldable pub count_loop : ℕ → Tree → List ℕ → ℕ
count_loop zero t s = 0
count_loop (suc fuel) null s = 0
count_loop (suc fuel) (node r p ch) s = elim (check_prefix p s == length p) [
  | false ↦ 0
  | true ↦ elim (drop (length p) s) [
    | [] ↦ r
    | c ∷ rest ↦ elim (node_next ch c) [ none ↦ 0 | some t ↦ count_loop fuel t rest ]
  ]
]

unfoldable pub count : Tree → List ℕ → ℕ
count t s = count_loop (suc (length s)) t s

-- What is left of a string behind a prefix.
abbrev pub strip : List ℕ → List ℕ → Option (List ℕ)
strip [] s = some s
strip (x ∷ p) [] = none
strip (x ∷ p) (y ∷ s) = if x == y then strip p s else none

pub check_prefix-le : (p s : List ℕ) → check_prefix p s ≤ length p
unfolding check_prefix
check_prefix-le [] s = omega arith
check_prefix-le (x ∷ p) [] = omega arith
check_prefix-le (x ∷ p) (y ∷ s) = ground (arith, check_prefix-le p s)

-- What the code tests and skips is the same.
pub strip-check_prefix :
    (p s : List ℕ)
    → strip p s ≡ (if check_prefix p s == length p then some (drop (length p) s) else none)
unfolding check_prefix
strip-check_prefix [] s = refl
strip-check_prefix (x ∷ p) [] = ground arith
strip-check_prefix (x ∷ p) (y ∷ s) = ground (arith, strip-check_prefix p s)

pub strip-shorter : (p s r : List ℕ) → strip p s ≡ some r → length p + length r ≡ length s
strip-shorter [] s r h = ground arith
strip-shorter (x ∷ p) [] r h = cc
strip-shorter (x ∷ p) (y ∷ s) r h = ground (arith, strip-shorter p s r)

pub strip-append : (p r : List ℕ) → strip p (p ++ r) ≡ some r
strip-append [] r = refl
strip-append (x ∷ p) r = ground (arith, strip-append p r)

pub append_of_strip : (p s r : List ℕ) → strip p s ≡ some r → s ≡ p ++ r
append_of_strip [] s r h = ground arith
append_of_strip (x ∷ p) [] r h = cc
append_of_strip (x ∷ p) (y ∷ s) r h = ground (arith, append_of_strip p s r)

-- The count at what is left behind the prefix of a node, from the counts of its children.
abbrev pub behind : ℕ → (ℕ → List ℕ → ℕ) → Option (List ℕ) → ℕ
behind r at none = 0
behind r at (some []) = r
behind r at (some (c ∷ rest)) = at c rest

abbrev pub count_at : (Tree → List ℕ → ℕ) → Option Tree → List ℕ → ℕ
count_at f none s = 0
count_at f (some t) s = f t s

count_loop-node :
    (n r : ℕ) (p s : List ℕ) (ch : Children)
    → count_loop (suc n) (node r p ch) s
      ≡ behind r (λ c. count_at (count_loop n) (node_next ch c)) (strip p s)
unfolding count_loop
count_loop-node n r p s ch =
    rw (strip-check_prefix p s) (go (check_prefix p s == length p) (drop (length p) s))
  where
    go :
        (b : Bool) (d : List ℕ)
        → (elim b [
          | false ↦ 0
          | true ↦ elim d [
            | [] ↦ r
            | c ∷ rest ↦ elim (node_next ch c) [ none ↦ 0 | some t ↦ count_loop n t rest ]
          ]
        ])
          ≡ behind r (λ c. count_at (count_loop n) (node_next ch c)) (if b then some d else none)
    go false d = refl
    go true [] = refl
    go true (c ∷ rest) = ground arith

behind-cong :
    (r : ℕ) (f g : ℕ → List ℕ → ℕ) (o : Option (List ℕ))
    → ((c : ℕ) (rest : List ℕ) → o ≡ some (c ∷ rest) → f c rest ≡ g c rest)
    → behind r f o ≡ behind r g o
behind-cong r f g none h = refl
behind-cong r f g (some []) h = refl
behind-cong r f g (some (c ∷ rest)) h = h c rest refl

count_at-cong :
    (f g : Tree → List ℕ → ℕ) (o : Option Tree) (s : List ℕ)
    → ((t : Tree) → f t s ≡ g t s)
    → count_at f o s ≡ count_at g o s
count_at-cong f g none s h = refl
count_at-cong f g (some t) s h = h t

-- Any fuel above the length of the string gives the same.
count_loop-fuel :
    (n m : ℕ) (t : Tree) (s : List ℕ)
    → length s < n
    → length s < m
    → count_loop n t s ≡ count_loop m t s
unfolding count_loop
count_loop-fuel zero m t s h k = absurd (omega arith)
count_loop-fuel (suc n) zero t s h k = absurd (omega arith)
count_loop-fuel (suc n) (suc m) null s h k = refl
count_loop-fuel (suc n) (suc m) (node r p ch) s h k =
    count_loop-node n r p s ch
    ∙ behind-cong r _ _ (strip p s) (λ c rest e.
      count_at-cong (count_loop n) (count_loop m) (node_next ch c) rest (λ t.
        count_loop-fuel n m t rest (omega (arith, strip-shorter p s (c ∷ rest) e))
          (omega (arith, strip-shorter p s (c ∷ rest) e))))
    ∙ sym (count_loop-node m r p s ch)

-- The count of a string at a child.
abbrev pub count_in : Children → ℕ → List ℕ → ℕ
count_in ch c rest = count_at count (node_next ch c) rest

pub count-null : (s : List ℕ) → count null s ≡ 0
unfolding count count_loop
count-null s = refl

-- The count at a node by what its prefix leaves of the string.
pub count-node :
    (r : ℕ) (p s : List ℕ) (ch : Children)
    → count (node r p ch) s ≡ behind r (count_in ch) (strip p s)
unfolding count
count-node r p s ch =
    count_loop-node (length s) r p s ch
    ∙ behind-cong r _ _ (strip p s) (λ c rest e.
      count_at-cong (count_loop (length s)) count (node_next ch c) rest (λ t.
        count_loop-fuel (length s) (suc (length rest)) t rest
          (omega (arith, strip-shorter p s (c ∷ rest) e)) (omega arith)))
