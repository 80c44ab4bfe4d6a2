-- ===== src/Protocol/Trie/Count/Matched.antt =====
-- What `nn_trie_subscribe` changes for `nn_trie_match`.
use vnano_msg.Common.{
  ℕ, ◌+◌, ◌^◌, ◌<◌, ◌≡◌, refl, ap, ◌∙◌, ◌↔◌, true, false, List, [], ◌∷◌, ◌++◌, arith, ◌==◌,
  Bool-cases, inl, inr, ◌⊎◌, done,
}
use vnano_msg.Protocol.Trie.{Tree, trie_match}
use vnano_msg.Protocol.Trie.Subscribe.{subscribe}
use vnano_msg.Protocol.Trie.Count.{count}
use vnano_msg.Protocol.Trie.Count.Match.{IsSubscribed, match-IsSubscribed}
use vnano_msg.Protocol.Trie.Count.Strings.{hits}
use vnano_msg.Protocol.Trie.Count.Subscribed.{well_formed, forgets}
use vnano_msg.Protocol.Trie.Count.Fresh.{subscribe_once}

eq_of_hits : (d s : List ℕ) → 0 < hits d s → s ≡ d
eq_of_hits [] [] h = refl
eq_of_hits [] (y ∷ s) h = absurd (omega arith)
eq_of_hits (x ∷ d) [] h = absurd (omega arith)
eq_of_hits (x ∷ d) (y ∷ s) h = ground (arith, eq_of_hits d s)

hits_self : (d : List ℕ) → hits d d ≡ 1
hits_self [] = refl
hits_self (x ∷ d) = ground (arith, hits_self d)

-- The data begins with the string.
abbrev pub BeginsWith : List ℕ → List ℕ → Type 0
BeginsWith d x = (rest : List ℕ) × (x ≡ d ++ rest)

module _ (t : Tree) (d x : List ℕ) (w : well_formed t ≡ true) (k : forgets t d ≡ false)
    (b : count t d + 1 < 2 ^ 32) where
  counted : (s : List ℕ) → count ((subscribe t d).0) s ≡ count t s + hits d s
  counted = (subscribe_once t d w k b).0

  before : IsSubscribed ((subscribe t d).0) x → (trie_match t x ≡ done true) ⊎ BeginsWith d x
  before (s, rest, e, pos) = elim (Bool-cases (count t s == 0)) [
    | inr old ↦ inl ((match-IsSubscribed t x).1 (s, rest, e, ground arith))
    | inl new ↦
        let same = eq_of_hits d s (ground (arith, counted s)) in
        inr (rest, e ∙ ap (λ (l : List ℕ). l ++ rest) same)
  ]

  after : (trie_match t x ≡ done true) ⊎ BeginsWith d x → IsSubscribed ((subscribe t d).0) x
  after (inl m) =
      let (s, rest, e, pos) = (match-IsSubscribed t x).0 m in (s, rest, e, omega (arith, counted s))
  after (inr (rest, e)) = (d, rest, e, omega (arith, counted d, hits_self d))

  -- On a well-formed trie, and unless the way of the string ends at a node that loses its own
  -- subscriptions, subscribing to a string, fewer than 2 ^ 32 - 1 times before, makes
  -- `nn_trie_match` accept exactly what it accepted before and what begins with the string.
  pub match-subscribe :
      (trie_match ((subscribe t d).0) x ≡ done true)
      ↔ ((trie_match t x ≡ done true) ⊎ BeginsWith d x)
  match-subscribe = (
    (λ m. before ((match-IsSubscribed ((subscribe t d).0) x).0 m)),
    (λ c. (match-IsSubscribed ((subscribe t d).0) x).1 (after c)),
  )
