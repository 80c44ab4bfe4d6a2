-- ===== src/Protocol/Trie/Count/Match.antt =====
-- `nn_trie_match` against the counts.
use mathlib.Core.List.{append-nil, append_assoc}
use vnano_msg.Common.{
  ℕ, zero, suc, ◌<◌, ◌≡◌, refl, sym, ap, ◌∙◌, ◌↔◌, Bool, true, false, Option, none, some, List, [],
  ◌∷◌, ◌++◌, arith, length, length-append, drop, ◌==◌, if◌then◌else◌, Bool-cases, Option-cases, inl,
  inr, Outcome, done, abort,
}
use vnano_msg.Protocol.Trie.{
  Tree, null, node, Children, check_prefix, node_next, match_loop, trie_match,
}
use vnano_msg.Protocol.Trie.Count.{
  count, strip, strip-check_prefix, strip-shorter, strip-append, append_of_strip, behind, count_in,
  count-null, count-node,
}

-- What the loop does at a node behind its prefix.
abbrev match_at : ℕ → Children → List ℕ → Outcome Bool
match_at n ch [] = abort
match_at n ch (c ∷ rest) = elim (node_next ch c) [
  | none ↦ done false
  | some t ↦ match_loop n t rest
]

abbrev match_behind : ℕ → ℕ → Children → Option (List ℕ) → Outcome Bool
match_behind n r ch none = done false
match_behind n r ch (some d) = elim (r == 0) [ false ↦ done true | true ↦ match_at n ch d ]

match_loop-node :
    (n r : ℕ) (p d : List ℕ) (ch : Children)
    → match_loop (suc n) (node r p ch) d ≡ match_behind n r ch (strip p d)
unfolding match_loop
match_loop-node n r p d ch =
    rw (strip-check_prefix p d) (go (check_prefix p d == length p) (drop (length p) d))
  where
    go :
        (b : Bool) (d : List ℕ)
        → (elim b [
          | false ↦ done false
          | true ↦ elim (r == 0) [
            | false ↦ done true
            | true ↦ elim d [
              | [] ↦ abort
              | c ∷ rest ↦ elim (node_next ch c) [
                | none ↦ done false
                | some t ↦ match_loop n t rest
              ]
            ]
          ]
        ])
          ≡ match_behind n r ch (if b then some d else none)
    go false d = refl
    go true [] = ground arith
    go true (c ∷ rest) = ground arith

-- Some subscription of the trie is a prefix of the data.
abbrev pub IsSubscribed : Tree → List ℕ → Type 0
IsSubscribed t d = (s rest : List ℕ) × (d ≡ s ++ rest) × (0 < count t s)

pub count-prefix : (r : ℕ) (p : List ℕ) (ch : Children) → count (node r p ch) p ≡ r
count-prefix r p ch =
    let e : strip p p ≡ some [] = ap (strip p) (sym (append-nil p)) ∙ strip-append p [] in
    count-node r p p ch ∙ rw e

pub count-below :
    (r : ℕ) (p : List ℕ) (c : ℕ) (s : List ℕ) (ch : Children)
    → count (node r p ch) (p ++ c ∷ s) ≡ count_in ch c s
count-below r p c s ch = count-node r p (p ++ c ∷ s) ch ∙ rw (strip-append p (c ∷ s))

-- One round, with the rounds below it as `ih`.
module _ (n r : ℕ) (p d : List ℕ) (ch : Children) where
  sound_round :
      ((t : Tree) (d' : List ℕ) → match_loop n t d' ≡ done true → IsSubscribed t d')
      → (o : Option (List ℕ)) → strip p d ≡ o
      → match_behind n r ch o ≡ done true
      → IsSubscribed (node r p ch) d
  sound_round ih none e m = absurd (ground arith)
  sound_round ih (some rest) e m = elim (Bool-cases (r == 0)) [
    | inr full ↦ (p, rest, append_of_strip p d rest e, rw (count-prefix r p ch) (ground arith))
    | inl bare ↦ below rest e (ground arith)
  ]
    where
      below :
          (rest : List ℕ)
          → strip p d ≡ some rest
          → match_at n ch rest ≡ done true
          → IsSubscribed (node r p ch) d
      below [] e m = absurd (ground arith)
      below (c ∷ rest) e m = elim (Option-cases (node_next ch c)) [
        | inl gone ↦ absurd (ground arith)
        | inr (t, next) ↦
            let (s, rest', split, pos) = ih t rest (ground arith) in
            (
              p ++ c ∷ s,
              rest',
              append_of_strip p d (c ∷ rest) e
                  ∙ ap (λ (l : List ℕ). p ++ c ∷ l) split
                  ∙ sym (append_assoc p (c ∷ s) rest'),
              rw (count-below r p c s ch, next) pos,
            )
      ]

match_sound : (n : ℕ) (t : Tree) (d : List ℕ) → match_loop n t d ≡ done true → IsSubscribed t d
unfolding match_loop
match_sound zero t d h = absurd (ground arith)
match_sound (suc n) null d h = absurd (ground arith)
match_sound (suc n) (node r p ch) d h =
    sound_round n r p d ch (match_sound n) (strip p d) refl (sym (match_loop-node n r p d ch) ∙ h)

strip-append_more :
    (p s t rest : List ℕ) → strip p s ≡ some t → strip p (s ++ rest) ≡ some (t ++ rest)
strip-append_more [] s t rest h = ground arith
strip-append_more (x ∷ p) [] t rest h = cc
strip-append_more (x ∷ p) (y ∷ s) t rest h = ground (arith, strip-append_more p s t rest)

behind_pos :
    (r : ℕ) (f : ℕ → List ℕ → ℕ) (o : Option (List ℕ))
    → (r == 0) ≡ true
    → 0 < behind r f o
    → (c : ℕ) × (s : List ℕ) × (o ≡ some (c ∷ s)) × (0 < f c s)
behind_pos r f none z h = absurd (omega arith)
behind_pos r f (some []) z h = absurd (ground arith)
behind_pos r f (some (c ∷ s)) z h = (c, s, refl, h)

behind-some :
    (r : ℕ) (f : ℕ → List ℕ → ℕ) (o : Option (List ℕ))
    → 0 < behind r f o
    → (s : List ℕ) × (o ≡ some s)
behind-some r f none h = absurd (omega arith)
behind-some r f (some s) h = (s, refl)

match_full :
    (n r : ℕ) (ch : Children) (d : List ℕ)
    → (r == 0) ≡ false
    → match_behind n r ch (some d) ≡ done true
match_full n r ch d e = ground arith

match_bare :
    (n r : ℕ) (ch : Children) (c : ℕ) (d : List ℕ) (t : Tree)
    → (r == 0) ≡ true
    → node_next ch c ≡ some t
    → match_behind n r ch (some (c ∷ d)) ≡ match_loop n t d
match_bare n r ch c d t e h = ground arith

match_complete :
    (n : ℕ) (t : Tree) (s rest : List ℕ)
    → length (s ++ rest) < n
    → 0 < count t s
    → match_loop n t (s ++ rest) ≡ done true
unfolding match_loop
match_complete zero t s rest h k = absurd (omega arith)
match_complete (suc n) null s rest h k = absurd (omega (arith, count-null s))
match_complete (suc n) (node r p ch) s rest h k =
    match_loop-node n r p (s ++ rest) ch
    ∙ (let pos : 0 < behind r (count_in ch) (strip p s) = rw (count-node r p s ch) at k in
        elim (Bool-cases (r == 0)) [
          | inr full ↦
              let (s', e) = behind-some r (count_in ch) (strip p s) pos in
              rw (strip-append_more p s s' rest e) (match_full n r ch (s' ++ rest) full)
          | inl bare ↦
              let (c, s', e, at_c) = behind_pos r (count_in ch) (strip p s) bare pos in
              elim (Option-cases (node_next ch c)) [
                | inl gone ↦ absurd (ground arith)
                | inr (t, next) ↦
                    let ih =
                      match_complete n t s' rest
                        (omega (
                          arith,
                          length-append s rest,
                          length-append s' rest,
                          strip-shorter p s (c ∷ s') e,
                        ))
                        (rw next at at_c) in
                    rw (strip-append_more p s (c ∷ s') rest e)
                      (match_bare n r ch c (s' ++ rest) t bare next ∙ ih)
              ]
        ])

-- `nn_trie_match` returns 1 exactly when some string that the trie is subscribed to is a prefix of
-- the data.
pub match-IsSubscribed : (t : Tree) (d : List ℕ) → (trie_match t d ≡ done true) ↔ IsSubscribed t d
unfolding trie_match
match-IsSubscribed t d = (
  match_sound (suc (length d)) t d,
  λ (s, rest, e, pos). rw e (match_complete (suc (length (s ++ rest))) t s rest (omega arith) pos),
)
