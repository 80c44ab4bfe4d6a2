-- ===== src/Utils/Hash/Rehash.antt =====
-- Moving the items to twice as many slots: what a search finds stays, and so does the placement.
use vnano_msg.Common.{
  ℕ, zero, suc, ◌+◌, ◌≤◌, ◌<◌, ◌≡◌, refl, sym, ◌∙◌, ap, false, Option, none, some, List, [], ◌∷◌,
  ◌++◌, All, arith, ◌==◌, if◌then◌else◌, inl, inr, Bool-cases, ◌⊎◌, ◌≢◌,
}
use vnano_msg.Utils.Hash.{Item, slot, append, move_chain, move_all, find}
use vnano_msg.Utils.Hash.Chains.{
  or_else, find-append, HasDistinctKeys, HasDistinctKeys-append, All-append,
}

or_else-none {ℓ} : {A : Type ℓ} (o : Option A) → or_else o none ≡ o
or_else-none none = refl
or_else-none (some a) = refl

-- The search in the slot of the key.
abbrev pub lookup : ℕ → (ℕ → List Item) → ℕ → Option Item
lookup slots array k = find k (array (slot slots k))

-- The items of a slot belong to it, and no key stands twice in it.
abbrev pub IsPlaced : ℕ → (ℕ → List Item) → Type 0
IsPlaced slots array =
    (i : ℕ) → (All (λ (x : Item). slot slots x.key ≡ i) (array i)) × HasDistinctKeys (array i)

pub lookup-append :
    (n : ℕ) (a : ℕ → List Item) (it : Item) (k : ℕ)
    → lookup n (append n a it) k ≡ or_else (lookup n a k) (if it.key == k then some it else none)
unfolding append find
lookup-append n a it k = elim (Bool-cases (slot n it.key == slot n k)) [
  | inl e ↦
      let same : slot n it.key ≡ slot n k = ground arith in
      rw (append, e, same) (find-append k (a (slot n k)) (it ∷ []))
  | inr e ↦
      let other : (it.key == k) ≡ false = ground arith in
      rw (append, e, other) (sym (or_else-none _))
]

pub IsPlaced-append :
    (n : ℕ) (a : ℕ → List Item) (it : Item)
    → IsPlaced n a
    → lookup n a it.key ≡ none
    → IsPlaced n (append n a it)
unfolding append
IsPlaced-append n a it p h i = elim (Bool-cases (slot n it.key == i)) [
  | inl e ↦
      let same : slot n it.key ≡ i = ground arith in
      let q = p (slot n it.key) in
      rw e (
        All-append (λ (x : Item). slot n x.key ≡ i) (a (slot n it.key)) it (rw (← same) q.0) same,
        HasDistinctKeys-append (a (slot n it.key)) it q.1 h,
      )
  | inr e ↦ rw e (p i)
]

find-other :
    (n i k : ℕ) (l : List Item)
    → All (λ (x : Item). slot n x.key ≡ i) l
    → slot n k ≢ i
    → find k l ≡ none
unfolding find
find-other n i k [] a h = refl
find-other n i k (x ∷ l) a h = ground (arith, find-other n i k l a.1 h, a.0)

lookup-move_chain :
    (n : ℕ) (its : List Item) (a : ℕ → List Item) (k : ℕ)
    → lookup n (move_chain n its a) k ≡ or_else (lookup n a k) (find k its)
unfolding move_chain find
lookup-move_chain n [] a k = sym (or_else-none _)
lookup-move_chain n (it ∷ its) a k =
    ground (arith, lookup-move_chain n its (append n a it) k, lookup-append n a it k)

IsPlaced-move_chain :
    (n : ℕ) (its : List Item) (a : ℕ → List Item)
    → IsPlaced n a
    → HasDistinctKeys its
    → ((k : ℕ) → (lookup n a k ≡ none) ⊎ (find k its ≡ none))
    → IsPlaced n (move_chain n its a)
unfolding move_chain find
IsPlaced-move_chain n [] a p d f = p
IsPlaced-move_chain n (it ∷ its) a p d f =
    IsPlaced-move_chain n its (append n a it) (IsPlaced-append n a it p (ground (arith, f it.key)))
      d.1 (λ k. moved k)
  where
    moved : (k : ℕ) → (lookup n (append n a it) k ≡ none) ⊎ (find k its ≡ none)
    moved k = elim (Bool-cases (it.key == k)) [
      | inl e ↦ let same : it.key ≡ k = ground arith in inr (rw (← same) d.0)
      | inr e ↦ elim (f k) [
        | inl u ↦ inl (ground (arith, lookup-append n a it k))
        | inr u ↦ inr (ground arith)
      ]
    ]

-- The items of so many slots, from a slot on.
gather : (ℕ → List Item) → ℕ → ℕ → List Item
gather old i zero = []
gather old i (suc c) = old i ++ gather old (suc i) c

lookup-move_all :
    (n : ℕ) (old : ℕ → List Item) (i c : ℕ) (a : ℕ → List Item) (k : ℕ)
    → lookup n (move_all n old i c a) k ≡ or_else (lookup n a k) (find k (gather old i c))
unfolding move_all gather find
lookup-move_all n old i zero a k = sym (or_else-none _)
lookup-move_all n old i (suc c) a k = ground (
  arith,
  lookup-move_all n old (suc i) c (move_chain n (old i) a) k,
  lookup-move_chain n (old i) a k,
  find-append k (old i) (gather old (suc i) c),
)

find-gather_below :
    (m : ℕ) (old : ℕ → List Item) (i c k : ℕ)
    → IsPlaced m old
    → slot m k < i
    → find k (gather old i c) ≡ none
unfolding gather find
find-gather_below m old i zero k p lo = refl
find-gather_below m old i (suc c) k p lo = ground (
  arith,
  find-append k (old i) (gather old (suc i) c),
  find-other m i k (old i) (p i).0 (omega arith),
  find-gather_below m old (suc i) c k p (omega arith),
)

find-gather :
    (m : ℕ) (old : ℕ → List Item) (i c k : ℕ)
    → IsPlaced m old
    → i ≤ slot m k
    → slot m k < i + c
    → find k (gather old i c) ≡ lookup m old k
unfolding gather find
find-gather m old i zero k p lo hi = absurd (omega arith)
find-gather m old i (suc c) k p lo hi = elim (Bool-cases (slot m k == i)) [
  | inl e ↦
      let same : slot m k ≡ i = ground arith in
      ground (
        arith,
        ap (λ (s : ℕ). find k (old s)) same,
        find-append k (old i) (gather old (suc i) c),
        find-gather_below m old (suc i) c k p (omega arith),
      )
  | inr e ↦ ground (
    arith,
    find-append k (old i) (gather old (suc i) c),
    find-other m i k (old i) (p i).0 (ground arith),
    find-gather m old (suc i) c k p (ground arith) (omega arith),
  )
]

IsPlaced-move_all :
    (m n : ℕ) (old : ℕ → List Item) (i c : ℕ) (a : ℕ → List Item)
    → IsPlaced m old
    → IsPlaced n a
    → ((k : ℕ) → i ≤ slot m k → lookup n a k ≡ none)
    → IsPlaced n (move_all n old i c a)
unfolding move_all
IsPlaced-move_all m n old i zero a q p f = p
IsPlaced-move_all m n old i (suc c) a q p f =
    IsPlaced-move_all m n old (suc i) c (move_chain n (old i) a) q
      (IsPlaced-move_chain n (old i) a p (q i).1 (λ k. apart k))
      (λ k le. ground (
        arith,
        lookup-move_chain n (old i) a k,
        f k (omega arith),
        find-other m i k (old i) (q i).0 (omega arith),
      ))
  where
    apart : (k : ℕ) → (lookup n a k ≡ none) ⊎ (find k (old i) ≡ none)
    apart k = elim (Bool-cases (slot m k == i)) [
      | inl e ↦ inl (f k (ground arith))
      | inr e ↦ inr (find-other m i k (old i) (q i).0 (ground arith))
    ]

slot-lt : (m k : ℕ) → 0 < m → slot m k < m
unfolding slot
slot-lt m k h = grind arith

-- The loop of `nn_hash_rehash` from an empty array.
pub lookup-move_all_self :
    (m n : ℕ) (old : ℕ → List Item) (k : ℕ)
    → IsPlaced m old
    → 0 < m
    → lookup n (move_all n old 0 m (λ i. [])) k ≡ lookup m old k
unfolding find
lookup-move_all_self m n old k p h =
    lookup-move_all n old 0 m (λ i. []) k
    ∙ find-gather m old 0 m k p (omega arith) (omega (arith, slot-lt m k h))

pub IsPlaced-move_all_self :
    (m n : ℕ) (old : ℕ → List Item) → IsPlaced m old → IsPlaced n (move_all n old 0 m (λ i. []))
unfolding find
IsPlaced-move_all_self m n old p =
    IsPlaced-move_all m n old 0 m (λ i. []) p (λ i. (tt, tt)) (λ k le. refl)
