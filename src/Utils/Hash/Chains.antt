-- ===== src/Utils/Hash/Chains.antt =====
-- Searching, extending and unlinking one chain of the table.
use vnano_msg.Common.{
  ℕ, ◌≡◌, refl, true, false, ◌&&◌, Option, none, some, List, [], ◌∷◌, ◌++◌, All, arith, ◌==◌,
  if◌then◌else◌, inl, inr, Option-cases, Bool-cases, ◌⊎◌, ◌≢◌,
}
use vnano_msg.Utils.Hash.{Item, find, is_absent, remove}

abbrev pub or_else {ℓ} : {A : Type ℓ} → Option A → Option A → Option A
or_else none b = b
or_else (some a) b = some a

pub find-append : (k : ℕ) (l r : List Item) → find k (l ++ r) ≡ or_else (find k l) (find k r)
unfolding find
find-append k [] r = refl
find-append k (x ∷ l) r = ground (arith, find-append k l r)

pub find_key : (k : ℕ) (l : List Item) (it : Item) → find k l ≡ some it → it.key ≡ k
unfolding find
find_key k [] it h = cc
find_key k (x ∷ l) it h = ground (arith, find_key k l it)

pub is_absent_lem :
    (k : ℕ) (l : List Item) → is_absent k l ≡ elim (find k l) [ none ↦ true | some it ↦ false ]
unfolding find is_absent
is_absent_lem k [] = refl
is_absent_lem k (x ∷ l) = ground (arith, is_absent_lem k l)

-- No key stands twice in a chain.
abbrev pub HasDistinctKeys : List Item → Type 0
HasDistinctKeys [] = Unit {0}
HasDistinctKeys (x ∷ xs) = (find x.key xs ≡ none) × HasDistinctKeys xs

pub HasDistinctKeys-append :
    (l : List Item) (it : Item)
    → HasDistinctKeys l
    → find it.key l ≡ none
    → HasDistinctKeys (l ++ it ∷ [])
unfolding find
HasDistinctKeys-append [] it d h = (refl, tt)
HasDistinctKeys-append (x ∷ l) it d h =
    (ground (arith, find-append x.key l (it ∷ [])), HasDistinctKeys-append l it d.1 (ground arith))

pub All-append {ℓ} :
    {A : Type ℓ} (P : A → Type ℓ) (l : List A) (x : A) → All P l → P x → All P (l ++ x ∷ [])
All-append P [] x h p = (p, tt)
All-append P (y ∷ l) x h p = (h.0, All-append P l x h.1 p)

pub remove-eq-some :
    (it : Item) (l r : List Item)
    → HasDistinctKeys l
    → remove it l ≡ some r
    → find it.key l ≡ some it
unfolding find remove
remove-eq-some it [] r d h = cc
remove-eq-some it (x ∷ l) r d h = elim (Option-cases (remove it l)) [
  | inl e ↦ ground arith
  | inr (r', e) ↦ ground (arith, remove-eq-some it l r' d.1 e)
]

pub remove-eq-none :
    (it : Item) (l : List Item) → HasDistinctKeys l → remove it l ≡ none → find it.key l ≢ some it
unfolding find remove
remove-eq-none it [] d h = cc
remove-eq-none it (x ∷ l) d h = ground (arith, remove-eq-none it l d.1)

pub find-remove :
    (it : Item) (l r : List Item) (k : ℕ)
    → HasDistinctKeys l
    → remove it l ≡ some r
    → find k r ≡ (if it.key == k then none else find k l)
unfolding find remove
find-remove it [] r k d h = cc
find-remove it (x ∷ l) r k d h = elim (Option-cases (remove it l)) [
  | inl e ↦ ground arith
  | inr (r', e) ↦ ground (arith, find-remove it l r' k d.1 e, remove-eq-some it l r' d.1 e)
]

-- What `remove` leaves of a chain with a head.
remove_cons :
    (it x : Item) (l r : List Item)
    → remove it (x ∷ l) ≡ some r
    → (r ≡ l) ⊎ ((r' : List Item) × (remove it l ≡ some r') × (r ≡ x ∷ r'))
unfolding remove
remove_cons it x l r h = elim (Bool-cases (x.key == it.key && x.owner == it.owner)) [
  | inl e ↦ inl (ground arith)
  | inr e ↦ elim (Option-cases (remove it l)) [
    | inl n ↦ absurd (ground arith)
    | inr (r', s) ↦ inr (r', s, ground arith)
  ]
]

pub All-remove :
    (P : Item → Type 0) (it : Item) (l r : List Item) → All P l → remove it l ≡ some r → All P r
unfolding remove
All-remove P it [] r a h = absurd (ground arith)
All-remove P it (x ∷ l) r a h = elim (remove_cons it x l r h) [
  | inl e ↦ rw e a.1
  | inr (r', s, e) ↦ rw e (a.0, All-remove P it l r' a.1 s)
]

pub HasDistinctKeys-remove :
    (it : Item) (l r : List Item) → HasDistinctKeys l → remove it l ≡ some r → HasDistinctKeys r
unfolding remove
HasDistinctKeys-remove it [] r d h = absurd (ground arith)
HasDistinctKeys-remove it (x ∷ l) r d h = elim (remove_cons it x l r h) [
  | inl e ↦ rw e d.1
  | inr (r', s, e) ↦
      rw e (ground (arith, find-remove it l r' x.key d.1 s), HasDistinctKeys-remove it l r' d.1 s)
]
