-- ===== src/Protocol/Priolist/Invariant.antt =====
-- The representation invariant of `nn_priolist`, and that every function keeps it.
use vnano_msg.Common.{
  ℕ, ◌-◌, ◌≤◌, ◌<◌, ◌≡◌, ap, ◌≢◌, true, false, Option, none, some, List, arith, is_empty, mem,
  IsDistinct, ◌==◌, ltb, Bool-cases, inl, inr, tests,
}
use vnano_msg.Protocol.Priolist.{Slot, Priolist, max_slots, put, settled, raise}
use vnano_msg.Protocol.Priolist.Settle.{IsBest, settled-IsBest}

-- Whose turn it is in a slot: nobody's in an empty one, else one of its pipes.
abbrev pub HasTurn : List ℕ → Option ℕ → Type 0
HasTurn l none = is_empty l ≡ true
HasTurn l (some x) = mem x l ≡ true

pub record IsSlot (s : Slot) : Type 0 where
  pub distinct : IsDistinct s.pipes
  pub turn : HasTurn s.pipes s.current

-- Every slot is well formed, and `current` is the best priority with an active pipe.
pub record Inv (p : Priolist) : Type 0 where
  pub slots : (i : ℕ) → IsSlot (p.slots i)
  pub best : IsBest p.slots 1 p.current

-- A priority that the callers let pass.
abbrev pub IsPriority : ℕ → Type 0
IsPriority c = (1 ≤ c) × (c ≤ max_slots)

pub put-IsSlot :
    (f : ℕ → Slot) (i : ℕ) (s : Slot)
    → ((j : ℕ) → IsSlot (f j))
    → IsSlot s
    → (j : ℕ) → IsSlot (put f i s j)
put-IsSlot f i s h k j = elim (Bool-cases (j == i)) [ inl e ↦ rw e k | inr e ↦ rw e (h j) ]

-- Only which slots are empty counts.
pub IsBest-cong :
    (f g : ℕ → Slot) (c : ℕ) (r : Option ℕ)
    → ((j : ℕ) → is_empty (g j).pipes ≡ is_empty (f j).pipes)
    → IsBest f c r
    → IsBest g c r
IsBest-cong f g c none e h = λ j lo hi. rw (e (j - 1)) (h j lo hi)
IsBest-cong f g c (some k) e h =
    (h.0, h.1, rw (e (k - 1)) h.2, λ j lo hi. rw (e (j - 1)) (h.3 j lo hi))

pub put-is_empty :
    (f : ℕ → Slot) (i : ℕ) (s : Slot) (j : ℕ)
    → is_empty s.pipes ≡ is_empty (f i).pipes
    → is_empty (put f i s j).pipes ≡ is_empty (f j).pipes
put-is_empty f i s j e = elim (Bool-cases (j == i)) [
  | inl q ↦ let same : j ≡ i = ground arith in rw q (rw same e)
  | inr q ↦ rw q
]

-- A search that starts at a priority above which all slots are empty finds the best one.
IsBest-extend :
    (f : ℕ → Slot) (k : ℕ) (r : Option ℕ)
    → 1 ≤ k
    → ((j : ℕ) → 1 ≤ j → j < k → is_empty (f (j - 1)).pipes ≡ true)
    → IsBest f k r
    → IsBest f 1 r
IsBest-extend f k none lo e h = λ j a b. elim (Bool-cases (ltb j k)) [
  | inl below ↦ e j a (omega tests)
  | inr above ↦ h j (ground arith) b
]
IsBest-extend f k (some m) lo e h = (
  omega arith,
  h.1,
  h.2,
  λ j a b. elim (Bool-cases (ltb j k)) [
    | inl below ↦ e j a (omega tests)
    | inr above ↦ h.3 j (ground arith) b
  ],
)

pub put_other : (f : ℕ → Slot) (i : ℕ) (s : Slot) (j : ℕ) → j ≢ i → put f i s j ≡ f j
put_other f i s j ne = ground arith

pub put_self : (f : ℕ → Slot) (i : ℕ) (s : Slot) → put f i s i ≡ s
put_self f i s = ground arith

-- After a change to the current slot the loop finds the best priority again.
pub put-settled-IsBest :
    (f : ℕ → Slot) (k : ℕ) (s : Slot)
    → IsBest f 1 (some k)
    → IsBest (put f (k - 1) s) 1 (settled (put f (k - 1) s) k)
put-settled-IsBest f k s h =
    IsBest-extend (put f (k - 1) s) k _ h.0
      (λ j a b. rw (put_other f (k - 1) s (j - 1) (omega arith)) (h.3 j a b))
      (settled-IsBest (put f (k - 1) s) k h.0 h.1)

-- Filling an empty slot: its priority becomes current if it is better.
pub raise-IsBest :
    (f : ℕ → Slot) (d : ℕ) (s : Slot) (r : Option ℕ)
    → IsPriority d
    → is_empty s.pipes ≡ false
    → is_empty (f (d - 1)).pipes ≡ true
    → IsBest f 1 r
    → IsBest (put f (d - 1) s) 1 (raise r d)
raise-IsBest f d s none (lo, hi) full was h = (
  lo,
  hi,
  rw (put_self f (d - 1) s) full,
  λ j a b. rw (put_other f (d - 1) s (j - 1) (omega arith)) (h j a (omega arith)),
)
raise-IsBest f d s (some k) (lo, hi) full was h = elim (Bool-cases (ltb d k)) [
  | inl better ↦ rw better (
    lo,
    hi,
    rw (put_self f (d - 1) s) full,
    λ j a b. rw (put_other f (d - 1) s (j - 1) (omega arith)) (h.3 j a (omega tests)),
  )
  | inr worse ↦
      let ne : d ≢ k = λ same. ground (arith, ap (λ (x : ℕ). is_empty (f (x - 1)).pipes) same) in
      let lt : k < d = ground arith in
      rw worse (
        h.0,
        h.1,
        rw (put_other f (d - 1) s (k - 1) (omega arith)) h.2,
        λ j a b. rw (put_other f (d - 1) s (j - 1) (omega arith)) (h.3 j a b),
      )
]
