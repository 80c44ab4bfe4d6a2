-- ===== src/Protocol/Priolist/Settle.antt =====
-- The search for the next slot that is not empty.
use native.Mathlib.Decide.{ℕ_discrete}
use vnano_msg.Common.{
  ℕ, zero, suc, ◌+◌, ◌-◌, ◌≤◌, ◌<◌, ◌≡◌, Option, none, some, arith, is_empty, true, false, ltb,
  tests, Bool-cases, inl, inr,
}
use vnano_msg.Protocol.Priolist.{Slot, max_slots, settle, settled}

-- `r` is the best priority from `c` on: a slot that is not empty, below which every slot from `c`
-- on is empty; or all of them are empty.
abbrev pub IsBest : (ℕ → Slot) → ℕ → Option ℕ → Type 0
IsBest f c none = (j : ℕ) → c ≤ j → j ≤ max_slots → is_empty (f (j - 1)).pipes ≡ true
IsBest f c (some k) =
    (c ≤ k)
    × (k ≤ max_slots)
    × (is_empty (f (k - 1)).pipes ≡ false)
    × ((j : ℕ) → c ≤ j → j < k → is_empty (f (j - 1)).pipes ≡ true)

empty_from :
    (f : ℕ → Slot) (c j : ℕ)
    → is_empty (f (c - 1)).pipes ≡ true
    → (c + 1 ≤ j → is_empty (f (j - 1)).pipes ≡ true)
    → c ≤ j
    → is_empty (f (j - 1)).pipes ≡ true
empty_from f c j e h le = elim (ℕ_discrete c j) [
  | yes same ↦ rw same at e
  | no other ↦ h (omega arith)
]

IsBest-down :
    (f : ℕ → Slot) (c : ℕ) (r : Option ℕ)
    → is_empty (f (c - 1)).pipes ≡ true
    → IsBest f (c + 1) r
    → IsBest f c r
IsBest-down f c none e h = λ j lo hi. empty_from f c j e (λ p. h j p hi) lo
IsBest-down f c (some k) e h =
    (omega arith, h.1, h.2, λ j lo hi. empty_from f c j e (λ p. h.3 j p hi) lo)

settle-IsBest :
    (n : ℕ) (f : ℕ → Slot) (c : ℕ) → c + n ≡ max_slots + 1 → 1 ≤ n → IsBest f c (settle n f c)
unfolding settle
settle-IsBest zero f c e k = absurd (omega arith)
settle-IsBest (suc n) f c e k = elim (Bool-cases (is_empty (f (c - 1)).pipes)) [
  | inl empty ↦ elim (Bool-cases (ltb max_slots (c + 1))) [
    | inl last ↦
        rw (empty, last, settle) (λ j lo hi. empty_from f c j empty (λ p. absurd (omega tests)) lo)
    | inr more ↦
        rw (empty, more, settle)
          (IsBest-down f c (settle n f (c + 1)) empty
            (settle-IsBest n f (c + 1) (omega arith) (ground arith)))
  ]
  | inr full ↦ rw (full, settle) (omega arith, omega arith, full, λ j lo hi. absurd (omega arith))
]

-- The loop of `nn_priolist_rm` and `nn_priolist_advance` goes round often enough.
pub settled-IsBest : (f : ℕ → Slot) (c : ℕ) → 1 ≤ c → c ≤ max_slots → IsBest f c (settled f c)
settled-IsBest f c lo hi = settle-IsBest (max_slots + 1 - c) f c (omega arith) (omega arith)
