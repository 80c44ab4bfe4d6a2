-- ===== src/Aio/Timerset/Wait.antt =====
-- How long to wait for the first timeout.
use vnano_msg.Common.{
  ℕ, ◌+◌, ◌-◌, ◌%◌, ◌^◌, ◌≤◌, ◌<◌, ◌≡◌, refl, sym, ap, ◌∙◌, Bool, true, false, ◌&&◌, none, some, [],
  ◌∷◌, Reply, ok, err, eagain, ltb, if◌then◌else◌, arith, Bool-cases, inl, inr,
}
use vnano_msg.Aio.Timerset.{Hndl, Timerset, int_of, or_zero, next_timeout, event}

abbrev pub too_early : Reply ℕ × Timerset → Bool
too_early (ok i, l) = false
too_early (err e, l) = true

-- Every timeout is less than 2 ^ 31 milliseconds from now, before or after.
abbrev pub near : ℕ → Timerset → Bool
near now [] = true
near now (h ∷ l) = ltb h.timeout (now + 2 ^ 31) && ltb now (h.timeout + 2 ^ 31) && near now l

int_of_small : (n : ℕ) → n < 2 ^ 31 → int_of n ≡ some n
int_of_small n h = let e : n % 2 ^ 32 ≡ n = omega arith in rw e (ground arith)

int_of_negative : (n : ℕ) → 0 < n → n ≤ 2 ^ 31 → int_of (2 ^ 64 - n) ≡ none
int_of_negative n a b =
    let e : (2 ^ 64 - n) % 2 ^ 32 ≡ 2 ^ 32 - n = omega arith in rw e (ground arith)

-- The wait is what is left until the first timeout, 0 if it has passed.
wait_of_first :
    (now : ℕ) (x : Hndl) (l : Timerset)
    → near now (x ∷ l) ≡ true
    → now + 2 ^ 32 ≤ 2 ^ 64
    → next_timeout now (x ∷ l) ≡ some (x.timeout - now)
unfolding next_timeout
wait_of_first now x l c b = elim (Bool-cases (ltb x.timeout now)) [
  | inr later ↦
      let e : (x.timeout + 2 ^ 64 - now) % 2 ^ 64 ≡ x.timeout - now =
        left (ground arith) (ground arith) in
      ap or_zero (ap int_of e ∙ int_of_small (x.timeout - now) (ground arith))
  | inl passed ↦
      let e : (x.timeout + 2 ^ 64 - now) % 2 ^ 64 ≡ 2 ^ 64 - (now - x.timeout) =
        over (ground arith) in
      let z : x.timeout - now ≡ 0 = ground arith in
      rw z
        (ap or_zero (ap int_of e ∙ int_of_negative (now - x.timeout) (ground arith) (ground arith)))
]
  where
    left :
        now ≤ x.timeout
        → x.timeout < now + 2 ^ 31
        → (x.timeout + 2 ^ 64 - now) % 2 ^ 64 ≡ x.timeout - now
    left h k = omega arith

    over : x.timeout < now → (x.timeout + 2 ^ 64 - now) % 2 ^ 64 ≡ 2 ^ 64 - (now - x.timeout)
    over h = omega arith

-- The time that `nn_timerset_timeout` tells to wait is exact, whenever every timeout is less than
-- 2 ^ 31 milliseconds from now and now is at most 2 ^ 64 - 2 ^ 32: no event comes before it, and
-- one from then on.
pub timeout_exact :
    (now k n : ℕ) (l : Timerset)
    → near now l ≡ true
    → now + 2 ^ 32 ≤ 2 ^ 64
    → next_timeout now l ≡ some n
    → too_early (event (now + k) l) ≡ ltb k n
unfolding next_timeout event
timeout_exact now k n [] c b h = absurd (ground arith)
timeout_exact now k n (x ∷ l) c b h =
    let w : n ≡ x.timeout - now = let e = sym (wait_of_first now x l c b) ∙ h in cc in
    rw w (first_due (ltb (now + k) x.timeout) refl)
  where
    first_due :
        (c : Bool)
        → ltb (now + k) x.timeout ≡ c
        → too_early (if c then (err eagain, x ∷ l) else (ok x.id, l)) ≡ ltb k (x.timeout - now)
    first_due true e = ground arith
    first_due false e = ground arith
