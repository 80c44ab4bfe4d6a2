-- ===== src/Common/Results.antt =====
-- What a C function comes back with: `abort` is a failed `nn_assert`, `errno_assert` or
-- `errnum_assert`; a negative return code is an `Errno`.
use mathlib.Core.Path.{◌≡◌, refl}
use mathlib.Core.Logic.{◌⊎◌, inl, inr}
use mathlib.Core.Bool.{Bool, true, false}

pub data Outcome {ℓ} (A : Type ℓ) : Type ℓ where
  done : A → Outcome A
  abort : Outcome A

infixl 5 ◌>>=◌ ◌>>◌
abbrev pub ◌>>=◌ {ℓ κ} : {A : Type ℓ} {B : Type κ} → Outcome A → (A → Outcome B) → Outcome B
done a >>= f = f a
abort >>= f = abort

abbrev pub ◌>>◌ {ℓ} : {B : Type ℓ} → Outcome (Unit {0}) → Outcome B → Outcome B
m >> k = m >>= λ _. k

abbrev pub assert : Bool → Outcome (Unit {0})
assert true = done tt
assert false = abort

pub Outcome-cases {ℓ} : {A : Type ℓ} (m : Outcome A) → (m ≡ abort) ⊎ ((a : A) × (m ≡ done a))
Outcome-cases abort = inl refl
Outcome-cases (done a) = inr (a, refl)

abbrev pub Completes {ℓ} : {A : Type ℓ} → Outcome A → Type ℓ
Completes {A = A} m = (a : A) × (m ≡ done a)

-- A call comes back exactly if it may be made.
abbrev pub Comes {ℓ} : {A : Type ℓ} → Bool → Outcome A → Type ℓ
Comes true m = Completes m
Comes false m = m ≡ abort

pub Comes-done {ℓ} : {A : Type ℓ} (b : Bool) (m : Outcome A) → b ≡ true → Completes m → Comes b m
Comes-done true m h c = c
Comes-done false m h c = cc

pub Comes-abort {ℓ} : {A : Type ℓ} (b : Bool) (m : Outcome A) → b ≡ false → m ≡ abort → Comes b m
Comes-abort true m h c = cc
Comes-abort false m h c = c

-- Inversion of a completed bind, for proofs where the parts stay shut.
pub >>=-eq-done {ℓ κ} :
    {A : Type ℓ} {B : Type κ} (m : Outcome A) (f : A → Outcome B) {b : B}
    → (m >>= f) ≡ done b
    → (a : A) × (m ≡ done a) × (f a ≡ done b)
>>=-eq-done (done a) f h = (a, refl, h)
>>=-eq-done abort f h = cc

pub data Errno : Type 0 where
  eagain einval eisconn enobufs enoprotoopt efsm etimedout : Errno

pub data Reply {ℓ} (A : Type ℓ) : Type ℓ where
  ok : A → Reply A
  err : Errno → Reply A
