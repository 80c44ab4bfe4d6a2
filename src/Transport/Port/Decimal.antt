-- ===== src/Transport/Port/Decimal.antt =====
-- The number that a string of digits stands for.
use vnano_msg.Common.{
  ℕ, ◌+◌, ◌-◌, ◌*◌, ◌≤◌, ◌≡◌, ◌↔◌, Bool, true, ◌&&◌, none, some, List, [], ◌∷◌, Reply, ok, err,
  einval, ltb, leb, ◌==◌, if◌then◌else◌, arith, Bool-cases, inl, inr,
}
use vnano_msg.Transport.Port.{resolve_loop, resolve}

abbrev pub is_digit : ℕ → Bool
is_digit c = leb 48 c && leb c 57

abbrev pub all_digits : List ℕ → Bool
all_digits [] = true
all_digits (c ∷ l) = is_digit c && all_digits l

-- Digits read behind a number.
abbrev pub value : ℕ → List ℕ → ℕ
value n [] = n
value n (c ∷ l) = value (n * 10 + (c - 48)) l

value-le : (n : ℕ) (l : List ℕ) → n ≤ value n l
value-le n [] = omega arith
value-le n (c ∷ l) = omega (arith, value-le (n * 10 + (c - 48)) l)

resolve_loop-value :
    (n : ℕ) (l : List ℕ)
    → n ≤ 65535
    → resolve_loop n l ≡ (if all_digits l && leb (value n l) 65535 then some (value n l) else none)
unfolding resolve_loop
resolve_loop-value n [] h = ground arith
resolve_loop-value n (c ∷ l) h =
    let n' = n * 10 + (c - 48) in
    elim (Bool-cases (is_digit c)) [
      | inr other ↦ ground arith
      | inl digit ↦ elim (Bool-cases (ltb 65535 n')) [
        | inl large ↦ ground (arith, value-le n' l)
        | inr small ↦ ground (arith, resolve_loop-value n' l (ground arith))
      ]
    ]

positive_of_ok :
    (v n : ℕ) → ◌≡◌ {A = Reply ℕ} (if v == 0 then err einval else ok v) (ok n) → (v ≡ n) × (1 ≤ n)
positive_of_ok v n h = elim (Bool-cases (v == 0)) [
  | inl z ↦ absurd (ground arith)
  | inr p ↦ let e : v ≡ n = ground arith in (e, ground arith)
]

ok_of_positive :
    (v n : ℕ) → v ≡ n → 1 ≤ n → ◌≡◌ {A = Reply ℕ} (if v == 0 then err einval else ok v) (ok n)
ok_of_positive v n e h = ground arith

-- `nn_port_resolve` accepts exactly the strings of digits whose number is from 1 to 65535, leading
-- zeros included, and returns that number.
pub resolve_iff :
    (port : List ℕ) (n : ℕ)
    → (resolve port ≡ ok n)
      ↔ ((all_digits port ≡ true) × (value 0 port ≡ n) × (1 ≤ n) × (n ≤ 65535))
unfolding resolve
resolve_iff port n =
    let e = resolve_loop-value 0 port (omega arith) in
    elim (Bool-cases (all_digits port)) [
      | inr other ↦ (λ h. absurd (ground arith), λ (d, v, a, b). absurd (ground arith))
      | inl digits ↦ elim (Bool-cases (leb (value 0 port) 65535)) [
        | inr large ↦ (λ h. absurd (ground arith), λ (d, v, a, b). absurd (ground arith))
        | inl small ↦
            let f : resolve_loop 0 port ≡ some (value 0 port) = rw (digits, small) at e in
            (
              (λ h.
                  let (v, a) = positive_of_ok (value 0 port) n (rw (resolve, f) at h) in
                  (digits, v, a, ground arith)),
              (λ (d, v, a, b). rw (resolve, f) (ok_of_positive (value 0 port) n v a)),
            )
      ]
    ]
