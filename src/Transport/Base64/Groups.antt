-- ===== src/Transport/Base64/Groups.antt =====
-- What three bytes and four characters are to each other.
use vnano_msg.Common.{
  ℕ, zero, suc, ◌+◌, ◌*◌, ◌/◌, ◌%◌, ◌^◌, ◌≤◌, ◌<◌, ◌≡◌, refl, Bool, Bool-cases, inl, inr, true,
  false, ◌&&◌, List, [], ◌∷◌, arith, leb, ◌==◌,
}
use vnano_msg.Utils.Wire.RoundTrip.{AreBytes, join}
use vnano_msg.Transport.Base64.{
  Symbol, digit, skipped, ended, symbol, character, push, next_index, in_digit, in_byte,
  decode_loop, digits, encode_loop,
}

abbrev is_digit : Symbol → ℕ → Bool
is_digit (digit y) x = x == y
is_digit _ x = false

is_digit-eq : (s : Symbol) (x : ℕ) → is_digit s x ≡ true → s ≡ digit x
is_digit-eq (digit y) x h = ground arith
is_digit-eq skipped x h = absurd (ground arith)
is_digit-eq ended x h = absurd (ground arith)

abbrev all_below : (ℕ → Bool) → ℕ → Bool
all_below f zero = true
all_below f (suc n) = f n && all_below f n

below : (f : ℕ → Bool) (n x : ℕ) → all_below f n ≡ true → x < n → f x ≡ true
below f zero x h lt = absurd (omega arith)
below f (suc n) x h lt = elim (Bool-cases (x == n)) [
  | inl same ↦ let e : x ≡ n = ground arith in rw e (ground (arith, h))
  | inr other ↦ below f n x (ground (arith, h)) (ground arith)
]

known : all_below (λ x. is_digit (symbol (character x)) x) 64 ≡ true
unfolding symbol character
known = refl

-- A character of the code is the digit that it was written for.
pub symbol-character : (x : ℕ) → x < 64 → symbol (character x) ≡ digit x
symbol-character x h =
    is_digit-eq (symbol (character x)) x
      (below (λ x. is_digit (symbol (character x)) x) 64 x known h)

in_digit_lem : (v x : ℕ) → x < 64 → in_digit v x ≡ v * 64 % 2 ^ 32 + x
unfolding in_digit
in_digit_lem v x h = join 6 (v * 64 % 2 ^ 32) (v % 2 ^ 26) x (omega arith) h

pub in_byte_lem : (v x : ℕ) → x < 256 → in_byte v x ≡ v * 256 % 2 ^ 32 + x
unfolding in_byte
in_byte_lem v x h = join 8 (v * 256 % 2 ^ 32) (v % 2 ^ 24) x (omega arith) h

-- The bits that are taken out of what was put in last.
pub first_byte :
    (u x y : ℕ) → x < 64 → y < 64 → in_digit (in_digit u x) y / 16 % 256 ≡ x * 4 + y / 16
first_byte u x y hx hy = omega (arith, in_digit_lem u x hx, in_digit_lem (in_digit u x) y hy)

pub second_byte :
    (u y z : ℕ) → y < 64 → z < 64 → in_digit (in_digit u y) z / 4 % 256 ≡ y % 16 * 16 + z / 4
second_byte u y z hy hz = omega (arith, in_digit_lem u y hy, in_digit_lem (in_digit u y) z hz)

third_byte : (u z t : ℕ) → z < 64 → t < 64 → in_digit (in_digit u z) t / 1 % 256 ≡ z % 4 * 64 + t
third_byte u z t hz ht = omega (arith, in_digit_lem u z hz, in_digit_lem (in_digit u z) t ht)

pub first_digit : (v a : ℕ) → a < 256 → in_byte v a / 4 % 64 ≡ a / 4
first_digit v a ha = omega (arith, in_byte_lem v a ha)

pub second_digit :
    (v a b : ℕ) → a < 256 → b < 256 → in_byte (in_byte v a) b / 16 % 64 ≡ a % 4 * 16 + b / 16
second_digit v a b ha hb = omega (arith, in_byte_lem v a ha, in_byte_lem (in_byte v a) b hb)

third_digit :
    (v b c : ℕ) → b < 256 → c < 256 → in_byte (in_byte v b) c / 64 % 64 ≡ b % 16 * 4 + c / 64
third_digit v b c hb hc = omega (arith, in_byte_lem v b hb, in_byte_lem (in_byte v b) c hc)

fourth_digit : (v c : ℕ) → c < 256 → in_byte v c / 1 % 64 ≡ c % 64
fourth_digit v c hc = omega (arith, in_byte_lem v c hc)

pub fits : (io n : ℕ) → io < n → leb n io ≡ false
fits io n h = ground arith

pub next_index-eq : (io : ℕ) → io + 1 < 2 ^ 32 → next_index io ≡ io + 1
unfolding next_index
next_index-eq io h = omega arith

-- What four characters of the code are to the decoder.
pub decode_four :
    (x y z t u io n : ℕ) (cs : List ℕ)
    → x < 64
    → y < 64
    → z < 64
    → t < 64
    → io + 3 ≤ n
    → io + 3 < 2 ^ 32
    → decode_loop (character x ∷ character y ∷ character z ∷ character t ∷ cs) u 0 io n
      ≡ push (x * 4 + y / 16) io (
          push (y % 16 * 16 + z / 4) (io + 1) (
            push (z % 4 * 64 + t) (io + 1 + 1) (
              decode_loop cs
                (in_digit (in_digit (in_digit (in_digit u x) y) z) t)
                0
                (io + 1 + 1 + 1)
                n)))
unfolding decode_loop
decode_four x y z t u io n cs hx hy hz ht room small =
    rw
      (
        decode_loop,
        symbol-character x hx,
        symbol-character y hy,
        symbol-character z hz,
        symbol-character t ht,
        fits io n (omega arith),
        first_byte u x y hx hy,
        next_index-eq io (omega arith),
        fits (io + 1) n (omega arith),
        second_byte (in_digit u x) y z hy hz,
        next_index-eq (io + 1) (omega arith),
        fits (io + 1 + 1) n (omega arith),
        next_index-eq (io + 1 + 1) (omega arith),
        third_byte (in_digit (in_digit u x) y) z t hz ht,
      )
      refl

-- Three bytes are four characters.
pub encode_three :
    (a b c v io n : ℕ) (bytes : List ℕ)
    → AreBytes (a ∷ b ∷ c ∷ [])
    → io + 4 ≤ n
    → io + 4 < 2 ^ 32
    → encode_loop (a ∷ b ∷ c ∷ bytes) v 0 io n
      ≡ push (character (a / 4)) io (
          push (character (a % 4 * 16 + b / 16)) (io + 1) (
            push (character (b % 16 * 4 + c / 64)) (io + 1 + 1) (
              push (character (c % 64)) (io + 1 + 1 + 1) (
                encode_loop bytes (in_byte (in_byte (in_byte v a) b) c) 0 (io + 1 + 1 + 1 + 1) n))))
unfolding encode_loop digits
encode_three a b c v io n bytes h room small =
    rw
      (
        fits io n (omega arith),
        first_digit v a h.0,
        next_index-eq io (omega arith),
        fits (io + 1) n (omega arith),
        second_digit v a b h.0 h.1.0,
        next_index-eq (io + 1) (omega arith),
        fits (io + 1 + 1) n (omega arith),
        third_digit (in_byte v a) b c h.1.0 h.1.1.0,
        next_index-eq (io + 1 + 1) (omega arith),
        fits (io + 1 + 1 + 1) n (omega arith),
        next_index-eq (io + 1 + 1 + 1) (omega arith),
        fourth_digit (in_byte (in_byte v a) b) c h.1.1.0,
      )
      refl
