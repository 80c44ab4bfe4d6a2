-- ===== src/Transport/Base64/RoundTrip.antt =====
-- What was encoded is decoded.
use vnano_msg.Common.{
  ℕ, suc, ◌∙◌, ap, ◌+◌, ◌-◌, ◌*◌, ◌/◌, ◌%◌, ◌^◌, ◌≤◌, ◌<◌, ◌≡◌, refl, List, [], ◌∷◌, ◌++◌, ok,
  length, arith,
}
use vnano_msg.Utils.Wire.RoundTrip.{AreBytes}
use vnano_msg.Transport.Base64.{
  ended, symbol, character, Written, in_digit, in_byte, decode_rest, decode_loop, decode, pad,
  encode_rest, digits, encode_loop, encode,
}
use vnano_msg.Transport.Base64.Groups.{
  symbol-character, decode_four, encode_three, first_byte, second_byte, first_digit, second_digit,
  in_byte_lem, fits, next_index-eq,
}

-- The room that `k` bytes take, without the NUL.
abbrev pub encoded_length : ℕ → ℕ
encoded_length k = (k + 2) / 3 * 4

-- The elements written one behind the other, from the index `io` on.
abbrev pub written_at : ℕ → List ℕ → List (ℕ × ℕ)
written_at io [] = []
written_at io (c ∷ cs) = (io, c) ∷ written_at (io + 1) cs

-- A call that wrote the elements and returns a count.
abbrev pub wrote : ℕ → List ℕ → ℕ → Written
wrote io cs count = record { writes = written_at io cs; rc = ok count }

-- Text that stands for bytes, for the decoder in any state between two groups of characters.
abbrev pub Decodes : List ℕ → List ℕ → Type 0
Decodes chars bytes =
    (u io n : ℕ)
    → io + length bytes ≤ n
    → io + length bytes < 2 ^ 32
    → decode_loop chars u 0 io n ≡ wrote io bytes (io + length bytes)

-- What is encoded between two groups.
abbrev pub Encoded : List ℕ → ℕ → ℕ → ℕ → Type 0
Encoded bytes v io n =
    (chars : List ℕ) × (encode_loop bytes v 0 io n ≡ wrote io (chars ++ 0 ∷ []) (io + length chars))
    × Decodes chars bytes
    × (length chars ≡ encoded_length (length bytes))

sign_ends : symbol 61 ≡ ended
unfolding symbol
sign_ends = refl

last_digit_of_one : (v a : ℕ) → a < 256 → in_byte v a * 16 % 2 ^ 32 % 64 ≡ a % 4 * 16
last_digit_of_one v a ha = omega (arith, in_byte_lem v a ha)

last_digit_of_two : (v b : ℕ) → b < 256 → in_byte v b * 4 % 2 ^ 32 % 64 ≡ b % 16 * 4
last_digit_of_two v b hb = omega (arith, in_byte_lem v b hb)

none_more : (io : ℕ) → io ≡ io + 0
none_more io = omega arith

two_more : (io : ℕ) → io + 1 + 1 ≡ io + 2
two_more io = omega arith

three_and : (io k : ℕ) → io + 1 + 1 + 1 + k ≡ io + suc (suc (suc k))
three_and io k = omega arith

four_and : (io k : ℕ) → io + 1 + 1 + 1 + 1 + k ≡ io + suc (suc (suc (suc k)))
four_and io k = omega arith

four_more : (io : ℕ) → io + 1 + 1 + 1 + 1 ≡ io + 4
four_more io = omega arith

decode_one :
    (a : ℕ) → a < 256 → Decodes (character (a / 4) ∷ character (a % 4 * 16) ∷ 61 ∷ 61 ∷ []) (a ∷ [])
unfolding decode_loop decode_rest
decode_one a ha u io n room small =
    let back : a / 4 * 4 + a % 4 * 16 / 16 ≡ a = omega arith in
    rw
      (
        decode_loop,
        symbol-character (a / 4) (omega arith),
        symbol-character (a % 4 * 16) (omega arith),
        sign_ends,
        fits io n (omega arith),
        first_byte u (a / 4) (a % 4 * 16) (omega arith) (omega arith),
        next_index-eq io (omega arith),
        back,
      )
      refl

decode_two :
    (a b : ℕ)
    → a < 256
    → b < 256
    → Decodes
        (character (a / 4) ∷ character (a % 4 * 16 + b / 16) ∷ character (b % 16 * 4) ∷ 61 ∷ [])
        (a ∷ b ∷ [])
unfolding decode_loop decode_rest
decode_two a b ha hb u io n room small =
    let x = a / 4 in
    let y = a % 4 * 16 + b / 16 in
    let z = b % 16 * 4 in
    let back : x * 4 + y / 16 ≡ a = omega arith in
    let back' : y % 16 * 16 + z / 4 ≡ b = omega arith in
    rw
      (
        decode_loop,
        symbol-character x (omega arith),
        symbol-character y (omega arith),
        symbol-character z (omega arith),
        sign_ends,
        fits io n (omega arith),
        first_byte u x y (omega arith) (omega arith),
        next_index-eq io (omega arith),
        fits (io + 1) n (omega arith),
        second_byte (in_digit u x) y z (omega arith) (omega arith),
        next_index-eq (io + 1) (omega arith),
        two_more io,
        back,
        back',
      )
      refl

encode_one :
    (a v io n : ℕ) → a < 256 → io % 4 ≡ 0 → io + 4 < n → io + 4 < 2 ^ 32 → Encoded (a ∷ []) v io n
unfolding encode_loop digits encode_rest pad
encode_one a v io n ha aligned room small =
    let two : (4 - (io + 1 + 1) % 4) % 4 ≡ 2 = omega arith in
    (
      character (a / 4) ∷ character (a % 4 * 16) ∷ 61 ∷ 61 ∷ [],
      rw
          (
            fits io n (omega arith),
            first_digit v a ha,
            next_index-eq io (omega arith),
            fits (io + 1) n (omega arith),
            last_digit_of_one v a ha,
            next_index-eq (io + 1) (omega arith),
            two,
            fits (io + 1 + 1) n (omega arith),
            next_index-eq (io + 1 + 1) (omega arith),
            fits (io + 1 + 1 + 1) n (omega arith),
            next_index-eq (io + 1 + 1 + 1) (omega arith),
            fits (io + 1 + 1 + 1 + 1) n (omega arith),
            four_more io,
          )
          refl,
      decode_one a ha,
      refl,
    )

encode_two :
    (a b v io n : ℕ)
    → a < 256
    → b < 256
    → io % 4 ≡ 0
    → io + 4 < n
    → io + 4 < 2 ^ 32
    → Encoded (a ∷ b ∷ []) v io n
unfolding encode_loop digits encode_rest pad
encode_two a b v io n ha hb aligned room small =
    let one : (4 - (io + 1 + 1 + 1) % 4) % 4 ≡ 1 = omega arith in
    (
      character (a / 4) ∷ character (a % 4 * 16 + b / 16) ∷ character (b % 16 * 4) ∷ 61 ∷ [],
      rw
          (
            fits io n (omega arith),
            first_digit v a ha,
            next_index-eq io (omega arith),
            fits (io + 1) n (omega arith),
            second_digit v a b ha hb,
            next_index-eq (io + 1) (omega arith),
            fits (io + 1 + 1) n (omega arith),
            last_digit_of_two (in_byte v a) b hb,
            next_index-eq (io + 1 + 1) (omega arith),
            one,
            fits (io + 1 + 1 + 1) n (omega arith),
            next_index-eq (io + 1 + 1 + 1) (omega arith),
            fits (io + 1 + 1 + 1 + 1) n (omega arith),
            four_more io,
          )
          refl,
      decode_two a b ha hb,
      refl,
    )

decode_three :
    (a b c : ℕ) (chars bytes : List ℕ)
    → AreBytes (a ∷ b ∷ c ∷ [])
    → Decodes chars bytes
    → Decodes
        (character (a / 4)
          ∷ character (a % 4 * 16 + b / 16)
          ∷ character (b % 16 * 4 + c / 64)
          ∷ character (c % 64)
          ∷ chars)
        (a ∷ b ∷ c ∷ bytes)
decode_three a b c chars bytes h rest u io n room small =
    let x = a / 4 in
    let y = a % 4 * 16 + b / 16 in
    let z = b % 16 * 4 + c / 64 in
    let t = c % 64 in
    let w = in_digit (in_digit (in_digit (in_digit u x) y) z) t in
    let back : x * 4 + y / 16 ≡ a = omega arith in
    let back' : y % 16 * 16 + z / 4 ≡ b = omega arith in
    let back'' : z % 4 * 64 + t ≡ c = omega arith in
    rw
      (
        decode_four x y z t u io n chars (omega arith) (omega arith) (omega arith) (omega arith)
            (omega arith) (omega arith),
        rest w (io + 1 + 1 + 1) n (omega arith) (omega arith),
        three_and io (length bytes),
        back,
        back',
        back'',
      )
      refl

encoded :
    (bytes : List ℕ) (v io n : ℕ)
    → AreBytes bytes
    → io % 4 ≡ 0
    → io + encoded_length (length bytes) < n
    → io + encoded_length (length bytes) < 2 ^ 32
    → Encoded bytes v io n
unfolding encode_loop encode_rest pad decode_loop decode_rest
encoded [] v io n h aligned room small = (
  [],
  rw (aligned, fits io n (omega arith)) (ap (wrote io (0 ∷ [])) (none_more io)),
  λ u i k r s. ap (wrote i []) (none_more i),
  refl,
)
encoded (a ∷ []) v io n h aligned room small =
    encode_one a v io n h.0 aligned (omega arith) (omega arith)
encoded (a ∷ b ∷ []) v io n h aligned room small =
    encode_two a b v io n h.0 h.1.0 aligned (omega arith) (omega arith)
encoded (a ∷ b ∷ c ∷ bytes) v io n h aligned room small =
    let (chars, e, d, len) =
      encoded bytes (in_byte (in_byte (in_byte v a) b) c) (io + 1 + 1 + 1 + 1) n h.1.1.1
        (omega arith) (omega arith) (omega arith) in
    let three : AreBytes (a ∷ b ∷ c ∷ []) = (h.0, (h.1.0, (h.1.1.0, tt))) in
    (
      character (a / 4)
          ∷ character (a % 4 * 16 + b / 16)
          ∷ character (b % 16 * 4 + c / 64)
          ∷ character (c % 64)
          ∷ chars,
      rw
          (
            encode_three a b c v io n bytes three (omega arith) (omega arith),
            e,
            four_and io (length chars),
          )
          refl,
      decode_three a b c chars bytes three d,
      omega (arith, len),
    )

-- A list of bytes is encoded in any buffer with room for four characters for each three bytes, the
-- last three perhaps not complete, and one more, these characters being less than 2 ^ 31. What is
-- written are so many characters and a NUL, one behind the other from the beginning on; the characters
-- are the count that is returned, and they are decoded to the bytes in any buffer with room for these.
pub decode-encode :
    (bytes : List ℕ) (n k : ℕ)
    → AreBytes bytes
    → encoded_length (length bytes) < n
    → encoded_length (length bytes) < 2 ^ 31
    → length bytes ≤ k
    → (chars : List ℕ) × (encode bytes n ≡ wrote 0 (chars ++ 0 ∷ []) (length chars))
      × (decode chars k ≡ wrote 0 bytes (length bytes))
      × (length chars ≡ encoded_length (length bytes))
unfolding encode decode
decode-encode bytes n k h room small room' =
    let (chars, e, d, len) = encoded bytes 0 0 n h refl (omega arith) (omega arith) in
    let from_zero : (c : ℕ) → 0 + c ≡ c = λ c. omega arith in
    (
      chars,
      e ∙ ap (wrote 0 (chars ++ 0 ∷ [])) (from_zero (length chars)),
      d 0 0 k (omega arith) (omega arith) ∙ ap (wrote 0 bytes) (from_zero (length bytes)),
      len,
    )
