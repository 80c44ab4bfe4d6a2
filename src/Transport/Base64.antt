-- ===== src/Transport/Base64.antt =====
-- transports/utils/base64.c: bytes as text, 6 bits in each character. The functions get the room that
-- there is in the buffer, and return the writes to it with the return code. `ii` goes over the input,
-- which is a list of less than 2 ^ 32 elements: a longer one, which `size_t` allows, would make `ii`
-- wrap, and is not in the scope of the definitions.
pub mod Groups
pub mod RoundTrip
pub mod Bounds
use Prim.Native.Nat.{bit_or}
use vnano_msg.Common.{
  ℕ, zero, suc, ◌+◌, ◌-◌, ◌*◌, ◌/◌, ◌%◌, ◌^◌, Bool, true, false, ◌&&◌, ◌||◌, List, [], ◌∷◌, Reply,
  ok, err, enobufs, leb, ◌==◌, if◌then◌else◌,
}

-- ENCODEMAP and DECODEMAP, 255 being no character of the code.
abbrev pub encode_map : List ℕ
encode_map =
    65 ∷ 66 ∷ 67 ∷ 68 ∷ 69 ∷ 70 ∷ 71 ∷ 72 ∷ 73 ∷ 74 ∷ 75 ∷ 76 ∷ 77 ∷ 78 ∷ 79 ∷ 80 ∷ 81 ∷ 82 ∷ 83
    ∷ 84 ∷ 85 ∷ 86 ∷ 87 ∷ 88 ∷ 89 ∷ 90 ∷ 97 ∷ 98 ∷ 99 ∷ 100 ∷ 101 ∷ 102 ∷ 103 ∷ 104 ∷ 105 ∷ 106
    ∷ 107 ∷ 108 ∷ 109 ∷ 110 ∷ 111 ∷ 112 ∷ 113 ∷ 114 ∷ 115 ∷ 116 ∷ 117 ∷ 118 ∷ 119 ∷ 120 ∷ 121 ∷ 122
    ∷ 48 ∷ 49 ∷ 50 ∷ 51 ∷ 52 ∷ 53 ∷ 54 ∷ 55 ∷ 56 ∷ 57 ∷ 43 ∷ 47 ∷ []

abbrev pub decode_map : List ℕ
decode_map =
    255 ∷ 255 ∷ 255 ∷ 255 ∷ 255 ∷ 255 ∷ 255 ∷ 255 ∷ 255 ∷ 255 ∷ 255 ∷ 255 ∷ 255 ∷ 255 ∷ 255 ∷ 255
    ∷ 255 ∷ 255 ∷ 255 ∷ 255 ∷ 255 ∷ 255 ∷ 255 ∷ 255 ∷ 255 ∷ 255 ∷ 255 ∷ 255 ∷ 255 ∷ 255 ∷ 255 ∷ 255
    ∷ 255 ∷ 255 ∷ 255 ∷ 255 ∷ 255 ∷ 255 ∷ 255 ∷ 255 ∷ 255 ∷ 255 ∷ 255 ∷ 62 ∷ 255 ∷ 255 ∷ 255 ∷ 63
    ∷ 52 ∷ 53 ∷ 54 ∷ 55 ∷ 56 ∷ 57 ∷ 58 ∷ 59 ∷ 60 ∷ 61 ∷ 255 ∷ 255 ∷ 255 ∷ 62 ∷ 255 ∷ 255 ∷ 255 ∷ 0
    ∷ 1 ∷ 2 ∷ 3 ∷ 4 ∷ 5 ∷ 6 ∷ 7 ∷ 8 ∷ 9 ∷ 10 ∷ 11 ∷ 12 ∷ 13 ∷ 14 ∷ 15 ∷ 16 ∷ 17 ∷ 18 ∷ 19 ∷ 20 ∷ 21
    ∷ 22 ∷ 23 ∷ 24 ∷ 25 ∷ 255 ∷ 255 ∷ 255 ∷ 255 ∷ 255 ∷ 255 ∷ 26 ∷ 27 ∷ 28 ∷ 29 ∷ 30 ∷ 31 ∷ 32 ∷ 33
    ∷ 34 ∷ 35 ∷ 36 ∷ 37 ∷ 38 ∷ 39 ∷ 40 ∷ 41 ∷ 42 ∷ 43 ∷ 44 ∷ 45 ∷ 46 ∷ 47 ∷ 48 ∷ 49 ∷ 50 ∷ 51 ∷ 255
    ∷ 255 ∷ 255 ∷ 255 ∷ 255 ∷ 255 ∷ 255 ∷ 255 ∷ 255 ∷ 255 ∷ 255 ∷ 255 ∷ 255 ∷ 255 ∷ 255 ∷ 255 ∷ 255
    ∷ 255 ∷ 255 ∷ 255 ∷ 255 ∷ 255 ∷ 255 ∷ 255 ∷ 255 ∷ 255 ∷ 255 ∷ 255 ∷ 255 ∷ 255 ∷ 255 ∷ 255 ∷ 255
    ∷ 255 ∷ 255 ∷ 255 ∷ 255 ∷ 255 ∷ 255 ∷ 255 ∷ 255 ∷ 255 ∷ 255 ∷ 255 ∷ 255 ∷ 255 ∷ 255 ∷ 255 ∷ 255
    ∷ 255 ∷ 255 ∷ 255 ∷ 255 ∷ 255 ∷ 255 ∷ 255 ∷ 255 ∷ 255 ∷ 255 ∷ 255 ∷ 255 ∷ 255 ∷ 255 ∷ 255 ∷ 255
    ∷ 255 ∷ 255 ∷ 255 ∷ 255 ∷ 255 ∷ 255 ∷ 255 ∷ 255 ∷ 255 ∷ 255 ∷ 255 ∷ 255 ∷ 255 ∷ 255 ∷ 255 ∷ 255
    ∷ 255 ∷ 255 ∷ 255 ∷ 255 ∷ 255 ∷ 255 ∷ 255 ∷ 255 ∷ 255 ∷ 255 ∷ 255 ∷ 255 ∷ 255 ∷ 255 ∷ 255 ∷ 255
    ∷ 255 ∷ 255 ∷ 255 ∷ 255 ∷ 255 ∷ 255 ∷ 255 ∷ 255 ∷ 255 ∷ 255 ∷ 255 ∷ 255 ∷ 255 ∷ 255 ∷ 255 ∷ 255
    ∷ 255 ∷ 255 ∷ 255 ∷ 255 ∷ 255 ∷ 255 ∷ 255 ∷ 255 ∷ 255 ∷ 255 ∷ 255 ∷ 255 ∷ 255 ∷ 255 ∷ 255 ∷ 255
    ∷ 255 ∷ 255 ∷ 255 ∷ 255 ∷ []

-- An element of a map, whose index is within it.
abbrev pub element : List ℕ → ℕ → ℕ
element [] i = 255
element (x ∷ xs) zero = x
element (x ∷ xs) (suc i) = element xs i

-- `isspace` in the locale "C"
abbrev pub is_space : ℕ → Bool
is_space c = c == 32 || (leb 9 c && leb c 13)

-- What a character is to the decoder.
pub data Symbol : Type 0 where
  skipped ended : Symbol
  digit : ℕ → Symbol

abbrev pub looked_up : ℕ → Symbol
looked_up x = if x == 255 then ended else digit x

unfoldable pub symbol : ℕ → Symbol
symbol c =
    if is_space c then skipped else if c == 61 then ended else looked_up (element decode_map c)

unfoldable pub character : ℕ → ℕ
character x = element encode_map x

-- What a call did: the writes to the buffer in their order, each an index with the character that is
-- written there, and the return code. A count is told before it becomes an `int`, which is negative
-- from 2 ^ 31 on.
pub record Written : Type 0 where
  pub writes : List (ℕ × ℕ)
  pub rc : Reply ℕ

abbrev pub returned : Reply ℕ → Written
returned rc = record { writes = []; rc = rc }

-- A character that is written at the index `io`, with what is done afterwards.
abbrev pub push : ℕ → ℕ → Written → Written
push c io rest = record { writes = (io, c) ∷ rest.writes; rc = rest.rc }

-- `if (io >= out_len) return -ENOBUFS; out [io] = c;` in a buffer of `n`.
abbrev pub put : ℕ → ℕ → ℕ → Written → Written
put c io n rest = if leb n io then returned (err enobufs) else push c io rest

-- `io++` of an `unsigned`.
unfoldable pub next_index : ℕ → ℕ
next_index io = (io + 1) % 2 ^ 32

-- `(v << 6) | ch` and `(v << 8) | ch` of a `uint32_t`.
unfoldable pub in_digit : ℕ → ℕ → ℕ
in_digit v ch = bit_or (v * 64 % 2 ^ 32) ch

unfoldable pub in_byte : ℕ → ℕ → ℕ
in_byte v ch = bit_or (v * 256 % 2 ^ 32) ch

-- The test after the loop, which a rest of less than 8 bits never meets.
unfoldable pub decode_rest : ℕ → ℕ → ℕ → ℕ → Written
decode_rest v rem io n =
    if leb 8 rem
    then put (v / 2 ^ (rem - 8) % 256) io n (returned (ok (next_index io)))
    else returned (ok io)

-- The loop of `nn_base64_decode` from a character on.
unfoldable pub decode_loop : List ℕ → ℕ → ℕ → ℕ → ℕ → Written
decode_loop [] v rem io n = decode_rest v rem io n
decode_loop (c ∷ cs) v rem io n = elim (symbol c) [
  | skipped ↦ decode_loop cs v rem io n
  | ended ↦ decode_rest v rem io n
  | digit ch ↦ elim (leb 8 (rem + 6)) [
    | true ↦
        let more = decode_loop cs (in_digit v ch) (rem + 6 - 8) (next_index io) n in
        put (in_digit v ch / 2 ^ (rem + 6 - 8) % 256) io n more
    | false ↦ decode_loop cs (in_digit v ch) (rem + 6) io n
  ]
]

unfoldable pub decode : List ℕ → ℕ → Written
decode input out_len = decode_loop input 0 0 0 out_len

-- The padding, `left` characters of it, and the NUL behind.
unfoldable pub pad : ℕ → ℕ → ℕ → Written
pad zero io n = put 0 io n (returned (ok io))
pad (suc left) io n = put 61 io n (pad left (next_index io) n)

-- What comes after the loop of `nn_base64_encode`. The padding goes on until `io & 3` is 0.
unfoldable pub encode_rest : ℕ → ℕ → ℕ → ℕ → Written
encode_rest v rem io n =
    if rem == 0
    then pad ((4 - io % 4) % 4) io n
    else put (character (v * 2 ^ (6 - rem) % 2 ^ 32 % 64)) io n
        (pad ((4 - next_index io % 4) % 4) (next_index io) n)

-- The inner loop, for at most `rounds`, and what comes behind it. It takes 6 bits from `rem` in
-- each round, so that `rem` rounds are enough.
unfoldable pub digits : ℕ → ℕ → ℕ → ℕ → ℕ → (ℕ → ℕ → Written) → Written
digits zero v rem io n behind = behind rem io
digits (suc rounds) v rem io n behind = elim (leb 6 rem) [
  | false ↦ behind rem io
  | true ↦
      let more = digits rounds v (rem - 6) (next_index io) n behind in
      put (character (v / 2 ^ (rem - 6) % 64)) io n more
]

-- The loop of `nn_base64_encode` from a byte on.
unfoldable pub encode_loop : List ℕ → ℕ → ℕ → ℕ → ℕ → Written
encode_loop [] v rem io n = encode_rest v rem io n
encode_loop (ch ∷ bytes) v rem io n =
    digits (rem + 8) (in_byte v ch) (rem + 8) io n (λ r i. encode_loop bytes (in_byte v ch) r i n)

unfoldable pub encode : List ℕ → ℕ → Written
encode input out_len = encode_loop input 0 0 0 out_len
