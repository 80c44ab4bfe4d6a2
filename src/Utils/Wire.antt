-- ===== src/Utils/Wire.antt =====
-- utils/wire.c: 16, 32 and 64-bit numbers in network byte order. The functions that write get the
-- bytes that `buf` points to, and return what they leave there.
pub mod RoundTrip
use Prim.Native.Nat.{bit_or}
use vnano_msg.Common.{ℕ, zero, suc, ◌+◌, ◌*◌, ◌/◌, ◌%◌, ◌^◌, List, [], ◌∷◌, Option, none, some}

-- `x << k` of a value that fits, and `(x >> k) & 0xff`.
abbrev pub shl : ℕ → ℕ → ℕ
shl x k = x * 2 ^ k

abbrev pub byte : ℕ → ℕ → ℕ
byte x k = x / 2 ^ k % 256

-- A read of fewer bytes than the number takes is out of bounds: `none`.
unfoldable pub gets : List ℕ → Option ℕ
gets (a ∷ b ∷ _) = some (bit_or (shl a 8) b)
gets _ = none

unfoldable pub puts : ℕ → List ℕ
puts v = byte v 8 ∷ byte v 0 ∷ []

unfoldable pub getl : List ℕ → Option ℕ
getl (a ∷ b ∷ c ∷ d ∷ _) = some (bit_or (bit_or (bit_or (shl a 24) (shl b 16)) (shl c 8)) d)
getl _ = none

unfoldable pub putl : ℕ → List ℕ
putl v = byte v 24 ∷ byte v 16 ∷ byte v 8 ∷ byte v 0 ∷ []

unfoldable pub getll : List ℕ → Option ℕ
getll (a ∷ b ∷ c ∷ d ∷ e ∷ f ∷ g ∷ h ∷ _) = some (
    bit_or
      (bit_or
        (bit_or
          (bit_or (bit_or (bit_or (bit_or (shl a 56) (shl b 48)) (shl c 40)) (shl d 32)) (shl e 24))
          (shl f 16))
        (shl g 8))
      (shl h 0))
getll _ = none

unfoldable pub putll : ℕ → List ℕ
putll v =
    byte v 56 ∷ byte v 48 ∷ byte v 40 ∷ byte v 32 ∷ byte v 24 ∷ byte v 16 ∷ byte v 8 ∷ byte v 0 ∷ []
