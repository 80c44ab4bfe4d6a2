-- ===== src/Utils/Wire/RoundTrip.antt =====
-- Numbers through utils/wire.c and back.
use Prim.Native.Nat.{bit_or}
use vnano_msg.Common.{
  ℕ, ◌+◌, ◌*◌, ◌^◌, ◌<◌, ◌≡◌, refl, ap, ◌∙◌, List, [], ◌∷◌, ◌++◌, Option, some, arith, All,
}
use vnano_msg.Common.Bits.{bit_or-shift}
use vnano_msg.Utils.Wire.{shl, byte, gets, puts, getl, putl, getll, putll}

-- Every element is a byte.
abbrev pub AreBytes : List ℕ → Type 0
AreBytes = All (λ x. x < 256)

-- One more `| b`, where the digits joined so far end above those of `b`.
pub join : (k x y b : ℕ) → x ≡ y * 2 ^ k → b < 2 ^ k → bit_or x b ≡ x + b
join k x y b e h = rw e (bit_or-shift k y b h)

gets_lem : (a b : ℕ) (r : List ℕ) → b < 256 → gets (a ∷ b ∷ r) ≡ some (a * 256 + b)
unfolding gets
gets_lem a b r h = ap {B = Option ℕ} some (join 8 (shl a 8) a b refl h)

getl_lem :
    (a b c d : ℕ) (r : List ℕ)
    → AreBytes (a ∷ b ∷ c ∷ d ∷ [])
    → getl (a ∷ b ∷ c ∷ d ∷ r) ≡ some (((a * 256 + b) * 256 + c) * 256 + d)
unfolding getl
getl_lem a b c d r h =
    let e1 = join 24 (shl a 24) a (shl b 16) refl (omega arith) in
    let e2 =
      join 16 (bit_or (shl a 24) (shl b 16)) (a * 256 + b) (shl c 8) (omega (arith, e1))
        (omega arith) in
    let e3 =
      join 8 (bit_or (bit_or (shl a 24) (shl b 16)) (shl c 8)) ((a * 256 + b) * 256 + c) d
        (omega (arith, e1, e2)) (omega arith) in
    ap {B = Option ℕ} some (omega (arith, e1, e2, e3))

getll_lem :
    (a b c d e f g h : ℕ) (r : List ℕ)
    → AreBytes (a ∷ b ∷ c ∷ d ∷ e ∷ f ∷ g ∷ h ∷ [])
    → getll (a ∷ b ∷ c ∷ d ∷ e ∷ f ∷ g ∷ h ∷ r)
      ≡ some ((((((((a) * 256 + b) * 256 + c) * 256 + d) * 256 + e) * 256 + f) * 256 + g) * 256 + h)
unfolding getll
getll_lem a b c d e f g h r bytes =
    let e1 = join 56 (shl a 56) (a) (shl b 48) (omega (arith)) (omega arith) in
    let e2 =
      join 48 (bit_or (shl a 56) (shl b 48)) ((a) * 256 + b) (shl c 40) (omega (arith, e1))
        (omega arith) in
    let e3 =
      join 40 (bit_or (bit_or (shl a 56) (shl b 48)) (shl c 40)) (((a) * 256 + b) * 256 + c)
        (shl d 32) (omega (arith, e1, e2)) (omega arith) in
    let e4 =
      join 32 (bit_or (bit_or (bit_or (shl a 56) (shl b 48)) (shl c 40)) (shl d 32))
        ((((a) * 256 + b) * 256 + c) * 256 + d) (shl e 24) (omega (arith, e1, e2, e3))
        (omega arith) in
    let e5 =
      join 24
        (bit_or (bit_or (bit_or (bit_or (shl a 56) (shl b 48)) (shl c 40)) (shl d 32)) (shl e 24))
        (((((a) * 256 + b) * 256 + c) * 256 + d) * 256 + e) (shl f 16)
        (omega (arith, e1, e2, e3, e4)) (omega arith) in
    let e6 =
      join 16
        (bit_or
          (bit_or (bit_or (bit_or (bit_or (shl a 56) (shl b 48)) (shl c 40)) (shl d 32)) (shl e 24))
          (shl f 16))
        ((((((a) * 256 + b) * 256 + c) * 256 + d) * 256 + e) * 256 + f) (shl g 8)
        (omega (arith, e1, e2, e3, e4, e5)) (omega arith) in
    let e7 =
      join 8
        (bit_or
          (bit_or
            (bit_or (bit_or (bit_or (bit_or (shl a 56) (shl b 48)) (shl c 40)) (shl d 32))
              (shl e 24))
            (shl f 16))
          (shl g 8))
        (((((((a) * 256 + b) * 256 + c) * 256 + d) * 256 + e) * 256 + f) * 256 + g) (shl h 0)
        (omega (arith, e1, e2, e3, e4, e5, e6)) (omega arith) in
    ap {B = Option ℕ} some (omega (arith, e1, e2, e3, e4, e5, e6, e7))

-- Each reader returns the number that the writer of its width was given, whatever bytes stand
-- behind: every number of 16, of 32 and of 64 bits.
pub get-put :
    (u v w : ℕ) (r : List ℕ)
    → u < 2 ^ 16
    → v < 2 ^ 32
    → w < 2 ^ 64
    → (gets (puts u ++ r) ≡ some u)
      × (getl (putl v ++ r) ≡ some v)
      × (getll (putll w ++ r) ≡ some w)
unfolding puts putl putll
get-put u v w r hu hv hw = (
  gets_lem (byte u 8) (byte u 0) r (omega arith) ∙ ap {B = Option ℕ} some (omega arith),
  getl_lem (byte v 24) (byte v 16) (byte v 8) (byte v 0) r (omega arith)
      ∙ ap {B = Option ℕ} some (omega arith),
  getll_lem (byte w 56) (byte w 48) (byte w 40) (byte w 32) (byte w 24) (byte w 16) (byte w 8)
        (byte w 0) r (omega arith)
      ∙ ap {B = Option ℕ} some (omega arith),
)

-- Four bytes are a number below 2 ^ 32 that `nn_putl` writes as the same bytes.
pub putl-getl :
    (a b c d : ℕ) (r : List ℕ)
    → AreBytes (a ∷ b ∷ c ∷ d ∷ [])
    → (v : ℕ) × (getl (a ∷ b ∷ c ∷ d ∷ r) ≡ some v) × (v < 2 ^ 32) × (putl v ≡ a ∷ b ∷ c ∷ d ∷ [])
unfolding putl
putl-getl a b c d r h =
    (((a * 256 + b) * 256 + c) * 256 + d, getl_lem a b c d r h, omega arith, ground arith)
