-- ===== src/Utils/ItemList/Split.antt =====
-- A list of distinct items cut at one of them.
use mathlib.Core.Bool.{or_assoc}
use vnano_msg.Common.{
  ℕ, ◌≡◌, refl, true, false, ◌||◌, some, List, [], ◌∷◌, ◌++◌, arith, mem, IsDistinct, ◌==◌,
  if◌then◌else◌,
}
use vnano_msg.Utils.ItemList.{begin, next, without, push_back}

pub before : ℕ → List ℕ → List ℕ
before x [] = []
before x (y ∷ l) = if x == y then [] else y ∷ before x l

pub after : ℕ → List ℕ → List ℕ
after x [] = []
after x (y ∷ l) = if x == y then l else after x l

pub before-append-after : (x : ℕ) (l : List ℕ) → mem x l ≡ true → before x l ++ x ∷ after x l ≡ l
unfolding before after
before-append-after x [] h = cc
before-append-after x (y ∷ l) h = ground (arith, before-append-after x l)

pub mem-append : (x : ℕ) (l r : List ℕ) → mem x (l ++ r) ≡ (mem x l || mem x r)
mem-append x [] r = refl
mem-append x (y ∷ l) r = rw (mem-append x l r, or_assoc)

pub before-append : (x : ℕ) (b a : List ℕ) → IsDistinct (b ++ x ∷ a) → before x (b ++ x ∷ a) ≡ b
unfolding before
before-append x [] a d = ground arith
before-append x (y ∷ b) a d = ground (arith, before-append x b a d.1, mem-append y b (x ∷ a))

pub after-append : (x : ℕ) (b a : List ℕ) → IsDistinct (b ++ x ∷ a) → after x (b ++ x ∷ a) ≡ a
unfolding after
after-append x [] a d = ground arith
after-append x (y ∷ b) a d = ground (arith, after-append x b a d.1, mem-append y b (x ∷ a))

pub next-after : (x : ℕ) (l : List ℕ) → next x l ≡ begin (after x l)
unfolding next after
next-after x [] = refl
next-after x (y ∷ l) = ground (arith, next-after x l)

pub without-append :
    (x : ℕ) (b a : List ℕ) → IsDistinct (b ++ x ∷ a) → without x (b ++ x ∷ a) ≡ b ++ a
unfolding without
without-append x [] a d = ground arith
without-append x (y ∷ b) a d = ground (arith, without-append x b a d.1, mem-append y b (x ∷ a))

pub mem-without : (x y : ℕ) (l : List ℕ) → mem x l ≡ false → mem x (without y l) ≡ false
unfolding without
mem-without x y [] h = refl
mem-without x y (z ∷ l) h = ground (arith, mem-without x y l)

pub without-IsDistinct : (x : ℕ) (l : List ℕ) → IsDistinct l → IsDistinct (without x l)
unfolding without
without-IsDistinct x [] d = tt
without-IsDistinct x (y ∷ l) d = ground (arith, without-IsDistinct x l d.1, mem-without y x l d.0)

pub push_back-IsDistinct :
    (x : ℕ) (l : List ℕ) → mem x l ≡ false → IsDistinct l → IsDistinct (push_back l x)
push_back-IsDistinct x [] h d = (refl, tt)
push_back-IsDistinct x (y ∷ l) h d =
    ground (arith, push_back-IsDistinct x l, mem-append y l (x ∷ []))

pub mem-without_ne :
    (x y : ℕ) (l : List ℕ) → (x == y) ≡ false → mem x l ≡ true → mem x (without y l) ≡ true
unfolding without
mem-without_ne x y [] e h = h
mem-without_ne x y (z ∷ l) e h = ground (arith, mem-without_ne x y l e)

pub mem-next : (x y : ℕ) (l : List ℕ) → next x l ≡ some y → mem y (without x l) ≡ true
unfolding next without
mem-next x y [] h = cc
mem-next x y (z ∷ []) h = ground (arith, mem-next x y [])
mem-next x y (z ∷ w ∷ l) h = ground (arith, mem-next x y (w ∷ l))

pub mem_of_without : (x y : ℕ) (l : List ℕ) → mem x (without y l) ≡ true → mem x l ≡ true
unfolding without
mem_of_without x y [] h = h
mem_of_without x y (z ∷ l) h = ground (arith, mem_of_without x y l)
