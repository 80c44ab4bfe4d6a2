-- ===== src/Transport/Msgqueue/Chunks.antt =====
-- The messages in a chain of chunks.
use mathlib.Core.List.{append-nil, append_assoc}
use vnano_msg.Common.{
  update, ℕ, zero, suc, ◌+◌, ◌-◌, ◌≤◌, ◌<◌, ◌≡◌, refl, sym, ap, Bool, true, false, Option, some,
  List, [], ◌∷◌, ◌++◌, arith, length, length-append, leb, ◌==◌, mem, IsDistinct, Bool-cases, inl,
  inr,
}
use vnano_msg.Core.Pipes.{Msg}
use vnano_msg.Transport.Msgqueue.{granularity, size_of}

-- So many messages of a chunk, from a position on.
unfoldable pub slots : (ℕ → Msg) → ℕ → ℕ → List Msg
slots f i zero = []
slots f i (suc n) = f i ∷ slots f (suc i) n

-- The messages of a chain from position `i` of the first chunk up to position `o` of the last.
unfoldable pub contents : (ℕ → ℕ → Msg) → ℕ → List ℕ → ℕ → List Msg
contents h i [] o = []
contents h i (c ∷ []) o = slots (h c) i (o - i)
contents h i (c ∷ d ∷ cs) o = slots (h c) i (granularity - i) ++ contents h 0 (d ∷ cs) o

-- Each chunk points to the next, and the last is `out`.
abbrev pub IsChain : (ℕ → Option ℕ) → List ℕ → ℕ → Type 0
IsChain next [] out = ⊥
IsChain next (c ∷ []) out = c ≡ out
IsChain next (c ∷ d ∷ cs) out = (next c ≡ some d) × IsChain next (d ∷ cs) out

abbrev pub total : List Msg → ℕ
total [] = 0
total (m ∷ l) = size_of m + total l

pub total-append : (l r : List Msg) → total (l ++ r) ≡ total l + total r
total-append [] r = omega arith
total-append (m ∷ l) r = omega (arith, total-append l r)

pub mem-last :
    (next : ℕ → Option ℕ) (c : ℕ) (cs : List ℕ) (out : ℕ)
    → IsChain next (c ∷ cs) out
    → mem out (c ∷ cs) ≡ true
mem-last next c [] out h = ground arith
mem-last next c (d ∷ cs) out h = ground (arith, mem-last next d cs out h.1)

slots-update_above :
    (f : ℕ → Msg) (m : Msg) (i n p : ℕ) → i + n ≤ p → slots (update f p m) i n ≡ slots f i n
unfolding slots
slots-update_above f m i zero p h = refl
slots-update_above f m i (suc n) p h = ground (arith, slots-update_above f m (suc i) n p)

-- A write behind the last message of a chunk adds the message.
slots-write :
    (f : ℕ → Msg) (m : Msg) (i n p : ℕ)
    → i + n ≡ p
    → slots (update f p m) i (suc n) ≡ slots f i n ++ m ∷ []
unfolding slots
slots-write f m i zero p h = ground arith
slots-write f m i (suc n) p h = let ih = slots-write f m (suc i) n p (omega arith) in ground arith

-- A write to a chunk that is not in the chain changes nothing.
contents-update_other :
    (h : ℕ → ℕ → Msg) (k : ℕ) (f : ℕ → Msg) (i : ℕ) (cs : List ℕ) (o : ℕ)
    → mem k cs ≡ false
    → contents (update h k f) i cs o ≡ contents h i cs o
unfolding contents
contents-update_other h k f i [] o n = refl
contents-update_other h k f i (c ∷ []) o n = let e : (k == c) ≡ false = ground arith in rw e refl
contents-update_other h k f i (c ∷ d ∷ cs) o n =
    let e : (k == c) ≡ false = ground arith in
    rw (e, contents-update_other h k f 0 (d ∷ cs) o (ground arith)) refl

-- With one chunk, the positions are in order.
abbrev pub ordered : List ℕ → ℕ → ℕ → Bool
ordered [] i o = leb i o
ordered (d ∷ cs) i o = true

pub ordered_from_start : (cs : List ℕ) (o : ℕ) → ordered cs 0 o ≡ true
ordered_from_start [] o = ground arith
ordered_from_start (d ∷ cs) o = refl

other_chunk : (c out : ℕ) (cs : List ℕ) → mem out cs ≡ true → mem c cs ≡ false → (out == c) ≡ false
other_chunk c out cs a b = elim (Bool-cases (out == c)) [
  | inr e ↦ e
  | inl e ↦
      let same : out ≡ c = ground arith in
      let absent : mem out cs ≡ false = rw same b in absurd (ground arith)
]

-- A write at the end of the chain adds the message.
pub contents-write :
    (h : ℕ → ℕ → Msg) (next : ℕ → Option ℕ) (m : Msg) (i c : ℕ) (cs : List ℕ) (out o : ℕ)
    → IsChain next (c ∷ cs) out
    → IsDistinct (c ∷ cs)
    → ordered cs i o ≡ true
    → contents (update h out (update (h out) o m)) i (c ∷ cs) (o + 1)
      ≡ contents h i (c ∷ cs) o ++ m ∷ []
unfolding contents
contents-write h next m i c [] out o l n s =
    let here : (out == c) ≡ true = ground arith in
    let more : o + 1 - i ≡ suc (o - i) = ground arith in
    rw (here, more, sym l) (slots-write (h c) m i (o - i) o (ground arith))
contents-write h next m i c (d ∷ cs) out o l n s =
    let inside = mem-last next d cs out l.1 in
    let other : (out == c) ≡ false = other_chunk c out (d ∷ cs) inside n.0 in
    rw (other, contents-write h next m 0 d cs out o l.1 n.1 (ordered_from_start cs o))
      (sym (append_assoc (slots (h c) i (granularity - i)) (contents h 0 (d ∷ cs) o) (m ∷ [])))

-- A chunk behind a full one holds nothing yet.
pub contents-grow :
    (h : ℕ → ℕ → Msg) (i c : ℕ) (cs : List ℕ) (new : ℕ)
    → contents h i ((c ∷ cs) ++ new ∷ []) 0 ≡ contents h i (c ∷ cs) granularity
unfolding contents slots
contents-grow h i c [] new = append-nil (slots (h c) i (granularity - i))
contents-grow h i c (d ∷ cs) new = rw (contents-grow h 0 d cs new) refl

pub IsChain-grow :
    (next : ℕ → Option ℕ) (c : ℕ) (cs : List ℕ) (out new : ℕ)
    → IsChain next (c ∷ cs) out
    → IsDistinct (c ∷ cs)
    → IsChain (update next out (some new)) ((c ∷ cs) ++ new ∷ []) new
IsChain-grow next c [] out new l n = (ground arith, refl)
IsChain-grow next c (d ∷ cs) out new l n =
    let other = other_chunk c out (d ∷ cs) (mem-last next d cs out l.1) n.0 in
    (rw other (l.0), IsChain-grow next d cs out new l.1 n.1)

length-slots : (f : ℕ → Msg) (i n : ℕ) → length (slots f i n) ≡ n
unfolding slots
length-slots f i zero = refl
length-slots f i (suc n) = ap suc (length-slots f (suc i) n)

slots-first :
    (f : ℕ → Msg) (i o : ℕ) → i < o → slots f i (o - i) ≡ f i ∷ slots f (i + 1) (o - (i + 1))
unfolding slots
slots-first f i o h =
    let e : o - i ≡ suc (o - (i + 1)) = omega arith in
    let e' : suc i ≡ i + 1 = omega arith in rw (e, e') refl

-- The first message, and the rest of its chunk.
pub contents-first :
    (h : ℕ → ℕ → Msg) (i c : ℕ) (cs : List ℕ) (o : ℕ)
    → i + 1 < granularity
    → 0 < length (contents h i (c ∷ cs) o)
    → contents h i (c ∷ cs) o ≡ h c i ∷ contents h (i + 1) (c ∷ cs) o
unfolding contents slots
contents-first h i c [] o a n = slots-first (h c) i o (omega (arith, length-slots (h c) i (o - i)))
contents-first h i c (d ∷ cs) o a n =
    ap (λ (l : List Msg). l ++ contents h 0 (d ∷ cs) o)
      (slots-first (h c) i granularity (omega arith))

-- The last message of a chunk.
pub contents-last :
    (h : ℕ → ℕ → Msg) (i c d : ℕ) (cs : List ℕ) (o : ℕ)
    → i + 1 ≡ granularity
    → contents h i (c ∷ d ∷ cs) o ≡ h c i ∷ contents h 0 (d ∷ cs) o
unfolding contents slots
contents-last h i c d cs o a = let e : granularity - i ≡ 1 = omega arith in rw e refl

-- A pointer of a chunk that is not in the chain.
pub IsChain-update_other :
    (next : ℕ → Option ℕ) (k : ℕ) (v : Option ℕ) (cs : List ℕ) (out : ℕ)
    → mem k cs ≡ false
    → IsChain next cs out
    → IsChain (update next k v) cs out
IsChain-update_other next k v [] out n l = l
IsChain-update_other next k v (c ∷ []) out n l = l
IsChain-update_other next k v (c ∷ d ∷ cs) out n l =
    let e : (k == c) ≡ false = ground arith in
    (rw e (l.0), IsChain-update_other next k v (d ∷ cs) out (ground arith) l.1)

-- Behind a message the positions stay in order.
pub ordered-next :
    (h : ℕ → ℕ → Msg) (i c : ℕ) (cs : List ℕ) (o : ℕ)
    → 0 < length (contents h i (c ∷ cs) o)
    → ordered cs i o ≡ true
    → ordered cs (i + 1) o ≡ true
unfolding contents
ordered-next h i c [] o n s = ground (arith, length-slots (h c) i (o - i))
ordered-next h i c (d ∷ cs) o n s = refl

-- A chain of one chunk ends before the end of the chunk.
pub contents-single : (h : ℕ → ℕ → Msg) (i c o : ℕ) → 0 < length (contents h i (c ∷ []) o) → i < o
unfolding contents
contents-single h i c o n = omega (arith, length-slots (h c) i (o - i))

-- A chain of more chunks is not empty.
pub contents-more :
    (h : ℕ → ℕ → Msg) (i c d : ℕ) (cs : List ℕ) (o : ℕ)
    → i < granularity
    → 0 < length (contents h i (c ∷ d ∷ cs) o)
unfolding contents
contents-more h i c d cs o n = omega (
  arith,
  length-append (slots (h c) i (granularity - i)) (contents h 0 (d ∷ cs) o),
  length-slots (h c) i (granularity - i),
)
