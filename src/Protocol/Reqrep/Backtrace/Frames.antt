-- ===== src/Protocol/Reqrep/Backtrace/Frames.antt =====
-- Messages that begin with a backtrace are split behind it, and no others are split.
use mathlib.Core.List.{append_assoc}
use vnano_msg.Common.{
  ℕ, ◌+◌, ◌-◌, ◌*◌, ◌^◌, ◌≤◌, ◌<◌, ◌≡◌, refl, sym, ap, ◌∙◌, true, false, some, List, [], ◌∷◌, ◌++◌,
  All, done, ok, arith, length, take, drop, is_empty, ltb, if◌then◌else◌, Bool-cases, Option-cases,
  inl, inr,
}
use vnano_msg.Core.Pipes.{Msg}
use vnano_msg.Utils.Wire.{getl, putl}
use vnano_msg.Utils.Wire.RoundTrip.{AreBytes, get-put, putl-getl}
use vnano_msg.Protocol.Reqrep.Backtrace.{is_bottom, count_hops, split_header, frames}

-- A word with its most significant bit clear.
abbrev pub IsHop : ℕ → Type 0
IsHop h = h < 2 ^ 31

take-length {ℓ} : {A : Type ℓ} (l r : List A) → take (length l) (l ++ r) ≡ l
take-length [] r = refl
take-length (x ∷ l) r = ap (λ t. x ∷ t) (take-length l r)

drop-length {ℓ} : {A : Type ℓ} (l r : List A) → drop (length l) (l ++ r) ≡ r
drop-length [] r = refl
drop-length (x ∷ l) r = drop-length l r

length-frames : (hops : List ℕ) (id : ℕ) → length (frames hops id) ≡ (length hops + 1) * 4
unfolding frames putl
length-frames [] id = refl
length-frames (h ∷ hops) id = omega (arith, length-frames hops id)

getl-putl : (v : ℕ) → v < 2 ^ 32 → getl (putl v) ≡ some v
unfolding putl
getl-putl v h = (get-put 0 v 0 [] (omega arith) h (omega arith)).1

count_hops_word :
    (a b c d v : ℕ) (rest : List ℕ) (i : ℕ)
    → getl (a ∷ b ∷ c ∷ d ∷ []) ≡ some v
    → count_hops (a ∷ b ∷ c ∷ d ∷ rest) i
      ≡ (if is_bottom v then some (i + 1) else count_hops rest (i + 1))
unfolding count_hops
count_hops_word a b c d v rest i e = ground (arith, e)

count_hops-putl :
    (v : ℕ) (rest : List ℕ) (i : ℕ)
    → v < 2 ^ 32
    → count_hops (putl v ++ rest) i
      ≡ (if is_bottom v then some (i + 1) else count_hops rest (i + 1))
unfolding putl
count_hops-putl v rest i h = count_hops_word _ _ _ _ v rest i (getl-putl v h)

count_hops-frames :
    (hops : List ℕ) (id : ℕ) (rest : List ℕ) (i : ℕ)
    → All IsHop hops
    → IsHop id
    → count_hops (frames hops id ++ rest) i ≡ some (i + (length hops + 1))
unfolding frames
count_hops-frames [] id rest i a h = ground (arith, count_hops-putl (id + 2 ^ 31) rest i)
count_hops-frames (x ∷ hops) id rest i a h = rw (append_assoc (putl x) (frames hops id) rest) (
    ground (
      arith,
      count_hops-putl x (frames hops id ++ rest) i,
      count_hops-frames hops id rest (i + 1) a.1 h,
    ))

-- A message that begins with a backtrace of no more words than NN_MAXTTL allows is split exactly
-- behind it, whatever follows.
pub split_header-frames :
    (maxttl : ℕ) (hops : List ℕ) (id : ℕ) (hdrs body : List ℕ)
    → All IsHop hops
    → IsHop id
    → length hops < maxttl
    → split_header maxttl (record { sphdr = []; hdrs = hdrs; body = frames hops id ++ body })
      ≡ done (ok (record { sphdr = frames hops id; hdrs = hdrs; body = body }))
unfolding split_header
split_header-frames maxttl hops id hdrs body a h lt =
    let l = length-frames hops id in
    let n = count_hops-frames hops id body 0 a h in
    let t : take ((0 + (length hops + 1)) * 4) (frames hops id ++ body) ≡ frames hops id =
      ap (λ (k : ℕ). take k (frames hops id ++ body)) (omega (arith, l))
      ∙ take-length (frames hops id) body in
    let d : drop ((0 + (length hops + 1)) * 4) (frames hops id ++ body) ≡ body =
      ap (λ (k : ℕ). drop k (frames hops id ++ body)) (omega (arith, l))
      ∙ drop-length (frames hops id) body in
    let few : ltb maxttl (0 + (length hops + 1)) ≡ false = ground arith in
    rw (split_header, n, few, t, d) refl

-- The words that `count_hops` counts, and what is behind them.
abbrev Counted : ℕ → ℕ → List ℕ → Type 0
Counted i n l =
    (hops : List ℕ) × (id : ℕ) × (rest : List ℕ) × (All IsHop hops)
    × (IsHop id)
    × (n ≡ i + (length hops + 1))
    × (l ≡ frames hops id ++ rest)

frames_bottom :
    (v : ℕ) (word l : List ℕ) → putl v ≡ word → 2 ^ 31 ≤ v → word ++ l ≡ frames [] (v - 2 ^ 31) ++ l
unfolding frames
frames_bottom v word l p le =
    let e : v - 2 ^ 31 + 2 ^ 31 ≡ v = omega arith in
    ap (λ (t : List ℕ). t ++ l) (sym (ap putl e ∙ p))

frames_hop :
    (v : ℕ) (word l hops : List ℕ) (id : ℕ) (rest : List ℕ)
    → putl v ≡ word
    → l ≡ frames hops id ++ rest
    → word ++ l ≡ frames (v ∷ hops) id ++ rest
unfolding frames
frames_hop v word l hops id rest p e =
    rw (← p, e) (sym (append_assoc (putl v) (frames hops id) rest))

count_hops-Counted : (l : List ℕ) (i n : ℕ) → AreBytes l → count_hops l i ≡ some n → Counted i n l
unfolding count_hops
count_hops-Counted [] i n b h = absurd (ground arith)
count_hops-Counted (x ∷ []) i n b h = absurd (ground arith)
count_hops-Counted (x ∷ y ∷ []) i n b h = absurd (ground arith)
count_hops-Counted (x ∷ y ∷ z ∷ []) i n b h = absurd (ground arith)
count_hops-Counted (x ∷ y ∷ z ∷ t ∷ l) i n b h =
    let (v, g, lt, p) = putl-getl x y z t [] (b.0, (b.1.0, (b.1.1.0, (b.1.1.1.0, tt)))) in
    let e = count_hops_word x y z t v l i g in
    elim (Bool-cases (is_bottom v)) [
      | inl bottom ↦
          ([], v - 2 ^ 31, l, tt, ground arith, ground arith, frames_bottom v _ l p (ground arith))
      | inr hop ↦
          let (hops, id, rest, small, low, count, split) =
            count_hops-Counted l (i + 1) n b.1.1.1.1 (ground arith) in
          (
            v ∷ hops,
            id,
            rest,
            (ground arith, small),
            low,
            ground arith,
            frames_hop v _ l hops id rest p split,
          )
    ]

unheaded : (l : List ℕ) → is_empty l ≡ true → l ≡ []
unheaded [] h = refl
unheaded (x ∷ l) h = cc

-- A message that is split began with a backtrace of no more words than NN_MAXTTL allows, which is
-- its header now; its body is what was behind, and it had no header before.
pub split_header_sound :
    (maxttl : ℕ) (m m' : Msg)
    → AreBytes m.body
    → split_header maxttl m ≡ done (ok m')
    → (hops : List ℕ) × (id : ℕ) × (All IsHop hops)
      × (IsHop id)
      × (length hops < maxttl)
      × (m.sphdr ≡ [])
      × (m.body ≡ frames hops id ++ m'.body)
      × (m' ≡ record m { sphdr = frames hops id; body = m'.body })
unfolding split_header
split_header_sound maxttl m m' b h = elim (Option-cases (count_hops m.body 0)) [
  | inl e ↦ absurd (ground arith)
  | inr (n, e) ↦
      let (hops, id, rest, small, low, count, split) = count_hops-Counted m.body 0 n b e in
      let few : length hops < maxttl = ground arith in
      let bare : m.sphdr ≡ [] = unheaded m.sphdr (ground arith) in
      let known = split_header-frames maxttl hops id m.hdrs rest small low few in
      let same : m ≡ record { sphdr = []; hdrs = m.hdrs; body = frames hops id ++ rest } =
        ground arith in
      let new : m' ≡ record { sphdr = frames hops id; hdrs = m.hdrs; body = rest } =
        cc (known, h, ap (split_header maxttl) same) in
      (hops, id, small, low, few, bare, ground arith, ground arith)
]
