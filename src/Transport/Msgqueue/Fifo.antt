-- ===== src/Transport/Msgqueue/Fifo.antt =====
-- The queue as the list of its messages.
use vnano_msg.Common.{
  update, ℕ, suc, ◌+◌, ◌^◌, ◌<◌, ◌≡◌, refl, sym, ap, ◌∙◌, true, false, Option, none, some, List, [],
  ◌∷◌, ◌++◌, arith, length, length-append, ◌==◌, mem, IsDistinct, All, Option-cases, inl, inr,
}
use vnano_msg.Core.Pipes.{Msg}
use vnano_msg.Utils.ItemList.{push_back}
use vnano_msg.Utils.ItemList.Split.{push_back-IsDistinct}
use vnano_msg.Transport.Msgqueue.{Msgqueue, granularity, size_of, init, link, add_chunk, write}
use vnano_msg.Transport.Msgqueue.Chunks.{
  contents, IsChain, total, total-append, ordered, contents-write, contents-grow, IsChain-grow,
  IsChain-update_other, slots,
}

abbrev pub IsBelow : ℕ → ℕ → Type 0
IsBelow n c = c < n

-- A cached chunk is not in use.
abbrev pub IsSpare : Option ℕ → List ℕ → ℕ → Type 0
IsSpare none cs n = Unit {0}
IsSpare (some c) cs n = (mem c cs ≡ false) × (c < n)

-- The chunks in use are `in_chunk` and `rest`, and `l` the messages in them.
pub record Inv (q : Msgqueue) (rest : List ℕ) (l : List Msg) : Type 0 where
  pub chain : IsChain q.next (q.in_chunk ∷ rest) q.out_chunk
  pub distinct : IsDistinct (q.in_chunk ∷ rest)
  pub known : All (IsBelow q.fresh) (q.in_chunk ∷ rest)
  pub spare : IsSpare q.cache (q.in_chunk ∷ rest) q.fresh
  pub in_pos : q.in_pos < granularity
  pub order : ordered rest q.in_pos q.out_pos ≡ true
  pub holds : contents q.msgs q.in_pos (q.in_chunk ∷ rest) q.out_pos ≡ l
  pub count : q.count ≡ length l
  pub mem : q.mem ≡ total l
  pub small : total l < 2 ^ 64

-- The queue holds these messages.
abbrev pub Holds : Msgqueue → List Msg → Type 0
Holds q l = (rest : List ℕ) × Inv q rest l × (q.out_pos < granularity)

pub init-Holds :
    (maxmem : ℕ) (msgs : ℕ → ℕ → Msg) (next : ℕ → Option ℕ) → Holds (init maxmem msgs next) []
unfolding init contents slots
init-Holds maxmem msgs next = (
  [],
  record {
    chain = refl;
    distinct = (refl, tt);
    known = (omega arith, tt);
    spare = tt;
    in_pos = omega arith;
    order = refl;
    holds = refl;
    count = refl;
    mem = refl;
    small = omega arith;
  },
  omega arith,
)

-- A write, which may have filled the last chunk.
pub write-Inv :
    (q : Msgqueue) (rest : List ℕ) (l : List Msg) (m : Msg)
    → Inv q rest l
    → length l + 1 < 2 ^ 64
    → total l + size_of m < 2 ^ 64
    → Inv (write q m) rest (l ++ m ∷ [])
unfolding write
write-Inv q rest l m v b b' = record {
  chain = v.chain;
  distinct = v.distinct;
  known = v.known;
  spare = v.spare;
  in_pos = v.in_pos;
  order = order_after rest v.order;
  holds =
      contents-write q.msgs q.next m q.in_pos q.in_chunk rest q.out_chunk q.out_pos v.chain
        v.distinct v.order
      ∙ ap (λ (k : List Msg). k ++ m ∷ []) v.holds;
  count = omega (arith, v.count, length-append l (m ∷ []));
  mem = omega (arith, v.mem, total-append l (m ∷ []));
  small = omega (arith, total-append l (m ∷ []));
}
  where
    order_after :
        (rest : List ℕ)
        → ordered rest q.in_pos q.out_pos ≡ true
        → ordered rest q.in_pos (q.out_pos + 1) ≡ true
    order_after [] s = ground arith
    order_after (d ∷ cs) s = refl

All-wider : (n : ℕ) (cs : List ℕ) → All (IsBelow n) cs → All (IsBelow (suc n)) cs
All-wider n [] a = tt
All-wider n (c ∷ cs) a = (omega (arith, a.0), All-wider n cs a.1)

All-push_back :
    (n : ℕ) (cs : List ℕ) (c : ℕ) → All (IsBelow n) cs → c < n → All (IsBelow n) (push_back cs c)
All-push_back n [] c a h = (h, tt)
All-push_back n (d ∷ cs) c a h = (a.0, All-push_back n cs c a.1 h)

absent_above : (n : ℕ) (cs : List ℕ) → All (IsBelow n) cs → mem n cs ≡ false
absent_above n [] a = refl
absent_above n (c ∷ cs) a =
    let e : (n == c) ≡ false = ground (arith, a.0) in rw e (absent_above n cs a.1)

ordered-push_back : (rest : List ℕ) (c i o : ℕ) → ordered (push_back rest c) i o ≡ true
ordered-push_back [] c i o = refl
ordered-push_back (d ∷ rest) c i o = refl

-- A new last chunk behind a full one.
link-Inv :
    (q : Msgqueue) (rest : List ℕ) (l : List Msg) (c : ℕ)
    → Inv q rest l
    → q.out_pos ≡ granularity
    → mem c (q.in_chunk ∷ rest) ≡ false
    → c < q.fresh
    → Inv (link q c) (push_back rest c) l
unfolding link
link-Inv q rest l c v full absent old = record {
  chain = IsChain-grow q.next q.in_chunk rest q.out_chunk c v.chain v.distinct;
  distinct = push_back-IsDistinct c (q.in_chunk ∷ rest) absent v.distinct;
  known = All-push_back q.fresh (q.in_chunk ∷ rest) c v.known old;
  spare = tt;
  in_pos = v.in_pos;
  order = ordered-push_back rest c q.in_pos 0;
  holds =
      contents-grow q.msgs q.in_pos q.in_chunk rest c
      ∙ sym (ap (contents q.msgs q.in_pos (q.in_chunk ∷ rest)) full)
      ∙ v.holds;
  count = v.count;
  mem = v.mem;
  small = v.small;
}

spare_some :
    (o : Option ℕ) (cs : List ℕ) (n c : ℕ)
    → IsSpare o cs n
    → o ≡ some c
    → (mem c cs ≡ false) × (c < n)
spare_some o cs n c s e = rw e at s

IsSpare-wider : (o : Option ℕ) (cs : List ℕ) (n : ℕ) → IsSpare o cs n → IsSpare o cs (suc n)
IsSpare-wider none cs n s = tt
IsSpare-wider (some c) cs n s = (s.0, omega (arith, s.1))

-- Memory for a new chunk.
abbrev grown : Msgqueue → Msgqueue
grown q = record q { next = update q.next q.fresh none; fresh = suc q.fresh }

grown-Inv : (q : Msgqueue) (rest : List ℕ) (l : List Msg) → Inv q rest l → Inv (grown q) rest l
grown-Inv q rest l v = record {
  chain =
      IsChain-update_other q.next q.fresh none (q.in_chunk ∷ rest) q.out_chunk
        (absent_above q.fresh (q.in_chunk ∷ rest) v.known) v.chain;
  distinct = v.distinct;
  known = All-wider q.fresh (q.in_chunk ∷ rest) v.known;
  spare = IsSpare-wider q.cache (q.in_chunk ∷ rest) q.fresh v.spare;
  in_pos = v.in_pos;
  order = v.order;
  holds = v.holds;
  count = v.count;
  mem = v.mem;
  small = v.small;
}

pub add_chunk-Holds :
    (q : Msgqueue) (rest : List ℕ) (l : List Msg)
    → Inv q rest l
    → q.out_pos ≡ granularity
    → Holds (add_chunk q) l
unfolding add_chunk link
add_chunk-Holds q rest l v full = elim (Option-cases q.cache) [
  | inr (c, there) ↦
      let (absent, old) = spare_some q.cache (q.in_chunk ∷ rest) q.fresh c v.spare there in
      rw there (push_back rest c, link-Inv q rest l c v full absent old, positive)
  | inl gone ↦ rw gone (
    push_back rest q.fresh,
    link-Inv (grown q) rest l q.fresh (grown-Inv q rest l v) full
        (absent_above q.fresh (q.in_chunk ∷ rest) v.known) (omega arith),
    positive,
  )
]
  where
    positive : 0 < granularity
    positive = omega arith
