-- ===== src/Transport/Msgqueue/Refine.antt =====
-- The calls of the queue against calls on a list.
use vnano_msg.Common.{
  ℕ, suc, ◌+◌, ◌-◌, ◌%◌, ◌^◌, ◌<◌, ◌≡◌, refl, sym, ap, ◌∙◌, true, false, ◌&&◌, Option, none, some,
  List, [], ◌∷◌, ◌++◌, arith, length, ltb, leb, ◌==◌, if◌then◌else◌, mem, Bool-cases, inl, inr,
  done, Reply, ok, err, eagain,
}
use vnano_msg.Core.Pipes.{Msg}
use vnano_msg.Transport.Msgqueue.{
  Msgqueue, granularity, size_of, add_chunk, write, is_full, send, next_chunk, read, recv,
}
use vnano_msg.Transport.Msgqueue.Chunks.{
  contents, total, contents-first, contents-last, ordered-next, contents-single, contents-more,
  ordered_from_start,
}
use vnano_msg.Transport.Msgqueue.{drain, term}
use vnano_msg.Transport.Msgqueue.Fifo.{Inv, Holds, IsSpare, write-Inv, add_chunk-Holds}

-- What a bounded queue does with a message: one is always taken, others up to the limit.
abbrev pub offer : ℕ → List Msg → Msg → Reply (Unit {0}) × List Msg
offer maxmem l m =
    if ltb 0 (length l) && leb maxmem (total l + size_of m)
    then (err eagain, l)
    else (ok tt, l ++ m ∷ [])

abbrev pub poll : List Msg → Reply Msg × List Msg
poll [] = (err eagain, [])
poll (m ∷ l) = (ok m, l)

is_full-offer :
    (q : Msgqueue) (rest : List ℕ) (l : List Msg) (m : Msg)
    → Inv q rest l
    → total l + size_of m < 2 ^ 64
    → is_full q m ≡ (ltb 0 (length l) && leb q.maxmem (total l + size_of m))
unfolding is_full
is_full-offer q rest l m v b =
    let e : (q.mem + size_of m) % 2 ^ 64 ≡ total l + size_of m = omega (arith, v.mem) in
    rw (e, v.count) refl

taken :
    (q : Msgqueue) (rest : List ℕ) (l : List Msg) (m : Msg)
    → Inv q rest l
    → q.out_pos < granularity
    → length l + 1 < 2 ^ 64
    → total l + size_of m < 2 ^ 64
    → Holds
        (if q.out_pos + 1 == granularity then add_chunk (write q m) else write q m)
        (l ++ m ∷ [])
unfolding write
taken q rest l m v p b b' =
    let w = write-Inv q rest l m v b b' in
    elim (Bool-cases (q.out_pos + 1 == granularity)) [
      | inl full ↦ rw full (add_chunk-Holds (write q m) rest (l ++ m ∷ []) w (ground arith))
      | inr room ↦ rw room (rest, w, ground arith)
    ]

-- On a queue that holds a list of messages, `nn_msgqueue_send` answers as the bounded queue does,
-- which takes one message always and others up to the limit on their size, and holds what that one
-- holds, as long as the sizes of the messages add up to less than 2 ^ 64, and their number is less
-- as well.
pub send_offers :
    (q : Msgqueue) (l : List Msg) (m : Msg)
    → Holds q l
    → length l + 1 < 2 ^ 64
    → total l + size_of m < 2 ^ 64
    → ((send q m).0 ≡ (offer q.maxmem l m).0) × Holds ((send q m).1) ((offer q.maxmem l m).1)
unfolding send
send_offers q l m (rest, v, p) b b' =
    let same = is_full-offer q rest l m v b' in
    elim (Bool-cases (ltb 0 (length l) && leb q.maxmem (total l + size_of m))) [
      | inl full ↦ rw (same, full) (refl, (rest, v, p))
      | inr room ↦ rw (same, room) (refl, taken q rest l m v p b b')
    ]

-- The state after a read, without its counters.
module _ (q : Msgqueue) (rest : List ℕ) (m : Msg) (l : List Msg) (v : Inv q rest (m ∷ l)) where
  count_after : q.count - 1 ≡ length l
  count_after = omega (arith, v.count)

  mem_after : (q.mem + 2 ^ 64 - size_of m) % 2 ^ 64 ≡ total l
  mem_after = omega (arith, v.mem, v.small)

  small_after : total l < 2 ^ 64
  small_after = omega (arith, v.small)

  -- Inside a chunk.
  step-Inv :
      q.in_pos + 1 < granularity
      → (q.msgs q.in_chunk q.in_pos ≡ m) × Inv (read (record q { in_pos = q.in_pos + 1 }) m) rest l
  unfolding read
  step-Inv h =
      let first =
        contents-first q.msgs q.in_pos q.in_chunk rest q.out_pos h (rw v.holds (omega arith)) in
      let cons : q.msgs q.in_chunk q.in_pos
            ∷ contents q.msgs (q.in_pos + 1) (q.in_chunk ∷ rest) q.out_pos
          ≡ m ∷ l =
        sym first ∙ v.holds in
      (
        cc,
        record {
          chain = v.chain;
          distinct = v.distinct;
          known = v.known;
          spare = v.spare;
          in_pos = h;
          order =
              ordered-next q.msgs q.in_pos q.in_chunk rest q.out_pos (rw v.holds (omega arith))
                v.order;
          holds = cc;
          count = count_after;
          mem = mem_after;
          small = small_after;
        },
      )

moved-IsSpare :
    (o : Option ℕ) (c : ℕ) (cs : List ℕ) (n : ℕ)
    → mem c cs ≡ false
    → c < n
    → IsSpare o (c ∷ cs) n
    → IsSpare (elim o [ none ↦ some c | some d ↦ some d ]) cs n
moved-IsSpare none c cs n a b s = (a, b)
moved-IsSpare (some d) c cs n a b s = (ground (arith, s.0), s.1)

-- The first chunk once it is read.
abbrev moved : Msgqueue → ℕ → Msgqueue
moved q c = record q {
  in_chunk = c;
  in_pos = 0;
  cache = elim q.cache [ none ↦ some q.in_chunk | some d ↦ some d ];
}

move-Inv :
    (q : Msgqueue) (d : ℕ) (cs : List ℕ) (m : Msg) (l : List Msg)
    → Inv q (d ∷ cs) (m ∷ l)
    → q.in_pos + 1 ≡ granularity
    → (q.msgs q.in_chunk q.in_pos ≡ m) × Inv (read (moved q d) m) cs l
unfolding read
move-Inv q d cs m l v h =
    let last = contents-last q.msgs q.in_pos q.in_chunk d cs q.out_pos h in
    let cons : q.msgs q.in_chunk q.in_pos ∷ contents q.msgs 0 (d ∷ cs) q.out_pos ≡ m ∷ l =
      sym last ∙ v.holds in
    (
      cc,
      record {
        chain = v.chain.1;
        distinct = v.distinct.1;
        known = v.known.1;
        spare =
            moved-IsSpare q.cache q.in_chunk (d ∷ cs) q.fresh (v.distinct.0) (v.known.0) v.spare;
        in_pos = omega arith;
        order = ordered_from_start cs q.out_pos;
        holds = cc;
        count = count_after q (d ∷ cs) m l v;
        mem = mem_after q (d ∷ cs) m l v;
        small = small_after q (d ∷ cs) m l v;
      },
    )

next_chunk-some :
    (q : Msgqueue) (c : ℕ) → q.next q.in_chunk ≡ some c → next_chunk q ≡ done (moved q c)
unfolding next_chunk
next_chunk-some q c e = rw (next_chunk, e) refl

-- At the end of a chunk.
recv_last :
    (q : Msgqueue) (rest : List ℕ) (m : Msg) (l : List Msg)
    → Inv q rest (m ∷ l)
    → q.out_pos < granularity
    → q.in_pos + 1 ≡ granularity
    → (q.msgs q.in_chunk q.in_pos ≡ m)
      × ((q' : Msgqueue) × (next_chunk q ≡ done q') × Holds (read q' m) l)
unfolding read
recv_last q [] m l v p h =
    let i = contents-single q.msgs q.in_pos q.in_chunk q.out_pos (rw v.holds (omega arith)) in
    absurd (omega arith)
recv_last q (d ∷ cs) m l v p h =
    let (e, w) = move-Inv q d cs m l v h in
    (e, (moved q d, next_chunk-some q d (v.chain.0), (cs, w, p)))

-- On a queue that holds a list of messages, `nn_msgqueue_recv` answers as the list does: EAGAIN if
-- it is empty, and the first message otherwise; then the queue holds what is left.
pub recv_polls :
    (q : Msgqueue) (l : List Msg)
    → Holds q l
    → (q' : Msgqueue) × (recv q ≡ done ((poll l).0, q')) × Holds q' ((poll l).1)
unfolding recv read
recv_polls q [] (rest, v, p) =
    let e : (q.count == 0) ≡ true = ground (arith, v.count) in rw e (q, refl, (rest, v, p))
recv_polls q (m ∷ l) (rest, v, p) =
    let e : (q.count == 0) ≡ false = ground (arith, v.count) in
    elim (Bool-cases (q.in_pos + 1 == granularity)) [
      | inl end ↦
          let (f, (q', n, w)) = recv_last q rest m l v p (ground arith) in
          rw (e, end, n, f) (_, refl, w)
      | inr inside ↦
          let (f, w) = step-Inv q rest m l v (ground (arith, v.in_pos)) in
          rw (e, inside, f) (_, refl, (rest, w, p))
    ]

-- An empty queue has one chunk.
one_chunk : (q : Msgqueue) (rest : List ℕ) → Inv q rest [] → q.in_chunk ≡ q.out_chunk
one_chunk q [] v = v.chain
one_chunk q (d ∷ cs) v =
    let n = contents-more q.msgs q.in_pos q.in_chunk d cs q.out_pos v.in_pos in
    absurd (omega (arith, ap length v.holds))

drains :
    (q : Msgqueue) (l : List Msg)
    → Holds q l
    → (q' : Msgqueue) × (drain (suc (length l)) q ≡ done q') × Holds q' []
unfolding drain
drains q [] h = let (q', e, w) = recv_polls q [] h in rw e (q', refl, w)
drains q (m ∷ l) h = let (q', e, w) = recv_polls q (m ∷ l) h in rw e (drains q' l w)

-- On a queue that holds a list of messages, `nn_msgqueue_term` comes to its end: it reads all of
-- them, and then there is one chunk.
pub term_completes : (q : Msgqueue) (l : List Msg) → Holds q l → term q ≡ done tt
unfolding term
term_completes q l (rest, v, p) =
    let (q', e, (rest', v', p')) = drains q l (rest, v, p) in
    let one : (q'.in_chunk == q'.out_chunk) ≡ true =
      let c = one_chunk q' rest' v' in ground arith in
    let all : drain (suc q.count) q ≡ done q' = ap (λ n. drain (suc n) q) v.count ∙ e in
    rw (all, one) refl
