-- ===== src/Protocol/Dist/Broadcast.antt =====
-- Who gets a message that is sent to all.
use mathlib.Core.List.{append_assoc, append-nil}
use vnano_msg.Common.{
  ℕ, ◌+◌, ◌-◌, ◌^◌, ◌≤◌, ◌<◌, ◌≡◌, refl, true, false, not, ◌||◌, Option, List, [], ◌∷◌, ◌++◌, map,
  done, arith, mem, length, length-append, IsDistinct, ◌==◌, if◌then◌else◌, Bool-cases, inl, inr,
}
use vnano_msg.Core.Pipes.{Msg, Flags, logged, Log}
use vnano_msg.Utils.ItemList.{without}
use vnano_msg.Utils.ItemList.Split.{without-IsDistinct, push_back-IsDistinct}
use vnano_msg.Protocol.Dist.{Dist, dec32, rm, activate, is_excluded, send_loop, send}

-- The count is the number of pipes in the list, and no pipe is in it twice.
pub record IsCounted (d : Dist) : Type 0 where
  pub count : d.count ≡ length d.pipes
  pub small : length d.pipes < 2 ^ 32
  pub distinct : IsDistinct d.pipes

-- The pipes of a list that are written to, and those that are in it afterwards.
abbrev pub targets : Option ℕ → List ℕ → List ℕ
targets ex [] = []
targets ex (p ∷ l) = if is_excluded ex p then targets ex l else p ∷ targets ex l

abbrev pub remaining : (ℕ → Flags) → Option ℕ → List ℕ → List ℕ
remaining answer ex [] = []
remaining answer ex (p ∷ l) =
    if is_excluded ex p || not (answer p).release
    then p ∷ remaining answer ex l
    else remaining answer ex l

abbrev pub addressed : Msg → List ℕ → Log
addressed m = map (λ p. (p, m))

length-remaining :
    (answer : ℕ → Flags) (ex : Option ℕ) (l : List ℕ) → length (remaining answer ex l) ≤ length l
length-remaining answer ex [] = omega arith
length-remaining answer ex (p ∷ l) = ground (arith, length-remaining answer ex l)

module _ (answer : ℕ → Flags) (m : Msg) (ex : Option ℕ) where
  send_loop-eq :
      (l : List ℕ) (n : ℕ) (log : Log)
      → length l ≤ n
      → n < 2 ^ 32
      → send_loop (logged answer) l m ex n log
        ≡ done (
          remaining answer ex l,
          n + length (remaining answer ex l) - length l,
          log ++ addressed m (targets ex l),
        )
  unfolding send_loop
  send_loop-eq [] n log h k = ground (arith, append-nil log)
  send_loop-eq (p ∷ l) n log h k = ground (
    arith,
    length-remaining answer ex l,
    send_loop-eq l n log,
    send_loop-eq l n (log ++ (p, m) ∷ []),
    send_loop-eq l (dec32 n) (log ++ (p, m) ∷ []),
    append_assoc log ((p, m) ∷ []) (addressed m (targets ex l)),
  )

-- A message that `nn_dist_send` gets is written once to every pipe in the list but the excluded
-- one, in the order of the list, and to no other. Afterwards the list has lost exactly the pipes
-- that were written to and answered RELEASE, and the count fits it.
pub send_broadcast :
    (answer : ℕ → Flags) (d : Dist) (m : Msg) (ex : Option ℕ) (log : Log)
    → IsCounted d
    → (d' : Dist) × (send (logged answer) d m ex log
        ≡ done (d', log ++ addressed m (targets ex d.pipes)))
      × (d'.pipes ≡ remaining answer ex d.pipes)
      × (d'.count ≡ length d'.pipes)
unfolding send
send_broadcast answer d m ex log v =
    let kept = remaining answer ex d.pipes in
    let loop =
      send_loop-eq answer m ex d.pipes d.count log (omega (arith, v.count)) (omega arith) in
    (
      record { count = length kept; pipes = kept },
      elim (Bool-cases (d.count == 0)) [
        | inl nobody ↦ ground (arith, nothing_to_send d.pipes, append-nil log)
        | inr somebody ↦ rw (somebody, loop, send) (ground (arith, v.count))
      ],
      refl,
      refl,
    )
  where
    nothing_to_send : (l : List ℕ) → length l ≡ 0 → l ≡ []
    nothing_to_send [] e = refl
    nothing_to_send (x ∷ l) e = absurd (omega arith)

mem-remaining :
    (answer : ℕ → Flags) (ex : Option ℕ) (x : ℕ) (l : List ℕ)
    → mem x l ≡ false
    → mem x (remaining answer ex l) ≡ false
mem-remaining answer ex x [] h = refl
mem-remaining answer ex x (p ∷ l) h = ground (arith, mem-remaining answer ex x l)

remaining-IsDistinct :
    (answer : ℕ → Flags) (ex : Option ℕ) (l : List ℕ)
    → IsDistinct l
    → IsDistinct (remaining answer ex l)
remaining-IsDistinct answer ex [] d = tt
remaining-IsDistinct answer ex (p ∷ l) d =
    ground (arith, remaining-IsDistinct answer ex l d.1, mem-remaining answer ex p l d.0)

length-without : (x : ℕ) (l : List ℕ) → mem x l ≡ true → length (without x l) + 1 ≡ length l
unfolding without
length-without x [] h = cc
length-without x (y ∷ l) h = ground (arith, length-without x l)

-- `nn_dist_rm`, `nn_dist_out` and `nn_dist_send` keep the count equal to the number of pipes and
-- the pipes distinct, as long as there are fewer than 2 ^ 32 of them.
pub keeps-IsCounted :
    (answer : ℕ → Flags) (d d1 d2 : Dist) (p : ℕ) (m : Msg) (ex : Option ℕ) (log log' : Log)
    → IsCounted d
    → length d.pipes + 1 < 2 ^ 32
    → activate d p ≡ done d1
    → send (logged answer) d m ex log ≡ done (d2, log')
    → IsCounted (rm d p) × IsCounted d1 × IsCounted d2
unfolding rm activate
keeps-IsCounted answer d d1 d2 p m ex log log' v room h s =
    let (d3, sent, kept, count) = send_broadcast answer d m ex log v in
    let same : d2 ≡ d3 = ground arith in
    (
      ground (arith, length-without p d.pipes, without-IsDistinct p d.pipes),
      ground (arith, push_back-IsDistinct p d.pipes, length-append d.pipes (p ∷ [])),
      rw same (record {
        count = count;
        small = ground (arith, length-remaining answer ex d.pipes);
        distinct = rw kept (remaining-IsDistinct answer ex d.pipes v.distinct);
      }),
    )
