-- ===== src/Protocol/Pubsub/Sub/Delivery.antt =====
-- Which message `nn_xsub_recv` hands over.
use vnano_msg.Common.{
  ℕ, zero, suc, ◌<◌, ◌≡◌, refl, ◌∙◌, ◌⊎◌, inl, inr, Bool, true, false, none, some, done, ok, err,
  eagain, arith, List,
}
use vnano_msg.Core.Pipes.{Msg, Flags, Pipes}
use vnano_msg.Protocol.Fq
use vnano_msg.Protocol.Fq.{Fq}
use vnano_msg.Protocol.Fq.Fair.{recv_best}
use vnano_msg.Protocol.Priolist.Invariant.{Inv}
use vnano_msg.Protocol.Priolist.Turns.{IsIdle}
use vnano_msg.Protocol.Trie.{Tree, trie_match}
use vnano_msg.Protocol.Trie.Count.Match.{IsSubscribed, match-IsSubscribed}
use vnano_msg.Protocol.Pubsub.Sub.{recv_loop}

module _ (ps : Pipes) (t : Tree) where
  open ps use {World}

  -- So many reads of messages that the trie is not subscribed to lead from one state to another.
  pub data Skipped : ℕ → Fq → World → Fq → World → Type 0 where
    start : {fq : Fq} {w : World} → Skipped 0 fq w fq w
    skip :
        {n p : ℕ} {fq fq1 fq2 : Fq} {w w1 w2 : World} {rc : Flags} {m : Msg}
        → Fq.recv ps fq w ≡ done (ok (rc, m, p), fq1, w1)
        → ¬ IsSubscribed t m.body
        → Skipped n fq1 w1 fq2 w2
        → Skipped (suc n) fq w fq2 w2

  -- All rounds are used up.
  abbrev pub GoesOn : ℕ → Fq → World → Type 0
  GoesOn fuel fq w =
      (fq' : Fq) × (w' : World) × (Skipped fuel fq w fq' w')
      × (recv_loop ps fuel (record { fq = fq; trie = t }) w
          ≡ done (none, record { fq = fq'; trie = t }, w'))

  -- No pipe waits any more.
  abbrev pub Drains : ℕ → Fq → World → Type 0
  Drains fuel fq w =
      (n : ℕ) × (fq' : Fq) × (w' : World) × (n < fuel)
      × (Skipped n fq w fq' w')
      × IsIdle fq'
      × Inv fq'
      × (recv_loop ps fuel (record { fq = fq; trie = t }) w
          ≡ done (some (err eagain), record { fq = fq'; trie = t }, w'))

  -- A message is there that the trie is subscribed to.
  abbrev pub Delivers : ℕ → Fq → World → Type 0
  Delivers fuel fq w =
      (n p : ℕ) × (fq1 fq2 : Fq) × (w1 w2 : World) × (rc : Flags) × (m : Msg) × (n < fuel)
      × (Skipped n fq w fq1 w1)
      × (Fq.recv ps fq1 w1 ≡ done (ok (rc, m, p), fq2, w2))
      × IsSubscribed t m.body
      × Inv fq2
      × (recv_loop ps fuel (record { fq = fq; trie = t }) w
          ≡ done (some (ok m), record { fq = fq2; trie = t }, w2))

  idle_round :
      (fuel : ℕ) (fq : Fq) (w : World)
      → Fq.recv ps fq w ≡ done (err eagain, fq, w)
      → recv_loop ps (suc fuel) (record { fq = fq; trie = t }) w
        ≡ done (some (err eagain), record { fq = fq; trie = t }, w)
  unfolding recv_loop
  idle_round fuel fq w e = rw e refl

  read_round :
      (fuel p : ℕ) (fq fq1 : Fq) (w w1 : World) (rc : Flags) (m : Msg) (b : Bool)
      → Fq.recv ps fq w ≡ done (ok (rc, m, p), fq1, w1)
      → trie_match t m.body ≡ done b
      → recv_loop ps (suc fuel) (record { fq = fq; trie = t }) w ≡ (elim b [
        | false ↦ recv_loop ps fuel (record { fq = fq1; trie = t }) w1
        | true ↦ done (some (ok m), record { fq = fq1; trie = t }, w1)
      ])
  unfolding recv_loop
  read_round fuel p fq fq1 w w1 rc m b e f = rw (e, f) refl

  not_subscribed : (m : Msg) → trie_match t m.body ≡ done false → ¬ IsSubscribed t m.body
  not_subscribed m e s = let f = (match-IsSubscribed t m.body).1 s in absurd (ground arith)

  no_round :
      (fq : Fq) (w : World)
      → recv_loop ps 0 (record { fq = fq; trie = t }) w
        ≡ done (none, record { fq = fq; trie = t }, w)
  unfolding recv_loop
  no_round fq w = refl

  abbrev pub Ends : ℕ → Fq → World → Type 0
  Ends fuel fq w = GoesOn fuel fq w ⊎ (Drains fuel fq w ⊎ Delivers fuel fq w)

  -- A round that passes over a message.
  pass :
      (fuel p : ℕ) (fq fq1 : Fq) (w w1 : World) (rc : Flags) (m : Msg)
      → Fq.recv ps fq w ≡ done (ok (rc, m, p), fq1, w1)
      → trie_match t m.body ≡ done false
      → Ends fuel fq1 w1
      → Ends (suc fuel) fq w
  pass fuel p fq fq1 w w1 rc m e f (inl (fq', w', s, r)) =
      inl (fq', w', skip e (not_subscribed m f) s, read_round fuel p fq fq1 w w1 rc m false e f ∙ r)
  pass fuel p fq fq1 w w1 rc m e f (inr (inl (n, fq', w', l, s, idle, v, r))) = inr (
      inl (
        suc n,
        fq',
        w',
        omega arith,
        skip e (not_subscribed m f) s,
        idle,
        v,
        read_round fuel p fq fq1 w w1 rc m false e f ∙ r,
      ))
  pass fuel p fq fq1 w w1 rc m e f
        (inr (inr (n, p', fq', fq2, w', w2, rc', m', l, s, got, sub, v, r))) =
      inr (
        inr (
          suc n,
          p',
          fq',
          fq2,
          w',
          w2,
          rc',
          m',
          omega arith,
          skip e (not_subscribed m f) s,
          got,
          sub,
          v,
          read_round fuel p fq fq1 w w1 rc m false e f ∙ r,
        ))

  deliver :
      (fuel p : ℕ) (fq fq1 : Fq) (w w1 : World) (rc : Flags) (m : Msg)
      → Fq.recv ps fq w ≡ done (ok (rc, m, p), fq1, w1)
      → trie_match t m.body ≡ done true
      → Inv fq1
      → Ends (suc fuel) fq w
  deliver fuel p fq fq1 w w1 rc m e f v = inr (
      inr (
        0,
        p,
        fq,
        fq1,
        w,
        w1,
        rc,
        m,
        omega arith,
        start,
        e,
        (match-IsSubscribed t m.body).0 f,
        v,
        read_round fuel p fq fq1 w w1 rc m true e f,
      ))

  read_message :
      (fuel p : ℕ) (fq fq1 : Fq) (w w1 : World) (rc : Flags) (m : Msg) (b : Bool)
      → Fq.recv ps fq w ≡ done (ok (rc, m, p), fq1, w1)
      → trie_match t m.body ≡ done b
      → Inv fq1
      → Ends fuel fq1 w1
      → Ends (suc fuel) fq w
  read_message fuel p fq fq1 w w1 rc m false e f v ends = pass fuel p fq fq1 w w1 rc m e f ends
  read_message fuel p fq fq1 w w1 rc m true e f v ends = deliver fuel p fq fq1 w w1 rc m e f v

  module _ (answers : (x : ℕ) (v : World) → (r : Flags × Msg × World) × (ps.recv x v ≡ done r))
      (matches : (d : List ℕ) → (b : Bool) × (trie_match t d ≡ done b)) where
    -- Over pipes that answer every read, and with a trie that is never read behind the end of the
    -- data, `nn_xsub_recv` on a well-formed queue passes over messages that it is not subscribed to,
    -- and no others, until it says EAGAIN, no pipe waiting any more, or hands over a message that
    -- begins with a subscription; or each of the rounds that are allowed passed over a message.
    pub recv_first : (fuel : ℕ) (fq : Fq) (w : World) → Inv fq → Ends fuel fq w
    recv_first zero fq w v = inl (fq, w, start, no_round fq w)
    recv_first (suc fuel) fq w v = elim (recv_best ps fq w answers v) [
      | inl (none_waits, idle) ↦
          inr (inl (0, fq, w, omega arith, start, idle, v, idle_round fuel fq w none_waits))
      | inr (c, x, rc, m, w1, fq1, r, e, waits, first, v1) ↦
          let (b, f) = matches m.body in
          read_message fuel x fq fq1 w w1 _ m b e f v1 (recv_first fuel fq1 w1 v1)
    ]
