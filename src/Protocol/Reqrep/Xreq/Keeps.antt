-- ===== src/Protocol/Reqrep/Xreq/Keeps.antt =====
-- What the calls of a raw REQ socket leave, where they come back.
use vnano_msg.Common.{
  ℕ, ◌-◌, ◌≡◌, refl, ◌⊎◌, inl, inr, true, false, Option, none, some, [], ◌∷◌, Outcome, done, Reply,
  ok, err, Errno, eagain, take, drop, is_empty, length, ltb, mem, arith, Bool-cases, >>=-eq-done,
}
use vnano_msg.Core.Pipes.{Msg, Flags, drop_release, Pipes}
use vnano_msg.Utils.ItemList.Split.{mem-append}
use vnano_msg.Protocol.Priolist.{Priolist, Data, activate}
use vnano_msg.Protocol.Priolist.Invariant.{Inv, IsPriority}
use vnano_msg.Protocol.Priolist.Keeps.{activate-Inv, rm-Inv}
use vnano_msg.Protocol.Priolist.Turns.{IsIdle}
use vnano_msg.Protocol.Fq
use vnano_msg.Protocol.Fq.{Fq}
use vnano_msg.Protocol.Fq.Fair.{recv_best}
use vnano_msg.Protocol.Lb
use vnano_msg.Protocol.Pipeline.{set_priority}
use vnano_msg.Protocol.Reqrep.Xreq
use vnano_msg.Protocol.Reqrep.Xreq.{Xreq, XreqData, split_word}

-- The raw calls on a pipe, where they come back.
activated_busy :
    (p p' : Priolist) (d : Data) → IsPriority d.priority → activate p d ≡ done p' → ¬ IsIdle p'
unfolding activate
activated_busy p p' d prio h idle =
    let slot = p.slots (d.priority - 1) in
    let there : mem d.pipe (p'.slots (d.priority - 1)).pipes ≡ true =
      elim (Bool-cases (mem d.pipe slot.pipes)) [
        | inl twice ↦ absurd (ground arith)
        | inr fresh ↦ elim (Bool-cases (is_empty slot.pipes)) [
          | inl e ↦ ground (arith, mem-append d.pipe slot.pipes (d.pipe ∷ []))
          | inr e ↦ ground (arith, mem-append d.pipe slot.pipes (d.pipe ∷ []))
        ]
      ] in
    idle d.priority d.pipe (prio.0, prio.1, there)

pub activate_out_keeps :
    (x y : Xreq) (d : XreqData)
    → Inv x.lb
    → IsPriority d.outitem.priority
    → Xreq.activate_out x d ≡ done y
    → Inv y.lb × (y.fq ≡ x.fq) × (¬ IsIdle y.lb)
unfolding Xreq.activate_out
activate_out_keeps x y d v prio h =
    let (lb, e, rest) = >>=-eq-done (Lb.activate x.lb d.outitem) _ h in
    let (stat, e', last) = >>=-eq-done (set_priority (Lb.get_priority lb)) _ rest in
    let same : y ≡ record x { lb = lb; snd_priority = stat } = ground arith in
    rw same (activate-Inv x.lb lb d.outitem prio v e, refl, activated_busy x.lb lb d.outitem prio e)

pub activate_in_keeps :
    (x y : Xreq) (d : XreqData)
    → Inv x.fq
    → IsPriority d.initem.priority
    → Xreq.activate_in x d ≡ done y
    → Inv y.fq × (y.lb ≡ x.lb)
unfolding Xreq.activate_in
activate_in_keeps x y d v prio h =
    let (fq, e, rest) = >>=-eq-done (Fq.activate x.fq d.initem) _ h in
    let same : y ≡ record x { fq = fq } = ground arith in
    rw same (activate-Inv x.fq fq d.initem prio v e, refl)

pub rm_keeps :
    (x y : Xreq) (d : XreqData)
    → Inv x.lb
    → Inv x.fq
    → IsPriority d.outitem.priority
    → IsPriority d.initem.priority
    → Xreq.rm x d ≡ done y
    → Inv y.lb × Inv y.fq
unfolding Xreq.rm
rm_keeps x y d v u prio prio' h =
    let (stat, e, last) = >>=-eq-done (set_priority (Lb.get_priority (Lb.rm x.lb d.outitem))) _ h in
    let same : y
        ≡ record { lb = Lb.rm x.lb d.outitem; fq = Fq.rm x.fq d.initem; snd_priority = stat } =
      ground arith in
    rw same (rm-Inv x.lb d.outitem prio v, rm-Inv x.fq d.initem prio' u)

-- A transport that did not parse a message hands it over without a header.
abbrev pub AnswersReads : Pipes → Type 0
AnswersReads ps =
    (p : ℕ) (v : ps.World)
    → (flags : Flags) × (m : Msg) × (v' : ps.World) × (ps.recv p v ≡ done (flags, m, v'))
      × ((flags.parsed ≡ true) ⊎ (m.sphdr ≡ []))

pub split_total : (m : Msg) → m.sphdr ≡ [] → (r : Reply Msg) × (split_word m ≡ done r)
unfolding split_word
split_total m bare = elim (Bool-cases (ltb (length m.body) 4)) [
  | inl short ↦ (err eagain, rw short refl)
  | inr long ↦ (ok (record m { sphdr = take 4 m.body; body = drop 4 m.body }), rw (long, bare) refl)
]

-- A read comes back, with an error or with a message in place of the one before.
abbrev pub Read : (ps : Pipes) → Xreq → Option Msg → ps.World → Type 0
Read ps x msg w =
    ((e : Errno) × (msg' : Option Msg) × (y : Xreq) × (w' : ps.World) × (Xreq.recv ps x msg w
        ≡ done (err e, msg', y, w'))
      × (y.lb ≡ x.lb)
      × Inv y.fq)
    ⊎ ((m : Msg) × (y : Xreq) × (w' : ps.World) × (Xreq.recv ps x msg w
          ≡ done (ok tt, some m, y, w'))
        × (y.lb ≡ x.lb)
        × Inv y.fq)

pub unheaded :
    {W : Type 0} (f g : Flags) (m n : Msg) (w v : W)
    → ◌≡◌ {A = Outcome (Flags × Msg × W)} (done (f, m, w)) (done (g, n, v))
    → (g.parsed ≡ true) ⊎ (n.sphdr ≡ [])
    → f.parsed ≡ false
    → m.sphdr ≡ []
unheaded f g m n w v e (inl t) u = absurd (ground (arith, e))
unheaded f g m n w v e (inr b) u = ground (arith, e)

pub reads_done :
    (ps : Pipes)
    → AnswersReads ps
    → (p : ℕ) (v : ps.World) → (r : Flags × Msg × ps.World) × (ps.recv p v ≡ done r)
reads_done ps reads p v = let (f, m, v', e, h) = reads p v in ((f, m, v'), e)

-- A message that is to be split.
split_word-Read :
    (ps : Pipes) (x : Xreq) (msg : Option Msg) (w w' : ps.World) (rc : Flags) (m : Msg) (p : ℕ)
    (fq : Fq) (r : Reply Msg)
    → Fq.recv ps x.fq w ≡ done (ok (rc, m, p), fq, w')
    → rc.parsed ≡ false
    → split_word m ≡ done r
    → Inv fq
    → Read ps x msg w
unfolding Xreq.recv
split_word-Read ps x msg w w' rc m p fq (ok m') e unparsed s kept =
    inr (m', record x { fq = fq }, w', rw (Xreq.recv, e, unparsed, s) refl, refl, kept)
split_word-Read ps x msg w w' rc m p fq (err n) e unparsed s kept =
    inl (n, none, record x { fq = fq }, w', rw (Xreq.recv, e, unparsed, s) refl, refl, kept)

pub recv_total :
    (ps : Pipes) (x : Xreq) (msg : Option Msg) (w : ps.World)
    → AnswersReads ps
    → Inv x.fq
    → Read ps x msg w
unfolding Xreq.recv
recv_total ps x msg w reads v = elim (recv_best ps x.fq w (reads_done ps reads) v) [
  | inl (e, idle) ↦ inl (eagain, msg, x, w, rw (Xreq.recv, e) refl, refl, v)
  | inr (c, p, rc, m, w', fq, got, e, held, first, kept) ↦
      let (f, m', u', e', h) = reads p w in
      let same : ◌≡◌ {A = Outcome (Flags × Msg × ps.World)} (done (rc, m, w')) (done (f, m', u')) =
        cc in
      elim (Bool-cases rc.parsed) [
        | inl parsed ↦ inr (m, record x { fq = fq }, w', rw (Xreq.recv, e, parsed) refl, refl, kept)
        | inr unparsed ↦
            let bare = unheaded rc f m m' w' u' same h unparsed in
            let (r, s) = split_total m bare in
            split_word-Read ps x msg w w' (drop_release rc) m p fq r e unparsed s kept
      ]
]
