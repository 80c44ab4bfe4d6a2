-- ===== src/Protocol/Reqrep/Xrep/Runs.antt =====
-- The calls that a raw REP socket gets, in any order, and the registry that they keep.
use vnano_msg.Common.{
  ℕ, ◌%◌, ◌^◌, ◌≡◌, refl, ap, ◌∙◌, inl, inr, true, false, some, List, [], ◌∷◌, done, abort,
  Bool-cases, Option-cases, arith, mem, Reply,
}
use vnano_msg.Core.Pipes.{Msg, Pipes}
use vnano_msg.Utils.Hash
use vnano_msg.Utils.Hash.{Item}
use vnano_msg.Utils.Hash.Refine.{init-IsGood}
use vnano_msg.Utils.Hash.Calls.{insert-used}
use vnano_msg.Utils.ItemList.{without}
use vnano_msg.Protocol.Pipeline.{valid_priority}
use vnano_msg.Protocol.Reqrep.Xrep.{
  Xrep, XrepData, init, add, rm, activate_in, activate_out, set_out, send_to, send, recv,
}
use vnano_msg.Protocol.Reqrep.Xrep.Registry.{
  item_init-IsGood, item_init-get, IsRegistered, IsRegistry, IsSame, IsRegistry-same,
  set_out-IsSame, activate_in-IsSame, add-IsRegistry, rm-IsRegistry,
}

init-IsRegistry : (key : ℕ) (datas : ℕ → XrepData) → IsRegistry (init key datas) []
unfolding init Hash.init Hash.get Hash.find
init-IsRegistry key datas = record {
  good = init-IsGood;
  linked = λ p h. cc;
  distinct = tt;
  registered = λ p h. cc;
  small = λ p h. cc;
  owned = λ k it h. cc;
}

module _ (x y : Xrep) (p prio : ℕ) (h : add x p prio ≡ done y) where
  refused : valid_priority prio ≡ false → ⊥
  unfolding add
  refused bad = let e : add x p prio ≡ abort = rw (add, bad) refl in cc

  clashes :
      valid_priority prio ≡ true
      → Hash.insert (Hash.item_init x.outpipes p) (x.next_key % 2 ^ 31) p ≡ abort
      → ⊥
  unfolding add
  clashes fine used = let e : add x p prio ≡ abort = rw (add, fine, used) refl in cc

added-IsRegistry :
    (x y : Xrep) (pipes : List ℕ) (p prio : ℕ)
    → IsRegistry x pipes
    → mem p pipes ≡ false
    → add x p prio ≡ done y
    → IsRegistry y (p ∷ pipes)
added-IsRegistry x y pipes p prio r new h = elim (Bool-cases (valid_priority prio)) [
  | inr bad ↦ absurd (refused x y p prio h bad)
  | inl fine ↦ elim (Option-cases (Hash.get x.outpipes (x.next_key % 2 ^ 31))) [
    | inr (it, used) ↦ absurd (
        clashes x y p prio h fine (
          insert-used (Hash.item_init x.outpipes p) _ p it (item_init-IsGood x.outpipes p r.good)
            (item_init-get x.outpipes p _ ∙ used)))
    | inl free ↦
        let (z, e, q) = add-IsRegistry x pipes p prio r new fine free in
        let same : z ≡ y = cc in rw (← same) q
  ]
]

module _ (ps : Pipes) where
  open ps use {World}

  send-IsSame : (x y : Xrep) (m : Msg) (w w' : World) → send ps x m w ≡ done (y, w') → IsSame x y
  unfolding send send_to set_out
  send-IsSame x y m w w' h = (ground arith, λ q. ground arith)

  recv-IsSame :
      (maxttl : ℕ) (x y : Xrep) (rc : Reply Msg) (w w' : World)
      → recv ps maxttl x w ≡ done (rc, y, w')
      → IsSame x y
  unfolding recv
  recv-IsSame maxttl x y rc w w' h = (ground arith, λ q. ground arith)

-- The states that the calls lead to, with the pipes that were added and not removed. Each call comes
-- back; a pipe is added once.
pub data Reach (ps : Pipes) : Xrep → List ℕ → Type 0 where
  start : (key : ℕ) (datas : ℕ → XrepData) → Reach ps (init key datas) []
  added :
      {x y : Xrep} {pipes : List ℕ} (p prio : ℕ)
      → Reach ps x pipes
      → mem p pipes ≡ false
      → add x p prio ≡ done y
      → Reach ps y (p ∷ pipes)
  removed :
      {x y : Xrep} {pipes : List ℕ} (p : ℕ)
      → Reach ps x pipes
      → mem p pipes ≡ true
      → rm x p ≡ done y
      → Reach ps y (without p pipes)
  signalled_in :
      {x y : Xrep} {pipes : List ℕ} (p : ℕ)
      → Reach ps x pipes
      → activate_in x p ≡ done y
      → Reach ps y pipes
  signalled_out :
      {x : Xrep} {pipes : List ℕ} (p : ℕ) → Reach ps x pipes → Reach ps (activate_out x p) pipes
  sent :
      {x y : Xrep} {pipes : List ℕ} (m : Msg) (w w' : ps.World)
      → Reach ps x pipes
      → send ps x m w ≡ done (y, w')
      → Reach ps y pipes
  received :
      {x y : Xrep} {pipes : List ℕ} (maxttl : ℕ) (rc : Reply Msg) (w w' : ps.World)
      → Reach ps x pipes
      → recv ps maxttl x w ≡ done (rc, y, w')
      → Reach ps y pipes

pub Reach-IsRegistry :
    (ps : Pipes) {x : Xrep} {pipes : List ℕ} → Reach ps x pipes → IsRegistry x pipes
unfolding activate_out
Reach-IsRegistry ps (start key datas) = init-IsRegistry key datas
Reach-IsRegistry ps (added {x = x} {y = y} {pipes = pipes} p prio r new h) =
    added-IsRegistry x y pipes p prio (Reach-IsRegistry ps r) new h
Reach-IsRegistry ps (removed {x = x} {y = y} {pipes = pipes} p r here h) =
    let (z, e, q) = rm-IsRegistry x pipes p (Reach-IsRegistry ps r) here in
    let same : z ≡ y = cc in rw (← same) q
Reach-IsRegistry ps (signalled_in {x = x} {y = y} {pipes = pipes} p r h) =
    IsRegistry-same x y pipes (activate_in-IsSame x y p h) (Reach-IsRegistry ps r)
Reach-IsRegistry ps (signalled_out {x = x} {pipes = pipes} p r) =
    IsRegistry-same x (activate_out x p) pipes (set_out-IsSame x p true) (Reach-IsRegistry ps r)
Reach-IsRegistry ps (sent {x = x} {y = y} {pipes = pipes} m w w' r h) =
    IsRegistry-same x y pipes (send-IsSame ps x y m w w' h) (Reach-IsRegistry ps r)
Reach-IsRegistry ps (received {x = x} {y = y} {pipes = pipes} maxttl rc w w' r h) =
    IsRegistry-same x y pipes (recv-IsSame ps maxttl x y rc w w' h) (Reach-IsRegistry ps r)

-- Whatever calls of the raw REP socket follow its initialisation: of the pipes that were added and
-- not removed, each is found in the table under its key, no two have one key, each can be removed,
-- and the table finds the items of no other pipes.
pub registry_kept :
    (ps : Pipes) (x : Xrep) (pipes : List ℕ)
    → Reach ps x pipes
    → ((p : ℕ) → mem p pipes ≡ true → IsRegistered x p)
      × ((p q : ℕ)
          → mem p pipes ≡ true
          → mem q pipes ≡ true
          → (x.datas p).key ≡ (x.datas q).key
          → p ≡ q)
      × ((p : ℕ) → mem p pipes ≡ true → (y : Xrep) × (rm x p ≡ done y))
      × ((k : ℕ) (it : Item)
          → Hash.get x.outpipes k ≡ some it
          → (mem it.owner pipes ≡ true) × ((x.datas it.owner).key ≡ k))
registry_kept ps x pipes r =
    let v = Reach-IsRegistry ps r in
    (
      v.registered,
      λ p q hp hq e.
          let a = v.registered p hp in
          let b = v.registered q hq in ground (arith, a, b, ap (Hash.get x.outpipes) e),
      λ p h. let (y, e, q) = rm-IsRegistry x pipes p v h in (y, e),
      v.owned,
    )
