-- ===== src/Protocol/Reqrep/Xreq.antt =====
-- protocols/reqrep/xreq.c: the raw REQ socket.
pub mod Keeps
use vnano_msg.Common.{
  ℕ, Bool, Option, none, some, ◌>>=◌, ◌>>◌, Outcome, done, ◌==◌, assert, Reply, ok, err, eagain,
  length, take, drop, ltb, is_empty, if◌then◌else◌,
}
use vnano_msg.Core.Pipes.{Msg, Pipes, Events}
use vnano_msg.Protocol.Priolist.{Data}
use vnano_msg.Protocol.Fq
use vnano_msg.Protocol.Fq.{Fq}
use vnano_msg.Protocol.Lb
use vnano_msg.Protocol.Lb.{Lb}
use vnano_msg.Protocol.Pipeline.{valid_priority, set_priority}
use vnano_msg.Protocol.Reqrep.{rep_type}

-- `struct nn_xreq_data`
pub record XreqData : Type 0 where
  pub outitem : Data
  pub initem : Data

-- `struct nn_xreq` with `current_snd_priority` of its base class, which `nn_sock_init` sets
-- to 0.
pub record Xreq : Type 0 where
  pub lb : Lb
  pub fq : Fq
  pub snd_priority : Option ℕ

unfoldable pub init : Xreq
init = record { lb = Lb.init; fq = Fq.init; snd_priority = some 0 }

unfoldable pub term : Xreq → Outcome (Unit {0})
term x = do Fq.term x.fq; Lb.term x.lb

unfoldable pub add : ℕ → ℕ → ℕ → Outcome XreqData
add p sndprio rcvprio = do
  assert (valid_priority sndprio)
  assert (valid_priority rcvprio)
  done (record { outitem = Lb.add p sndprio; initem = Fq.add p rcvprio })

unfoldable pub rm : Xreq → XreqData → Outcome Xreq
rm x d = do
  let lb = Lb.rm x.lb d.outitem
  let fq = Fq.rm x.fq d.initem
  stat ← set_priority (Lb.get_priority lb)
  done (record { lb = lb; fq = fq; snd_priority = stat })

unfoldable pub activate_in : Xreq → XreqData → Outcome Xreq
activate_in x d = do fq ← Fq.activate x.fq d.initem; done (record x { fq = fq })

unfoldable pub activate_out : Xreq → XreqData → Outcome Xreq
activate_out x d = do
  lb ← Lb.activate x.lb d.outitem
  stat ← set_priority (Lb.get_priority lb)
  done (record x { lb = lb; snd_priority = stat })

unfoldable pub events : Xreq → Events
events x = record { readable = Fq.can_recv x.fq; writable = Lb.can_send x.lb }

unfoldable pub is_peer : ℕ → Bool
is_peer socktype = socktype == rep_type

-- A message that the transport did not parse: the first word of its body is the header.
unfoldable pub split_word : Msg → Outcome (Reply Msg)
split_word m = if ltb (length m.body) 4 then done (err eagain) else do
  assert (is_empty m.sphdr)
  done (ok (record m { sphdr = take 4 m.body; body = drop 4 m.body }))

module _ (ps : Pipes) where
  open ps use {World}

  -- The pipe that took the message, for `to`; `nn_xreq_send` does not ask for it.
  unfoldable pub send_to : Xreq → Msg → World → Outcome (Reply ℕ × Xreq × World)
  send_to x m w = do
    (rc, lb, w') ← Lb.send ps x.lb m w
    elim rc [
      | err e ↦ done (err e, record x { lb = lb }, w')
      | ok (flags, p) ↦ done (ok p, record x { lb = lb }, w')
    ]

  -- What the message that `msg` points to becomes: it is not touched if the queue has none, and
  -- released, `none`, if the one that was read into it is malformed.
  unfoldable pub recv :
      Xreq → Option Msg → World → Outcome (Reply (Unit {0}) × Option Msg × Xreq × World)
  recv x msg w = do
    (rc, fq, w') ← Fq.recv ps x.fq w
    let x' : Xreq = record x { fq = fq }
    elim rc [
      | err e ↦ done (err e, msg, x', w')
      | ok (flags, m, p) ↦ do
        split ← if flags.parsed then done (ok m) else split_word m
        elim split [ err e ↦ done (err e, none, x', w') | ok m' ↦ done (ok tt, some m', x', w') ]
    ]
