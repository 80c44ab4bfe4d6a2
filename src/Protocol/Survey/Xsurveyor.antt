-- ===== src/Protocol/Survey/Xsurveyor.antt =====
-- protocols/survey/xsurveyor.c: the raw SURVEYOR socket.
use vnano_msg.Common.{
  ℕ, Bool, true, none, Outcome, done, ◌>>=◌, ◌>>◌, ◌==◌, assert, Reply, ok, err, if◌then◌else◌,
}
use vnano_msg.Core.Pipes.{Msg, Pipes, Events}
use vnano_msg.Protocol.Priolist.{Data}
use vnano_msg.Protocol.Fq
use vnano_msg.Protocol.Fq.{Fq}
use vnano_msg.Protocol.Dist
use vnano_msg.Protocol.Dist.{Dist}
use vnano_msg.Protocol.Pipeline.{valid_priority}
use vnano_msg.Protocol.Reqrep.Xreq
use vnano_msg.Protocol.Survey.{respondent_type}

-- `struct nn_xsurveyor` without its base class. Of `struct nn_xsurveyor_data` the entry for the
-- queue is left, since the one for the distributor is the pipe.
pub record Xsurveyor : Type 0 where
  pub outpipes : Dist
  pub inpipes : Fq

unfoldable pub init : Xsurveyor
init = record { outpipes = Dist.init; inpipes = Fq.init }

unfoldable pub term : Xsurveyor → Outcome (Unit {0})
term x = do Fq.term x.inpipes; Dist.term x.outpipes

unfoldable pub add : ℕ → ℕ → Outcome Data
add p rcvprio = do assert (valid_priority rcvprio); done (Fq.add p rcvprio)

unfoldable pub rm : Xsurveyor → Data → Xsurveyor
rm x d = record { outpipes = Dist.rm x.outpipes d.pipe; inpipes = Fq.rm x.inpipes d }

unfoldable pub activate_in : Xsurveyor → Data → Outcome Xsurveyor
activate_in x d = do fq ← Fq.activate x.inpipes d; done (record x { inpipes = fq })

unfoldable pub activate_out : Xsurveyor → Data → Outcome Xsurveyor
activate_out x d = do dist ← Dist.activate x.outpipes d.pipe; done (record x { outpipes = dist })

unfoldable pub events : Xsurveyor → Events
events x = record { readable = Fq.can_recv x.inpipes; writable = true }

unfoldable pub is_peer : ℕ → Bool
is_peer socktype = socktype == respondent_type

-- The first word of the body becomes the header, as in `nn_xreq_recv`.
abbrev pub split_id : Msg → Outcome (Reply Msg)
split_id = Xreq.split_word

module _ (ps : Pipes) where
  open ps use {World}

  -- The return code is 0 on every path.
  unfoldable pub send : Xsurveyor → Msg → World → Outcome (Xsurveyor × World)
  send x m w = do
    (dist, w') ← Dist.send ps x.outpipes m none w
    done (record x { outpipes = dist }, w')

  unfoldable pub recv : Xsurveyor → World → Outcome (Reply Msg × Xsurveyor × World)
  recv x w = do
    (rc, fq, w') ← Fq.recv ps x.inpipes w
    let x' : Xsurveyor = record x { inpipes = fq }
    elim rc [
      | err e ↦ done (err e, x', w')
      | ok (flags, m, p) ↦ do
        split ← if flags.parsed then done (ok m) else split_id m
        done (split, x', w')
    ]
