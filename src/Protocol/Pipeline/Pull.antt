-- ===== src/Protocol/Pipeline/Pull.antt =====
-- protocols/pipeline/xpull.c
use vnano_msg.Common.{ℕ, Bool, false, Outcome, done, ◌>>=◌, ◌>>◌, ◌==◌, assert, Reply, ok, err}
use vnano_msg.Core.Pipes.{Msg, Flags, Pipes, Events}
use vnano_msg.Protocol.Priolist.{Data}
use vnano_msg.Protocol.Fq
use vnano_msg.Protocol.Fq.{Fq}
use vnano_msg.Protocol.Pipeline.{push_type, valid_priority}

-- `struct nn_xpull` without its base class.
pub record Xpull : Type 0 where
  pub fq : Fq

unfoldable pub init : Xpull
init = record { fq = Fq.init }

unfoldable pub term : Xpull → Outcome (Unit {0})
term x = Fq.term x.fq

unfoldable pub add : ℕ → ℕ → Outcome Data
add p rcvprio = do assert (valid_priority rcvprio); done (Fq.add p rcvprio)

unfoldable pub rm : Xpull → Data → Xpull
rm x d = record { fq = Fq.rm x.fq d }

-- `nn_xpull_in`; `nn_xpull_out` does nothing.
unfoldable pub activate_in : Xpull → Data → Outcome Xpull
activate_in x d = do fq ← Fq.activate x.fq d; done (record { fq = fq })

unfoldable pub events : Xpull → Events
events x = record { readable = Fq.can_recv x.fq; writable = false }

unfoldable pub is_peer : ℕ → Bool
is_peer socktype = socktype == push_type

-- Without NN_PIPE_PARSED.
unfoldable pub discard_flags : Reply (Flags × Msg × ℕ) → Reply Msg
discard_flags (ok (rc, m, p)) = ok m
discard_flags (err e) = err e

module _ (ps : Pipes) where
  open ps use {World}

  unfoldable pub recv : Xpull → World → Outcome (Reply Msg × Xpull × World)
  recv x w = do (rc, fq, w') ← Fq.recv ps x.fq w; done (discard_flags rc, record { fq = fq }, w')
