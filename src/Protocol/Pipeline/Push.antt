-- ===== src/Protocol/Pipeline/Push.antt =====
-- protocols/pipeline/xpush.c
pub mod Stat
use vnano_msg.Common.{ℕ, Bool, false, Option, some, Outcome, done, ◌>>=◌, ◌>>◌, ◌==◌, assert, Reply}
use vnano_msg.Core.Pipes.{Msg, Flags, Pipes, Events}
use vnano_msg.Protocol.Priolist.{Data}
use vnano_msg.Protocol.Lb
use vnano_msg.Protocol.Lb.{Lb}
use vnano_msg.Protocol.Pipeline.{pull_type, valid_priority, set_priority}

-- `struct nn_xpush`, with `current_snd_priority` of its base class, which `nn_sock_init` sets to 0.
pub record Xpush : Type 0 where
  pub lb : Lb
  pub snd_priority : Option ℕ

unfoldable pub init : Xpush
init = record { lb = Lb.init; snd_priority = some 0 }

unfoldable pub term : Xpush → Outcome (Unit {0})
term x = Lb.term x.lb

unfoldable pub add : ℕ → ℕ → Outcome Data
add p sndprio = do assert (valid_priority sndprio); done (Lb.add p sndprio)

unfoldable pub rm : Xpush → Data → Outcome Xpush
rm x d = do
  prio ← set_priority (Lb.get_priority (Lb.rm x.lb d))
  done (record { lb = Lb.rm x.lb d; snd_priority = prio })

-- `nn_xpush_out`; `nn_xpush_in` does nothing.
unfoldable pub activate_out : Xpush → Data → Outcome Xpush
activate_out x d = do
  lb ← Lb.activate x.lb d
  prio ← set_priority (Lb.get_priority lb)
  done (record { lb = lb; snd_priority = prio })

unfoldable pub events : Xpush → Events
events x = record { readable = false; writable = Lb.can_send x.lb }

unfoldable pub is_peer : ℕ → Bool
is_peer socktype = socktype == pull_type

module _ (ps : Pipes) where
  open ps use {World}

  unfoldable pub send : Xpush → Msg → World → Outcome (Reply (Flags × ℕ) × Xpush × World)
  send x m w = do (rc, lb, w') ← Lb.send ps x.lb m w; done (rc, record x { lb = lb }, w')
