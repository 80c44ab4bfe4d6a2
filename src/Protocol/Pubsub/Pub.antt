-- ===== src/Protocol/Pubsub/Pub.antt =====
-- protocols/pubsub/xpub.c
use vnano_msg.Common.{ℕ, Bool, true, false, none, Outcome, done, abort, ◌>>=◌, ◌==◌}
use vnano_msg.Core.Pipes.{Msg, Pipes, Events}
use vnano_msg.Protocol.Dist
use vnano_msg.Protocol.Dist.{Dist}
use vnano_msg.Protocol.Pubsub.{sub_type}

-- `struct nn_xpub` without its base class.
pub record Xpub : Type 0 where
  pub outpipes : Dist

unfoldable pub init : Xpub
init = record { outpipes = Dist.init }

unfoldable pub term : Xpub → Outcome (Unit {0})
term x = Dist.term x.outpipes

unfoldable pub rm : Xpub → ℕ → Xpub
rm x p = record { outpipes = Dist.rm x.outpipes p }

-- `nn_xpub_in`
unfoldable pub activate_in : Xpub → ℕ → Outcome Xpub
activate_in x p = abort

-- `nn_xpub_out`
unfoldable pub activate_out : Xpub → ℕ → Outcome Xpub
activate_out x p = do d ← Dist.activate x.outpipes p; done (record { outpipes = d })

unfoldable pub events : Xpub → Events
events x = record { readable = false; writable = true }

unfoldable pub is_peer : ℕ → Bool
is_peer socktype = socktype == sub_type

module _ (ps : Pipes) where
  open ps use {World}

  -- The return code is 0 on every path.
  unfoldable pub send : Xpub → Msg → World → Outcome (Xpub × World)
  send x m w = do (d, w') ← Dist.send ps x.outpipes m none w; done (record { outpipes = d }, w')
