-- ===== src/Protocol/Pair.antt =====
-- protocols/pair/xpair.c: the raw PAIR socket, which `nn_pair_create` uses as well.
pub mod Contract
use vnano_msg.Common.{ℕ, Bool, Outcome, done, abort, ◌>>=◌, ◌==◌, Reply, ok, err}
use vnano_msg.Core.Pipes.{Msg, Flags, Pipes, Events}
use vnano_msg.Protocol.Excl
use vnano_msg.Protocol.Excl.{Excl}

-- `struct nn_xpair` without its base class.
pub record Xpair : Type 0 where
  pub excl : Excl

-- NN_PAIR, NN_PROTO_PAIR being 1
abbrev pub pair_type : ℕ
pair_type = 16

unfoldable pub init : Xpair
init = record { excl = Excl.init }

unfoldable pub term : Xpair → Outcome (Unit {0})
term x = Excl.term x.excl

unfoldable pub add : Xpair → ℕ → Reply (Unit {0}) × Xpair
add x p = let (rc, e) = Excl.add x.excl p in (rc, record { excl = e })

unfoldable pub rm : Xpair → ℕ → Outcome Xpair
rm x p = do e ← Excl.rm x.excl p; done (record { excl = e })

unfoldable pub activate_in : Xpair → ℕ → Outcome Xpair
activate_in x p = do e ← Excl.activate_in x.excl p; done (record { excl = e })

unfoldable pub activate_out : Xpair → ℕ → Outcome Xpair
activate_out x p = do e ← Excl.activate_out x.excl p; done (record { excl = e })

unfoldable pub events : Xpair → Events
events x = record { readable = Excl.can_recv x.excl; writable = Excl.can_send x.excl }

unfoldable pub is_peer : ℕ → Bool
is_peer socktype = socktype == pair_type

-- Without NN_PIPE_PARSED.
unfoldable pub discard_flags : Reply (Flags × Msg) → Reply Msg
discard_flags (ok (rc, m)) = ok m
discard_flags (err e) = err e

module _ (ps : Pipes) where
  open ps use {World}

  unfoldable pub send : Xpair → Msg → World → Outcome (Reply Flags × Xpair × World)
  send x m w = do (rc, e, w') ← Excl.send ps x.excl m w; done (rc, record { excl = e }, w')

  unfoldable pub recv : Xpair → World → Outcome (Reply Msg × Xpair × World)
  recv x w = do
    (rc, e, w') ← Excl.recv ps x.excl w
    done (discard_flags rc, record { excl = e }, w')
