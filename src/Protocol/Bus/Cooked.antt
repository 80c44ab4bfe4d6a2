-- ===== src/Protocol/Bus/Cooked.antt =====
-- protocols/bus/bus.c: the BUS socket, which hides what the raw one puts in front of a message.
-- `struct nn_bus` holds a `nn_xbus` and nothing else, and has its other operations from it.
use vnano_msg.Common.{
  ℕ, Option, none, some, [], Outcome, done, abort, ◌>>=◌, ◌>>◌, ◌==◌, assert, Reply, ok, err,
  eagain, einval, is_empty, length, if◌then◌else◌,
}
use vnano_msg.Core.Pipes.{Msg, Pipes}
use vnano_msg.Protocol.Bus.Xbus
use vnano_msg.Protocol.Bus.Xbus.{Xbus}

-- `errnum_assert (rc == 0, -rc)`
abbrev pub assert_ok {ℓ} : {A : Type ℓ} → Reply A → Outcome A
assert_ok (ok a) = done a
assert_ok (err e) = abort

module _ (ps : Pipes) where
  open ps use {World}

  unfoldable pub send : Xbus → Msg → World → Outcome (Reply (Unit {0}) × Xbus × World)
  send x m w =
      let sent : Outcome (Reply (Unit {0}) × Xbus × World) = do
        (rc, x', w') ← Xbus.send ps x m w
        u ← assert_ok rc
        done (ok u, x', w')
      in if is_empty m.sphdr then sent else done (err einval, x, w)

  -- `none` after `fuel` rounds of the loop of `nn_xbus_recv`.
  unfoldable pub recv : ℕ → Xbus → World → Outcome (Option (Reply Msg) × Xbus × World)
  recv fuel x w = do
    (rc, x', w') ← Xbus.recv_loop ps fuel x w
    elim rc [
      | none ↦ done (none, x', w')
      | some (err e) ↦ elim e [ eagain ↦ done (some (err eagain), x', w') | _ ↦ abort ]
      | some (ok m) ↦ do
        assert (length m.sphdr == 8)
        done (some (ok (record m { sphdr = [] })), x', w')
    ]
