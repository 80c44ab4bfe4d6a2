-- ===== src/Protocol/Fq.antt =====
-- protocols/utils/fq.c: fair queueing of the pipes that are ready for reading. `struct nn_fq` holds
-- a `nn_priolist` and nothing else.
pub mod Fair
use vnano_msg.Common.{
  ℕ, Bool, Option, none, some, Outcome, done, abort, ◌>>=◌, Reply, ok, err, eagain,
}
use vnano_msg.Core.Pipes.{Msg, Flags, drop_release, Pipes}
use vnano_msg.Protocol.Priolist
use vnano_msg.Protocol.Priolist.{Priolist, Data}

abbrev pub Fq : Type 0
Fq = Priolist

abbrev pub init : Fq
init = Priolist.init

abbrev pub term : Fq → Outcome (Unit {0})
term = Priolist.term

abbrev pub add : ℕ → ℕ → Data
add = Priolist.add

abbrev pub rm : Fq → Data → Fq
rm = Priolist.rm

-- `nn_fq_in`
abbrev pub activate : Fq → Data → Outcome Fq
activate = Priolist.activate

abbrev pub can_recv : Fq → Bool
can_recv = Priolist.is_active

module _ (ps : Pipes) where
  open ps use {World}

  -- The message, the pipe that it came from, and the flags of the return code.
  unfoldable pub recv : Fq → World → Outcome (Reply (Flags × Msg × ℕ) × Fq × World)
  recv fq w = do
    p ← Priolist.getpipe fq
    elim p [
      | none ↦ done (err eagain, fq, w)
      | some x ↦ do
        (rc, m, w') ← ps.recv x w
        fq' ← Priolist.advance fq rc.release
        done (ok (drop_release rc, m, x), fq', w')
    ]
