-- ===== src/Protocol/Lb.antt =====
-- protocols/utils/lb.c: load balancing over the pipes that are ready for writing. `struct nn_lb`
-- holds a `nn_priolist` and nothing else.
pub mod Balance
use vnano_msg.Common.{
  ℕ, Bool, Option, none, some, Outcome, done, abort, ◌>>=◌, Reply, ok, err, eagain,
}
use vnano_msg.Core.Pipes.{Msg, Flags, drop_release, Pipes}
use vnano_msg.Protocol.Priolist
use vnano_msg.Protocol.Priolist.{Priolist, Data}

abbrev pub Lb : Type 0
Lb = Priolist

abbrev pub init : Lb
init = Priolist.init

abbrev pub term : Lb → Outcome (Unit {0})
term = Priolist.term

abbrev pub add : ℕ → ℕ → Data
add = Priolist.add

abbrev pub rm : Lb → Data → Lb
rm = Priolist.rm

-- `nn_lb_out`
abbrev pub activate : Lb → Data → Outcome Lb
activate = Priolist.activate

abbrev pub can_send : Lb → Bool
can_send = Priolist.is_active

abbrev pub get_priority : Lb → Option ℕ
get_priority = Priolist.get_priority

module _ (ps : Pipes) where
  open ps use {World}

  -- The pipe that took the message, and the flags of the return code.
  unfoldable pub send : Lb → Msg → World → Outcome (Reply (Flags × ℕ) × Lb × World)
  send lb m w = do
    p ← Priolist.getpipe lb
    elim p [
      | none ↦ done (err eagain, lb, w)
      | some x ↦ do
        (rc, w') ← ps.send x m w
        lb' ← Priolist.advance lb rc.release
        done (ok (drop_release rc, x), lb', w')
    ]
