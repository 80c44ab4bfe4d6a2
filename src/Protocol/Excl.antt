-- ===== src/Protocol/Excl.antt =====
-- protocols/utils/excl.c: the one pipe of a PAIR socket.
pub mod Attached
use vnano_msg.Common.{
  ℕ, Bool, true, false, Option, none, some, Outcome, done, abort, ◌>>=◌, ◌>>◌, assert, Reply, ok,
  err, Errno, eagain, eisconn, ◌==◌, if◌then◌else◌,
}
use vnano_msg.Core.Pipes.{Msg, Flags, drop_release, Pipes}

-- `struct nn_excl`; a NULL pipe is `none`.
pub record Excl : Type 0 where
  pub pipe : Option ℕ
  pub inpipe : Option ℕ
  pub outpipe : Option ℕ

abbrev pub is_null : Option ℕ → Bool
is_null none = true
is_null (some p) = false

-- `p == q` of a pipe and a pointer that may be NULL.
abbrev pub is_pipe : ℕ → Option ℕ → Bool
is_pipe p none = false
is_pipe p (some q) = p == q

unfoldable pub init : Excl
init = record { pipe = none; inpipe = none; outpipe = none }

unfoldable pub term : Excl → Outcome (Unit {0})
term e = do assert (is_null e.pipe); assert (is_null e.inpipe); assert (is_null e.outpipe)

unfoldable pub add : Excl → ℕ → Reply (Unit {0}) × Excl
add e p = elim e.pipe [ some q ↦ (err eisconn, e) | none ↦ (ok tt, record e { pipe = some p }) ]

-- The argument `pipe` of `nn_excl_rm` is unused.
unfoldable pub rm : Excl → ℕ → Outcome Excl
unfolding init
rm e p = elim e.pipe [ none ↦ abort | some q ↦ done init ]

unfoldable pub activate_in : Excl → ℕ → Outcome Excl
activate_in e p = do
  assert (is_null e.inpipe)
  assert (is_pipe p e.pipe)
  done (record e { inpipe = some p })

unfoldable pub activate_out : Excl → ℕ → Outcome Excl
activate_out e p = do
  assert (is_null e.outpipe)
  assert (is_pipe p e.pipe)
  done (record e { outpipe = some p })

unfoldable pub can_send : Excl → Bool
can_send e = elim e.outpipe [ none ↦ false | some p ↦ true ]

unfoldable pub can_recv : Excl → Bool
can_recv e = elim e.inpipe [ none ↦ false | some p ↦ true ]

module _ (ps : Pipes) where
  open ps use {World}

  unfoldable pub send : Excl → Msg → World → Outcome (Reply Flags × Excl × World)
  send e m w = elim e.outpipe [
    | none ↦ done (err eagain, e, w)
    | some p ↦ do
      (rc, w') ← ps.send p m w
      done (ok (drop_release rc), if rc.release then record e { outpipe = none } else e, w')
  ]

  unfoldable pub recv : Excl → World → Outcome (Reply (Flags × Msg) × Excl × World)
  recv e w = elim e.inpipe [
    | none ↦ done (err eagain, e, w)
    | some p ↦ do
      (rc, m, w') ← ps.recv p w
      done (ok (drop_release rc, m), if rc.release then record e { inpipe = none } else e, w')
  ]
