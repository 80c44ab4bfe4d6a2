-- ===== src/Core/Pipebase.antt =====
-- core/pipe.c: the end of a connection between a transport and a socket type. The transport starts
-- to write or read a message when the socket asks it to, and tells with `sent` and `received` that
-- it is done, either before its callback returns or later.
pub mod Ready
use vnano_msg.Common.{
  ℕ, Bool, true, false, Outcome, done, abort, ◌>>=◌, ◌>>◌, assert, Reply, ok, err, Errno,
}
use vnano_msg.Core.Pipes.{Msg, Flags}

-- NN_PIPEBASE_STATE_*
pub data State : Type 0 where
  idle active failed : State

-- NN_PIPEBASE_INSTATE_*, and NN_PIPEBASE_OUTSTATE_* with the same numbers: `moving` is RECEIVING or
-- SENDING, `moved` RECEIVED or SENT.
pub data Side : Type 0 where
  deactivated ready moving moved async : Side

pub record Pipebase : Type 0 where
  pub state : State
  pub instate : Side
  pub outstate : Side

abbrev pub is_idle : State → Bool
is_idle idle = true
is_idle _ = false

abbrev pub is_running : State → Bool
is_running active = true
is_running _ = false

abbrev pub is_ready : Side → Bool
is_ready ready = true
is_ready _ = false

unfoldable pub init : Pipebase
init = record { state = idle; instate = deactivated; outstate = deactivated }

unfoldable pub term : Pipebase → Outcome (Unit {0})
term p = assert (is_idle p.state)

-- `added` is what `nn_sock_add` answers. With 0, NN_PIPE_OUT is raised.
unfoldable pub start : Pipebase → Reply (Unit {0}) → Outcome (Reply (Unit {0}) × Pipebase)
start p added = do
  assert (is_idle p.state)
  elim added [
    | err e ↦ done (err e, record { state = failed; instate = async; outstate = ready })
    | ok u ↦ done (ok tt, record { state = active; instate = async; outstate = ready })
  ]

-- Whether `nn_sock_rm` is called, and the pipe.
unfoldable pub stop : Pipebase → Bool × Pipebase
stop p = (is_running p.state, record p { state = idle })

-- Both `nn_pipebase_received` and `nn_pipebase_sent` on their side: whether an event is raised.
unfoldable pub complete : Side → Outcome (Bool × Side)
complete moving = done (false, moved)
complete async = done (true, ready)
complete _ = abort

-- NN_PIPE_IN is raised with `true`.
unfoldable pub received : Pipebase → Outcome (Bool × Pipebase)
received p = do (raised, s) ← complete p.instate; done (raised, record p { instate = s })

-- NN_PIPE_OUT is raised with `true`.
unfoldable pub sent : Pipebase → Outcome (Bool × Pipebase)
sent p = do (raised, s) ← complete p.outstate; done (raised, record p { outstate = s })

-- The callbacks of a transport: the return code, a negative one being `abort`, whether it called
-- `nn_pipebase_sent` or `nn_pipebase_received` before it returned, and its state.
pub record Transport : Type 1 where
  pub World : Type 0
  pub send : Msg → World → Outcome (Flags × Bool × World)
  pub recv : World → Outcome (Flags × Bool × Msg × World)

-- What the two functions do once the callback is back: `rc | NN_PIPEBASE_RELEASE` unless the
-- transport is done.
unfoldable pub settle_side : Side → Flags → Outcome (Flags × Side)
settle_side moved rc = done (rc, ready)
settle_side moving rc = done (record rc { release = true }, async)
settle_side _ rc = abort

-- The side when the callback is back.
unfoldable pub side_after : Bool → Side → Outcome Side
side_after false s = done s
side_after true s = do (raised, s') ← complete s; done s'

module _ (t : Transport) where
  open t use {World}

  unfoldable pub send : Pipebase → Msg → World → Outcome (Flags × Pipebase × World)
  send p m w = do
    assert (is_ready p.outstate)
    (rc, called, w') ← t.send m w
    s ← side_after called moving
    (rc', s') ← settle_side s rc
    done (rc', record p { outstate = s' }, w')

  unfoldable pub recv : Pipebase → World → Outcome (Flags × Msg × Pipebase × World)
  recv p w = do
    assert (is_ready p.instate)
    (rc, called, m, w') ← t.recv w
    s ← side_after called moving
    (rc', s') ← settle_side s rc
    done (rc', m, record p { instate = s' }, w')
