-- ===== src/Aio/Fsm.antt =====
-- aio/fsm.c: the part of a state machine that all of them share. The handlers of a machine are
-- functions of its own module, which call these in the places where nn_fsm_start and nn_fsm_stop call
-- the handlers; an event that is raised is in the queue of its context until it is processed.
use vnano_msg.Common.{Bool, true, false, not, Outcome, done, ◌>>◌, assert, if◌then◌else◌}

-- NN_FSM_STATE_IDLE, ACTIVE and STOPPING
pub data Phase : Type 0 where
  idle active stopping : Phase

-- `struct nn_fsm`: its state, and whether its event `stopped` is in the queue.
pub record Fsm : Type 0 where
  pub phase : Phase
  pub queued : Bool

abbrev pub is_stopping : Phase → Bool
is_stopping stopping = true
is_stopping _ = false

abbrev pub is_active : Phase → Bool
is_active active = true
is_active _ = false

unfoldable pub init : Fsm
init = record { phase = idle; queued = false }

unfoldable pub is_idle : Fsm → Bool
is_idle f = elim f.phase [ idle ↦ not f.queued | active ↦ false | stopping ↦ false ]

-- `nn_fsm_feed` chooses between the handler and the shutdown handler.
unfoldable pub feed {ℓ} : {A : Type ℓ} → Fsm → A → A → A
feed f handled shut = if is_stopping f.phase then shut else handled

-- `nn_fsm_start` around the call of the handler.
unfoldable pub start {ℓ} : {A : Type ℓ} → Fsm → (Fsm → Outcome A) → Outcome A
start f handler = do assert (is_idle f); handler (record f { phase = active })

-- `nn_fsm_stop` around the call of the shutdown handler: without it if there is nothing to stop.
unfoldable pub stop {ℓ} : {A : Type ℓ} → Fsm → A → (Fsm → A) → A
stop f unchanged shut =
    if is_active f.phase then shut (record f { phase = stopping }) else unchanged

-- `nn_fsm_stopped` raises the event.
unfoldable pub stopped : Fsm → Outcome Fsm
stopped f = do assert (is_stopping f.phase); done (record { phase = idle; queued = true })

unfoldable pub stopped_noevent : Fsm → Outcome Fsm
stopped_noevent f = do assert (is_stopping f.phase); done (record f { phase = idle })

-- The event `stopped` leaves the queue when it is processed.
unfoldable pub processed : Fsm → Fsm
processed f = record f { queued = false }
