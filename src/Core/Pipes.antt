-- ===== src/Core/Pipes.antt =====
-- Pipes as a socket type sees them (protocol.h): `nn_pipe_send` and `nn_pipe_recv` over the state
-- of the transports, with the flags of their return code. A pipe is named by a number.
use vnano_msg.Common.{ℕ, Bool, false, List, [], ◌∷◌, ◌++◌, Outcome, done, abort}

-- utils/msg.h: `struct nn_msg`, each chunkref as the bytes that it stands for.
pub record Msg : Type 0 where
  pub sphdr : List ℕ
  pub hdrs : List ℕ
  pub body : List ℕ

-- NN_PIPE_RELEASE and NN_PIPE_PARSED.
pub record Flags : Type 0 where
  pub release : Bool
  pub parsed : Bool

-- `rc & ~NN_PIPE_RELEASE`.
abbrev pub drop_release : Flags → Flags
drop_release f = record f { release = false }

-- NN_SOCKBASE_EVENT_IN and NN_SOCKBASE_EVENT_OUT.
pub record Events : Type 0 where
  pub readable : Bool
  pub writable : Bool

-- What a socket type calls on a pipe. `Outcome.abort` stands for `errnum_assert (rc >= 0, -rc)`
-- and for the assertions of `nn_pipe_send` and `nn_pipe_recv`.
pub record Pipes : Type 1 where
  pub World : Type 0
  pub send : ℕ → Msg → World → Outcome (Flags × World)
  pub recv : ℕ → World → Outcome (Flags × Msg × World)

-- Pipes that each answer a write in one way, and keep a log of what was written to them. Nothing
-- is ever read from them.
abbrev pub Log : Type 0
Log = List (ℕ × Msg)

abbrev pub logged : (ℕ → Flags) → Pipes
logged answer = record {
  World = Log;
  send = λ p m log. done (answer p, log ++ (p, m) ∷ []);
  recv = λ p log. abort;
}
