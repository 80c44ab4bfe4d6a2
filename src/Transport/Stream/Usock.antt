-- ===== src/Transport/Stream/Usock.antt =====
-- aio/usock.h as a session uses it: a read of a number of bytes and a write of some bytes that were
-- asked for and are not done, and what the owner is told later. The socket of the system is behind
-- it.
use vnano_msg.Common.{ℕ, Option, none, some, List}

pub record Usock : Type 0 where
  pub reading : Option ℕ
  pub writing : Option (List ℕ)

-- NN_USOCK_SENT, NN_USOCK_RECEIVED with the bytes that stand in the buffer now, NN_USOCK_SHUTDOWN and
-- NN_USOCK_ERROR.
pub data Told : Type 0 where
  sent shutdown error : Told
  received : List ℕ → Told

unfoldable pub idle : Usock
idle = record { reading = none; writing = none }

-- `nn_usock_recv`, for a number of bytes.
unfoldable pub recv : ℕ → Usock → Usock
recv n u = record u { reading = some n }

-- `nn_usock_send`, for the bytes of the vectors.
unfoldable pub send : List ℕ → Usock → Usock
send bytes u = record u { writing = some bytes }
