-- ===== src/Transport/Backoff.antt =====
-- transports/utils/backoff.c: the time until a connection is tried again, which doubles up to a
-- maximum.
use vnano_msg.Common.{
  ℕ, ◌-◌, ◌*◌, ◌^◌, Bool, some, Outcome, done, ◌>>=◌, ◌>>◌, assert, ltb, if◌then◌else◌,
}
use vnano_msg.Aio.Timer
use vnano_msg.Aio.Timer.{Timer}

-- `struct nn_backoff`; the intervals are options that are not negative.
pub record Backoff : Type 0 where
  pub timer : Timer
  pub minivl : ℕ
  pub maxivl : ℕ
  pub n : ℕ

-- A result of a multiplication that an `int` cannot hold is undefined.
unfoldable pub as_int : ℕ → Outcome ℕ
as_int x = do assert (ltb x (2 ^ 31)); done x

unfoldable pub init : ℕ → ℕ → Backoff
init minivl maxivl = record { timer = Timer.init; minivl = minivl; maxivl = maxivl; n = 1 }

unfoldable pub term : Backoff → Outcome (Unit {0})
term b = Timer.term b.timer

unfoldable pub is_idle : Backoff → Bool
is_idle b = Timer.is_idle b.timer

unfoldable pub start_timer : Backoff → ℕ → Outcome Backoff
start_timer b timeout = do t ← Timer.start b.timer (some timeout); done (record b { timer = t })

-- `n` is at least 1 from `init` on.
unfoldable pub start : Backoff → Outcome Backoff
start b = do
  timeout ← as_int ((b.n - 1) * b.minivl)
  let doubled : Outcome Backoff = do n ← as_int (b.n * 2); start_timer (record b { n = n }) timeout
  if ltb b.maxivl timeout then start_timer b b.maxivl else doubled

unfoldable pub stop : Backoff → Outcome Backoff
stop b = do t ← Timer.stop b.timer; done (record b { timer = t })

unfoldable pub reset : Backoff → Backoff
reset b = record b { n = 1 }
