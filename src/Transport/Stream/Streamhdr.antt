-- ===== src/Transport/Stream/Streamhdr.antt =====
-- transports/utils/streamhdr.c: the state machine that exchanges the protocol headers of two peers
-- over a stream, within a second.
use vnano_msg.Common.{
  ℕ, ◌%◌, ◌^◌, Bool, true, false, not, Option, none, some, List, [], ◌∷◌, ◌++◌, drop, Outcome, done,
  abort, ◌>>=◌, ◌>>◌, assert, if◌then◌else◌, ◌==◌, ◌&&◌,
}
use vnano_msg.Utils.Wire.{puts, gets}
use vnano_msg.Aio.Fsm
use vnano_msg.Aio.Fsm.{Fsm}
use vnano_msg.Aio.Timer
use vnano_msg.Aio.Timer.{Timer}
use vnano_msg.Transport.Stream.Usock
use vnano_msg.Transport.Stream.Usock.{Usock}

-- NN_STREAMHDR_STATE_*; `finished` is NN_STREAMHDR_STATE_DONE.
pub data State : Type 0 where
  idle sending receiving stopping_timer_error stopping_timer_done finished stopping : State

pub data Event : Type 0 where
  starts stops : Event
  usock : Usock.Told → Event
  timer : Timer.Raised → Event

-- NN_STREAMHDR_OK, NN_STREAMHDR_ERROR and NN_STREAMHDR_STOPPED, raised to the owner.
pub data Raised : Type 0 where
  accepted error stopped : Raised

pub record Streamhdr : Type 0 where
  pub fsm : Fsm
  pub state : State
  pub timer : Timer
  pub has_usock : Bool
  pub protohdr : List ℕ

unfoldable pub init : Streamhdr
init = record { fsm = Fsm.init; state = idle; timer = Timer.init; has_usock = false; protohdr = [] }

abbrev pub is_idle_state : State → Bool
is_idle_state idle = true
is_idle_state _ = false

unfoldable pub term : Streamhdr → Outcome (Unit {0})
term h = do assert (is_idle_state h.state); Timer.term h.timer; assert (Fsm.is_idle h.fsm)

unfoldable pub is_idle : Streamhdr → Bool
is_idle h = Fsm.is_idle h.fsm

-- "\0SP\0"
abbrev pub magic : List ℕ
magic = 0 ∷ 83 ∷ 80 ∷ 0 ∷ []

-- The header of a protocol.
unfoldable pub compose : ℕ → List ℕ
compose protocol = magic ++ (puts (protocol % 2 ^ 16) ++ 0 ∷ 0 ∷ [])

-- `memcmp` of as many bytes as the second list has.
unfoldable pub begins : List ℕ → List ℕ → Bool
begins bytes [] = true
begins [] (c ∷ cs) = false
begins (b ∷ bytes) (c ∷ cs) = b == c && begins bytes cs

unfoldable pub stop_timer : State → Streamhdr → Outcome Streamhdr
stop_timer next h = do t ← Timer.stop h.timer; done (record h { timer = t; state = next })

-- The socket goes back to its owner, which is told.
unfoldable pub hand_back : Raised → Streamhdr → Streamhdr × Option Raised
hand_back r h = (record h { has_usock = false; state = finished }, some r)

-- The header of the peer has come; `ispeer` is `nn_pipebase_ispeer`.
unfoldable pub check : (ℕ → Bool) → List ℕ → Streamhdr → Outcome Streamhdr
check ispeer bytes h =
    if not (begins bytes magic)
    then stop_timer stopping_timer_error h
    else elim (gets (drop 4 bytes)) [
      | none ↦ abort
      | some protocol ↦
          stop_timer (if ispeer protocol then stopping_timer_done else stopping_timer_error) h
    ]

abbrev pub quiet : Streamhdr × Usock → Outcome (Streamhdr × Usock × Option Raised)
quiet (h, u) = done (h, u, none)

-- `nn_streamhdr_handler`, by the state.
unfoldable pub handle :
    State → Event → (ℕ → Bool) → Streamhdr × Usock → Outcome (Streamhdr × Usock × Option Raised)
handle idle starts ispeer (h, u) = do
  t ← Timer.start h.timer (some 1000)
  quiet (record h { timer = t; state = sending }, Usock.send h.protohdr u)
handle sending (usock Usock.Told.sent) ispeer (h, u) =
    quiet (record h { state = receiving }, Usock.recv 8 u)
handle sending (usock Usock.Told.shutdown) ispeer w = quiet w
handle sending (usock Usock.Told.error) ispeer (h, u) = do
  h' ← stop_timer stopping_timer_error h
  quiet (h', u)
handle sending (timer Timer.Raised.timeout) ispeer (h, u) = do
  h' ← stop_timer stopping_timer_error h
  quiet (h', u)
handle receiving (usock (Usock.Told.received bytes)) ispeer (h, u) = do
  h' ← check ispeer bytes (record h { protohdr = bytes })
  quiet (h', u)
handle receiving (usock Usock.Told.shutdown) ispeer w = quiet w
handle receiving (usock Usock.Told.error) ispeer (h, u) = do
  h' ← stop_timer stopping_timer_error h
  quiet (h', u)
handle receiving (timer Timer.Raised.timeout) ispeer (h, u) = do
  h' ← stop_timer stopping_timer_error h
  quiet (h', u)
handle stopping_timer_error (usock told) ispeer w = quiet w
handle stopping_timer_error (timer Timer.Raised.stopped) ispeer (h, u) =
    let (h', r) = hand_back error h in done (h', u, r)
handle stopping_timer_done (usock told) ispeer w = quiet w
handle stopping_timer_done (timer Timer.Raised.stopped) ispeer (h, u) =
    let (h', r) = hand_back accepted h in done (h', u, r)
handle _ _ ispeer w = abort

-- The end of the shutdown, once the timer is idle.
unfoldable pub finish : Streamhdr → Outcome (Streamhdr × Option Raised)
finish h =
    let ended : Outcome (Streamhdr × Option Raised) = do
      fsm ← Fsm.stopped h.fsm
      done (record h { fsm = fsm; state = idle }, some stopped)
    in if Timer.is_idle h.timer then ended else done (h, none)

-- `nn_streamhdr_shutdown`, by the state.
unfoldable pub shut : State → Event → Streamhdr → Outcome (Streamhdr × Option Raised)
shut _ stops h = do h' ← stop_timer stopping h; finish h'
shut stopping e h = finish h
shut _ e h = abort

unfoldable pub feed :
    Event → (ℕ → Bool) → Streamhdr × Usock → Outcome (Streamhdr × Usock × Option Raised)
feed e ispeer (h, u) =
    Fsm.feed h.fsm (handle h.state e ispeer (h, u)) (do (h', r) ← shut h.state e h; done (h', u, r))

-- `nn_streamhdr_start` for a socket of this protocol.
unfoldable pub start : ℕ → Streamhdr × Usock → Outcome (Streamhdr × Usock × Option Raised)
start protocol (h, u) = do
  assert (not h.has_usock)
  let h1 : Streamhdr = record h { has_usock = true; protohdr = compose protocol }
  Fsm.start h1.fsm (λ fsm. handle h1.state starts (λ p. false) (record h1 { fsm = fsm }, u))

unfoldable pub stop : Streamhdr → Outcome (Streamhdr × Option Raised)
stop h = Fsm.stop h.fsm (done (h, none)) (λ fsm. shut h.state stops (record h { fsm = fsm }))

-- What the timer raises goes to the state machine.
unfoldable pub forward :
    (ℕ → Bool)
    → Timer × Option Timer.Raised
    → Streamhdr × Usock
    → Outcome (Streamhdr × Usock × Option Raised)
forward ispeer (t, none) (h, u) = quiet (record h { timer = t }, u)
forward ispeer (t, some r) (h, u) =
    feed (timer r) ispeer (record h { timer = record t { fsm = Fsm.processed t.fsm } }, u)

-- The worker executes a task of the timer, or finds that its time is over.
unfoldable pub run_task :
    (ℕ → Bool) → Streamhdr × Usock → Outcome (Streamhdr × Usock × Option Raised)
run_task ispeer (h, u) = do x ← Timer.run_task h.timer; forward ispeer x (h, u)

unfoldable pub expire : (ℕ → Bool) → Streamhdr × Usock → Outcome (Streamhdr × Usock × Option Raised)
expire ispeer (h, u) = do x ← Timer.expire h.timer; forward ispeer x (h, u)
