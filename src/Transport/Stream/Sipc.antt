-- ===== src/Transport/Stream/Sipc.antt =====
-- transports/ipc/sipc.c: the sessions of the ipc transport. They do what those of stcp.c do, statement
-- by statement but for the type of a message in front of its size, and are modelled by the same
-- functions.
use vnano_msg.Common.{Bool, Option, Outcome}
use vnano_msg.Core.Pipes.{Msg, Flags}
use vnano_msg.Core.Pipebase.{Transport}
use vnano_msg.Transport.Stream.Session
use vnano_msg.Transport.Stream.Session.{Session, Sock, Event, State, Raised, ipc}

abbrev pub Sipc : Type 0
Sipc = Session

abbrev pub init : Sipc
init = Session.init

abbrev pub term : Sipc → Outcome (Unit {0})
term = Session.term

abbrev pub is_idle : Sipc → Bool
is_idle = Session.is_idle

abbrev pub start : Sock → Sipc → Outcome (Sipc × Option Raised)
start = Session.start ipc

abbrev pub stop : Sipc → Outcome (Sipc × Option Raised)
stop = Session.stop

abbrev pub send : Msg → Sipc → Outcome (Flags × Bool × Sipc)
send = Session.send ipc

abbrev pub recv : Sipc → Outcome (Flags × Bool × Msg × Sipc)
recv = Session.recv ipc

abbrev pub shut : State → Event → Sipc → Outcome (Sipc × Option Raised)
shut = Session.shut

abbrev pub handle : State → Event → Sock → Sipc → Outcome (Sipc × Option Raised)
handle st e sock s = Session.handle st e ipc sock s

abbrev pub transport : Transport
transport = Session.transport ipc
