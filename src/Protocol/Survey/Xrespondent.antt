-- ===== src/Protocol/Survey/Xrespondent.antt =====
-- protocols/survey/xrespondent.c: the raw RESPONDENT socket. It does with surveys what xrep.c does
-- with requests, statement by statement, and is modelled by the same functions.
use vnano_msg.Common.{ℕ, Bool, Outcome, Reply, ◌==◌}
use vnano_msg.Core.Pipes.{Msg, Pipes, Events}
use vnano_msg.Protocol.Reqrep.Xrep
use vnano_msg.Protocol.Reqrep.Xrep.{Xrep, XrepData}
use vnano_msg.Protocol.Survey.{surveyor_type}

abbrev pub XrespondentData : Type 0
XrespondentData = XrepData

abbrev pub Xrespondent : Type 0
Xrespondent = Xrep

abbrev pub init : ℕ → (ℕ → XrespondentData) → Xrespondent
init = Xrep.init

abbrev pub term : Xrespondent → Outcome (Unit {0})
term = Xrep.term

abbrev pub add : Xrespondent → ℕ → ℕ → Outcome Xrespondent
add = Xrep.add

abbrev pub rm : Xrespondent → ℕ → Outcome Xrespondent
rm = Xrep.rm

abbrev pub activate_in : Xrespondent → ℕ → Outcome Xrespondent
activate_in = Xrep.activate_in

abbrev pub activate_out : Xrespondent → ℕ → Xrespondent
activate_out = Xrep.activate_out

abbrev pub events : Xrespondent → Events
events = Xrep.events

unfoldable pub is_peer : ℕ → Bool
is_peer socktype = socktype == surveyor_type

abbrev pub send : (ps : Pipes) → Xrespondent → Msg → ps.World → Outcome (Xrespondent × ps.World)
send = Xrep.send

abbrev pub recv :
    (ps : Pipes) → ℕ → Xrespondent → ps.World → Outcome (Reply Msg × Xrespondent × ps.World)
recv = Xrep.recv
