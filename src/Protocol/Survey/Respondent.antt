-- ===== src/Protocol/Survey/Respondent.antt =====
-- protocols/survey/respondent.c: the RESPONDENT socket, which answers one survey at a time. It does
-- what rep.c does, on a raw RESPONDENT socket.
use vnano_msg.Common.{ℕ, Outcome, Reply}
use vnano_msg.Core.Pipes.{Msg, Pipes, Events}
use vnano_msg.Protocol.Reqrep.Rep
use vnano_msg.Protocol.Reqrep.Rep.{Rep}
use vnano_msg.Protocol.Survey.Xrespondent.{XrespondentData}

abbrev pub Respondent : Type 0
Respondent = Rep

abbrev pub init : ℕ → (ℕ → XrespondentData) → Respondent
init = Rep.init

abbrev pub term : Respondent → Outcome (Unit {0})
term = Rep.term

abbrev pub events : Respondent → Events
events = Rep.events

abbrev pub send :
    (ps : Pipes) → Respondent → Msg → ps.World → Outcome (Reply (Unit {0}) × Respondent × ps.World)
send = Rep.send

abbrev pub recv :
    (ps : Pipes) → ℕ → Respondent → ps.World → Outcome (Reply Msg × Respondent × ps.World)
recv = Rep.recv
