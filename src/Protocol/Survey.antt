-- ===== src/Protocol/Survey.antt =====
-- protocols/survey: the SURVEYOR and RESPONDENT sockets, raw and cooked.
pub mod Xsurveyor
pub mod Surveyor
pub mod Xrespondent
pub mod Respondent
use vnano_msg.Common.{ℕ}

-- NN_SURVEYOR and NN_RESPONDENT, NN_PROTO_SURVEY being 6
abbrev pub surveyor_type : ℕ
surveyor_type = 98

abbrev pub respondent_type : ℕ
respondent_type = 99
