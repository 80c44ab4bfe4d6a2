-- ===== src/Protocol/Reqrep.antt =====
-- protocols/reqrep: the REQ and REP sockets, raw and cooked.
pub mod Backtrace
pub mod Xrep
pub mod Xreq
pub mod Rep
pub mod Req
use vnano_msg.Common.{ℕ}

-- NN_REQ and NN_REP, NN_PROTO_REQREP being 3
abbrev pub req_type : ℕ
req_type = 48

abbrev pub rep_type : ℕ
rep_type = 49
