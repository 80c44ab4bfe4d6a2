-- ===== src/Protocol/Bus.antt =====
-- protocols/bus: the BUS sockets, raw and cooked. A pipe is named by its address here.
pub mod Xbus
pub mod Cooked
pub mod Forward
use vnano_msg.Common.{ℕ}

-- NN_BUS, NN_PROTO_BUS being 7
abbrev pub bus_type : ℕ
bus_type = 112
