-- ===== src/Protocol/Pubsub.antt =====
-- protocols/pubsub/xpub.c and xsub.c: the raw PUB and SUB sockets, which `nn_pub_create` and
-- `nn_sub_create` use as well.
pub mod Pub
pub mod Sub
use vnano_msg.Common.{ℕ}

-- NN_PUB and NN_SUB, NN_PROTO_PUBSUB being 2
abbrev pub pub_type : ℕ
pub_type = 32

abbrev pub sub_type : ℕ
sub_type = 33
