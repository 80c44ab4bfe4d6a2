-- ===== src/Protocol/Pipeline.antt =====
-- protocols/pipeline/xpush.c and xpull.c: the raw PUSH and PULL sockets, which `nn_push_create` and
-- `nn_pull_create` use as well. The priority of a pipe, which `nn_pipe_getopt` tells, is an argument.
pub mod Push
pub mod Pull
use vnano_msg.Common.{ℕ, Bool, Option, none, some, Outcome, done, ◌>>=◌, ◌>>◌, ◌&&◌, leb, assert}

-- NN_PUSH and NN_PULL, NN_PROTO_PIPELINE being 5
abbrev pub push_type : ℕ
push_type = 80

abbrev pub pull_type : ℕ
pull_type = 81

-- The assertion on the priority of a pipe.
abbrev pub valid_priority : ℕ → Bool
valid_priority n = leb 1 n && leb n 16

-- `nn_sock_stat_increment` of NN_STAT_CURRENT_SND_PRIORITY, -1 being `none`.
unfoldable pub set_priority : Option ℕ → Outcome (Option ℕ)
set_priority none = done none
set_priority (some n) = do assert (valid_priority n); done (some n)
