-- ===== src/Lib.antt =====
-- Models and proofs for the messaging library under VNanoMsg/src/main/cpp/src, which the Android
-- library VNanoMsg builds and calls through JNI. Paths below are relative to that directory.
--
-- A socket type (protocols/) is a set of callbacks over pipes: `add` and `rm` when a pipe comes and
-- goes, `in` and `out` when it gets ready for reading or writing, and `send`, `recv` and `events`,
-- which the socket calls. The socket types share the helpers of protocols/utils.
--
-- Common        numbers, lists, bits and results that the other modules share
-- Utils
--   ItemList    utils/list.c, the intrusive list, as the sequence of its items
--   Wire        utils/wire.c, numbers in network byte order
--   Hash        utils/hash.c, the table of chains that doubles its slots
-- Core
--   Pipes       protocol.h and utils/msg.h, the pipes that a socket type sees: a parameter with a
--               state of its own, `nn_pipe_send` and `nn_pipe_recv`
--   Pipebase    core/pipe.c, the states of a pipe between a transport and a socket type
--   Sock        core/sock.c, the options of a socket
-- Aio
--   Timerset    aio/timerset.c, the timeouts that wait
--   Fsm         aio/fsm.c, what all state machines share
--   Timer       aio/timer.c, a timer with the tasks that a worker has for it
-- Protocol
--   Excl        protocols/utils/excl.c, the one pipe of a PAIR socket
--   Priolist    protocols/utils/priolist.c, pipes in 16 slots of priority that take turns
--   Fq, Lb      protocols/utils/fq.c and lb.c, reading from and writing to the pipe whose turn it is
--   Dist        protocols/utils/dist.c, a message for all pipes
--   Trie        protocols/pubsub/trie.c, the subscriptions of a SUB socket
--   Pair        protocols/pair/xpair.c
--   Pipeline    protocols/pipeline/xpush.c and xpull.c
--   Pubsub      protocols/pubsub/xpub.c and xsub.c
--   Reqrep      protocols/reqrep: Xreq and Xrep are the raw sockets, Req and Rep the cooked ones, and
--               Backtrace is the header that names the way back of a reply
--   Bus         protocols/bus: Xbus is the raw socket, Cooked what bus.c adds
--   Survey      protocols/survey: Xsurveyor and Xrespondent are the raw sockets, Surveyor and
--               Respondent the cooked ones
-- Transport
--   Msgqueue    transports/inproc/msgqueue.c, the queue between two inproc sockets
--   Inproc      transports/inproc: Sinproc is one end of a connection, sinproc.c
--   Stream      transports/tcp and transports/ipc: Streamhdr exchanges protocol headers, streamhdr.c,
--               Session frames messages, stcp.c, Sipc is sipc.c
--   Port        transports/utils/port.c, port numbers in decimal
--   Base64      transports/utils/base64.c, bytes as text
--   Backoff     transports/utils/backoff.c, the time until a connection is tried again
--
-- The functions keep their names without the prefix (`nn_excl_send` is `Protocol.Excl.send`), but
-- for the callbacks `in` and `out`, which are `activate_in` and `activate_out`, or `activate` where
-- there is one of them. A struct is a record, an object that a function changes is returned anew,
-- and a pointer that may be NULL is an `Option`. A failed assertion, the use of a NULL pointer and a
-- read behind the end of a string are `abort`; a negative return code is an `Errno`. The data of a
-- pipe in a list is named by its pipe and priority, a pipe by a number. A count of 32 bits wraps
-- around where the code changes it, a `size_t` at 64 bits.
--
-- Fuel: `settle` of Priolist goes over the 16 slots. A loop down a trie leaves one character behind
-- in each round, so that one round more than the string has characters is enough. `recv_loop` of
-- xsub.c may go on for as long as messages come that nobody subscribed to; it is bounded by the
-- number of rounds. The inner loop of nn_base64_encode takes six bits in each round, and has a round
-- for each bit.
--
-- The trie: `count` says how often a trie is subscribed to a string, by way of its nodes alone, and
-- the operations are stated by it. A subscription that makes a full sparse array dense loses the
-- subscriptions to the string of that very node (trie.c:382): `forgets` tells when.
--
-- REQ and REP: a transport that parsed a message hands over its header apart, others in front of
-- the body. The data of a pipe of a REP socket are in a store by pipe, as the items of the table name
-- them. The state machine of a REQ socket takes the events of the application, the pipes and its
-- timer one at a time; `Shape` lists the states that it and the timer are in together. The loop of
-- nn_req_in may go on for as long as messages come that are not accepted; it is bounded by the number
-- of rounds, and comes back for each.
--
-- SURVEYOR, RESPONDENT and BUS: the RESPONDENT sockets do what the REP sockets do, and are the same
-- functions. `Shape` lists the states of a SURVEYOR socket and its timer. The loops of
-- nn_surveyor_recv and nn_xbus_recv may go on for as long as messages come that they pass over; they
-- are bounded by the number of rounds.
--
-- The hash table: `listed` tells of each structure whether its item is in a list, as the assertions of
-- nn_list_insert and nn_list_erase ask.
--
-- Base64: a call is the list of its writes with its return code, so that a call that fails shows what
-- it wrote. The index of the output wraps at 32 bits; the index of the input goes over a list, which
-- stands for an input of less than 2 ^ 32 elements.
--
-- The message queue: `Holds` says which messages are in the chain of chunks, and the calls are
-- stated by what a bounded list does.
--
-- The inproc transport: a call works on an end and its peer. An end raises events to the other, which
-- wait in a queue until they are delivered; `Run` lists the calls of the two sockets and the events
-- between them, in any order, and what each socket sent and got.
--
-- The transports over a stream: `Usock` is a read and a write that were asked for and are not done;
-- the socket of the system behind it decides when they are. `Run` lists the calls of the sockets of two
-- sessions and the work of the streams between them, in any order. The sessions of ipc are those of
-- tcp with one byte more in front of the size.
--
-- Numbers: an `int` is a natural number where the code keeps it from being negative, an `Option`
-- where all negative values mean the same, and a number with a sign in the options of a socket.
--
-- Not modelled: memory and its release (allocation succeeds, a message is a value, so that the
-- reference counts of shared chunks do not appear), the base class of the sockets but for its
-- options and the statistic on the send priority, threads, files and network connections,
-- what binds, connects and accepts, the WebSocket transport, and the rest of the core.
mod Common
pub mod Utils
pub mod Core
pub mod Aio
pub mod Protocol
pub mod Transport
