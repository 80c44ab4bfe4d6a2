-- ===== src/Protocol.antt =====
-- The socket types under src/protocols.
pub mod Excl
pub mod Priolist
pub mod Fq
pub mod Lb
pub mod Dist
pub mod Trie
pub mod Pair
pub mod Pipeline
pub mod Pubsub
pub mod Reqrep
pub mod Bus
pub mod Survey
mod Tests
mod SocketTests
mod ReqrepTests
mod ReqTests
mod SurveyTests
