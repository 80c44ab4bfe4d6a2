-- ===== src/Core.antt =====
-- The core of the library under src/core, as far as the socket types see it.
pub mod Pipes
pub mod Pipebase
pub mod Sock
mod Tests
