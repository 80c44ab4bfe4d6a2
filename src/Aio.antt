-- ===== src/Aio.antt =====
-- Asynchronous operations under src/aio.
pub mod Timerset
pub mod Fsm
pub mod Timer
mod Tests
