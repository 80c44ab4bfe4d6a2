-- ===== src/Transport.antt =====
-- The transports under src/transports.
pub mod Msgqueue
pub mod Inproc
pub mod Stream
pub mod Port
pub mod Base64
pub mod Backoff
mod Tests
