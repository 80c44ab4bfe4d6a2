-- ===== src/Transport/Inproc.antt =====
-- The inproc transport, transports/inproc, but for its queue of messages, which is Msgqueue.
pub mod Sinproc
mod Tests
