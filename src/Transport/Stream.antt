-- ===== src/Transport/Stream.antt =====
-- The transports over a stream of bytes, transports/tcp and transports/ipc: the exchange of protocol
-- headers and the session that frames messages.
pub mod Usock
pub mod Streamhdr
pub mod Session
pub mod Sipc
mod Tests
