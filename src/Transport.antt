-- ===== src/Transport.antt =====
-- src/transport: what carries messages between sockets.
pub mod Msgqueue
pub mod Sinproc
pub mod Stream
pub mod Sipc
pub mod Sws
pub mod Stls
