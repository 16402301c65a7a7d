-- ===== src/Core.antt =====
-- src/core: sockets, endpoints and pipes.
pub mod Pipe
pub mod Socktypes
pub mod Global
pub mod Limits
pub mod Sock
