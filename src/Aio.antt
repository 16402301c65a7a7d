-- ===== src/Aio.antt =====
-- src/aio: timers.
pub mod Timerset
