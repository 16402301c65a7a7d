-- ===== src/Memory.antt =====
-- src/memory: messages and the allocators.
pub mod Msg
pub mod Slab
