-- ===== src/Memory.antt =====
-- src/memory: the allocators.
pub mod Align
pub mod Block
pub mod Kind
pub mod Driver
pub mod Pool
pub mod Slab
pub mod FrameAlloc
pub mod Resources
pub mod Dedicated
mod Tests
