-- ===== src/Alloc.antt =====
-- src/init/alloc: the early heap allocator of the kernel.
pub mod Purpose
pub mod Header
pub mod Stats
pub mod Memory
pub mod Early
pub mod Handover
pub mod Guarded
pub mod Global
pub mod Service
pub mod Walk
pub mod Lock
pub mod Health
