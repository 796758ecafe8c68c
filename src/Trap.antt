-- ===== src/Trap.antt =====
-- The trap system, src/trap.
pub mod RingBuffer
pub mod Order
pub mod Cause
pub mod Error
pub mod ErrorManager
pub mod Handlers
pub mod Context
pub mod LowLevel
pub mod System
