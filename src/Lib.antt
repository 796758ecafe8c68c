-- ===== src/Lib.antt =====
-- The kernel nt_rustos: a small RISC-V kernel with an early heap allocator (src/init/alloc) and a
-- trap system (src/trap).
--
-- Common holds the shared helpers: Boolean tests and lists on the native numbers, 64-bit words
-- with their wrap-around written out, and bit masks.
--
-- Alloc models src/init/alloc. Alloc/Purpose is `AllocPurpose` of handover.rs; Alloc/Header is
-- `BlockHeader` and Alloc/Stats is `AllocStats` of metadata.rs; Alloc/Memory is the raw memory
-- that allocator.rs reads and writes through pointers, as two functions from addresses to headers
-- and to free-list nodes; Alloc/Early is `EarlyAllocator` of allocator.rs with one function per
-- method, the state passed explicitly; its children Allocator and FreeList hold the state and the
-- list of the free blocks. A pointer is an address and null is 0. A sound heap is described by
-- Alloc/Early/Invariant: its headers tile it as a list of blocks (Alloc/Early/Layout), its free
-- list is the doubly linked list of the free blocks in the order of their addresses
-- (Alloc/Early/Chain and Links), and four counters agree with the blocks (Alloc/Early/Counts).
--
-- Alloc/Handover is `HandoverInfo` of handover.rs and `prepare_handover` of allocator.rs, which
-- walks the headers and notes the allocated blocks; its child Info holds the record, and Sort,
-- Queries, Pages and Permissions hold what the rest of handover.rs reads off the tracked blocks.
-- Alloc/Guarded is `ThreadSafeEarlyAllocator` of allocator.rs: the allocator, or nothing before
-- `init`; each method holds the lock from its start to its end and is one step. Alloc/Lock is that
-- lock itself, with the steps of several harts interleaved. Alloc/Global is `EarlyGlobalAllocator`
-- of global.rs, which forwards to it and implements `GlobalAlloc`; its children Bytes and Boxes
-- hold the bytes that `alloc_zeroed` and `realloc` write and the boxes of `EarlyBox` with their
-- values. Alloc/Service is mod.rs, the functions that the kernel calls, with the two flags, and
-- its child Takeover the functions that box a handover, with the lock of the allocator, whose code
-- is a parameter. Alloc/Early/Client and Alloc/Service/Client are clients of the allocator and of
-- the service.
--
-- The loops over the free list and over the headers run on fuel, one more than the address of the
-- heap's end. A list of distinct addresses in the heap, and a walk whose steps are at least 48
-- bytes, is no longer than that. Running out of fuel is `none`, and the theorems on sound heaps
-- say that it does not happen.
--
-- Trap models src/trap: Trap/RingBuffer is collections/ring_buffer.rs, Trap/Cause is ds/types.rs,
-- Trap/Error is ds/error.rs, and Trap/ErrorManager is infrastructure/error_manager.rs, whose map
-- of handlers by priority is the list of its pairs in the order of the keys and whose log is the
-- ring buffer. Trap/Context is ds/context.rs, Trap/LowLevel the control registers of
-- infrastructure/low_level.rs, and Trap/System infrastructure/di with api.rs. Trap/Handlers is
-- ds/handler.rs and infrastructure/handler_manager.rs: entries stand in a store that both maps
-- refer to, Trap/Order is the order in which both managers ask, a handler is a function that
-- changes the context of the trap, and the hash of a handle is a parameter. The iterator's loop
-- runs on fuel, one more than the number of elements.
--
-- Sbi models src/util/sbi/api.rs: Sbi holds the error codes and `sbi_call`, Sbi/Services the
-- wrappers, one module of the source after the other, and Sbi/Console the console of that file
-- with src/console.rs on it. The firmware is a parameter: functions of a state of its own for
-- `ecall` and for the legacy calls. The conversion of `putnum` runs on fuel 65, one round more
-- than a 64-bit number has bits.
--
-- Alloc/Health holds the percentages and the health report of metadata.rs, with arithmetic in f32
-- as a parameter, and the comparison of snapshots of mod.rs. Alloc/Walk is the iterator and the
-- validator of metadata.rs, a second walk over the headers. Kernel is lib.rs: clear_bss, the heap
-- that the kernel sets up behind itself, its shutdown and its restart. Kernel/Start is the start
-- of the kernel, from `rust_main` of main.rs to its main loop, and what a panic changes.
--
-- Not modelled: printing, with `print_sbi_info`; the destructors of boxed values; atomic counters
-- of time stamps beyond one counter for the headers; `HandoverProtocol`, a trait without an
-- implementation; the steps of several harts outside Alloc/Lock; the tests that the main loop and
-- `test_dynamic_structures` run, beyond the calls of the allocator; a trap that comes while the
-- lock of the trap system is held; and the assembly of the trap entry.
pub mod Common
pub mod Alloc
pub mod Trap
pub mod Sbi
pub mod Kernel
