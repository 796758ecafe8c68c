-- ===== src/Alloc/Guarded/Tests.antt =====
-- The guard at a heap of 4096 bytes.
