-- ===== src/Alloc/Global/Boxes/Tests.antt =====
-- A box in a fresh heap.
use nt_rustos.Alloc.Global.{Layout}
use nt_rustos.Alloc.Global.Boxes

abbrev eight : Layout
eight = record { size = 8; align = 8 }
