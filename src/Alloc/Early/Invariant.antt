-- ===== src/Alloc/Early/Invariant.antt =====
-- The invariant of the early allocator, and its first instance: the heap that `new` sets up.
use nt_rustos.Common.{ℕ, ◌+◌, ◌-◌, ◌^◌, ◌<◌, ◌≤◌, ◌≡◌, refl, ==_refl, arith, List, [], ◌∷◌, true}
use nt_rustos.Alloc.Header
use nt_rustos.Alloc.Header.{BlockHeader, validate, update_checksum, block_magic}
use nt_rustos.Alloc.Stats
use nt_rustos.Alloc.Memory
use nt_rustos.Alloc.Memory.{Memory}
use nt_rustos.Alloc.Early.{State, ok, new, fresh_state}
use nt_rustos.Alloc.Early.Links.{IsFreeList}
use nt_rustos.Alloc.Early.Layout.{Block, free_block, Tiles, nodes}
use nt_rustos.Alloc.Early.Counts.{Counts}

-- The headers tile the heap as `bs`, the free list holds the nodes of the free blocks in the order
-- of their addresses, and the counters agree with `bs`.
pub record Inv (s : State) (bs : List Block) : Type 0 where
  pub tiles : Tiles s.mem s.early.heap_start bs s.early.heap_end
  pub chain : IsFreeList s (nodes s.early.heap_start bs)
  pub start_pos : 16 ≤ s.early.heap_start
  pub bounded : s.early.heap_end < 2 ^ 64
  pub counts : Counts s.early.stats bs

-- A header whose checksum has just been written is sound, if its magic number is.
pub update_checksum-validate :
    (h : BlockHeader) → h.magic ≡ block_magic → validate (update_checksum h) ≡ true
unfolding validate update_checksum Header.calculate_checksum
update_checksum-validate h e = ground arith

pub magic_of_validate : (h : BlockHeader) → validate h ≡ true → h.magic ≡ block_magic
unfolding validate
magic_of_validate h e = ground arith

-- `new` accepts a heap of at least 128 bytes at an address of at least 16 that ends below 2^64. It
-- becomes one free block, and the invariant holds.
pub new-Inv :
    (m : Memory) (start size : ℕ)
    → 16 ≤ start
    → 128 ≤ size
    → start + size < 2 ^ 64
    → (new m start size ≡ ok (fresh_state m start size))
      × Inv (fresh_state m start size) (free_block (size - 48) ∷ [])
unfolding new fresh_state Header.new Stats.new Memory.set_header Memory.set_link Memory.tick
new-Inv m start size h0 h1 h2 = (
  ground arith,
  record {
    tiles = (
      ground arith,
      ground arith,
      rw (==_refl start) (update_checksum-validate _ refl),
      omega arith,
      omega arith,
    );
    chain = ground arith;
    start_pos = h0;
    bounded = omega arith;
    counts = record {
      free_size = omega arith;
      free_count = refl;
      used_size = refl;
      alloc_count = refl;
    };
  },
)
