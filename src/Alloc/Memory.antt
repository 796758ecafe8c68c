-- ===== src/Alloc/Memory.antt =====
-- The raw memory that src/init/alloc/allocator.rs works on through pointers: what an address reads
-- as, if it is taken for a `BlockHeader` and if it is taken for a `FreeBlock`. An address that the
-- allocator has not written reads as anything. Writes of the two types do not disturb one another:
-- the header of a block and its free-list node lie side by side.
use nt_rustos.Common.{ℕ, add64, ◌==◌, if◌then◌else◌}
use nt_rustos.Alloc.Header.{BlockHeader}

-- A pointer is an address, and 0 is the null pointer.
pub record FreeBlock : Type 0 where
  pub next : ℕ
  pub prev : ℕ

-- `clock` is the counter of `get_timestamp` of src/init/alloc/metadata.rs.
pub record Memory : Type 0 where
  pub header : ℕ → BlockHeader
  pub link : ℕ → FreeBlock
  pub clock : ℕ

abbrev pub null : ℕ
null = 0

-- `size_of::<FreeBlock>()`
abbrev pub free_block_size : ℕ
free_block_size = 16

unfoldable pub set_header : ℕ → BlockHeader → Memory → Memory
set_header a h m = record m { header = λ x. if x == a then h else m.header x }

unfoldable pub set_link : ℕ → FreeBlock → Memory → Memory
set_link a f m = record m { link = λ x. if x == a then f else m.link x }

-- `(*p).next = v` and `(*p).prev = v`
unfoldable pub set_next : ℕ → ℕ → Memory → Memory
unfolding set_link
set_next p v m = set_link p (record (m.link p) { next = v }) m

unfoldable pub set_prev : ℕ → ℕ → Memory → Memory
unfolding set_link
set_prev p v m = set_link p (record (m.link p) { prev = v }) m

-- The counter's `fetch_add(1)`.
unfoldable pub tick : Memory → Memory
tick m = record m { clock = add64 m.clock 1 }
