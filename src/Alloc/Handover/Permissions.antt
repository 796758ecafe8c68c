-- ===== src/Alloc/Handover/Permissions.antt =====
-- `MemoryPermissions` of src/init/alloc/handover.rs, by its bits.
use nt_rustos.Common.{ℕ, Bool, false, bit_and, bit_or, ◌==◌, ◌≡◌, refl}
use nt_rustos.Alloc.Handover.{read, write, read_write}

abbrev pub execute : ℕ
execute = 4

abbrev pub user : ℕ
user = 8

abbrev pub cached : ℕ
cached = 16

abbrev pub shared : ℕ
shared = 32

abbrev pub read_execute : ℕ
read_execute = bit_or read execute

abbrev pub read_write_execute : ℕ
read_write_execute = bit_or (bit_or read write) execute

unfoldable pub contains_all : ℕ → ℕ → Bool
contains_all bits other = bit_and bits other == other

unfoldable pub can_read : ℕ → Bool
can_read bits = contains_all bits read

unfoldable pub can_write : ℕ → Bool
can_write bits = contains_all bits write

unfoldable pub can_execute : ℕ → Bool
can_execute bits = contains_all bits execute

tracked_blocks_are_data : can_execute read_write ≡ false
unfolding can_execute contains_all
tracked_blocks_are_data = refl

code_is_not_written : can_write read_execute ≡ false
unfolding can_write contains_all
code_is_not_written = refl
