-- ===== src/Alloc/Global/Bytes.antt =====
-- The bytes of the users of src/init/alloc/global.rs: `alloc_zeroed`, and what `realloc` copies. The
-- bytes are a function of the address; those of a block that nobody holds are of no account.
pub mod Zeroed
use nt_rustos.Common.{ℕ, ◌+◌, ◌-◌, ◌&&◌, leb, ltb, ◌==◌, if◌then◌else◌, Option, none, some}
use nt_rustos.Alloc.Memory.{null}
use nt_rustos.Alloc.Early.{◌>>=◌}
use nt_rustos.Alloc.Guarded.{ThreadSafeEarlyAllocator}
use nt_rustos.Alloc.Global
use nt_rustos.Alloc.Global.{Layout, Copy}

-- `ptr::write_bytes(p, 0, count)`
abbrev pub write_zeros : ℕ → ℕ → (ℕ → ℕ) → ℕ → ℕ
write_zeros p count bytes a = if leb p a && ltb a (p + count) then 0 else bytes a

abbrev pub copy_bytes : Copy → (ℕ → ℕ) → ℕ → ℕ
copy_bytes c bytes a =
    if leb c.target a && ltb a (c.target + c.count)
    then bytes (c.source + (a - c.target))
    else bytes a

unfoldable pub alloc_zeroed :
    Layout → ThreadSafeEarlyAllocator → (ℕ → ℕ) → Option (ℕ × ThreadSafeEarlyAllocator × (ℕ → ℕ))
alloc_zeroed layout g bytes = do
  r ← Global.alloc layout g
  some (r.0, r.1, if r.0 == null then bytes else write_zeros r.0 layout.size bytes)

unfoldable pub realloc :
    ℕ
    → Layout
    → ℕ
    → ThreadSafeEarlyAllocator
    → (ℕ → ℕ)
    → Option (ℕ × ThreadSafeEarlyAllocator × (ℕ → ℕ))
realloc ptr layout new_size g bytes = do
  r ← Global.realloc ptr layout new_size g
  some (r.0, r.2, elim r.1 [ none ↦ bytes | some c ↦ copy_bytes c bytes ])
