-- ===== src/Kernel.antt =====
-- src/lib.rs: the start of the kernel. `sbss`, `ebss` and `end` are addresses that the linker sets,
-- and parameters here; the bytes of the memory are a function of the address. Messages are left out.
pub mod Bss
pub mod Boot
pub mod Ending
pub mod Start
mod Tests
use nt_rustos.Common.{
  ℕ, zero, suc, ◌+◌, ◌-◌, ◌*◌, ◌/◌, ◌%◌, ◌^◌, min, max, Bool, true, false, ◌&&◌, ◌==◌, ltb, leb,
  if◌then◌else◌, Option, none, some, bit_and, add64,
}
use nt_rustos.Alloc.Early.{Result, ok, err, ◌>>=◌}
use nt_rustos.Alloc.Service
use nt_rustos.Alloc.Service.{Service}
use nt_rustos.Alloc.Service.Takeover.{
  Outcome, Mutex, ends, spinning, ◌>>>=◌, prepare_handover, drop_box,
}
use nt_rustos.Alloc.Global.{Layout}
use nt_rustos.Sbi.{Firmware}
use nt_rustos.Sbi.Services

-- `for addr in from..from + count { write_volatile(addr, 0) }`
unfoldable pub zero_range : ℕ → ℕ → (ℕ → ℕ) → ℕ → ℕ
zero_range zero from bytes = bytes
zero_range (suc count) from bytes =
    zero_range count (suc from) (λ a. if a == from then 0 else bytes a)

unfoldable pub clear_bss : ℕ → ℕ → ℕ → ℕ → (ℕ → ℕ) → ℕ → ℕ
clear_bss bss_start bss_end stack_bottom stack_top bytes =
    let low =
      if ltb bss_start stack_bottom
      then zero_range (min bss_end stack_bottom - bss_start) bss_start bytes
      else bytes in
    if ltb stack_top bss_end
    then (let from = max bss_start stack_top in zero_range (bss_end - from) from low)
    else low

-- The first step of `init`: the heap behind the kernel. On an error the kernel halts.
unfoldable pub init_heap : ℕ → Service → Option (Result (Unit {0}) × Service)
init_heap heap_start v =
    let heap_start_aligned = bit_and (add64 heap_start 0xF) (2 ^ 64 - 1 - 0xF) in
    let heap_size = 2 * 1024 * 1024 in Service.init heap_start_aligned heap_size v

-- The service after `reboot` and the state in which it leaves the firmware.
unfoldable pub reboot : {W : Type 0} → Firmware W → Service → W → Service × W
reboot fw v w =
    let v = if Service.is_initialized v then (Service.freeze v).1 else v in
    (v, Services.reboot fw w)

-- A call of the allocator leaves the firmware as it is.
abbrev pub beside : {S A W : Type 0} → W → Option (Outcome S A) → Option (Outcome (S × W) A)
beside w none = none
beside w (some (ends s a)) = some (ends (s, w) a)
beside w (some (spinning s)) = some (spinning (s, w))

-- The same for `shutdown`, beside the lock of the allocator, for which its handover may wait. `lock` is
-- `spin::Mutex::lock`, `layout` that of the handover, and `now` its time stamp.
unfoldable pub shutdown :
    {W : Type 0}
    → Firmware W
    → (Mutex → Outcome Mutex (Unit {0}))
    → Layout
    → ℕ
    → Service
    → W
    → Option (Outcome ((Service × Bool) × W) (Unit {0}))
shutdown fw lock layout now v w =
    if Service.is_initialized v
    then (beside w (prepare_handover lock layout now v) >>>= λ s b.
        elim b [ none ↦ some s.0 | some box ↦ drop_box lock layout now box s.0 ] >>= λ t.
        some (ends (((Service.freeze t.0).1, t.1), Services.shutdown fw s.1) tt))
    else some (ends ((v, false), Services.shutdown fw w) tt)

pub record MemoryInfo : Type 0 where
  pub total_size : ℕ
  pub used_size : ℕ
  pub free_size : ℕ
  pub allocator_initialized : Bool
  pub allocator_enabled : Bool
  pub allocation_count : ℕ
  pub deallocation_count : ℕ

unfoldable pub get_memory_info : Service → MemoryInfo
get_memory_info v =
    let usage : ℕ × ℕ × ℕ = elim (Service.usage_summary v) [ none ↦ (0, 0, 0) | some u ↦ u ] in
    let counts : ℕ × ℕ = elim (Service.stats v) [
      | none ↦ (0, 0)
      | some t ↦ (t.total_allocs, t.total_frees)
    ] in
    record {
      total_size = usage.0;
      used_size = usage.1;
      free_size = usage.2;
      allocator_initialized = Service.is_initialized v;
      allocator_enabled = Service.is_enabled v;
      allocation_count = counts.0;
      deallocation_count = counts.1;
    }

-- `as u8` keeps the low eight bits, and the product wraps.
unfoldable pub usage_percent : MemoryInfo → ℕ
usage_percent i = if i.total_size == 0 then 0 else i.used_size * 100 % 2 ^ 64 / i.total_size % 2 ^ 8

unfoldable pub is_healthy : MemoryInfo → Bool
is_healthy i =
    i.allocator_initialized
    && (ltb (usage_percent i) 95 && leb i.deallocation_count i.allocation_count)
