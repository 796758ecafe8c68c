-- ===== src/Kernel/Tests.antt =====
-- The start of the kernel at small addresses.
use nt_rustos.Common.{
  suc, ℕ, ◌+◌, ◌<◌, ◌≤◌, ◌≡◌, refl, true, false, not, ◌&&◌, if◌then◌else◌, some, [], ◌∷◌, arith,
  inl, inr, Option-cases,
}
use nt_rustos.Alloc.Early.{fresh_state}
use nt_rustos.Alloc.Early.Sample.{blank, three_blocks, three-Inv}
use nt_rustos.Alloc.Guarded.{hold}
use nt_rustos.Alloc.Service.{Service}
use nt_rustos.Alloc.Global.{Layout}
use nt_rustos.Alloc.Service.Client.{
  alloc_layout, dealloc_layout, IsSound, running, Careful, Allowed,
}
use nt_rustos.Alloc.Service.Takeover.Sample.{layout, layout_fine, lock, lock-IsSpinLock}
use nt_rustos.Trap.System.{Instance}
use nt_rustos.Trap.System.Sample.{out, start, out-HandlesDiffer}
use nt_rustos.Sbi.{Firmware}
use nt_rustos.Kernel.{shutdown}
use nt_rustos.Kernel.Ending.{ShutDown, shutdown-ShutDown}
use nt_rustos.Kernel.Start.{up, rust_main}
use nt_rustos.Kernel.Start.Verified.{rust_main-up}
use nt_rustos.Alloc.Service.Start.{waiting_at, opened_at}
use nt_rustos.Kernel.{MemoryInfo, clear_bss, usage_percent, is_healthy}
use nt_rustos.Kernel.Bss.{within, clear_bss-within}

-- A section with the stack in its middle.
clear_bss-within_example :
    clear_bss 100 200 140 160 (λ a. 7) 150
    ≡ (if within 100 200 150 && not (within 140 160 150) then 0 else 7)
clear_bss-within_example = clear_bss-within 100 200 140 160 (λ a. 7) 150 (omega arith)

abbrev nearly_full : MemoryInfo
nearly_full = record {
  total_size = 1000;
  used_size = 950;
  free_size = 50;
  allocator_initialized = true;
  allocator_enabled = true;
  allocation_count = 3;
  deallocation_count = 1;
}

nearly_full_test : is_healthy nearly_full ≡ false
unfolding is_healthy usage_percent
nearly_full_test = refl

-- The collections of the kernel ask for 16 bytes, and give back the null pointer.
abbrev sixteen : Layout
sixteen = record { size = 16; align = 8 }

use_with_care :
    (start : ℕ)
    → 4100 ≤ start
    → start < 4100 + 16
    → Careful (opened_at blank true start 2097152) (alloc_layout sixteen ∷ [])
unfolding fresh_state
use_with_care start low high = (omega arith, λ a w e. tt)

nothing_owed : (v : Service) → Allowed v (dealloc_layout 0 sixteen)
nothing_owed v = elim (Option-cases v.instance_.allocator) [
  | inl e ↦ rw e tt
  | inr (a, e) ↦ rw e (inl refl)
]

rust_main-up_example :
    (w : Service) × (g : Instance) × (rust_main out 4100
        (alloc_layout sixteen ∷ [])
        (dealloc_layout 0 sixteen ∷ [])
        (waiting_at blank true)
        start
      ≡ some (up w g))
    × IsSound w
    × (w.initialized ≡ true)
    × (g.initialized ≡ true)
rust_main-up_example =
    rust_main-up out blank true 4100 (alloc_layout sixteen ∷ []) (dealloc_layout 0 sixteen ∷ [])
      start (omega arith) (omega arith) use_with_care
      (λ begin as_ q e. (nothing_owed q, λ a w f. tt)) refl out-HandlesDiffer

-- A firmware that only counts its calls.
abbrev counting : Firmware ℕ
counting = record {
  ecall = λ extension function args w. (record { error = 0; value = 0 }, suc w);
  console_putchar = λ c w. suc w;
  set_timer = λ t w. suc w;
  shutdown = λ w. suc w;
}

abbrev heap_in_use : Service
heap_in_use = record { initialized = true; enabled = true; instance_ = hold three_blocks }

shutdown-ShutDown_example :
    ShutDown counting heap_in_use 0 (shutdown counting lock layout 7 heap_in_use 0)
shutdown-ShutDown_example =
    shutdown-ShutDown counting lock layout 7 heap_in_use 0 lock-IsSpinLock layout_fine
      (running true _ _ three-Inv)
