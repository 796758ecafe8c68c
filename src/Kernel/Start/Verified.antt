-- ===== src/Kernel/Start/Verified.antt =====
-- The start of the kernel goes through.
use nt_rustos.Common.{
  ℕ, ◌+◌, ◌^◌, ◌<◌, ◌≤◌, ◌≡◌, refl, Bool, true, false, List, [], ◌∷◌, Option, some, arith,
}
use nt_rustos.Alloc.Memory.{Memory}
use nt_rustos.Alloc.Early.{ok}
use nt_rustos.Alloc.Service
use nt_rustos.Alloc.Service.{Service}
use nt_rustos.Alloc.Service.Start.{waiting_at, opened_at, check-hold}
use nt_rustos.Alloc.Service.Calls.{call-Ends, calls_first, handed}
use nt_rustos.Alloc.Service.Client.{
  Call, open_heap, switch_on, switch_off, stop, get, get_aligned, put, put_safe, call, calls,
  IsSound, waiting, running, Careful, alloc_layout, dealloc_layout,
}
use nt_rustos.Trap.Cause.{direct}
use nt_rustos.Trap.Context
use nt_rustos.Trap.System.{Outside, Instance}
use nt_rustos.Trap.System.Interface
use nt_rustos.Trap.System.Boot.{HandlesDiffer, initialize-Ready}
use nt_rustos.Kernel.{init_heap}
use nt_rustos.Kernel.Boot.{init_heap-Inv}
use nt_rustos.Kernel.Start.{up, init, verify_system_state_after_init, rust_main}

-- No call takes back that there is a heap.
call-initialized :
    (c : Call) (v w : Service) (a : Option ℕ)
    → v.initialized ≡ true
    → call c v ≡ some (a, w)
    → w.initialized ≡ true
unfolding call Service.init Service.enable Service.disable Service.freeze Service.alloc
    Service.alloc_aligned Service.dealloc Service.dealloc_safe Service.is_initialized
    Service.is_enabled
call-initialized (open_heap start size) v w a h e = ground arith
call-initialized switch_on v w a h e = ground arith
call-initialized switch_off v w a h e = ground arith
call-initialized stop v w a h e = ground arith
call-initialized (get size) v w a h e = ground arith
call-initialized (get_aligned size align) v w a h e = ground arith
call-initialized (put ptr) v w a h e = ground arith
call-initialized (put_safe ptr) v w a h e = ground arith
call-initialized (alloc_layout layout) v w a h e = ground arith
call-initialized (dealloc_layout ptr layout) v w a h e = ground arith

-- A careful sequence of calls on a sound service with a heap leaves it one.
calls-initialized :
    (v : Service) (cs : List Call)
    → IsSound v
    → v.initialized ≡ true
    → Careful v cs
    → (as_ : List ℕ) × (w : Service) × (calls cs v ≡ some (as_, w))
      × IsSound w
      × (w.initialized ≡ true)
unfolding calls
calls-initialized v [] sound set care = ([], v, refl, sound, set)
calls-initialized v (c ∷ cs) sound set (h, next) =
    let (a, w, e, good) = call-Ends v c sound h in
    let (more, z, r, q, k) =
      calls-initialized w cs good (call-initialized c v w a set e) (next a w e) in
    (handed a more, z, calls_first v w z c cs a more e r, q, k)

verify-passes :
    (v : Service) (g : Instance)
    → IsSound v
    → v.initialized ≡ true
    → g.initialized ≡ true
    → verify_system_state_after_init v g ≡ some (up v g)
unfolding verify_system_state_after_init Service.is_initialized Interface.is_initialized
    Service.integrity_check
verify-passes _ g (waiting m on) h k = cc
verify-passes _ g (running on s bs inv) h k = simp (k, check-hold s bs inv)

init-up :
    (out : Outside) (end : ℕ) (uses later : List Call) (v o q w : Service) (g g' : Instance)
    (as_ bs_ : List ℕ)
    → init_heap end v ≡ some (ok tt, o)
    → calls uses o ≡ some (as_, q)
    → Interface.initialize_trap_system out direct g ≡ some g'
    → calls later q ≡ some (bs_, w)
    → init out end uses later v g ≡ some (up w g')
unfolding init
init-up out end uses later v o q w g g' as_ bs_ e r f k = rw (e, r, f, k) refl

-- The kernel comes up, if it ends at an address above 0 and more than 2 MB and 15 bytes below the end
-- of the address space, the handles of the default trap handlers are different, and the collections use
-- the new heap with care: the heap and the trap system are set up, what the kernel then verifies of them
-- holds, and the heap is sound.
pub rust_main-up :
    (out : Outside) (m : Memory) (on : Bool) (end : ℕ) (uses later : List Call) (g : Instance)
    → 0 < end
    → end + 2097168 ≤ 2 ^ 64
    → ((start : ℕ) → end ≤ start → start < end + 16 → Careful (opened_at m on start 2097152) uses)
    → ((start : ℕ) (as_ : List ℕ) (q : Service)
        → calls uses (opened_at m on start 2097152) ≡ some (as_, q)
        → Careful q later)
    → g.initialized ≡ false
    → HandlesDiffer out
    → (w : Service) × (g' : Instance) × (rust_main out end uses later (waiting_at m on) g
        ≡ some (up w g'))
      × IsSound w
      × (w.initialized ≡ true)
      × (g'.initialized ≡ true)
unfolding rust_main
rust_main-up out m on end uses later g pos room care then_care idle differ =
    let (start, e, round, low, high, inv) = init_heap-Inv m on end pos room in
    let boot = initialize-Ready out direct g Context.new idle differ in
    let (as_, q, r, fine, kept) =
      calls-initialized (opened_at m on start 2097152) uses (running on _ _ inv) refl
        (care start low high) in
    let (bs_, w, k, sound, set) = calls-initialized q later fine kept (then_care start as_ q r) in
    let started = init-up out end uses later _ _ _ w g boot.1 as_ bs_ e r boot.2 k in
    (w, boot.1, rw (started, verify-passes w boot.1 sound set boot.3) refl, sound, set, boot.3)
