-- ===== src/Alloc/Service/Client.antt =====
-- A client of the service: the calls it makes, and the calls that it makes with care.
use nt_rustos.Common.{
  ℕ, ◌+◌, ◌^◌, ◌≤◌, ◌≡◌, ◌⊎◌, Bool, true, false, List, [], ◌∷◌, Option, none, some,
}
use nt_rustos.Alloc.Memory.{Memory}
use nt_rustos.Alloc.Early.{State, ◌>>=◌, non_null}
use nt_rustos.Alloc.Early.Layout.{Block}
use nt_rustos.Alloc.Early.Invariant.{Inv}
use nt_rustos.Alloc.Early.Sequence.{AtBlock}
use nt_rustos.Alloc.Guarded.{ThreadSafeEarlyAllocator, hold, state_of}
use nt_rustos.Alloc.Guarded.Guard.{unset}
use nt_rustos.Alloc.Global
use nt_rustos.Alloc.Global.{Layout}
use nt_rustos.Alloc.Service
use nt_rustos.Alloc.Service.{Service, with_instance}

pub data Call : Type 0 where
  open_heap : ℕ → ℕ → Call
  switch_on switch_off stop : Call
  get : ℕ → Call
  get_aligned : ℕ → ℕ → Call
  put put_safe : ℕ → Call
  alloc_layout : Layout → Call
  dealloc_layout : ℕ → Layout → Call

-- The last two are the calls of `GlobalAlloc`, by which the collections come to the heap; `realloc` is one
-- of the first and one of the second kind there. A call ends with an address, for a request that is met, and leaves a state.
unfoldable pub call : Call → Service → Option (Option ℕ × Service)
call (open_heap start size) v = Service.init start size v >>= λ r. some (none, r.1)
call switch_on v = some (none, Service.enable v)
call switch_off v = some (none, Service.disable v)
call stop v = some (none, (Service.freeze v).1)
call (get size) v = Service.alloc size v
call (get_aligned size align) v = Service.alloc_aligned size align v
call (put ptr) v = Service.dealloc ptr v >>= λ w. some (none, w)
call (put_safe ptr) v = Service.dealloc_safe ptr 0 v >>= λ r. some (none, r.1)
call (alloc_layout layout) v =
    Global.alloc layout v.instance_ >>= λ r. some (non_null r.0, with_instance v r.1)
call (dealloc_layout ptr layout) v =
    Global.dealloc ptr layout v.instance_ >>= λ g. some (none, with_instance v g)

-- The addresses that a sequence of calls hands out, and the state that it leaves.
unfoldable pub calls : List Call → Service → Option (List ℕ × Service)
unfolding call
calls [] v = some ([], v)
calls (c ∷ cs) v =
    call c v >>= λ r. calls cs r.1 >>= λ q. some (elim r.0 [ none ↦ q.0 | some a ↦ a ∷ q.0 ], q.1)

-- Before `init`, or with a sound heap.
pub data IsSound : Service → Type 0 where
  waiting :
      (m : Memory) (on : Bool)
      → IsSound (record { initialized = false; enabled = on; instance_ = unset m })
  running :
      (on : Bool) (s : State) (bs : List Block)
      → Inv s bs
      → IsSound (record { initialized = true; enabled = on; instance_ = hold s })

abbrev pub WithHeap : ThreadSafeEarlyAllocator → (State → Type 0) → Type 0
WithHeap g P = elim g.allocator [ none ↦ Unit {0} | some e ↦ P (state_of g e) ]

-- What a client owes once there is a heap: requests that do not reach the end of the address space,
-- and releases of the null pointer or of addresses that belong to a block.
abbrev pub Allowed : Service → Call → Type 0
Allowed v (get size) = WithHeap v.instance_ λ s. s.early.heap_end + 8 + size + 64 ≤ 2 ^ 64
Allowed v (get_aligned size align) =
    WithHeap v.instance_ λ s. s.early.heap_end + align + size + 64 ≤ 2 ^ 64
Allowed v (put ptr) = WithHeap v.instance_ λ s. (ptr ≡ 0) ⊎ AtBlock s ptr
Allowed v (put_safe ptr) = WithHeap v.instance_ λ s. (ptr ≡ 0) ⊎ AtBlock s ptr
Allowed v (alloc_layout layout) =
    WithHeap v.instance_ λ s. s.early.heap_end + layout.align + layout.size + 64 ≤ 2 ^ 64
Allowed v (dealloc_layout ptr layout) = WithHeap v.instance_ λ s. (ptr ≡ 0) ⊎ AtBlock s ptr
Allowed v c = Unit {0}

-- The next call is allowed, and whatever it answers, the client goes on with care in the state that it
-- leaves. That it ends is not said.
abbrev pub Careful : Service → List Call → Type 0
Careful v [] = Unit {0}
Careful v (c ∷ cs) =
    Allowed v c × ((a : Option ℕ) (w : Service) → call c v ≡ some (a, w) → Careful w cs)
