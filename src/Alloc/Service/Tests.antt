-- ===== src/Alloc/Service/Tests.antt =====
-- The service at a heap of 64 KB, and at one of three blocks.
use nt_rustos.Common.{ℕ, ◌≡◌, refl, true, List, [], ◌∷◌, some, arith, inl, inr, Option-cases}
use nt_rustos.Alloc.Early.{Result}
use nt_rustos.Alloc.Early.Sample.{blank, three_blocks, three, three-Inv}
use nt_rustos.Alloc.Guarded.{hold}
use nt_rustos.Alloc.Service
use nt_rustos.Alloc.Service.{Service}
use nt_rustos.Alloc.Service.Start.{Opened, waiting_at, init-Opened}
use nt_rustos.Alloc.Service.Calls.{calls-IsSound}
use nt_rustos.Alloc.Service.Client.{
  Call, switch_on, stop, get, put, calls, IsSound, running, Careful, Allowed,
}
use nt_rustos.Alloc.Service.Takeover.Hanging.{Handing, takeover-Handing}
use nt_rustos.Alloc.Service.Takeover.Sample.{layout, layout_fine, lock, lock-IsSpinLock}
use nt_rustos.Alloc.Service.Frozen.{IsFrozen, calls-freeze}

abbrev sample : Service
sample = record { initialized = true; enabled = true; instance_ = hold three_blocks }

init-Opened_example :
    (r : Result (Unit {0})) × (v : Service) × (Service.init 4096 65536 (waiting_at blank true)
      ≡ some (r, v))
    × Opened blank true 4096 65536 r v
init-Opened_example = init-Opened blank true 4096 65536

calls-freeze_example :
    (w : Service) × (calls (switch_on ∷ get 16 ∷ put 4208 ∷ []) (Service.freeze sample).1
      ≡ some ([], w))
    × (w.instance_.mem ≡ three_blocks.mem)
    × IsFrozen w
calls-freeze_example = calls-freeze true three_blocks (switch_on ∷ get 16 ∷ put 4208 ∷ [])

-- A client asks for 16 bytes, gives back the null pointer and freezes the heap.
abbrev plan : List Call
plan = get 16 ∷ put 0 ∷ stop ∷ []

sample-IsSound : IsSound sample
sample-IsSound = running true three_blocks three three-Inv

nothing_owed : (v : Service) → Allowed v (put 0)
nothing_owed v = elim (Option-cases v.instance_.allocator) [
  | inl e ↦ rw e tt
  | inr (a, e) ↦ rw e (inl refl)
]

careful : Careful sample plan
careful = (omega arith, λ a v e. (nothing_owed v, λ b w f. (tt, λ c z g. tt)))

calls-IsSound_example :
    (as_ : List ℕ) × (w : Service) × (calls plan sample ≡ some (as_, w)) × IsSound w
calls-IsSound_example = calls-IsSound sample plan sample-IsSound careful

takeover-Handing_example : Handing lock layout 7 9 sample
takeover-Handing_example =
    takeover-Handing lock layout 7 lock-IsSpinLock layout_fine 9 sample sample-IsSound
