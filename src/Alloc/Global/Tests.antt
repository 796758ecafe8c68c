-- ===== src/Alloc/Global/Tests.antt =====
-- The interface at a heap of three blocks.
use nt_rustos.Common.{ℕ, ◌^◌, ◌≡◌, refl, some, none, List, arith}
use nt_rustos.Alloc.Memory.{null}
use nt_rustos.Alloc.Early.{State, AllocError, err}
use nt_rustos.Alloc.Early.Layout.{Block}
use nt_rustos.Alloc.Early.Invariant.{Inv}
use nt_rustos.Alloc.Early.Sample.{three_blocks, three, three-Inv}
use nt_rustos.Alloc.Guarded.{hold}
use nt_rustos.Alloc.Global
use nt_rustos.Alloc.Global.{Layout}
use nt_rustos.Alloc.Global.Bytes.{alloc_zeroed}
use nt_rustos.Alloc.Global.Bytes.Zeroed.{Zeroed, alloc_zeroed-Zeroed}

abbrev sixteen : Layout
sixteen = record { size = 16; align = 8 }

-- A size that cannot be laid out is refused, and the old block stays.
realloc_too_large :
    Global.realloc 4208 sixteen (2 ^ 63) (hold three_blocks) ≡ some (null, none, hold three_blocks)
unfolding Global.realloc Global.from_size_align
realloc_too_large = refl

safe_alloc_page :
    Global.safe_alloc (record { size = 16; align = 8192 }) (hold three_blocks)
    ≡ some (err AllocError.invalid_alignment, hold three_blocks)
unfolding Global.safe_alloc Global.layout_error
safe_alloc_page = refl

alloc_zeroed-Zeroed_example :
    (p : ℕ) × (t : State) × (bs : List Block) × (after : ℕ → ℕ) × (alloc_zeroed sixteen
        (hold three_blocks)
        (λ a. 7)
      ≡ some (p, hold t, after))
    × Inv t bs
    × Zeroed three_blocks 16 (λ a. 7) p after
alloc_zeroed-Zeroed_example =
    alloc_zeroed-Zeroed three_blocks three three-Inv sixteen (λ a. 7) (omega arith)
