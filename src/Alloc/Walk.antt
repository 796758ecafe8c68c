-- ===== src/Alloc/Walk.antt =====
-- `BlockIterator` and `BlockValidator` of src/init/alloc/metadata.rs: a second walk over the headers.
-- The memory is passed in; a header is its address.
pub mod Agreement
mod Tests
use Prim.Native.String.{String}
use nt_rustos.Common.{
  ℕ, zero, suc, Bool, true, false, not, ◌==◌, ltb, leb, if◌then◌else◌, Option, none, some, add64,
  sub64,
}
use nt_rustos.Alloc.Header
use nt_rustos.Alloc.Header.{block_magic, total_size, user_data_addr}
use nt_rustos.Alloc.Stats
use nt_rustos.Alloc.Stats.{AllocStats}
use nt_rustos.Alloc.Memory.{Memory}

pub record BlockIterator : Type 0 where
  pub current : ℕ
  pub end : ℕ

unfoldable pub new : ℕ → ℕ → BlockIterator
new start end = record { current = start; end = end }

unfoldable pub next : Memory → BlockIterator → Option ℕ × BlockIterator
next m it =
    if leb it.end it.current
    then (none, it)
    else let h = m.header it.current in
      if h.magic == block_magic
      then (some it.current, record it { current = add64 it.current (total_size h) })
      else (none, it)

pub record BlockValidator : Type 0 where
  pub heap_start : ℕ
  pub heap_end : ℕ
  pub stats : AllocStats

unfoldable pub new_validator : ℕ → ℕ → BlockValidator
new_validator heap_start heap_end = record {
  heap_start = heap_start;
  heap_end = heap_end;
  stats = Stats.new (sub64 heap_end heap_start);
}

pub data HeapCheck : Type 0 where
  filled : HeapCheck
  broken : String → HeapCheck

-- The end of `validate_heap`.
abbrev pub total_check : BlockValidator → ℕ → HeapCheck
total_check v total =
    if not (total == sub64 v.heap_end v.heap_start)
    then broken "Heap blocks do not fill entire heap"
    else filled

-- Its loop. `none` is a loop that has not ended within its fuel.
unfoldable pub validate_from : Memory → BlockValidator → ℕ → BlockIterator → ℕ → Option HeapCheck
validate_from m v zero it total = none
validate_from m v (suc fuel) it total =
    let r = next m it in
    let at = it.current in
    let h = m.header at in
    let rest = validate_from m v fuel r.1 (add64 total (total_size h)) in
    elim r.0 [
      | none ↦ some (total_check v total)
      | some header ↦
          if not (Header.validate h)
          then some (broken "Block validation failed")
          else if ltb v.heap_end (add64 (user_data_addr at) h.size)
          then some (broken "Block extends beyond heap boundary")
          else rest
    ]

unfoldable pub validate_heap : Memory → BlockValidator → Option HeapCheck
validate_heap m v = validate_from m v (suc v.heap_end) (new v.heap_start v.heap_end) 0
