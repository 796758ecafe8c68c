-- ===== src/Alloc/Early/Sample.antt =====
-- Two small heaps for the tests.
use nt_rustos.Common.{List, [], ◌∷◌, arith, false, refl, ◌==◌, if◌then◌else◌}
use nt_rustos.Alloc.Header
use nt_rustos.Alloc.Header.{free, allocated, update_checksum}
use nt_rustos.Alloc.Stats
use nt_rustos.Alloc.Memory.{Memory}
use nt_rustos.Alloc.Early.{State, fresh_state}
use nt_rustos.Alloc.Early.Layout.{Block, free_block, allocated_block}
use nt_rustos.Alloc.Early.Invariant.{Inv, new-Inv}
use nt_rustos.Alloc.Early.Sequence.{AtBlock}
use nt_rustos.Alloc.Early.Client.{IsShared}

-- Memory as it may be found: zeros.
abbrev pub blank : Memory
blank = record {
  header = λ x. Header.new 0 0 free;
  link = λ x. record { next = 0; prev = 0 };
  clock = 0;
}

-- A heap of 4096 bytes at 4096.
abbrev pub start_state : State
start_state = fresh_state blank 4096 4096

-- A heap of three blocks: 16 free bytes at 4096, 16 allocated ones at 4160, 64 free ones at 4224.
abbrev pub three_blocks : State
three_blocks = record {
  mem = record {
    header = λ x.
        if x == 4096
        then Header.new 1 16 free
        else if x == 4160
        then Header.new 2 16 allocated
        else Header.new 3 64 free;
    link = λ x.
        if x == 4144 then record { next = 4272; prev = 0 } else record { next = 0; prev = 4144 };
    clock = 4;
  };
  early = record {
    heap_start = 4096;
    heap_end = 4336;
    free_list_head = 4144;
    stats = record (Stats.new 240) {
      free_size = 176;
      free_count = 2;
      used_size = 16;
      alloc_count = 1;
    };
    frozen = false;
    next_alloc_id = 4;
  };
}

abbrev pub three : List Block
three = free_block 16 ∷ allocated_block 16 ∷ free_block 64 ∷ []

pub start-Inv : Inv start_state (free_block 4048 ∷ [])
start-Inv = (new-Inv blank 4096 4096 (omega arith) (omega arith) (omega arith)).1

pub three-Inv : Inv three_blocks three
unfolding Header.new Header.validate update_checksum Header.calculate_checksum Stats.new
    nt_rustos.Alloc.Purpose.code
three-Inv = record {
  tiles = (
    refl,
    refl,
    refl,
    omega arith,
    (refl, refl, refl, omega arith, (refl, refl, refl, omega arith, refl)),
  );
  chain = (refl, refl, (refl, refl, refl));
  start_pos = omega arith;
  bounded = omega arith;
  counts = record { free_size = refl; free_count = refl; used_size = refl; alloc_count = refl };
}

pub second-AtBlock : AtBlock three_blocks 4208
unfolding Header.new Header.validate update_checksum Header.calculate_checksum Stats.new
    nt_rustos.Alloc.Purpose.code
second-AtBlock =
    (free_block 16 ∷ [], 4160, (refl, refl, refl, omega arith, refl), omega arith, refl)

-- The heap at 4096 with a client that holds nothing.
pub start-IsShared : IsShared 8192 start_state []
unfolding fresh_state
start-IsShared = record {
  blocks = free_block 4048 ∷ [];
  sound = start-Inv;
  live = refl;
  tidy = (omega arith, tt);
  start_even = omega arith;
  ends = refl;
  owned = tt;
}
