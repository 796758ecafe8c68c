-- ===== src/Alloc/Lock/Tests.antt =====
-- Two harts, of which the first prepares the handover.
use nt_rustos.Common.{◌≡◌, refl, true, false, some, arith}
use nt_rustos.Alloc.Lock
use nt_rustos.Alloc.Lock.{Place, boxing, Harts, Step, call, enter, box, Steps, done, more, idle}
use nt_rustos.Alloc.Lock.Stuck.{holds, stuck_for_good}

abbrev called : Harts
called = Lock.move 0 (Place.waiting true) (idle true)

abbrev entered : Harts
entered = Lock.taken_by 0 (Lock.move 0 (Place.inside true) called)

abbrev boxes : Harts
boxes = Lock.move 0 boxing entered

abbrev asked : Harts
asked = Lock.move 1 (Place.waiting false) boxes

before : Steps (idle true) boxes
before = more (idle true) called boxes (call 0 true refl) (
    more called entered boxes (enter 0 true refl refl)
      (more entered boxes boxes (box 0 refl refl) (done boxes)))

after : Steps boxes asked
after = more boxes asked asked (call 1 false refl) (done asked)

stuck_for_good_example :
    (asked.place 0 ≡ boxing) × (asked.holder ≡ some 0) × (holds (asked.place 1) ≡ false)
stuck_for_good_example =
    stuck_for_good true boxes asked 0 1 before refl after (λ e. omega (arith, e))
