-- ===== src/Alloc/Early/Client/Tests.antt =====
-- A client of a fresh heap.
use nt_rustos.Common.{ℕ, ◌≡◌, List, [], ◌∷◌, arith, some}
use nt_rustos.Alloc.Early.{State}
use nt_rustos.Alloc.Early.Client.{Deed, ask, give, acts, IsShared}
use nt_rustos.Alloc.Early.Client.Serve.{acts-IsShared}
use nt_rustos.Alloc.Early.Sample.{start_state, start-IsShared}

-- It asks for three blocks, gives the middle one back and asks for a larger one.
abbrev deeds : List Deed
deeds = ask 24 8 ∷ ask 8 4 ∷ ask 40 8 ∷ give 1 ∷ ask 64 8 ∷ give 0 ∷ []

acts-IsShared_example :
    (t : State) × (held : List ℕ) × (acts deeds (start_state, []) ≡ some (t, held))
    × IsShared 8192 t held
acts-IsShared_example = acts-IsShared 8192 deeds start_state [] start-IsShared (ground arith)
