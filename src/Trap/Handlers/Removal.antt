-- ===== src/Trap/Handlers/Removal.antt =====
-- The removal of a trap handler.
use nt_rustos.Common.{ℕ, ◌≡◌, ◌≢◌, ◌==◌, Bool, if◌then◌else◌, true, false, none, some}
use nt_rustos.Trap.Cause.{to_trap_type}
use nt_rustos.Trap.Cause.Decode.{index_of}
use nt_rustos.Trap.Handlers.{HeapHandlerManager, PriorityMap, lookup, insert, or_empty}
use nt_rustos.Trap.Handlers.Unregister.{remove, find_trap_type, drop_described}
use nt_rustos.Trap.Handlers.Dispatch.{handlers_of}
use nt_rustos.Trap.Handlers.Registered.{IsOrdered}
use nt_rustos.Trap.Handlers.Dropping.{others}
use nt_rustos.Trap.Handlers.Rights.{MayRemove}
use nt_rustos.Trap.Handlers.Keys.{IsMap, AllKeyed-IsOrdered}
use nt_rustos.Trap.Handlers.Search.{First, find_trap_type-First}

module _ {Context : Type 0} where
  -- What a request to remove a handler comes to: nothing, if its handle is not known, the requester has
  -- no right to it, or no trap type has a handler of its description and priority. Else the first such
  -- trap type loses all of them.
  pub data Removal (handle requester : ℕ) (m : HeapHandlerManager Context)
      : Bool × HeapHandlerManager Context → Type 0 where
    unknown : lookup handle m.handle_map ≡ none → Removal handle requester m (false, m)
    forbidden :
        (a : ℕ)
        → lookup handle m.handle_map ≡ some a
        → ¬ MayRemove (m.entries a) requester
        → Removal handle requester m (false, m)
    absent :
        (a : ℕ)
        → lookup handle m.handle_map ≡ some a
        → MayRemove (m.entries a) requester
        → First m.entries ((m.entries a).description) ((m.entries a).priority) m.handlers none
        → Removal handle requester m (false, m)
    removed :
        (a i : ℕ) (m' : HeapHandlerManager Context)
        → lookup handle m.handle_map ≡ some a
        → MayRemove (m.entries a) requester
        → First m.entries ((m.entries a).description) ((m.entries a).priority) m.handlers (some i)
        → m'.entries ≡ m.entries
        → IsOrdered m'
        → IsMap m'
        → lookup handle m'.handle_map ≡ none
        → ((h : ℕ) → handle ≢ h → lookup h m'.handle_map ≡ lookup h m.handle_map)
        → ((cause : Context → ℕ) (c : Context)
            → handlers_of cause m' c ≡ (
                if i == index_of (to_trap_type (cause c))
                then others m.entries
                    ((m.entries a).description)
                    ((m.entries a).priority)
                    (handlers_of cause m c)
                else handlers_of cause m c))
        → Removal handle requester m (true, m')

  module _ (handle requester : ℕ) (m : HeapHandlerManager Context) (h : IsOrdered m)
      (maps : IsMap m) where
    module _ (a i : ℕ) where
      abbrev less : PriorityMap → PriorityMap
      less l = drop_described m.entries ((m.entries a).description) ((m.entries a).priority) l

      abbrev smaller : HeapHandlerManager Context
      smaller = record m {
        handlers = elim (lookup i m.handlers) [
          | none ↦ m.handlers
          | some l ↦ insert i (less l) m.handlers
        ];
        handle_map = remove handle m.handle_map;
      }

      abbrev lists : ℕ → PriorityMap
      lists j = or_empty (lookup j m.handlers)

    searched :
        (a : ℕ)
        → First m.entries ((m.entries a).description) ((m.entries a).priority) m.handlers (
            find_trap_type m.entries
              ((m.entries a).description)
              ((m.entries a).priority)
              m.handlers)
    searched a =
        find_trap_type-First m.entries ((m.entries a).description) ((m.entries a).priority)
          m.handlers
          (AllKeyed-IsOrdered m.entries ((m.entries a).description) ((m.entries a).priority) 0
            m.handlers maps.0 h)
