-- ===== src/Trap/Handlers.antt =====
-- src/trap/ds/handler.rs and `HeapHandlerManager` of src/trap/infrastructure/handler_manager.rs. An
-- `Arc<RwLock<HandlerEntry>>` is a reference into a store, which both maps share. A `BTreeMap` is
-- the list of its pairs in the order of the keys. A handler changes the context that it is given.
-- The hash of a handle is a parameter.
pub mod Rights
pub mod Dispatch
pub mod Registered
pub mod Dropping
pub mod Keys
pub mod Search
pub mod Removal
pub mod Unregister
mod Tests
use Prim.Native.String.{String}
use nt_rustos.Common.{
  ℕ, Bool, true, false, not, ◌&&◌, ◌||◌, ltb, ◌==◌, if◌then◌else◌, Option, none, some, List, [],
  ◌∷◌, ◌++◌,
}
use nt_rustos.Trap.Cause.{TrapType, to_trap_type}
use nt_rustos.Trap.Cause.Decode.{index_of}

abbrev pub kernel_registrar_id : ℕ
kernel_registrar_id = 0

abbrev pub system_registrar_id : ℕ
system_registrar_id = 1

pub data TrapError : Type 0 where
  execution_failed unrecoverable_state : TrapError

pub data TrapHandlerResult : Type 0 where
  handled pass : TrapHandlerResult
  failed : TrapError → TrapHandlerResult

pub data ProtectionLevel : Type 0 where
  kernel system user : ProtectionLevel

-- `Context` is `TrapContext`.
pub record HandlerEntry (Context : Type 0) : Type 0 where
  pub handler : Context → TrapHandlerResult × Context
  pub priority : ℕ
  pub description : String
  pub protection_level : ProtectionLevel
  pub registrar_id : ℕ
  pub context_id : Option ℕ

-- The pairs of a `BTreeMap` with numbers for keys.
abbrev pub lookup {ℓ} : {A : Type ℓ} → ℕ → List (ℕ × A) → Option A
lookup k [] = none
lookup k ((key, a) ∷ m) = let rest = lookup k m in if key == k then some a else rest

abbrev pub insert {ℓ} : {A : Type ℓ} → ℕ → A → List (ℕ × A) → List (ℕ × A)
insert k a [] = (k, a) ∷ []
insert k a ((key, b) ∷ m) =
    let rest = insert k a m in
    if ltb k key then (k, a) ∷ (key, b) ∷ m else if k == key then (k, a) ∷ m else (key, b) ∷ rest

module _ {Context : Type 0} where
  unfoldable pub can_be_unregistered_by : HandlerEntry Context → ℕ → Bool
  can_be_unregistered_by e id = elim e.protection_level [
    | kernel ↦ id == kernel_registrar_id
    | system ↦ id == kernel_registrar_id || id == system_registrar_id
    | user ↦ e.registrar_id == id || id == kernel_registrar_id
  ]

-- References to entries by priority, and those by the place of the trap type.
abbrev pub PriorityMap : Type 0
PriorityMap = List (ℕ × List ℕ)

abbrev pub TrapMap : Type 0
TrapMap = List (ℕ × PriorityMap)

pub record HeapHandlerManager (Context : Type 0) : Type 0 where
  pub entries : ℕ → HandlerEntry Context
  pub handlers : TrapMap
  pub handle_map : List (ℕ × ℕ)

-- What `entry(k).or_insert_with(..)` gives.
abbrev pub or_empty {ℓ} : {A : Type ℓ} → Option (List A) → List A
or_empty none = []
or_empty (some l) = l

module _ {Context : Type 0} where
  -- The answer is the handle, or none for `Err(())`.
  unfoldable pub register :
      (String → TrapType → ℕ)
      → TrapType
      → ℕ
      → HeapHandlerManager Context
      → Option ℕ × HeapHandlerManager Context
  register generate_id trap_type entry m =
      let e = m.entries entry in
      let handle = generate_id e.description trap_type in
      elim (lookup handle m.handle_map) [
        | some a ↦ (none, m)
        | none ↦
            let priority_map = or_empty (lookup (index_of trap_type) m.handlers) in
            let priority_list = or_empty (lookup e.priority priority_map) in
            let priority_map = insert e.priority (priority_list ++ entry ∷ []) priority_map in
            (
              some handle,
              record m {
                handlers = insert (index_of trap_type) priority_map m.handlers;
                handle_map = insert handle entry m.handle_map;
              },
            )
      ]

  -- `false` is `Err(())`.
  unfoldable pub transfer_ownership :
      ℕ → ℕ → ℕ → HeapHandlerManager Context → Bool × HeapHandlerManager Context
  transfer_ownership handle current_owner new_owner m = elim (lookup handle m.handle_map) [
    | none ↦ (false, m)
    | some a ↦
        let e = m.entries a in
        if not (e.registrar_id == current_owner) && not (current_owner == kernel_registrar_id)
        then (false, m)
        else (
          true,
          record m {
            entries = λ x. if x == a then record e { registrar_id = new_owner } else m.entries x;
          },
        )
  ]

  -- The two loops of `dispatch`, over the handlers in their order: `true` is an early return.
  unfoldable pub try_list : (ℕ → HandlerEntry Context) → List ℕ → Context → Bool × Context
  try_list entries [] c = (false, c)
  try_list entries (a ∷ refs) c =
      let r = (entries a).handler c in
      elim r.0 [
        | handled ↦ (true, r.1)
        | pass ↦ try_list entries refs r.1
        | failed e ↦ try_list entries refs r.1
      ]

  unfoldable pub try_priorities :
      (ℕ → HandlerEntry Context) → PriorityMap → Context → Bool × Context
  unfolding try_list
  try_priorities entries [] c = (false, c)
  try_priorities entries ((p, refs) ∷ m) c =
      let r = try_list entries refs c in if r.0 then r else try_priorities entries m r.1

  unfoldable pub dispatch :
      (Context → ℕ) → HeapHandlerManager Context → Context → TrapHandlerResult × Context
  unfolding try_priorities
  dispatch cause m c = elim (lookup (index_of (to_trap_type (cause c))) m.handlers) [
    | none ↦ (pass, c)
    | some priority_map ↦
        let r = try_priorities m.entries priority_map c in (if r.0 then handled else pass, r.1)
  ]
