-- ===== src/Trap/Handlers/Unregister.antt =====
-- How `HeapHandlerManager` takes handlers out again.
use text.Mathlib.Text
use Prim.Native.String.{String}
use nt_rustos.Common.{
  ℕ, Bool, true, false, not, ◌||◌, ◌==◌, if◌then◌else◌, Option, none, some, List, [], ◌∷◌,
}
use nt_rustos.Trap.Handlers.{
  HandlerEntry, HeapHandlerManager, PriorityMap, TrapMap, lookup, insert, can_be_unregistered_by,
}

-- `BTreeMap::remove`
abbrev pub remove {ℓ} : {A : Type ℓ} → ℕ → List (ℕ × A) → List (ℕ × A)
remove k [] = []
remove k ((key, a) ∷ m) = let rest = remove k m in if key == k then m else (key, a) ∷ rest

abbrev pub same_text : String → String → Bool
same_text a b = Text.◌==◌ a b

module _ {Context : Type 0} (entries : ℕ → HandlerEntry Context) where
  -- `p_vec.iter().any(|h| h.read().description == description)`
  abbrev pub any_described : String → List ℕ → Bool
  any_described d [] = false
  any_described d (a ∷ refs) = same_text (entries a).description d || any_described d refs

  -- `retain(|h| h.read().description != description)`
  abbrev pub retain_others : String → List ℕ → List ℕ
  retain_others d [] = []
  retain_others d (a ∷ refs) =
      let rest = retain_others d refs in
      if same_text (entries a).description d then rest else a ∷ rest

  -- The first trap type with a handler of that description at that priority.
  unfoldable pub find_trap_type : String → ℕ → TrapMap → Option ℕ
  find_trap_type d priority [] = none
  find_trap_type d priority ((tt_, p_map) ∷ m) =
      let rest = find_trap_type d priority m in
      elim (lookup priority p_map) [
        | none ↦ rest
        | some p_vec ↦ if any_described d p_vec then some tt_ else rest
      ]

  -- A priority without handlers is removed.
  unfoldable pub drop_described : String → ℕ → PriorityMap → PriorityMap
  drop_described d priority p_map = elim (lookup priority p_map) [
    | none ↦ p_map
    | some p_vec ↦ elim (retain_others d p_vec) [
      | [] ↦ remove priority p_map
      | ◌∷◌ a refs ↦ insert priority (a ∷ refs) p_map
    ]
  ]

  -- The loop of `unregister_for_context` over the trap types: an empty list stays.
  unfoldable pub retain_everywhere : String → ℕ → TrapMap → TrapMap
  retain_everywhere d priority [] = []
  retain_everywhere d priority ((tt_, p_map) ∷ m) =
      (
        tt_,
        elim (lookup priority p_map) [
          | none ↦ p_map
          | some p_vec ↦ insert priority (retain_others d p_vec) p_map
        ],
      )
      ∷ retain_everywhere d priority m

  -- The handles of a context.
  unfoldable pub handles_of : ℕ → List (ℕ × ℕ) → List ℕ
  handles_of context_id [] = []
  handles_of context_id ((handle, a) ∷ m) =
      let rest = handles_of context_id m in
      elim (entries a).context_id [
        | none ↦ rest
        | some cid ↦ if cid == context_id then handle ∷ rest else rest
      ]

module _ {Context : Type 0} where
  -- `false` is `Err(())`.
  unfoldable pub unregister : ℕ → ℕ → HeapHandlerManager Context → Bool × HeapHandlerManager Context
  unregister handle requester_id m = elim (lookup handle m.handle_map) [
    | none ↦ (false, m)
    | some a ↦
        let e = m.entries a in
        if not (can_be_unregistered_by e requester_id)
        then (false, m)
        else elim (find_trap_type m.entries e.description e.priority m.handlers) [
          | none ↦ (false, m)
          | some tt_ ↦ (
            true,
            record m {
              handlers = elim (lookup tt_ m.handlers) [
                | none ↦ m.handlers
                | some p_map ↦
                    insert tt_ (drop_described m.entries e.description e.priority p_map) m.handlers
              ];
              handle_map = remove handle m.handle_map;
            },
          )
        ]
  ]

  unfoldable pub remove_handles : List ℕ → HeapHandlerManager Context → HeapHandlerManager Context
  remove_handles [] m = m
  remove_handles (handle ∷ handles) m = elim (lookup handle m.handle_map) [
    | none ↦ remove_handles handles m
    | some a ↦
        let e = m.entries a in
        remove_handles handles (record m {
          handlers = retain_everywhere m.entries e.description e.priority m.handlers;
          handle_map = remove handle m.handle_map;
        })
  ]

  unfoldable pub unregister_for_context :
      ℕ → HeapHandlerManager Context → HeapHandlerManager Context
  unregister_for_context context_id m =
      remove_handles (handles_of m.entries context_id m.handle_map) m

-- `ManagedContext` of src/trap/infrastructure/context_manager.rs. Its manager is the argument of `drop`.
pub record ManagedContext : Type 0 where
  pub id : ℕ

unfoldable pub drop_context :
    {Context : Type 0} → ManagedContext → HeapHandlerManager Context → HeapHandlerManager Context
drop_context c m = unregister_for_context c.id m
