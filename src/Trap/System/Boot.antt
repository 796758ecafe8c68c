-- ===== src/Trap/System/Boot.antt =====
-- The trap system once it is initialised: it has its default handlers, which pass every trap on.
use Prim.Native.String.{String}
use nt_rustos.Common.{
  ℕ, ◌≡◌, ◌≢◌, refl, ap, sym, ◌∙◌, true, false, ◌==◌, Option, none, some, List, [], ◌∷◌, ◌++◌,
  Bool-cases, Option-cases, inl, inr, ≢→==,
}
use nt_rustos.Trap.Cause.{TrapMode, TrapType, to_trap_type}
use nt_rustos.Trap.Cause.Decode.{index_of}
use nt_rustos.Trap.Context.{TrapContext, cause}
use nt_rustos.Trap.LowLevel
use nt_rustos.Trap.Error.{ErrorLevel}
use nt_rustos.Trap.Handlers
use nt_rustos.Trap.Handlers.{
  HandlerEntry, HeapHandlerManager, PriorityMap, TrapHandlerResult, handled, pass, failed, lookup,
  insert, or_empty, try_list, try_priorities, dispatch,
}
use nt_rustos.Trap.Handlers.Registered.{lookup-insert, asked}
use nt_rustos.Trap.Handlers.Dispatch.{handlers_of}
use nt_rustos.Trap.Order.{in_order}
use nt_rustos.Trap.System.{
  Outside, TrapSystem, Instance, handle_trap, new_entry, register_entry, expect_entry, report,
  fresh_system, default_entry, trap_error, register_default_enhanced_handlers,
}
use nt_rustos.Trap.System.Interface.{initialize_trap_system}

-- Every handler in the store passes its trap on and leaves the context as it is.
abbrev AllPass : (ℕ → HandlerEntry TrapContext) → Type 0
AllPass entries = (x : ℕ) (c : TrapContext) → (entries x).handler c ≡ (pass, c)

try_list-AllPass :
    (entries : ℕ → HandlerEntry TrapContext) (refs : List ℕ) (c : TrapContext)
    → AllPass entries
    → try_list entries refs c ≡ (false, c)
unfolding try_list
try_list-AllPass entries [] c h = refl
try_list-AllPass entries (a ∷ refs) c h =
    let answer = ap (λ (r : TrapHandlerResult × TrapContext). r.0) (h a c) in
    let same = ap (λ (r : TrapHandlerResult × TrapContext). r.1) (h a c) in
    rw (answer, same, try_list) (try_list-AllPass entries refs c h)

try_priorities-AllPass :
    (entries : ℕ → HandlerEntry TrapContext) (m : PriorityMap) (c : TrapContext)
    → AllPass entries
    → try_priorities entries m c ≡ (false, c)
unfolding try_priorities
try_priorities-AllPass entries [] c h = refl
try_priorities-AllPass entries ((p, refs) ∷ m) c h =
    rw (try_list-AllPass entries refs c h, try_priorities) (try_priorities-AllPass entries m c h)

dispatch-AllPass :
    (m : HeapHandlerManager TrapContext) (c : TrapContext)
    → AllPass m.entries
    → dispatch cause m c ≡ (pass, c)
unfolding dispatch
dispatch-AllPass m c h =
    elim (Option-cases (lookup (index_of (to_trap_type (cause c))) m.handlers)) [
      | inl e ↦ rw (e, dispatch) refl
      | inr (l, e) ↦ rw (e, dispatch, try_priorities-AllPass m.entries l c h) refl
    ]

-- The descriptions of handlers.
abbrev pub describe : TrapSystem → List ℕ → List String
describe ts [] = []
describe ts (a ∷ refs) = (ts.handler_manager.entries a).description ∷ describe ts refs

-- The default handlers of each trap type.
abbrev pub defaults : TrapType → List String
defaults TrapType.load_page_fault = "Default Page Fault Handler" ∷ []
defaults TrapType.store_page_fault = "Default Page Fault Handler" ∷ []
defaults TrapType.instruction_page_fault = "Default Page Fault Handler" ∷ []
defaults TrapType.illegal_instruction = "Default Illegal Instruction Handler" ∷ []
defaults t = []

module _ (out : Outside) where
  -- Every trap is reported as one that nobody handled.
  handle_trap-AllPass :
      (ts : TrapSystem) (c : TrapContext)
      → AllPass ts.handler_manager.entries
      → handle_trap out c ts
        ≡ (c, report (trap_error out ErrorLevel.critical (out.unhandled_text c) c) ts)
  unfolding handle_trap
  handle_trap-AllPass ts c h =
      let d = dispatch-AllPass ts.handler_manager c h in
      let answer = ap (λ (r : TrapHandlerResult × TrapContext). r.0) d in
      let same = ap (λ (r : TrapHandlerResult × TrapContext). r.1) d in
      rw (answer, same, handle_trap) refl

  -- A handle that differs from those of a list.
  abbrev Fresh : ℕ → List ℕ → Type 0
  Fresh h [] = Unit {0}
  Fresh h (k ∷ ks) = (k ≢ h) × Fresh h ks

  -- The handles in use, and what the handlers in the store do.
  record Stage (ts : TrapSystem) (used : List ℕ) : Type 0 where
    passes : AllPass ts.handler_manager.entries
    free : (h : ℕ) → Fresh h used → lookup h ts.handler_manager.handle_map ≡ none

  abbrev registered : TrapType → ℕ → TrapSystem → TrapSystem
  registered t a ts =
      let m = ts.handler_manager in
      let e = m.entries a in
      let priority_map = or_empty (lookup (index_of t) m.handlers) in
      let priority_list = or_empty (lookup e.priority priority_map) in
      record ts {
        handler_manager = record m {
          handlers =
              insert (index_of t) (insert e.priority (priority_list ++ a ∷ []) priority_map)
                m.handlers;
          handle_map = insert (out.generate_id e.description t) a m.handle_map;
        };
      }

  register-free :
      (t : TrapType) (a : ℕ) (ts : TrapSystem)
      → lookup
          (out.generate_id (ts.handler_manager.entries a).description t)
          ts.handler_manager.handle_map
        ≡ none
      → Handlers.register out.generate_id t a ts.handler_manager ≡ (
        some (out.generate_id (ts.handler_manager.entries a).description t),
        (registered t a ts).handler_manager,
      )
  unfolding Handlers.register
  register-free t a ts h = rw (h, Handlers.register) refl

  expect_entry-registered :
      (t : TrapType) (a : ℕ) (ts : TrapSystem)
      → lookup
          (out.generate_id (ts.handler_manager.entries a).description t)
          ts.handler_manager.handle_map
        ≡ none
      → expect_entry out t a ts ≡ some (registered t a ts)
  expect_entry-registered t a ts h =
      let r = register-free t a ts h in
      let answer = ap (λ (r : Option ℕ × HeapHandlerManager TrapContext). r.0) r in
      let left = ap (λ (r : Option ℕ × HeapHandlerManager TrapContext). r.1) r in
      rw (answer, left, expect_entry, register_entry) refl

  Stage-registered :
      (t : TrapType) (a : ℕ) (ts : TrapSystem) (used : List ℕ)
      → Stage ts used
      → Stage
          (registered t a ts)
          (out.generate_id (ts.handler_manager.entries a).description t ∷ used)
  Stage-registered t a ts used s =
      let id = out.generate_id (ts.handler_manager.entries a).description t in
      record {
        passes = s.passes;
        free = λ h (n, fresh).
            rw (lookup-insert id h a ts.handler_manager.handle_map, ≢→== id h n) (s.free h fresh);
      }

  Stage-entry :
      (text : String) (ts : TrapSystem) (used : List ℕ)
      → Stage ts used
      → Stage (new_entry (default_entry out text) ts).1 used
  Stage-entry text ts used s = record {
    passes = λ x c. elim (Bool-cases (x == ts.next_entry)) [
      | inl e ↦ rw e refl
      | inr e ↦ rw e (s.passes x c)
    ];
    free = s.free;
  }

  abbrev page_fault_text : String
  page_fault_text = "Default Page Fault Handler"

  abbrev illegal_text : String
  illegal_text = "Default Illegal Instruction Handler"

  -- The handles of the four default handlers.
  abbrev load : ℕ
  load = out.generate_id page_fault_text TrapType.load_page_fault

  abbrev store : ℕ
  store = out.generate_id page_fault_text TrapType.store_page_fault

  abbrev fetch : ℕ
  fetch = out.generate_id page_fault_text TrapType.instruction_page_fault

  abbrev illegal : ℕ
  illegal = out.generate_id illegal_text TrapType.illegal_instruction

  -- They are different.
  abbrev pub HandlesDiffer : Type 0
  HandlesDiffer =
      Fresh store (load ∷ [])
      × Fresh fetch (store ∷ load ∷ [])
      × Fresh illegal (fetch ∷ store ∷ load ∷ [])

  -- The system with the four handlers.
  abbrev booted : TrapSystem
  booted =
      let ts = (new_entry (default_entry out page_fault_text) fresh_system).1 in
      let ts = registered TrapType.load_page_fault 0 ts in
      let ts = registered TrapType.store_page_fault 0 ts in
      let ts = registered TrapType.instruction_page_fault 0 ts in
      registered TrapType.illegal_instruction 1 (new_entry (default_entry out illegal_text) ts).1

  booted-defaults :
      (t : TrapType)
      → describe booted (in_order (or_empty (lookup (index_of t) booted.handler_manager.handlers)))
        ≡ defaults t
  booted-defaults TrapType.timer_interrupt = refl
  booted-defaults TrapType.external_interrupt = refl
  booted-defaults TrapType.software_interrupt = refl
  booted-defaults TrapType.system_call = refl
  booted-defaults TrapType.instruction_page_fault = refl
  booted-defaults TrapType.load_page_fault = refl
  booted-defaults TrapType.store_page_fault = refl
  booted-defaults TrapType.instruction_access_fault = refl
  booted-defaults TrapType.load_access_fault = refl
  booted-defaults TrapType.store_access_fault = refl
  booted-defaults TrapType.illegal_instruction = refl
  booted-defaults TrapType.breakpoint = refl
  booted-defaults TrapType.instruction_misaligned = refl
  booted-defaults TrapType.load_misaligned = refl
  booted-defaults TrapType.store_misaligned = refl
  booted-defaults TrapType.unknown = refl

  booted-described :
      (d : TrapContext)
      → describe booted (handlers_of cause booted.handler_manager d)
        ≡ defaults (to_trap_type (cause d))
  booted-described d =
      let t = to_trap_type (cause d) in
      ap (describe booted) (sym (asked (lookup (index_of t) booted.handler_manager.handlers)))
      ∙ booted-defaults t

  default_handlers :
      HandlesDiffer
      → (register_default_enhanced_handlers out fresh_system ≡ some booted)
        × AllPass booted.handler_manager.entries
  unfolding register_default_enhanced_handlers
  default_handlers (h0, h1, h2) =
      let fresh : Stage fresh_system [] = record { passes = λ x c. refl; free = λ h f. refl } in
      let t0 = (new_entry (default_entry out page_fault_text) fresh_system).1 in
      let s0 = Stage-entry page_fault_text fresh_system [] fresh in
      let t1 = registered TrapType.load_page_fault 0 t0 in
      let e1 = expect_entry-registered TrapType.load_page_fault 0 t0 (s0.free load tt) in
      let s1 = Stage-registered TrapType.load_page_fault 0 t0 [] s0 in
      let t2 = registered TrapType.store_page_fault 0 t1 in
      let e2 = expect_entry-registered TrapType.store_page_fault 0 t1 (s1.free store h0) in
      let s2 = Stage-registered TrapType.store_page_fault 0 t1 (load ∷ []) s1 in
      let t3 = registered TrapType.instruction_page_fault 0 t2 in
      let e3 = expect_entry-registered TrapType.instruction_page_fault 0 t2 (s2.free fetch h1) in
      let s3 = Stage-registered TrapType.instruction_page_fault 0 t2 (store ∷ load ∷ []) s2 in
      let t4 = (new_entry (default_entry out illegal_text) t3).1 in
      let s4 = Stage-entry illegal_text t3 (fetch ∷ store ∷ load ∷ []) s3 in
      let e5 = expect_entry-registered TrapType.illegal_instruction 1 t4 (s4.free illegal h2) in
      let s5 = Stage-registered TrapType.illegal_instruction 1 t4 (fetch ∷ store ∷ load ∷ []) s4 in
      (rw (e1, e2, e3, e5) refl, s5.passes)

  -- The first initialisation succeeds if the handles of the four default handlers are different, and
  -- sets up the trap vector. The handlers of the three page faults are then the one default handler for
  -- page faults, that of an illegal instruction is its default handler, and no other trap has one. They
  -- pass every trap on, so that each is reported as one that nobody handled, and its context stays as it
  -- is. A second initialisation panics.
  pub initialize-Ready :
      (mode : TrapMode) (g : Instance) (c : TrapContext)
      → g.initialized ≡ false
      → HandlesDiffer
      → (ts : TrapSystem) × (g' : Instance) × (initialize_trap_system out mode g ≡ some g')
        × (g'.initialized ≡ true)
        × (g'.system ≡ some ts)
        × (g'.registers ≡ LowLevel.init_trap_vector out.trap_entry mode g.registers)
        × (handle_trap out c ts
            ≡ (c, report (trap_error out ErrorLevel.critical (out.unhandled_text c) c) ts))
        × (initialize_trap_system out mode g' ≡ none)
        × ((d : TrapContext)
            → describe ts (handlers_of cause ts.handler_manager d)
              ≡ defaults (to_trap_type (cause d)))
  unfolding initialize_trap_system
  initialize-Ready mode g c idle differ =
      let (e, passes) = default_handlers differ in
      (
        booted,
        _,
        rw (idle, e) refl,
        refl,
        refl,
        refl,
        handle_trap-AllPass booted c passes,
        refl,
        booted-described,
      )
