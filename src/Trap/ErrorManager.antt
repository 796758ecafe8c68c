-- ===== src/Trap/ErrorManager.antt =====
-- `HeapErrorManager` of src/trap/infrastructure/error_manager.rs. A handler is a function of the
-- error: what else it does is not seen by the manager. The locks are not held across calls, so each
-- method is one step. A `BTreeMap` is the list of its pairs in the order of the keys.
pub mod Order
pub mod Handle
mod Tests
use nt_rustos.Common.{
  ℕ, Bool, true, false, not, ◌&&◌, ltb, ◌==◌, if◌then◌else◌, Option, none, some, List, [], ◌∷◌,
  ◌++◌,
}
use nt_rustos.Trap.RingBuffer.{RingBuffer, push, empty_buffer}
use nt_rustos.Trap.Error
use nt_rustos.Trap.Error.{
  ErrorSource, ErrorLevel, ErrorResult, handled, partial, unhandled, SystemError, ErrorLogEntry,
  is_source, is_level, is_fatal,
}

abbrev pub error_log_capacity : ℕ
error_log_capacity = 256

pub record ErrorHandlerEntry : Type 0 where
  pub priority : ℕ
  pub source : Option ErrorSource
  pub level : Option ErrorLevel
  pub handler : SystemError → ErrorResult

-- The handlers by priority.
abbrev pub Handlers : Type 0
Handlers = List (ℕ × List ErrorHandlerEntry)

pub record HeapErrorManager : Type 0 where
  pub handlers : Handlers
  pub log : RingBuffer ErrorLogEntry
  pub panic_mode : Bool

abbrev pub new : HeapErrorManager
new = record { handlers = []; log = empty_buffer error_log_capacity; panic_mode = false }

abbrev matches_source : Option ErrorSource → ErrorSource → Bool
matches_source none s = true
matches_source (some a) s = is_source a s

abbrev matches_level : Option ErrorLevel → ErrorLevel → Bool
matches_level none l = true
matches_level (some a) l = is_level a l

unfoldable pub matches : ErrorHandlerEntry → SystemError → Bool
matches entry error =
    if not (matches_source entry.source (Error.source error.code))
    then false
    else if not (matches_level entry.level (Error.level error.code))
    then false
    else true

-- `handlers.entry(priority).or_insert_with(Vec::new).push(entry)`
unfoldable pub push_entry : ℕ → ErrorHandlerEntry → Handlers → Handlers
push_entry priority entry [] = (priority, entry ∷ []) ∷ []
push_entry priority entry ((key, entries) ∷ handlers) =
    let rest = push_entry priority entry handlers in
    if ltb priority key
    then (priority, entry ∷ []) ∷ (key, entries) ∷ handlers
    else if priority == key
    then (key, entries ++ entry ∷ []) ∷ handlers
    else (key, entries) ∷ rest

unfoldable pub register_handler :
    ℕ
    → Option ErrorSource
    → Option ErrorLevel
    → (SystemError → ErrorResult)
    → HeapErrorManager
    → HeapErrorManager
unfolding push_entry
register_handler priority source level handler m =
    let entry : ErrorHandlerEntry = record {
      priority = priority;
      source = source;
      level = level;
      handler = handler;
    } in
    record m { handlers = push_entry priority entry m.handlers }

unfoldable pub log_error : SystemError → ErrorResult → HeapErrorManager → HeapErrorManager
log_error error result m = record m { log = push (record { error = error; result = result }) m.log }

unfoldable pub enter_panic_mode : HeapErrorManager → HeapErrorManager
enter_panic_mode m = record m { panic_mode = true }

-- Where the loops over the handlers stand: a handler has dealt with the error, or they go on with
-- the result so far.
pub data Progress : Type 0 where
  stop : Progress
  go_on : ErrorResult → Progress

-- What a handler's answer does to the loops.
abbrev pub answer : ErrorResult → ErrorResult → Progress
answer handled final = stop
answer partial final = go_on partial
answer unhandled final = go_on final

abbrev pub reach : Progress → (ErrorResult → Progress) → Progress
reach stop next = stop
reach (go_on final) next = next final

-- The body of the loops: a handler that matches is asked.
abbrev pub ask : ErrorHandlerEntry → SystemError → ErrorResult → Progress
ask entry error final =
    if matches entry error then answer (entry.handler error) final else go_on final

-- The inner loop, over the handlers of one priority.
unfoldable pub try_entries : List ErrorHandlerEntry → SystemError → ErrorResult → Progress
try_entries [] error final = go_on final
try_entries (entry ∷ entries) error final =
    reach (ask entry error final) (try_entries entries error)

-- The outer loop.
unfoldable pub try_handlers : Handlers → SystemError → ErrorResult → Progress
try_handlers [] error final = go_on final
try_handlers ((key, entries) ∷ handlers) error final =
    reach (try_entries entries error final) (try_handlers handlers error)

abbrev pub result_of : Progress → ErrorResult
result_of stop = handled
result_of (go_on final) = final

unfoldable pub handle_error : SystemError → HeapErrorManager → ErrorResult × HeapErrorManager
handle_error error m =
    if m.panic_mode && not (is_fatal error.code)
    then (unhandled, log_error error unhandled m)
    else let m = if is_fatal error.code then enter_panic_mode m else m in
      let result = result_of (try_handlers m.handlers error unhandled) in
      (result, log_error error result m)
