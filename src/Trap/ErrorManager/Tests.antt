-- ===== src/Trap/ErrorManager/Tests.antt =====
-- A manager with two handlers.
use nt_rustos.Common.{◌≡◌, refl, arith, [], ◌∷◌, none, some, false, ◌||◌}
use nt_rustos.Trap.RingBuffer.Refine.{Holds, enqueue, empty_buffer-Holds}
use nt_rustos.Trap.Error
use nt_rustos.Trap.Error.{
  ErrorSource, ErrorLevel, ErrorResult, handled, partial, unhandled, SystemError, ErrorLogEntry,
  is_fatal,
}
use nt_rustos.Trap.ErrorManager
use nt_rustos.Trap.ErrorManager.{
  ErrorHandlerEntry, Handlers, HeapErrorManager, push_entry, handle_error, register_handler,
  error_log_capacity,
}
use nt_rustos.Trap.Order.{in_order, Keyed, insert_behind}
use nt_rustos.Trap.ErrorManager.Order.{number, push_entry-in_order}
use nt_rustos.Trap.ErrorManager.Handle.{expected, handle_error-result}

-- A handler of any error that handles a part of it, and one that handles all of it.
abbrev first : ErrorHandlerEntry
first = record { priority = 3; source = none; level = none; handler = λ e. partial }

abbrev second : ErrorHandlerEntry
second = record { priority = 7; source = none; level = none; handler = λ e. handled }

abbrev handlers : Handlers
handlers = (3, first ∷ []) ∷ (7, second ∷ []) ∷ []

abbrev manager : HeapErrorManager
manager = record (ErrorManager.new) { handlers = handlers }

abbrev fault : SystemError
fault = record {
  code = Error.new ErrorSource.memory ErrorLevel.error 13;
  message = "page fault";
  address = some 4096;
  instruction_pointer = 128;
  timestamp = 1;
}

abbrev late : ErrorHandlerEntry
late = record { priority = 3; source = none; level = none; handler = λ e. unhandled }

push_entry-in_order_example :
    Keyed number 0 (push_entry 3 late handlers)
    × (in_order (push_entry 3 late handlers) ≡ insert_behind number late (in_order handlers))
push_entry-in_order_example =
    push_entry-in_order late 0 handlers (omega arith, (refl, tt), (omega arith, (refl, tt), tt))
      (omega arith)

handle_error-result_example :
    ((handle_error fault manager).0 ≡ expected fault manager)
    × ((handle_error fault manager).1.panic_mode ≡ false || is_fatal fault.code)
    × ((handle_error fault manager).1.handlers ≡ handlers)
    × Holds
        ((handle_error fault manager).1.log)
        (enqueue error_log_capacity (record { error = fault; result = expected fault manager }) [])
handle_error-result_example =
    handle_error-result fault manager [] (empty_buffer-Holds 256 (omega arith) (omega arith))
