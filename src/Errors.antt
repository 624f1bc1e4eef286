-- ===== src/Errors.antt =====
-- crates/core/src/errors.rs: the ways a run fails, with their codes, names and messages.

use iso.Base.{ℕ, false, Option, none, some, ascii, ◌++◌}
use iso.Wire.Bytes.{Bytes}
use iso.Reply.Types.{
  BridgeErrorPayload, ResetCause, ResetInfo, RunErrorPayload, run_error, no_cause,
}

pub record RuntimeErrorData : Type 0 where
  pub name : Bytes
  pub message : Bytes
  pub stack : Option Bytes
  pub blob : Option Bytes

pub data RunError : Type 0 where
  invalid_payload : Bytes → RunError
  runtime_error : RuntimeErrorData → RunError
  module_not_found import_failed : Bytes → RunError
  export_not_serializable type_not_serializable : Bytes → RunError
  cpu_timeout wall_timeout memory_limit : RunError
  host_bridge : BridgeErrorPayload → RunError
  undeclared_binding reserved_name frozen_binding : Bytes → RunError
  prefix_did_not_settle prefix_bridge_call : Bytes → RunError
  warmup_limit : RunError
  capacity call_target_not_found : Bytes → RunError
  function_argument_not_supported bridge_call_payload_too_large : RunError
  export_too_large bridge_call_limit_exceeded aborted : RunError
  instance_reset : ResetCause → ℕ → RunError
  internal_error : Bytes → RunError

-- The `ERR_*` code.
unfoldable pub code : RunError → Bytes
unfolding ascii
code (invalid_payload m) = ascii "ERR_INTERNAL"
code (runtime_error inner) = ascii "ERR_USER_CODE"
code (module_not_found m) = ascii "ERR_MODULE_NOT_FOUND"
code (import_failed m) = ascii "ERR_IMPORT"
code (export_not_serializable m) = ascii "ERR_EXPORT_NOT_SERIALIZABLE"
code (type_not_serializable m) = ascii "ERR_TYPE_NOT_SERIALIZABLE"
code cpu_timeout = ascii "ERR_CPU_TIMEOUT"
code wall_timeout = ascii "ERR_WALL_TIMEOUT"
code memory_limit = ascii "ERR_MEMORY_LIMIT"
code (host_bridge e) = ascii "ERR_HOST_BRIDGE"
code (undeclared_binding m) = ascii "ERR_UNDECLARED_BINDING"
code (reserved_name m) = ascii "ERR_RESERVED_NAME"
code (frozen_binding m) = ascii "ERR_FROZEN_BINDING"
code (prefix_did_not_settle m) = ascii "ERR_PREFIX_DID_NOT_SETTLE"
code (prefix_bridge_call m) = ascii "ERR_PREFIX_BRIDGE_CALL"
code (call_target_not_found m) = ascii "ERR_CALL_TARGET_NOT_FOUND"
code function_argument_not_supported = ascii "ERR_FUNCTION_ARGUMENT_NOT_SUPPORTED"
code bridge_call_payload_too_large = ascii "ERR_BRIDGE_PAYLOAD_TOO_LARGE"
code export_too_large = ascii "ERR_EXPORT_TOO_LARGE"
code bridge_call_limit_exceeded = ascii "ERR_BRIDGE_CALL_LIMIT_EXCEEDED"
code aborted = ascii "ERR_ABORTED"
code (instance_reset cause culprit) = ascii "ERR_INSTANCE_RESET"
code warmup_limit = ascii "ERR_WARMUP_LIMIT"
code (capacity m) = ascii "ERR_CAPACITY_MEMORY"
code (internal_error m) = ascii "ERR_INTERNAL"

-- The JS error name that the host reports.
unfoldable pub name : RunError → Bytes
unfolding ascii
name (runtime_error inner) = inner.name
name (host_bridge e) = e.name
name (type_not_serializable m) = ascii "TypeError"
name aborted = ascii "AbortError"
name _ = ascii "Error"

unfoldable pub cause_text : ResetCause → Bytes
unfolding ascii
cause_text ResetCause.cpu = ascii "CPU limit"
cause_text ResetCause.memory = ascii "memory limit"
cause_text ResetCause.wall = ascii "wall deadline"
cause_text ResetCause.abort = ascii "mid-execution abort"
cause_text ResetCause.internal = ascii "internal failure"
cause_text ResetCause.unsupported = ascii "unsupported operation"

unfoldable pub message : RunError → Bytes
unfolding ascii cause_text
message (invalid_payload m) = m
message (module_not_found m) = m
message (import_failed m) = m
message (export_not_serializable m) = m
message (type_not_serializable m) = m
message (undeclared_binding m) = m
message (reserved_name m) = m
message (frozen_binding m) = m
message (prefix_did_not_settle m) = m
message (prefix_bridge_call m) = m
message (call_target_not_found m) = m
message (capacity m) = m
message (internal_error m) = m
message (runtime_error inner) = inner.message
message (host_bridge e) = e.message
message cpu_timeout = ascii "CPU time limit exceeded"
message wall_timeout = ascii "Wall time limit exceeded"
message memory_limit = ascii "Memory limit exceeded"
message function_argument_not_supported =
    ascii "function arguments are not supported across the bridge boundary"
message bridge_call_payload_too_large =
    ascii "bridge call payload exceeds configured maxBridgeCallBytes limit"
message export_too_large = ascii "serialised export payload exceeds configured maxExportBytes limit"
message bridge_call_limit_exceeded = ascii "run exceeded the configured maxBridgeCalls limit"
message aborted = ascii "run was aborted"
message (instance_reset cause culprit) =
    ascii "the shared instance was reset by a co-resident run ("
    ++ (cause_text cause ++ ascii "): this run was in flight on it and could not continue")
message warmup_limit =
    ascii "prefix evaluation exceeded its fixed warm-up budget (1000ms wall / 1000ms CPU); "
    ++ ascii "move expensive setup into the handler (lazy init on first call)"

-- A runtime error's own stack and fields cross; of a host error only the fields.
unfoldable pub stack_and_fields : RunError → Option Bytes × Option Bytes
stack_and_fields (runtime_error inner) = (inner.stack, inner.blob)
stack_and_fields (host_bridge e) = (none, e.blob)
stack_and_fields _ = (none, none)

unfoldable pub reset_of : RunError → Option ResetInfo
reset_of (instance_reset cause culprit) = some (record { cause = cause; culprit_run_id = culprit })
reset_of _ = none

unfoldable pub to_payload : RunError → RunErrorPayload
unfolding stack_and_fields reset_of code name message
to_payload e =
    let (stack, blob) = stack_and_fields e in
    run_error (code e) (name e) (message e) stack blob (reset_of e) false no_cause

-- Why a guard ended a turn.
pub data TerminationReason : Type 0 where
  wall cpu memory abort : TerminationReason
  imports : Bytes → TerminationReason

-- The failure of a bare termination: a reason that was not recorded is an abort.
unfoldable pub reason_error : Option TerminationReason → RunError
reason_error (some wall) = wall_timeout
reason_error (some cpu) = cpu_timeout
reason_error (some memory) = memory_limit
reason_error (some (imports m)) = import_failed m
reason_error (some abort) = aborted
reason_error none = aborted

-- A recorded reason is the cause of a failure during the setup.
unfoldable pub termination_or : Option TerminationReason → RunError → RunError
termination_or (some wall) fallback = wall_timeout
termination_or (some cpu) fallback = cpu_timeout
termination_or (some memory) fallback = memory_limit
termination_or (some abort) fallback = aborted
termination_or (some (imports m)) fallback = import_failed m
termination_or none fallback = fallback

-- What `webcodec` refuses.
pub data CodecError : Type 0 where
  unsupported malformed : Bytes → CodecError

unfoldable pub codec_error_to_run_error : CodecError → RunError
codec_error_to_run_error (unsupported m) = type_not_serializable m
codec_error_to_run_error (malformed m) = internal_error m
