-- ===== src/Reply/Types.antt =====
-- crates/types/src/lib.rs: what a finished run reports. An `f64` is the number of its bits, since the
-- program only carries it. An error may hold another one as its cause, so the two stand in one block.
use iso.Base.{ℕ, Bool, Option, List}
use iso.Wire.Bytes.{Bytes}

pub data ResetCause : Type 0 where
  cpu memory wall abort internal unsupported : ResetCause

pub record ResetInfo : Type 0 where
  pub cause : ResetCause
  pub culprit_run_id : ℕ

mutual
  pub data RunErrorPayload : Type 0 where
    run_error :
        (code name message : Bytes) (stack blob : Option Bytes) (reset : Option ResetInfo)
        (prefix_stage : Bool) (cause : ErrorCause)
        → RunErrorPayload

  pub data ErrorCause : Type 0 where
    no_cause : ErrorCause
    caused_by : RunErrorPayload → ErrorCause

pub data BridgeCallOutcome : Type 0 where
  ok blocked error unanswered : BridgeCallOutcome

pub record BridgeCallRecord : Type 0 where
  pub name : Bytes
  pub start_ms : ℕ
  pub duration_ms : ℕ
  pub arg_bytes : ℕ
  pub response_bytes : ℕ
  pub call_id : ℕ
  pub outcome : BridgeCallOutcome

pub record RunSuccessPayload : Type 0 where
  pub exports : Bytes
  pub skipped_exports : List Bytes
  pub stdout : List Bytes
  pub stderr : List Bytes
  pub duration_ms : ℕ
  pub wall_time_ms : ℕ
  pub cpu_time_ms : ℕ
  pub bridge_calls : List BridgeCallRecord
  pub heap_used_bytes : Option ℕ
  pub background_flags : ℕ

pub record RunFailurePayload : Type 0 where
  pub failure : RunErrorPayload
  pub stdout : List Bytes
  pub stderr : List Bytes
  pub duration_ms : ℕ
  pub wall_time_ms : ℕ
  pub cpu_time_ms : ℕ
  pub bridge_calls : List BridgeCallRecord
  pub heap_used_bytes : Option ℕ

pub data RunCompletion : Type 0 where
  success : RunSuccessPayload → RunCompletion
  failed : RunFailurePayload → RunCompletion

pub data BridgeTarget : Type 0 where
  global : Bytes → BridgeTarget
  import_leaf : (specifier : Bytes) → (path : List Bytes) → BridgeTarget

pub record BridgeErrorPayload : Type 0 where
  pub name : Bytes
  pub message : Bytes
  pub blob : Option Bytes

pub data GraceStatus : Type 0 where
  settled truncated grace_failed : GraceStatus

pub record GraceReport : Type 0 where
  pub status : GraceStatus
  pub duration_ms : ℕ
  pub wall_time_ms : ℕ
  pub cpu_time_ms : ℕ
  pub stdout : List Bytes
  pub stderr : List Bytes
  pub bridge_calls : List BridgeCallRecord
  pub failure : Option (Bytes × Bytes)
  pub early_result_sent : Bool

pub record RegistryStats : Type 0 where
  pub oneoff_running : ℕ
  pub warm_busy : ℕ
  pub warm_runs : ℕ
  pub warm_idle : ℕ
  pub idle_heap_bytes : ℕ
  pub per_prefix : List (Bytes × ℕ × ℕ)
  pub warm_budget_bytes : ℕ
  pub rss_bytes : ℕ
  pub usage_bytes : ℕ
  pub hard_line_bytes : ℕ
  pub under_pressure : Bool
