-- ===== src/Reply.antt =====
-- crates/server/src/wire.rs: the payloads of the frames that the server sends. An encoder appends to a
-- vector, so it is the bytes that it appends.
pub mod Types
pub mod Clamp
pub mod Bridge
pub mod Call
pub mod Args
use iso.Base.{
  ℕ, ◌+◌, ◌*◌, ◌/◌, ◌%◌, ◌^◌, Bool, true, false, Option, none, some, List, [], ◌∷◌, ◌++◌, min,
  length, leb, if◌then◌else◌,
}
use iso.Wire.Bytes.{Bytes, be32}
use iso.Wire.Reader.Reads.{optional, sized, listed, bool_byte}
use iso.Limits.{u32_max}
use Types.{
  ResetCause, cpu, memory, wall, abort, internal, unsupported, ResetInfo, RunErrorPayload,
  run_error, ErrorCause, no_cause, caused_by, BridgeCallOutcome, blocked, error, unanswered,
  BridgeCallRecord, RunSuccessPayload, RunFailurePayload, RunCompletion, success, failed,
  GraceStatus, settled, truncated, grace_failed, GraceReport, RegistryStats, BridgeTarget, global,
  import_leaf,
}
use Clamp.{clamp_error_text}

-- `to_be_bytes` of a u64 and of an f64, which is its bits.
abbrev pub be64 : ℕ → Bytes
be64 n = be32 (n / 2 ^ 32) ++ be32 (n % 2 ^ 32)

unfoldable pub encode_string_list : List Bytes → Bytes
encode_string_list = listed sized

unfoldable pub reset_cause_byte : ResetCause → ℕ
reset_cause_byte cpu = 0
reset_cause_byte memory = 1
reset_cause_byte abort = 2
reset_cause_byte internal = 3
reset_cause_byte wall = 4
reset_cause_byte unsupported = 5

unfoldable pub outcome_byte : BridgeCallOutcome → ℕ
outcome_byte BridgeCallOutcome.ok = 0
outcome_byte blocked = 1
outcome_byte error = 2
outcome_byte unanswered = 3

unfoldable pub encode_bridge_call_record : BridgeCallRecord → Bytes
encode_bridge_call_record r =
    sized r.name
    ++ (be64 r.start_ms
        ++ (be64 r.duration_ms
            ++ (be32 r.arg_bytes
                ++ (be32 r.response_bytes ++ (be32 r.call_id ++ (outcome_byte r.outcome ∷ []))))))

unfoldable pub encode_bridge_call_records : List BridgeCallRecord → Bytes
encode_bridge_call_records = listed encode_bridge_call_record

abbrev pub max_error_fields_bytes : ℕ
max_error_fields_bytes = 1024 * 1024

-- An oversized blob of error properties is dropped whole.
unfoldable pub kept_fields : Option Bytes → Option Bytes
kept_fields none = none
kept_fields (some blob) = if leb (length blob) max_error_fields_bytes then some blob else none

abbrev pub clamped : Bytes → Bytes
clamped text = sized (clamp_error_text text)

-- Of a cause only the code, name, message and stack cross.
unfoldable pub encode_cause : ErrorCause → Bytes
encode_cause no_cause = 0 ∷ []
encode_cause (caused_by (run_error code name message stack blob reset stage cause)) =
    1 ∷ (sized code ++ (sized name ++ (clamped message ++ optional clamped stack)))

unfoldable pub encode_reset : ResetInfo → Bytes
encode_reset info = reset_cause_byte info.cause ∷ be32 info.culprit_run_id

unfoldable pub encode_run_error_payload : RunErrorPayload → Bytes
encode_run_error_payload (run_error code name message stack blob reset prefix_stage cause) =
    sized code
    ++ (sized name
        ++ (clamped message
            ++ (optional clamped stack
                ++ (optional sized (kept_fields blob)
                    ++ (optional encode_reset reset
                        ++ (bool_byte prefix_stage ∷ encode_cause cause))))))

-- The slot allowance is a process-wide counter of the registry, read when the payload is encoded.
unfoldable pub encode_run_completion_payload : ℕ → ℕ → RunCompletion → Bytes
encode_run_completion_payload slot_allowance run_id (success s) =
    be32 run_id
    ++ (be32 slot_allowance
        ++ ((1 ∷ 1 ∷ [])
            ++ (sized s.exports
                ++ (encode_string_list s.skipped_exports
                    ++ (encode_string_list s.stdout
                        ++ (encode_string_list s.stderr
                            ++ (be64 s.duration_ms
                                ++ (be64 s.wall_time_ms
                                    ++ (be64 s.cpu_time_ms
                                        ++ (encode_bridge_call_records s.bridge_calls
                                            ++ (optional be64 s.heap_used_bytes
                                                ++ (s.background_flags ∷ 0 ∷ []))))))))))))
encode_run_completion_payload slot_allowance run_id (failed f) =
    be32 run_id
    ++ (be32 slot_allowance
        ++ ((0 ∷ 0 ∷ 1 ∷ [])
            ++ (encode_run_error_payload f.failure
                ++ (encode_string_list f.stdout
                    ++ (encode_string_list f.stderr
                        ++ (be64 f.duration_ms
                            ++ (be64 f.wall_time_ms
                                ++ (be64 f.cpu_time_ms
                                    ++ (encode_bridge_call_records f.bridge_calls
                                        ++ optional be64 f.heap_used_bytes)))))))))

unfoldable pub grace_status_byte : GraceStatus → ℕ
grace_status_byte settled = 0
grace_status_byte truncated = 1
grace_status_byte grace_failed = 2

unfoldable pub encode_run_complete_payload : ℕ → GraceReport → Bytes
encode_run_complete_payload run_id report =
    be32 run_id
    ++ (grace_status_byte report.status
        ∷ (be64 report.duration_ms
            ++ (be64 report.wall_time_ms
                ++ (be64 report.cpu_time_ms
                    ++ (encode_string_list report.stdout
                        ++ (encode_string_list report.stderr
                            ++ (encode_bridge_call_records report.bridge_calls
                                ++ optional (λ (e : Bytes × Bytes). sized e.0 ++ sized e.1)
                                    report.failure)))))))

-- The reply to `Precompile`: the prefix id wins over an error. Neither is `unreachable!`, so no bytes.
unfoldable pub encode_precompile_result_payload :
    ℕ → Option Bytes → Option RunErrorPayload → Option Bytes
encode_precompile_result_payload request_id (some id) e =
    some (be32 request_id ++ (1 ∷ 1 ∷ (sized id ++ (0 ∷ []))))
encode_precompile_result_payload request_id none (some e) =
    some (be32 request_id ++ (0 ∷ 0 ∷ 1 ∷ encode_run_error_payload e))
encode_precompile_result_payload request_id none none = none

-- A count saturates at u32::MAX.
abbrev pub encode_count : ℕ → Bytes
encode_count n = be32 (min n u32_max)

unfoldable pub encode_prefix_counts : List (Bytes × ℕ × ℕ) → Bytes
encode_prefix_counts [] = []
encode_prefix_counts ((prefix_id, idle, busy) ∷ rest) =
    sized prefix_id ++ (encode_count idle ++ (encode_count busy ++ encode_prefix_counts rest))

unfoldable pub encode_stats_payload : RegistryStats → Bytes
encode_stats_payload stats =
    encode_count stats.oneoff_running
    ++ (encode_count stats.warm_busy
        ++ (encode_count stats.warm_runs
            ++ (encode_count stats.warm_idle
                ++ (be64 stats.idle_heap_bytes
                    ++ (be64 stats.warm_budget_bytes
                        ++ (be64 stats.rss_bytes
                            ++ (be64 stats.usage_bytes
                                ++ (be64 stats.hard_line_bytes
                                    ++ (bool_byte stats.under_pressure
                                        ∷ (encode_count (length stats.per_prefix)
                                            ++ encode_prefix_counts stats.per_prefix))))))))))

-- The target's kind and specifier presence, then its name or its path.
unfoldable pub encode_target : BridgeTarget → Bytes
encode_target (global name) = (0 ∷ 0 ∷ []) ++ sized name
encode_target (import_leaf specifier path) =
    (1 ∷ 1 ∷ []) ++ (sized specifier ++ encode_string_list path)

-- Everything of a `BridgeCall` payload but the argument bytes.
unfoldable pub encode_bridge_call_header : ℕ → ℕ → BridgeTarget → ℕ → Bytes
encode_bridge_call_header run_id call_id target args_blob_len =
    be32 run_id ++ (be32 call_id ++ (encode_target target ++ be32 args_blob_len))
