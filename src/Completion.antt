-- ===== src/Completion.antt =====
-- crates/core/src/v8/instance.rs: how a run is concluded: the route goes, the registry gets the
-- instance back, and then the completion goes out, or a minimal one in its place.
use iso.Base.{
  ℕ, Bool, true, Option, none, some, List, [], ◌++◌, Result, ok, err, ascii, if◌then◌else◌,
}
use iso.Wire.Bytes.{Bytes}
use iso.Reply.Types.{
  BridgeCallRecord, RunErrorPayload, run_error, RunFailurePayload, RunCompletion, success,
  GraceStatus, GraceReport,
}
use iso.Errors.{RunError, internal_error, to_payload}
use iso.Link.{Outbound, result, run_complete, LinkError, too_large, closed, HostLink}

-- `GraceReport` is what the background work left, if there was any.
pub record Output : Type 0 where
  pub exports : Bytes
  pub skipped_exports : List Bytes
  pub stdout : List Bytes
  pub stderr : List Bytes
  pub duration_ms : ℕ
  pub wall_time_ms : ℕ
  pub cpu_time_ms : ℕ
  pub background : Option GraceReport
  pub bridge_calls : List BridgeCallRecord

pub record FailureOutput : Type 0 where
  pub failure : RunError
  pub stdout : List Bytes
  pub stderr : List Bytes
  pub duration_ms : ℕ
  pub wall_time_ms : ℕ
  pub cpu_time_ms : ℕ
  pub bridge_calls : List BridgeCallRecord

pub record CallOutcome : Type 0 where
  pub outcome : Result FailureOutput Output
  pub tainted : Bool
  pub heap_used_bytes : ℕ
  pub prefix_failed : Bool

-- `RunFailurePayload::bare`: nothing ran.
unfoldable pub bare : RunErrorPayload → RunFailurePayload
bare e = record {
  failure = e;
  stdout = [];
  stderr = [];
  duration_ms = 0;
  wall_time_ms = 0;
  cpu_time_ms = 0;
  bridge_calls = [];
  heap_used_bytes = none;
}

unfoldable pub with_stage : Bool → RunErrorPayload → RunErrorPayload
with_stage stage (run_error code name message stack blob reset prefix_stage cause) =
    run_error code name message stack blob reset stage cause

unfoldable pub succeeded : Output → Option ℕ → Outbound
succeeded output heap_used_bytes = result (
    success (record {
      exports = output.exports;
      skipped_exports = output.skipped_exports;
      stdout = output.stdout;
      stderr = output.stderr;
      duration_ms = output.duration_ms;
      wall_time_ms = output.wall_time_ms;
      cpu_time_ms = output.cpu_time_ms;
      bridge_calls = output.bridge_calls;
      heap_used_bytes = heap_used_bytes;
      background_flags = 0;
    }))

unfoldable pub after_background : Output → Option ℕ → Option GraceReport → Outbound
unfolding succeeded
after_background output heap_used_bytes none = succeeded output heap_used_bytes
after_background output heap_used_bytes (some report) =
    if report.early_result_sent then run_complete report else succeeded output heap_used_bytes

unfoldable pub completion_message : Result FailureOutput Output → Option ℕ → Bool → Outbound
unfolding after_background with_stage to_payload
completion_message (ok output) heap_used_bytes prefix_stage =
    after_background output heap_used_bytes output.background
completion_message (err f) heap_used_bytes prefix_stage = result (
    RunCompletion.failed (record {
      failure = with_stage prefix_stage (to_payload f.failure);
      stdout = f.stdout;
      stderr = f.stderr;
      duration_ms = f.duration_ms;
      wall_time_ms = f.wall_time_ms;
      cpu_time_ms = f.cpu_time_ms;
      bridge_calls = f.bridge_calls;
      heap_used_bytes = heap_used_bytes;
    }))

-- The message of the minimal result.
unfoldable pub too_large_text : Bytes → Bytes
unfolding ascii
too_large_text detail =
    ascii "the run's result was too large to send to the host ("
    ++ (detail
        ++ (ascii "). A thrown error's message, stack and properties are reported "
            ++ ascii "verbatim, so a very large one cannot be delivered."))

unfoldable pub minimal_report : GraceStatus → GraceReport
unfolding ascii
minimal_report status = record {
  status = status;
  duration_ms = 0;
  wall_time_ms = 0;
  cpu_time_ms = 0;
  stdout = [];
  stderr = [];
  bridge_calls = [];
  failure =
      some
        (ascii "Error", ascii "the grace report was too large to send; its telemetry was dropped");
  early_result_sent = true;
}

-- What goes out in place of a message that is too large.
unfoldable pub substitute : Outbound → Bytes → Outbound
unfolding bare to_payload too_large_text minimal_report
substitute (run_complete report) detail = run_complete (minimal_report report.status)
substitute _ detail =
    result (RunCompletion.failed (bare (to_payload (internal_error (too_large_text detail)))))

module _ {S : Type 0} (link : HostLink S) where
  open link use {send}

  unfoldable pub after_send :
      ℕ → Outbound → S × Result LinkError (Unit {0}) → S × Result LinkError (Unit {0})
  unfolding substitute
  after_send run_id msg (s, ok sent) = (s, ok sent)
  after_send run_id msg (s, err (closed detail)) = (s, err (closed detail))
  after_send run_id msg (s, err (too_large detail)) = send s run_id (substitute msg detail)

  -- An error that is left is only logged.
  unfoldable pub send_completion : S → ℕ → Outbound → S
  unfolding after_send
  send_completion s run_id msg = (after_send run_id msg (send s run_id msg)).0

-- The order that lets the host reuse the id, and find the instance, as soon as it has the answer. A run
-- without a link, or with no message, is only released.
unfoldable pub finish_run :
    {S : Type 0} → Option (HostLink S) → S → ℕ → Option Outbound → (S → S) → S
unfolding send_completion
finish_run none s run_id msg release = release s
finish_run (some link) s run_id none release = release (link.finished s run_id)
finish_run (some link) s run_id (some msg) release =
    send_completion link (release (link.finished s run_id)) run_id msg
