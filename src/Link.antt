-- ===== src/Link.antt =====
-- crates/core/src/link.rs: what a run tells the host and hears from it. A run is addressed by its wire
-- id.
use iso.Base.{ℕ, Option, Result}
use iso.Wire.Bytes.{Bytes}
use iso.Types.{TerminateMode}
use iso.Reply.Types.{BridgeTarget, RunCompletion, GraceReport}
use iso.Reply.Bridge.{Response}

-- Engine to host: one frame each.
pub data Outbound : Type 0 where
  bridge_call : (call_id : ℕ) (target : BridgeTarget) (args : Bytes) → Outbound
  stream_pull : (stream_id credit : ℕ) → Outbound
  stream_cancel : (stream_id : ℕ) (reason : Bytes) → Outbound
  stream_chunk : (stream_id : ℕ) (chunk : Bytes) → Outbound
  stream_end : (stream_id : ℕ) (error : Option Bytes) → Outbound
  result : RunCompletion → Outbound
  run_complete : GraceReport → Outbound

-- Host to engine, decoded and routed to the run.
pub data Inbound : Type 0 where
  bridge_response : (call_id : ℕ) (response : Response) → Inbound
  stream_chunk : (stream_id : ℕ) (chunk : Bytes) → Inbound
  stream_end : (stream_id : ℕ) (error : Option Bytes) → Inbound
  stream_pull : (stream_id credit : ℕ) → Inbound
  stream_cancel : (stream_id : ℕ) (reason : Bytes) → Inbound
  terminate : TerminateMode → Inbound
  connection_lost : (detail : Option Bytes) → Inbound

pub data LinkError : Type 0 where
  too_large : Bytes → LinkError
  closed : Bytes → LinkError

-- A frontend over its state: a message for a run, and the end of a started run.
pub record HostLink (S : Type 0) : Type 0 where
  pub send : S → ℕ → Outbound → S × Result LinkError (Unit {0})
  pub finished : S → ℕ → S
