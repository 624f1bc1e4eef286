-- ===== src/Session/Route.antt =====
-- crates/server/src/session.rs: the frames of a run on their way to it.
use iso.Base.{
  ErrorKind, ℕ, ◌+◌, ◌*◌, min, not, Option, none, some, ◌∷◌, ◌++◌, Result, ok, err, length, ltb,
  ◌==◌, if◌then◌else◌, ascii,
}
use iso.Wire.Bytes.{Bytes, from_be32}
use iso.Limits.{ResourceLimits, u32_max}
use iso.Types.{TerminateMode}
use iso.Frame.{default_max_frame_length, TsToRustMessageType, TypedFrame}
use iso.Payload.{parse_terminate_payload}
use iso.Payload.Streams.{
  StreamChunkPayload, StreamPullPayload, StreamCancelPayload, StreamEndPayload,
  parse_stream_chunk_payload, parse_stream_end_payload, parse_stream_pull_payload,
  parse_stream_cancel_payload,
}
use iso.Reply.Bridge.{Response, parse_bridge_response_payload}
use iso.Reply.Clamp.{digits}
use iso.Link.{Inbound, connection_lost, terminate}
use iso.Session.ConnLink.{RunHandle, RunRoute, Conn, route_of}

-- `RunHandle::deliver`: a message on its way to the run. What a hard `Terminate` hits in the middle of a
-- turn, which it ends there, is the run's own matter.
unfoldable pub deliver : Conn → RunHandle → Inbound → Conn
deliver conn handle msg = record conn { delivered = (handle, msg) ∷ conn.delivered }

unfoldable pub end_error : StreamEndPayload → Option Bytes
unfolding ascii
end_error e =
    if not e.is_ok
    then some (elim e.error [ none ↦ ascii "the host body source failed" | some message ↦ message ])
    else none

-- What each parser's answer comes to. The detail of a failure is its context, which the text of the io
-- error follows in the source, and of another frame the type's name stands before it.
unfoldable pub response_in : Result ErrorKind (ℕ × ℕ × Response) → Result Bytes Inbound
unfolding ascii
response_in (ok (run_id, call_id, response)) = ok (Inbound.bridge_response call_id response)
response_in (err e) = err (ascii "response decode")

unfoldable pub chunk_in : Result ErrorKind StreamChunkPayload → Result Bytes Inbound
unfolding ascii
chunk_in (ok c) = ok (Inbound.stream_chunk c.stream_id c.body)
chunk_in (err e) = err (ascii "stream chunk decode")

unfoldable pub end_in : Result ErrorKind StreamEndPayload → Result Bytes Inbound
unfolding ascii end_error
end_in (ok e) = ok (Inbound.stream_end e.stream_id (end_error e))
end_in (err e) = err (ascii "stream end decode")

unfoldable pub pull_in : Result ErrorKind StreamPullPayload → Result Bytes Inbound
unfolding ascii
pull_in (ok p) = ok (Inbound.stream_pull p.stream_id p.credit)
pull_in (err e) = err (ascii "stream pull decode")

unfoldable pub cancel_in : Result ErrorKind StreamCancelPayload → Result Bytes Inbound
unfolding ascii
cancel_in (ok c) = ok (Inbound.stream_cancel c.stream_id c.reason)
cancel_in (err e) = err (ascii "stream cancel decode")

-- A run-tagged frame as the engine's message.
unfoldable pub inbound_of : TypedFrame → Result Bytes Inbound
unfolding ascii response_in chunk_in end_in pull_in cancel_in
inbound_of frame = elim frame.message_type [
  | TsToRustMessageType.bridge_response ↦ response_in (parse_bridge_response_payload frame.payload)
  | TsToRustMessageType.stream_chunk ↦ chunk_in (parse_stream_chunk_payload frame.payload)
  | TsToRustMessageType.stream_end ↦ end_in (parse_stream_end_payload frame.payload)
  | TsToRustMessageType.stream_pull ↦ pull_in (parse_stream_pull_payload frame.payload)
  | TsToRustMessageType.stream_cancel ↦ cancel_in (parse_stream_cancel_payload frame.payload)
  | _ ↦ err (ascii "not a run message")
]

-- The inbound allowance of a run; a u32 product saturates.
unfoldable pub frame_cap_for : ResourceLimits → ℕ
frame_cap_for limits =
    if limits.soft_memory_mb == 0
    then if limits.hard_memory_mb == 0
      then default_max_frame_length
      else min (limits.hard_memory_mb * (1024 * 1024)) u32_max
    else min (limits.soft_memory_mb * (1024 * 1024)) u32_max

unfoldable pub peek_run_id : Bytes → Option ℕ
peek_run_id (a ∷ b ∷ c ∷ d ∷ rest) = some (from_be32 a b c d)
peek_run_id _ = none

unfoldable pub decoded : Result Bytes Inbound → Inbound
decoded (ok msg) = msg
decoded (err detail) = connection_lost (some detail)

unfoldable pub over_cap : ℕ → ℕ → Bytes
unfolding ascii
over_cap frame_len cap =
    ascii "frame length "
    ++ (digits 20 frame_len ++ (ascii " exceeds max frame length " ++ digits 20 cap))

-- The message that a routed frame comes to.
unfoldable pub routed : RunRoute → TypedFrame → Inbound
unfolding inbound_of decoded over_cap
routed route frame =
    let frame_len = length frame.payload + 1 in
    if ltb route.frame_cap frame_len
    then connection_lost (some (over_cap frame_len route.frame_cap))
    else decoded (inbound_of frame)

unfoldable pub deliver_to : Conn → Option RunRoute → (RunRoute → Inbound) → Conn
unfolding deliver
deliver_to conn none msg = conn
deliver_to conn (some route) msg = deliver conn route.handle (msg route)

unfoldable pub route_by : Conn → TypedFrame → Option ℕ → Option Conn
unfolding deliver_to routed
route_by conn frame none = none
route_by conn frame (some run_id) =
    some (deliver_to conn (route_of run_id conn.runs) (λ route. routed route frame))

-- None is a corrupt frame, which closes the connection.
unfoldable pub route_run_frame : Conn → TypedFrame → Option Conn
unfolding peek_run_id route_by
route_run_frame conn frame = route_by conn frame (peek_run_id frame.payload)

unfoldable pub terminate_by : Conn → Result ErrorKind (ℕ × TerminateMode) → Option Conn
unfolding deliver_to
terminate_by conn (err e) = none
terminate_by conn (ok (run_id, mode)) =
    some (deliver_to conn (route_of run_id conn.runs) (λ route. terminate mode))

unfoldable pub route_terminate : Conn → TypedFrame → Option Conn
unfolding terminate_by
route_terminate conn frame = terminate_by conn (parse_terminate_payload frame.payload)
