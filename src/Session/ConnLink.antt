-- ===== src/Session/ConnLink.antt =====
-- crates/server/src/session.rs: a connection's routes, and its link to the engine.
use iso.Base.{
  ℕ, ◌+◌, ◌%◌, ◌^◌, Option, none, some, List, [], ◌∷◌, ◌++◌, Result, ok, err, length, ltb, leb,
  ◌==◌, if◌then◌else◌, ascii,
}
use iso.Wire.Bytes.{Bytes, be32}
use iso.Frame.{default_max_frame_length}
use iso.Frame.Kinds.{
  RustToTsMessageType, bridge_call, run_result, run_complete, pull_granted, cancel_sent, chunk_sent,
  end_sent,
}
use iso.Payload.Streams.{
  encode_stream_pull_payload, encode_stream_cancel_payload, encode_stream_end_payload,
}
use iso.Reply.{
  encode_bridge_call_header, encode_run_completion_payload, encode_run_complete_payload,
}
use iso.Reply.Clamp.{digits}
use iso.Link.{Outbound, Inbound, LinkError, too_large, closed, HostLink}

-- A run's handle, by the token of the run that it reaches.
abbrev pub RunHandle : Type 0
RunHandle = ℕ

pub record RunRoute : Type 0 where
  pub handle : RunHandle
  pub frame_cap : ℕ

-- A frame that the outbox took.
abbrev pub Sent : Type 0
Sent = RustToTsMessageType × Bytes

-- The routes by wire run id, the frames that the outbox took, and the messages that the runs were
-- handed, the last one first.
pub record Conn : Type 0 where
  pub runs : List (ℕ × RunRoute)
  pub frames : List Sent
  pub delivered : List (RunHandle × Inbound)

abbrev pub new_conn : Conn
new_conn = record { runs = []; frames = []; delivered = [] }

-- The surroundings of the link: why the outbox refuses a frame, if it does, and the process's slot
-- allowance, both by the number of frames before.
pub record Outlet : Type 0 where
  pub refuses : ℕ → Option Bytes
  pub slot_allowance : ℕ → ℕ

-- The head and the tail of the frame of a message.
unfoldable pub frame_for : ℕ → ℕ → Outbound → RustToTsMessageType × Bytes × Bytes
frame_for slots run_id (Outbound.bridge_call call_id target args) =
    (bridge_call, encode_bridge_call_header run_id call_id target (length args % 2 ^ 32), args)
frame_for slots run_id (Outbound.stream_pull stream_id credit) =
    (pull_granted, encode_stream_pull_payload run_id stream_id credit, [])
frame_for slots run_id (Outbound.stream_cancel stream_id reason) =
    (cancel_sent, encode_stream_cancel_payload run_id stream_id reason, [])
frame_for slots run_id (Outbound.stream_chunk stream_id chunk) =
    (chunk_sent, be32 run_id ++ (be32 stream_id ++ be32 (length chunk % 2 ^ 32)), chunk)
frame_for slots run_id (Outbound.stream_end stream_id error) =
    (end_sent, encode_stream_end_payload run_id stream_id error, [])
frame_for slots run_id (Outbound.result completion) =
    (run_result, encode_run_completion_payload slots run_id completion, [])
frame_for slots run_id (Outbound.run_complete report) =
    (run_complete, encode_run_complete_payload run_id report, [])

-- Why `send_frame` finds a frame too large, for the length of its payload.
unfoldable pub oversize : ℕ → Option Bytes
unfolding ascii
oversize n =
    if leb (2 ^ 32) n
    then some (ascii "payload too large")
    else if leb (2 ^ 32) (n + 1)
    then some (ascii "payload too large")
    else if ltb default_max_frame_length (n + 1)
    then some (
        ascii "frame length "
        ++ (digits 20 (n + 1)
            ++ (ascii " exceeds max frame length " ++ digits 20 default_max_frame_length)))
    else none

unfoldable pub admit_frame : Conn → Sent → Option Bytes → Conn × Result LinkError (Unit {0})
admit_frame conn sent none = (record conn { frames = conn.frames ++ (sent ∷ []) }, ok tt)
admit_frame conn sent (some reason) = (conn, err (closed reason))

unfoldable pub checked_frame :
    Outlet → Conn → Sent → Option Bytes → Conn × Result LinkError (Unit {0})
unfolding admit_frame
checked_frame out conn sent (some detail) = (conn, err (too_large detail))
checked_frame out conn sent none = admit_frame conn sent (out.refuses (length conn.frames))

-- `Outbox::send_frame`, with its errors as the link reports them.
unfoldable pub send_frame :
    Outlet → Conn → RustToTsMessageType → Bytes → Bytes → Conn × Result LinkError (Unit {0})
unfolding oversize checked_frame
send_frame out conn t head tail =
    checked_frame out conn (t, head ++ tail) (oversize (length head + length tail))

-- `ConnLink::send`.
unfoldable pub send : Outlet → Conn → ℕ → Outbound → Conn × Result LinkError (Unit {0})
unfolding frame_for send_frame
send out conn run_id msg =
    let (t, head, tail) = frame_for (out.slot_allowance (length conn.frames)) run_id msg in
    send_frame out conn t head tail

-- The `HashMap` of routes.
abbrev pub route_of : ℕ → List (ℕ × RunRoute) → Option RunRoute
route_of run_id [] = none
route_of run_id ((id, route) ∷ rest) = if id == run_id then some route else route_of run_id rest

abbrev pub unrouted : ℕ → List (ℕ × RunRoute) → List (ℕ × RunRoute)
unrouted run_id [] = []
unrouted run_id ((id, route) ∷ rest) =
    if id == run_id then rest else (id, route) ∷ unrouted run_id rest

-- `ConnLink::finished`.
unfoldable pub finished : Conn → ℕ → Conn
finished conn run_id = record conn { runs = unrouted run_id conn.runs }

unfoldable pub conn_link : Outlet → HostLink Conn
unfolding send finished
conn_link out = record { send = send out; finished = finished }
