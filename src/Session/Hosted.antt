-- ===== src/Session/Hosted.antt =====
-- Frames of a run as the host writes them, on their way to the run.
use iso.Base.{
  ℕ, ◌+◌, ◌≤◌, ◌≡◌, refl, ap, ◌∙◌, Bool, true, false, Option, none, some, ok, arith, length,
  le→ltb_false,
}
use iso.Wire.Bytes.{Bytes, IsU32, from_be32-be32}
use iso.Wire.Reader.Reads.{IsText, WhenSome}
use iso.Limits.{stream_chunk_max_bytes}
use iso.Frame.{TsToRustMessageType, TypedFrame}
use iso.Host.Streams.{
  encode_stream_chunk_payload, encode_stream_end_payload, encode_stream_pull_payload,
  encode_stream_cancel_payload, parse-encode_stream_chunk, parse-encode_stream_end,
  parse-encode_stream_pull, parse-encode_stream_cancel,
}
use iso.Reply.Bridge.{
  HostBridgeError, encode_bridge_response_payload, heard, ResponseFits,
  parse-encode_bridge_response,
}
use iso.Link.{Inbound}
use iso.Session.ConnLink.{RunRoute, Conn, route_of}
use iso.Session.Route.{
  deliver, deliver_to, inbound_of, end_error, response_in, chunk_in, end_in, pull_in, cancel_in,
  decoded, routed, peek_run_id, route_by, route_run_frame,
}

-- What the host says to a run.
pub data HostMessage : Type 0 where
  response :
      (call_id : ℕ) (is_ok : Bool) (value : Option Bytes) (e : Option HostBridgeError) → HostMessage
  chunk : (stream_id : ℕ) (bytes : Bytes) → HostMessage
  ended : (stream_id : ℕ) (error : Option Bytes) → HostMessage
  granted : (stream_id credit : ℕ) → HostMessage
  cancelled : (stream_id : ℕ) (reason : Bytes) → HostMessage

-- The frame that it writes.
unfoldable pub host_frame : ℕ → HostMessage → TypedFrame
host_frame run_id (response call_id is_ok value e) = record {
  message_type = TsToRustMessageType.bridge_response;
  payload = encode_bridge_response_payload run_id call_id is_ok value e;
}
host_frame run_id (chunk stream_id bytes) = record {
  message_type = TsToRustMessageType.stream_chunk;
  payload = encode_stream_chunk_payload run_id stream_id bytes;
}
host_frame run_id (ended stream_id error) = record {
  message_type = TsToRustMessageType.stream_end;
  payload = encode_stream_end_payload run_id stream_id error;
}
host_frame run_id (granted stream_id credit) = record {
  message_type = TsToRustMessageType.stream_pull;
  payload = encode_stream_pull_payload run_id stream_id credit;
}
host_frame run_id (cancelled stream_id reason) = record {
  message_type = TsToRustMessageType.stream_cancel;
  payload = encode_stream_cancel_payload run_id stream_id reason;
}

-- What the run hears.
abbrev pub meant : HostMessage → Inbound
meant (response call_id is_ok value e) = Inbound.bridge_response call_id (heard is_ok value e)
meant (chunk stream_id bytes) = Inbound.stream_chunk stream_id bytes
meant (ended stream_id error) = Inbound.stream_end stream_id error
meant (granted stream_id credit) = Inbound.stream_pull stream_id credit
meant (cancelled stream_id reason) = Inbound.stream_cancel stream_id reason

-- Ids and credits are u32, texts are UTF-8 that fits its length, and a chunk is within its cap.
abbrev pub MessageFits : HostMessage → Type 0
MessageFits (response call_id is_ok value e) = IsU32 call_id × ResponseFits is_ok value e
MessageFits (chunk stream_id bytes) = IsU32 stream_id × (length bytes ≤ stream_chunk_max_bytes)
MessageFits (ended stream_id error) = IsU32 stream_id × WhenSome IsText error
MessageFits (granted stream_id credit) = IsU32 stream_id × IsU32 credit
MessageFits (cancelled stream_id reason) = IsU32 stream_id × IsText reason

inbound_of-host :
    (run_id : ℕ) (m : HostMessage)
    → IsU32 run_id
    → MessageFits m
    → inbound_of (host_frame run_id m) ≡ ok (meant m)
unfolding inbound_of host_frame end_error response_in chunk_in end_in pull_in cancel_in
inbound_of-host run_id (response call_id is_ok value e) r f =
    ap response_in (parse-encode_bridge_response run_id call_id is_ok value e r f.0 f.1)
inbound_of-host run_id (chunk stream_id bytes) r f = ap chunk_in (
    simp (le→ltb_false stream_chunk_max_bytes (length bytes) f.1) at
      (parse-encode_stream_chunk run_id stream_id bytes f.0 (omega (arith, f.1))))
inbound_of-host run_id (ended stream_id none) r f =
    ap end_in (parse-encode_stream_end run_id stream_id none r f.0 f.1)
inbound_of-host run_id (ended stream_id (some error)) r f =
    ap end_in (parse-encode_stream_end run_id stream_id (some error) r f.0 f.1)
inbound_of-host run_id (granted stream_id credit) r f =
    ap pull_in (parse-encode_stream_pull run_id stream_id credit r f.0 f.1)
inbound_of-host run_id (cancelled stream_id reason) r f =
    ap cancel_in (parse-encode_stream_cancel run_id stream_id reason r f.0 f.1)

peek-host :
    (run_id : ℕ) (m : HostMessage)
    → IsU32 run_id
    → peek_run_id (host_frame run_id m).payload ≡ some run_id
unfolding peek_run_id host_frame encode_bridge_response_payload encode_stream_chunk_payload
    encode_stream_end_payload encode_stream_pull_payload encode_stream_cancel_payload
peek-host run_id (response call_id true value e) r = ap some (from_be32-be32 run_id r)
peek-host run_id (response call_id false value e) r = ap some (from_be32-be32 run_id r)
peek-host run_id (chunk stream_id bytes) r = ap some (from_be32-be32 run_id r)
peek-host run_id (ended stream_id error) r = ap some (from_be32-be32 run_id r)
peek-host run_id (granted stream_id credit) r = ap some (from_be32-be32 run_id r)
peek-host run_id (cancelled stream_id reason) r = ap some (from_be32-be32 run_id r)

routed-host :
    (route : RunRoute) (run_id : ℕ) (m : HostMessage)
    → IsU32 run_id
    → MessageFits m
    → length (host_frame run_id m).payload + 1 ≤ route.frame_cap
    → routed route (host_frame run_id m) ≡ meant m
unfolding routed decoded
routed-host route run_id m r f room = rw (le→ltb_false _ _ room, inbound_of-host run_id m r f) refl

-- A message that the host writes for a run in flight, within the format's bounds and the run's frame
-- allowance, is handed to that run as the host meant it, and nothing else changes.
pub route_run_frame-host :
    (conn : Conn) (run_id : ℕ) (m : HostMessage) (route : RunRoute)
    → IsU32 run_id
    → MessageFits m
    → route_of run_id conn.runs ≡ some route
    → length (host_frame run_id m).payload + 1 ≤ route.frame_cap
    → route_run_frame conn (host_frame run_id m) ≡ some (deliver conn route.handle (meant m))
unfolding route_run_frame route_by deliver_to
route_run_frame-host conn run_id m route r f h room =
    ap (route_by conn (host_frame run_id m)) (peek-host run_id m r)
    ∙ ap (λ o. some (deliver_to conn o (λ x. routed x (host_frame run_id m)))) h
    ∙ ap (λ msg. some (deliver conn route.handle msg)) (routed-host route run_id m r f room)
