-- ===== src/Session/Greeting.antt =====
-- crates/server/src/session.rs, the handshake of `handle_client`: one `Authenticate` frame on a deadline,
-- and a `Hello` with the verdict. A peer that does not speak the protocol is hung up on without one.
use iso.Base.{
  ℕ, Bool, true, false, not, Option, none, some, List, [], ◌∷◌, ◌++◌, Result, ok, err, ErrorKind,
  timed_out, leb, ◌==◌, if◌then◌else◌, ascii, map,
}
use iso.Wire.Bytes.{Bytes}
use iso.Frame.Stream.{Event, failed}
use iso.Frame.{
  auth_max_frame_length, TsToRustMessageType, TypedFrame, read_ts_to_rust_frame_with_limit,
}
use iso.Handshake.{
  AuthenticatePayload, parse_authenticate_payload, HelloStatus, accepted, protocol_version_mismatch,
  v8_format_mismatch, encode_hello_payload,
}
use iso.Reply.Clamp.{digits}

abbrev pub protocol_version : ℕ
protocol_version = 1

-- Of this process's V8: the probe that it sends, and the newest format that it reads.
pub record Runtime : Type 0 where
  pub probe : Bytes
  pub read_version : ℕ

-- What the socket does beside reading: clear the deadline, and take the `Hello`; and whether the
-- writer's thread starts.
pub record Socket : Type 0 where
  pub clears_deadline : Bool
  pub takes_hello : Bool
  pub starts_writer : Bool

-- A call of `read` at its time, before the deadline or too late.
unfoldable pub handshake_read : ℕ → ℕ × Event → Event
handshake_read deadline (now, event) = if leb deadline now then failed timed_out else event

-- The first byte of every blob.
abbrev pub v8_blob_header_tag : ℕ
v8_blob_header_tag = 0xff

unfoldable pub probe_format_version : Bytes → Option ℕ
probe_format_version (tag ∷ version ∷ rest) =
    if tag == v8_blob_header_tag then some version else none
probe_format_version _ = none

unfoldable pub is_readable : ℕ → Option ℕ → Bool
is_readable read_version none = false
is_readable read_version (some v) = leb v read_version

-- " Update @iso4/sandbox and @iso4/v8-* together — they are released in lockstep."
unfoldable pub lockstep : Bytes
unfolding ascii
lockstep =
    ascii "Update @iso4/sandbox and @iso4/v8-* together "
    ++ ((0xe2 ∷ 0x80 ∷ 0x94 ∷ []) ++ ascii " they are released in lockstep.")

unfoldable pub version_text : ℕ → Bytes
unfolding ascii lockstep
version_text host =
    ascii "iso4 protocol version mismatch: host speaks v"
    ++ (digits 20 host
        ++ (ascii ", this iso4-v8 binary speaks v"
            ++ (digits 20 protocol_version ++ (ascii ". " ++ lockstep))))

unfoldable pub format_text : ℕ → Option ℕ → Bytes
unfolding ascii lockstep
format_text read_version host =
    ascii "V8 serialization format mismatch between Node (writes format "
    ++ ((elim host [ none ↦ ascii "an unrecognised format" | some v ↦ digits 20 v ])
        ++ (ascii ") and the iso4-v8 binary (reads up to format "
            ++ (digits 20 read_version ++ (ascii "). " ++ lockstep))))

-- What the peer is written, and its credentials if the loop is to start.
pub record Greeting : Type 0 where
  pub hellos : List Bytes
  pub session : Option AuthenticatePayload

abbrev pub hung_up : Greeting
hung_up = record { hellos = []; session = none }

-- `send_hello`: a failure is only logged.
unfoldable pub send_hello : Runtime → Socket → HelloStatus → Bytes → List Bytes
send_hello runtime socket status message =
    if socket.takes_hello then encode_hello_payload status runtime.probe message ∷ [] else []

-- The checks of the credentials, in their order.
unfoldable pub check_auth : Runtime → Socket → AuthenticatePayload → Greeting
unfolding send_hello version_text probe_format_version is_readable format_text
check_auth runtime socket auth =
    let host = probe_format_version auth.probe in
    if not (auth.protocol_version == protocol_version)
    then record {
      hellos =
          send_hello runtime socket protocol_version_mismatch (version_text auth.protocol_version);
      session = none;
    }
    else if not (is_readable runtime.read_version host)
    then record {
      hellos = send_hello runtime socket v8_format_mismatch (format_text runtime.read_version host);
      session = none;
    }
    else record {
      hellos = send_hello runtime socket accepted [];
      session =
          if socket.takes_hello then if socket.starts_writer then some auth else none else none;
    }

unfoldable pub check_payload : Runtime → Socket → Result ErrorKind AuthenticatePayload → Greeting
unfolding check_auth
check_payload runtime socket (err e) = hung_up
check_payload runtime socket (ok auth) = check_auth runtime socket auth

abbrev pub is_authenticate : TsToRustMessageType → Bool
is_authenticate TsToRustMessageType.authenticate = true
is_authenticate _ = false

unfoldable pub check_frame : Runtime → Socket → Result ErrorKind TypedFrame → Greeting
unfolding check_payload
check_frame runtime socket (err e) = hung_up
check_frame runtime socket (ok frame) =
    if not socket.clears_deadline
    then hung_up
    else if not (is_authenticate frame.message_type)
    then hung_up
    else check_payload runtime socket (parse_authenticate_payload frame.payload)

-- `handle_client` up to its loop.
unfoldable pub greet : Runtime → Socket → ℕ → List (ℕ × Event) → Greeting
unfolding handshake_read check_frame
greet runtime socket deadline reads =
    check_frame runtime socket
      (read_ts_to_rust_frame_with_limit (map (handshake_read deadline) reads)
        auth_max_frame_length).0
