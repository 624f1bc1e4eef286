-- ===== src/Frame.antt =====
-- crates/server/src/ipc.rs: the frame envelope (a u32 length over type and payload, the type byte,
-- the payload) and the two tables of message types.
pub mod Stream
pub mod Kinds
pub mod Read
pub mod RoundTrip
use iso.Base.{
  ℕ, zero, suc, ◌+◌, ◌^◌, ◌*◌, Bool, true, false, Option, none, some, List, [], ◌∷◌, ◌++◌, Result,
  ok, err, bind, ErrorKind, invalid_input, invalid_data, unexpected_eof, length, ltb, leb, ◌==◌,
  if◌then◌else◌,
}
use iso.Wire.Bytes.{Bytes, be32, from_be32}
use Stream.{Event, read_until_eof}

abbrev pub default_max_frame_length : ℕ
default_max_frame_length = 64 * 1024 * 1024

abbrev pub auth_max_frame_length : ℕ
auth_max_frame_length = 4 * 1024

pub record Frame : Type 0 where
  pub message_type : ℕ
  pub payload : Bytes

pub data TsToRustMessageType : Type 0 where
  authenticate run precompile prefix_run dispose_prefix bridge_response terminate stats :
      TsToRustMessageType
  stream_chunk stream_end stream_pull stream_cancel close : TsToRustMessageType

-- `#[repr(u8)]`.
unfoldable pub ts_to_rust_byte : TsToRustMessageType → ℕ
ts_to_rust_byte authenticate = 1
ts_to_rust_byte run = 2
ts_to_rust_byte precompile = 3
ts_to_rust_byte prefix_run = 4
ts_to_rust_byte dispose_prefix = 5
ts_to_rust_byte bridge_response = 6
ts_to_rust_byte terminate = 7
ts_to_rust_byte stats = 8
ts_to_rust_byte stream_chunk = 9
ts_to_rust_byte stream_end = 10
ts_to_rust_byte stream_pull = 11
ts_to_rust_byte stream_cancel = 12
ts_to_rust_byte close = 13

unfoldable pub parse_ts_to_rust_message_type : ℕ → Result ErrorKind TsToRustMessageType
parse_ts_to_rust_message_type b =
    if b == 1
    then ok authenticate
    else if b == 2
    then ok run
    else if b == 3
    then ok precompile
    else if b == 4
    then ok prefix_run
    else if b == 5
    then ok dispose_prefix
    else if b == 6
    then ok bridge_response
    else if b == 7
    then ok terminate
    else if b == 8
    then ok stats
    else if b == 9
    then ok stream_chunk
    else if b == 10
    then ok stream_end
    else if b == 11
    then ok stream_pull
    else if b == 12
    then ok stream_cancel
    else if b == 13
    then ok close
    else err invalid_data

-- The body of a frame whose length prefix was accepted: its type byte, then the payload.
unfoldable pub frame_of : Bytes → Result ErrorKind Frame
frame_of [] = err invalid_data
frame_of (type_byte ∷ payload) = ok (record { message_type = type_byte; payload = payload })

-- `got < buffer.len()` is a frame cut short.
unfoldable pub body_of : ℕ → Bytes → Result ErrorKind Frame
unfolding frame_of
body_of frame_length buffer =
    if ltb (length buffer) frame_length then err invalid_data else frame_of buffer

-- After the length prefix: the two refusals, then the body, which must come whole.
unfoldable pub read_body : ℕ → ℕ → List Event → Result ErrorKind Frame × List Event
unfolding body_of
read_body max_frame_length frame_length es =
    if frame_length == 0
    then (err invalid_data, es)
    else if ltb max_frame_length frame_length
    then (err invalid_data, es)
    else let (got, es') = read_until_eof frame_length [] es in
      (bind got (body_of frame_length), es')

-- The bytes that came for the length prefix: none is an orderly close, some but not four a
-- truncated frame.
unfoldable pub after_prefix : ℕ → Bytes → List Event → Result ErrorKind Frame × List Event
unfolding read_body
after_prefix max_frame_length [] es = (err unexpected_eof, es)
after_prefix max_frame_length (a ∷ b ∷ c ∷ d ∷ []) es =
    read_body max_frame_length (from_be32 a b c d) es
after_prefix max_frame_length _ es = (err invalid_data, es)

unfoldable pub after_read :
    ℕ → Result ErrorKind Bytes × List Event → Result ErrorKind Frame × List Event
unfolding after_prefix
after_read max_frame_length (ok length_prefix, es) = after_prefix max_frame_length length_prefix es
after_read max_frame_length (err e, es) = (err e, es)

unfoldable pub read_frame_with_limit : List Event → ℕ → Result ErrorKind Frame × List Event
unfolding after_read
read_frame_with_limit es max_frame_length = after_read max_frame_length (read_until_eof 4 [] es)

-- A frame whose type byte is known.
pub record TypedFrame : Type 0 where
  pub message_type : TsToRustMessageType
  pub payload : Bytes

unfoldable pub typed : Frame → Result ErrorKind TypedFrame
typed f =
    bind (parse_ts_to_rust_message_type f.message_type)
      λ t. ok (record { message_type = t; payload = f.payload })

unfoldable pub read_ts_to_rust_frame_with_limit :
    List Event → ℕ → Result ErrorKind TypedFrame × List Event
unfolding typed
read_ts_to_rust_frame_with_limit es max_frame_length =
    let (frame, es') = read_frame_with_limit es max_frame_length in (bind frame typed, es')

-- What `write_frame_with_limit` hands to `write_all`, in order.
unfoldable pub write_frame_with_limit : ℕ → Bytes → ℕ → Result ErrorKind Bytes
write_frame_with_limit message_type payload max_frame_length =
    if leb (2 ^ 32) (length payload)
    then err invalid_input
    else if leb (2 ^ 32) (length payload + 1)
    then err invalid_input
    else if ltb max_frame_length (length payload + 1)
    then err invalid_input
    else ok (be32 (length payload + 1) ++ (message_type ∷ [] ++ payload))

unfoldable pub write_frame : ℕ → Bytes → Result ErrorKind Bytes
unfolding write_frame_with_limit
write_frame message_type payload =
    write_frame_with_limit message_type payload default_max_frame_length
