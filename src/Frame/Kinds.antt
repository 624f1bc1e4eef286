-- ===== src/Frame/Kinds.antt =====
-- crates/server/src/ipc.rs: the message types of the frames that the server sends, and the table of
-- those that the host sends.
use iso.Base.{ℕ, ◌≡◌, refl, subst, ◌↔◌, ok, arith}
use iso.Frame.{
  TsToRustMessageType, authenticate, run, precompile, prefix_run, dispose_prefix, bridge_response,
  terminate, stats, stream_chunk, stream_end, stream_pull, stream_cancel, close, ts_to_rust_byte,
  parse_ts_to_rust_message_type,
}

pub data RustToTsMessageType : Type 0 where
  bridge_call run_result precompile_result log hello stats_result run_complete : RustToTsMessageType
  pull_granted cancel_sent chunk_sent end_sent : RustToTsMessageType

-- `#[repr(u8)]`; the last four are StreamPull, StreamCancel, StreamChunk and StreamEnd.
unfoldable pub rust_to_ts_byte : RustToTsMessageType → ℕ
rust_to_ts_byte bridge_call = 1
rust_to_ts_byte run_result = 2
rust_to_ts_byte precompile_result = 3
rust_to_ts_byte log = 4
rust_to_ts_byte hello = 5
rust_to_ts_byte stats_result = 6
rust_to_ts_byte run_complete = 7
rust_to_ts_byte pull_granted = 8
rust_to_ts_byte cancel_sent = 9
rust_to_ts_byte chunk_sent = 10
rust_to_ts_byte end_sent = 11

parse-byte : (t : TsToRustMessageType) → parse_ts_to_rust_message_type (ts_to_rust_byte t) ≡ ok t
unfolding parse_ts_to_rust_message_type ts_to_rust_byte
parse-byte authenticate = refl
parse-byte run = refl
parse-byte precompile = refl
parse-byte prefix_run = refl
parse-byte dispose_prefix = refl
parse-byte bridge_response = refl
parse-byte terminate = refl
parse-byte stats = refl
parse-byte stream_chunk = refl
parse-byte stream_end = refl
parse-byte stream_pull = refl
parse-byte stream_cancel = refl
parse-byte close = refl

byte-parse :
    (b : ℕ) (t : TsToRustMessageType)
    → parse_ts_to_rust_message_type b ≡ ok t
    → ts_to_rust_byte t ≡ b
unfolding parse_ts_to_rust_message_type ts_to_rust_byte
byte-parse b t h = ground arith

-- A byte is parsed as a message type exactly when it is that type's byte; no other byte is accepted.
pub parse_ts_to_rust_message_type-byte :
    (b : ℕ) (t : TsToRustMessageType)
    → (parse_ts_to_rust_message_type b ≡ ok t) ↔ (ts_to_rust_byte t ≡ b)
parse_ts_to_rust_message_type-byte b t =
    (byte-parse b t, λ h. subst (λ n. parse_ts_to_rust_message_type n ≡ ok t) h (parse-byte t))
