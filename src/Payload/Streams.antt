-- ===== src/Payload/Streams.antt =====
-- crates/server/src/ipc.rs: the payloads of the stream frames, parsed and encoded. The run id of a
-- parsed payload is routed from the raw frame, so the parsers drop it.
use iso.Base.{
  ℕ, ◌+◌, Bool, true, false, not, Option, none, some, [], ◌∷◌, ◌++◌, Result, ok, err, ErrorKind,
  invalid_data, length, ltb, ◌==◌, if◌then◌else◌,
}
use iso.Wire.Bytes.{Bytes, be32, from_be32}
use iso.Wire.Reader.{
  Reader, pure, ◌>>=◌, ◌>>◌, read_u32, read_bool, read_string, read_optional, parse_all,
}
use iso.Limits.{stream_chunk_max_bytes}

pub record StreamChunkPayload : Type 0 where
  pub stream_id : ℕ
  pub body : Bytes

-- A payload of at least 12 bytes: the run id, the stream id, the length and the chunk.
unfoldable pub parse_stream_chunk_payload : Bytes → Result ErrorKind StreamChunkPayload
parse_stream_chunk_payload (_ ∷ _ ∷ _ ∷ _ ∷ a ∷ b ∷ c ∷ d ∷ w ∷ x ∷ y ∷ z ∷ body) =
    let len = from_be32 w x y z in
    if ltb stream_chunk_max_bytes len
    then err invalid_data
    else if not (12 + length body == 12 + len)
    then err invalid_data
    else ok (record { stream_id = from_be32 a b c d; body = body })
parse_stream_chunk_payload _ = err invalid_data

pub record StreamEndPayload : Type 0 where
  pub stream_id : ℕ
  pub is_ok : Bool
  pub error : Option Bytes

-- The error text is read only when the stream did not end well.
unfoldable pub end_error : Bool → Reader (Option Bytes)
end_error true = pure none
end_error false = read_optional read_string

unfoldable pub stream_end_fields : Reader StreamEndPayload
stream_end_fields = do
  read_u32
  stream_id ← read_u32
  is_ok ← read_bool
  error ← end_error is_ok
  pure (record { stream_id = stream_id; is_ok = is_ok; error = error })

unfoldable pub parse_stream_end_payload : Bytes → Result ErrorKind StreamEndPayload
parse_stream_end_payload = parse_all stream_end_fields

pub record StreamPullPayload : Type 0 where
  pub stream_id : ℕ
  pub credit : ℕ

unfoldable pub stream_pull_fields : Reader StreamPullPayload
stream_pull_fields = do
  read_u32
  stream_id ← read_u32
  credit ← read_u32
  pure (record { stream_id = stream_id; credit = credit })

unfoldable pub parse_stream_pull_payload : Bytes → Result ErrorKind StreamPullPayload
parse_stream_pull_payload = parse_all stream_pull_fields

pub record StreamCancelPayload : Type 0 where
  pub stream_id : ℕ
  pub reason : Bytes

unfoldable pub stream_cancel_fields : Reader StreamCancelPayload
stream_cancel_fields = do
  read_u32
  stream_id ← read_u32
  reason ← read_string
  pure (record { stream_id = stream_id; reason = reason })

unfoldable pub parse_stream_cancel_payload : Bytes → Result ErrorKind StreamCancelPayload
parse_stream_cancel_payload = parse_all stream_cancel_fields

unfoldable pub encode_stream_pull_payload : ℕ → ℕ → ℕ → Bytes
encode_stream_pull_payload run_id stream_id credit = be32 run_id ++ (be32 stream_id ++ be32 credit)

unfoldable pub encode_stream_cancel_payload : ℕ → ℕ → Bytes → Bytes
encode_stream_cancel_payload run_id stream_id reason =
    be32 run_id ++ (be32 stream_id ++ (be32 (length reason) ++ reason))

-- `ok` without an error, then the error text behind its presence byte.
unfoldable pub end_tail : Option Bytes → Bytes
end_tail none = 1 ∷ []
end_tail (some message) = 0 ∷ 1 ∷ (be32 (length message) ++ message)

unfoldable pub encode_stream_end_payload : ℕ → ℕ → Option Bytes → Bytes
encode_stream_end_payload run_id stream_id error = be32 run_id ++ (be32 stream_id ++ end_tail error)
