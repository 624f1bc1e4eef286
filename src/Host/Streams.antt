-- ===== src/Host/Streams.antt =====
-- packages/iso4-sandbox/src/ipc.ts: the host's encoders of the stream payloads, and the server's parsers
-- on what they write.
use iso.Base.{
  ℕ, ◌+◌, ◌≡◌, refl, Bool, true, false, Option, none, some, [], ◌∷◌, ◌++◌, ok, err, invalid_data,
  length, ltb, ==_refl, if◌then◌else◌,
}
use iso.Wire.Bytes.{Bytes, IsU32, be32, from_be32-be32}
use iso.Wire.Reader.{◌>>=◌, read_bool, pure}
use iso.Wire.Reader.Reads.{
  Reads, bool_byte, Reads-bind, Reads-last, Reads-pure, Reads-u32, Reads-bool, Reads-string,
  Reads-some, parse_all-Reads, sized, IsText, WhenSome,
}
use iso.Limits.{stream_chunk_max_bytes}
use iso.Payload.Streams.{
  parse_stream_chunk_payload, StreamEndPayload, end_error, stream_end_fields,
  parse_stream_end_payload, stream_pull_fields, parse_stream_pull_payload, stream_cancel_fields,
  parse_stream_cancel_payload,
}

unfoldable pub encode_stream_chunk_payload : ℕ → ℕ → Bytes → Bytes
encode_stream_chunk_payload run_id stream_id body =
    be32 run_id ++ (be32 stream_id ++ (be32 (length body) ++ body))

-- `ok`, then the error behind its presence byte when there is one.
unfoldable pub end_fields : Option Bytes → Bytes
end_fields none = 1 ∷ []
end_fields (some error) = (0 ∷ []) ++ (1 ∷ sized error)

unfoldable pub encode_stream_end_payload : ℕ → ℕ → Option Bytes → Bytes
encode_stream_end_payload run_id stream_id error =
    be32 run_id ++ (be32 stream_id ++ end_fields error)

unfoldable pub encode_stream_pull_payload : ℕ → ℕ → ℕ → Bytes
encode_stream_pull_payload run_id stream_id credit = be32 run_id ++ (be32 stream_id ++ be32 credit)

unfoldable pub encode_stream_cancel_payload : ℕ → ℕ → Bytes → Bytes
encode_stream_cancel_payload run_id stream_id reason =
    be32 run_id ++ (be32 stream_id ++ sized reason)

-- A chunk that the host writes, its stream id and length u32, is read back when it is within the cap,
-- and refused as invalid when it is above.
pub parse-encode_stream_chunk :
    (run_id stream_id : ℕ) (body : Bytes)
    → IsU32 stream_id
    → IsU32 (length body)
    → parse_stream_chunk_payload (encode_stream_chunk_payload run_id stream_id body) ≡ (
        if ltb stream_chunk_max_bytes (length body)
        then err invalid_data
        else ok (record { stream_id = stream_id; body = body }))
unfolding parse_stream_chunk_payload encode_stream_chunk_payload
parse-encode_stream_chunk run_id stream_id body s l =
    rw (from_be32-be32 stream_id s, from_be32-be32 (length body) l, ==_refl (12 + length body)) refl

abbrev pub is_none : Option Bytes → Bool
is_none none = true
is_none (some e) = false

abbrev end_of : ℕ → Bool → Option Bytes → StreamEndPayload
end_of stream_id is_ok error = record { stream_id = stream_id; is_ok = is_ok; error = error }

abbrev end_result : ℕ → Option Bytes → StreamEndPayload
end_result stream_id error = record { stream_id = stream_id; is_ok = is_none error; error = error }

Reads-end_tail :
    (stream_id : ℕ) (error : Option Bytes)
    → WhenSome IsText error
    → Reads
        (do is_ok ← read_bool; e ← end_error is_ok; pure (end_of stream_id is_ok e))
        (end_fields error)
        (end_result stream_id error)
unfolding end_fields end_error bool_byte
Reads-end_tail stream_id none w =
    Reads-last _ _ (Reads-bool true) (Reads-last _ _ (Reads-pure _) (Reads-pure _))
Reads-end_tail stream_id (some e) w =
    Reads-bind _ _ (Reads-bool false)
      (Reads-last _ _ (Reads-some (Reads-string e w)) (Reads-pure _))

-- The end of a stream is read back, for ids that are u32 and an error text that is UTF-8 and fits its
-- length: it ended well exactly when the host gave no error.
pub parse-encode_stream_end :
    (run_id stream_id : ℕ) (error : Option Bytes)
    → IsU32 run_id
    → IsU32 stream_id
    → WhenSome IsText error
    → parse_stream_end_payload (encode_stream_end_payload run_id stream_id error)
      ≡ ok (record { stream_id = stream_id; is_ok = is_none error; error = error })
unfolding parse_stream_end_payload stream_end_fields encode_stream_end_payload
parse-encode_stream_end run_id stream_id error r s w = parse_all-Reads (
    Reads-bind _ _ (Reads-u32 _ r)
      (Reads-bind _ _ (Reads-u32 _ s) (Reads-end_tail stream_id error w)))

-- Granted credit is read back as the host gave it.
pub parse-encode_stream_pull :
    (run_id stream_id credit : ℕ)
    → IsU32 run_id
    → IsU32 stream_id
    → IsU32 credit
    → parse_stream_pull_payload (encode_stream_pull_payload run_id stream_id credit)
      ≡ ok (record { stream_id = stream_id; credit = credit })
unfolding parse_stream_pull_payload stream_pull_fields encode_stream_pull_payload
parse-encode_stream_pull run_id stream_id credit r s c = parse_all-Reads (
    Reads-bind _ _ (Reads-u32 _ r)
      (Reads-bind _ _ (Reads-u32 _ s) (Reads-last _ _ (Reads-u32 _ c) (Reads-pure _))))

-- A cancellation is read back with the reason that the host gave, for ids that are u32 and a reason
-- that is UTF-8 and fits its length.
pub parse-encode_stream_cancel :
    (run_id stream_id : ℕ) (reason : Bytes)
    → IsU32 run_id
    → IsU32 stream_id
    → IsText reason
    → parse_stream_cancel_payload (encode_stream_cancel_payload run_id stream_id reason)
      ≡ ok (record { stream_id = stream_id; reason = reason })
unfolding parse_stream_cancel_payload stream_cancel_fields encode_stream_cancel_payload
parse-encode_stream_cancel run_id stream_id reason r s t = parse_all-Reads (
    Reads-bind _ _ (Reads-u32 _ r)
      (Reads-bind _ _ (Reads-u32 _ s) (Reads-last _ _ (Reads-string _ t) (Reads-pure _))))
