-- ===== src/Reply/Bridge.antt =====
-- crates/server/src/wire.rs, `parse_bridge_response_payload`, and the host's encoder of that payload
-- (packages/iso4-sandbox/src/ipc.ts). The readers of wire.rs take the payload and an offset; as in
-- `PayloadReader`, the state here is the part that is still unread. Bytes after the payload are allowed.
use iso.Base.{
  ℕ, zero, suc, ◌≡◌, refl, Bool, true, false, Option, none, some, [], ◌∷◌, ◌++◌, Result, ok, err,
  bind, ErrorKind, invalid_data, length, arith,
}
use iso.Wire.Bytes.{Bytes, IsU32, be32, is_utf8, utf8_loop, utf8_lead}
use iso.Wire.Reader.{
  Reader, pure, fail, ◌>>=◌, ◌>>◌, read_u8, read_u32, read_string, read_value_blob,
}
use iso.Wire.Reader.Reads.{
  Reads, Reads-bind, Reads-last, Reads-pure, Reads-whole, Reads-u8, Reads-u32, Reads-string,
  Reads-value_blob, sized, IsText, WhenSome,
}
use iso.Reply.Types.{BridgeErrorPayload}
use iso.Payload.Blocks.{unwrap_or}

-- `present == 1`: any other byte means absent.
unfoldable pub blob_if : ℕ → Reader (Option Bytes)
blob_if (suc zero) = do blob ← read_value_blob; pure (some blob)
blob_if _ = pure none

unfoldable pub skip_string_if : ℕ → Reader (Unit {0})
skip_string_if (suc zero) = do read_string; pure tt
skip_string_if _ = pure tt

abbrev pub Response : Type 0
Response = Result BridgeErrorPayload (Option Bytes)

unfoldable pub response_error : Reader Response
response_error = do
  read_string
  name ← read_string
  message ← read_string
  stack_present ← read_u8
  skip_string_if stack_present
  fields_present ← read_u8
  blob ← blob_if fields_present
  pure (err (record { name = name; message = message; blob = blob }))

unfoldable pub response_value : Reader Response
response_value = do present ← read_u8; value ← blob_if present; pure (ok value)

unfoldable pub response_of : ℕ → Reader Response
response_of zero = response_error
response_of (suc zero) = response_value
response_of (suc (suc b)) = fail invalid_data

unfoldable pub response_fields : Reader (ℕ × ℕ × Response)
response_fields = do
  run_id ← read_u32
  call_id ← read_u32
  ok_byte ← read_u8
  response ← response_of ok_byte
  pure (run_id, call_id, response)

unfoldable pub parse_bridge_response_payload : Bytes → Result ErrorKind (ℕ × ℕ × Response)
parse_bridge_response_payload payload =
    bind (response_fields payload) λ (response, unread). ok response

pub record HostBridgeError : Type 0 where
  pub name : Bytes
  pub message : Bytes
  pub encoded_fields : Option Bytes

-- An empty blob is absent, as a missing one is.
unfoldable pub write_blob : Option Bytes → Bytes
write_blob none = 0 ∷ []
write_blob (some []) = 0 ∷ []
write_blob (some (b ∷ blob)) = (1 ∷ []) ++ sized (b ∷ blob)

-- "ERR_HOST_BRIDGE", "Error" and "host handler failed".
abbrev err_host_bridge : Bytes
err_host_bridge = 69 ∷ 82 ∷ 82 ∷ 95 ∷ 72 ∷ 79 ∷ 83 ∷ 84 ∷ 95 ∷ 66 ∷ 82 ∷ 73 ∷ 68 ∷ 71 ∷ 69 ∷ []

abbrev pub default_error : HostBridgeError
default_error = record {
  name = 69 ∷ 114 ∷ 114 ∷ 111 ∷ 114 ∷ [];
  message =
      104 ∷ 111 ∷ 115 ∷ 116 ∷ 32 ∷ 104 ∷ 97 ∷ 110 ∷ 100 ∷ 108 ∷ 101 ∷ 114 ∷ 32 ∷ 102 ∷ 97 ∷ 105
      ∷ 108 ∷ 101 ∷ 100 ∷ [];
  encoded_fields = none;
}

unfoldable pub write_error : HostBridgeError → Bytes
write_error e =
    sized err_host_bridge
    ++ (sized e.name ++ (sized e.message ++ ((0 ∷ []) ++ write_blob e.encoded_fields)))

-- `ok` comes with the encoded value, a failure with the handler's error.
unfoldable pub encode_bridge_response_payload :
    ℕ → ℕ → Bool → Option Bytes → Option HostBridgeError → Bytes
encode_bridge_response_payload run_id call_id true value e =
    be32 run_id ++ (be32 call_id ++ ((1 ∷ []) ++ write_blob value))
encode_bridge_response_payload run_id call_id false value e =
    be32 run_id ++ (be32 call_id ++ ((0 ∷ []) ++ write_error (unwrap_or e default_error)))

-- An empty blob is no blob.
abbrev pub present : Option Bytes → Option Bytes
present none = none
present (some []) = none
present (some (b ∷ blob)) = some (b ∷ blob)

abbrev pub BlobFits : Option Bytes → Type 0
BlobFits = WhenSome (λ blob. IsU32 (length blob))

abbrev pub ErrorFits : HostBridgeError → Type 0
ErrorFits e = IsText e.name × IsText e.message × BlobFits e.encoded_fields

-- What the sandbox hears: the value, or the handler's error with the host's default for a missing one.
abbrev pub heard : Bool → Option Bytes → Option HostBridgeError → Response
heard true value e = ok (present value)
heard false value e =
    let known = unwrap_or e default_error in
    err (record { name = known.name; message = known.message; blob = present known.encoded_fields })

abbrev pub ResponseFits : Bool → Option Bytes → Option HostBridgeError → Type 0
ResponseFits true value e = BlobFits value
ResponseFits false value e = WhenSome ErrorFits e

module _ {A : Type 0} (f : Option Bytes → A) where
  Reads-blob :
      (blob : Option Bytes)
      → BlobFits blob
      → Reads (do p ← read_u8; b ← blob_if p; pure (f b)) (write_blob blob) (f (present blob))
  unfolding write_blob blob_if
  Reads-blob none w = Reads-last _ _ (Reads-u8 0) (Reads-last _ _ (Reads-pure _) (Reads-pure _))
  Reads-blob (some []) w =
      Reads-last _ _ (Reads-u8 0) (Reads-last _ _ (Reads-pure _) (Reads-pure _))
  Reads-blob (some (b ∷ blob)) w = Reads-bind _ _ (Reads-u8 1) (
      Reads-last _ _ (Reads-last _ _ (Reads-value_blob (b ∷ blob) w) (Reads-pure _)) (Reads-pure _))

err_host_bridge-IsText : IsText err_host_bridge
unfolding is_utf8 utf8_loop utf8_lead
err_host_bridge-IsText = (omega arith, refl)

default_error-ErrorFits : ErrorFits default_error
unfolding is_utf8 utf8_loop utf8_lead
default_error-ErrorFits = ((omega arith, refl), (omega arith, refl), tt)

abbrev error_of : Bytes → Bytes → Option Bytes → Response
error_of name message blob = err (record { name = name; message = message; blob = blob })

Reads-error :
    (e : HostBridgeError)
    → ErrorFits e
    → Reads response_error
        (write_error e)
        (err (record { name = e.name; message = e.message; blob = present e.encoded_fields }))
unfolding response_error write_error skip_string_if
Reads-error e (n, m, w) = Reads-bind _ _ (Reads-string err_host_bridge err_host_bridge-IsText) (
    Reads-bind _ _ (Reads-string _ n) (
      Reads-bind _ _ (Reads-string _ m) (
        Reads-bind _ _ (Reads-u8 0) (
          Reads-bind _ _ {bs = []} (Reads-pure tt)
            (Reads-blob (error_of e.name e.message) e.encoded_fields w)))))

known-ErrorFits :
    (e : Option HostBridgeError) → WhenSome ErrorFits e → ErrorFits (unwrap_or e default_error)
known-ErrorFits none w = default_error-ErrorFits
known-ErrorFits (some e) w = w

Reads-response :
    (run_id call_id : ℕ) (is_ok : Bool) (value : Option Bytes) (e : Option HostBridgeError)
    → IsU32 run_id
    → IsU32 call_id
    → ResponseFits is_ok value e
    → Reads response_fields
        (encode_bridge_response_payload run_id call_id is_ok value e)
        (run_id, call_id, heard is_ok value e)
unfolding response_fields response_of response_value encode_bridge_response_payload
Reads-response run_id call_id true value e r c w = Reads-bind _ _ (Reads-u32 _ r) (
    Reads-bind _ _ (Reads-u32 _ c)
      (Reads-bind _ _ (Reads-u8 1) (Reads-last _ _ (Reads-blob _ value w) (Reads-pure _))))
Reads-response run_id call_id false value e r c w = Reads-bind _ _ (Reads-u32 _ r) (
    Reads-bind _ _ (Reads-u32 _ c) (
      Reads-bind _ _ (Reads-u8 0)
        (Reads-last _ _ (Reads-error _ (known-ErrorFits e w)) (Reads-pure _))))

-- The server hears what the host answered, for ids that are u32 and texts and blobs that fit: the value,
-- an empty blob counting as none, or the error, a missing one being the host's default.
pub parse-encode_bridge_response :
    (run_id call_id : ℕ) (is_ok : Bool) (value : Option Bytes) (e : Option HostBridgeError)
    → IsU32 run_id
    → IsU32 call_id
    → ResponseFits is_ok value e
    → parse_bridge_response_payload (encode_bridge_response_payload run_id call_id is_ok value e)
      ≡ ok (run_id, call_id, heard is_ok value e)
unfolding parse_bridge_response_payload
parse-encode_bridge_response run_id call_id is_ok value e r c w =
    rw (Reads-whole (Reads-response run_id call_id is_ok value e r c w)) refl
