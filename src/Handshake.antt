-- ===== src/Handshake.antt =====
-- The handshake payloads: crates/server/src/ipc.rs parses `Authenticate` and encodes `Hello`;
-- packages/iso4-sandbox/src/ipc.ts encodes `Authenticate`.
use iso.Base.{
  ℕ, ◌+◌, ◌^◌, ◌<◌, ◌≡◌, refl, true, not, ◌∷◌, ◌++◌, Result, ok, err, ErrorKind, invalid_data,
  other_error, length, length-append, take, drop, take-append_self, take-length, drop-append_self,
  leb, ltb, ◌==◌, if◌then◌else◌, arith, le→leb, subst, ◌/◌, ◌%◌,
}
use iso.Wire.Bytes.{Bytes, IsU32, be16, from_be16, from_be32, from_be32-be32}
use iso.Wire.Reader.Reads.{sized}

abbrev pub descriptor_token_len : ℕ
descriptor_token_len = 16

pub record AuthenticatePayload : Type 0 where
  pub protocol_version : ℕ
  pub probe : Bytes
  pub descriptor_token : Bytes

-- The payload from the token's length on, its four bytes being known to be there.
unfoldable pub token_of : ℕ → Bytes → Bytes → Result ErrorKind AuthenticatePayload
token_of protocol_version probe (a ∷ b ∷ c ∷ d ∷ rest) =
    let token_len = from_be32 a b c d in
    if not (token_len == descriptor_token_len)
    then err invalid_data
    else if ltb (length rest) token_len
    then err invalid_data
    else if not (token_len == length rest)
    then err invalid_data
    else ok (record {
      protocol_version = protocol_version;
      probe = probe;
      descriptor_token = take token_len rest;
    })
token_of protocol_version probe _ = err invalid_data

unfoldable pub parse_authenticate_payload : Bytes → Result ErrorKind AuthenticatePayload
unfolding token_of
parse_authenticate_payload (v ∷ w ∷ a ∷ b ∷ c ∷ d ∷ rest) =
    let probe_len = from_be32 a b c d in
    if leb (probe_len + 4) (length rest)
    then token_of (from_be16 v w) (take probe_len rest) (drop probe_len rest)
    else err invalid_data
parse_authenticate_payload _ = err invalid_data

pub data HelloStatus : Type 0 where
  accepted protocol_version_mismatch v8_format_mismatch : HelloStatus

unfoldable pub hello_status_byte : HelloStatus → ℕ
hello_status_byte accepted = 0
hello_status_byte protocol_version_mismatch = 1
hello_status_byte v8_format_mismatch = 2

unfoldable pub encode_hello_payload : HelloStatus → Bytes → Bytes → Bytes
encode_hello_payload status probe message =
    hello_status_byte status ∷ (sized probe ++ sized message)

-- The host refuses a version that is no u16 and a token of another length.
unfoldable pub encode_authenticate_payload : AuthenticatePayload → Result ErrorKind Bytes
encode_authenticate_payload auth =
    if ltb 0xffff auth.protocol_version
    then err other_error
    else if not (length auth.descriptor_token == descriptor_token_len)
    then err other_error
    else ok (be16 auth.protocol_version ++ (sized auth.probe ++ sized auth.descriptor_token))

encoded :
    (auth : AuthenticatePayload) {bs : Bytes}
    → encode_authenticate_payload auth ≡ ok bs
    → (auth.protocol_version < 2 ^ 16)
      × (length auth.descriptor_token ≡ 16)
      × (be16 auth.protocol_version ++ (sized auth.probe ++ sized auth.descriptor_token) ≡ bs)
unfolding encode_authenticate_payload
encoded auth h = ground arith

parses :
    (version : ℕ) (probe token : Bytes)
    → version < 2 ^ 16
    → IsU32 (length probe)
    → length token ≡ 16
    → parse_authenticate_payload (be16 version ++ (sized probe ++ sized token))
      ≡ ok (record { protocol_version = version; probe = probe; descriptor_token = token })
unfolding parse_authenticate_payload token_of
parses version probe token v u t =
    let room : leb (length probe + 4) (length (probe ++ sized token)) ≡ true =
      le→leb _ _ (omega (arith, length-append probe (sized token))) in
    let whole : take 16 token ≡ token = subst (λ n. take n token ≡ token) t (take-length token) in
    let same_version : from_be16 (version / 2 ^ 8 % 256) (version % 256) ≡ version = omega arith in
    rw
      (
        from_be32-be32 (length probe) u,
        room,
        take-append_self probe (sized token),
        drop-append_self probe (sized token),
        t,
        same_version,
      )
      (rw whole refl)

-- The server parses what the host encodes to the same version, probe and token, if the probe's length
-- is a u32.
pub parse-encode_authenticate :
    (auth : AuthenticatePayload) (bs : Bytes)
    → IsU32 (length auth.probe)
    → encode_authenticate_payload auth ≡ ok bs
    → parse_authenticate_payload bs ≡ ok auth
parse-encode_authenticate auth bs u h =
    let known = encoded auth h in
    subst (λ p. parse_authenticate_payload p ≡ ok auth) known.2
      (parses auth.protocol_version auth.probe auth.descriptor_token known.0 u known.1)
