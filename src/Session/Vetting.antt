-- ===== src/Session/Vetting.antt =====
-- Whom the handshake lets in.
use iso.Base.{
  ℕ, ◌≡◌, refl, ap, ◌∙◌, true, some, List, [], ◌∷◌, ◌++◌, Result, ok, err, bind, ErrorKind, arith,
  length, map,
}
use iso.Wire.Bytes.{Bytes, IsU32}
use iso.Frame.Stream.{Event}
use iso.Frame.Read.{delivered, IsClean}
use iso.Frame.RoundTrip.{read_frame-written}
use iso.Frame.{
  auth_max_frame_length, Frame, TsToRustMessageType, TypedFrame, typed,
  parse_ts_to_rust_message_type, write_frame_with_limit, read_ts_to_rust_frame_with_limit,
}
use iso.Handshake.{
  AuthenticatePayload, parse_authenticate_payload, accepted, encode_hello_payload,
  encode_authenticate_payload, parse-encode_authenticate,
}
use iso.Session.Greeting.{
  protocol_version, Runtime, Socket, handshake_read, probe_format_version, is_readable, Greeting,
  send_hello, check_auth, check_payload, check_frame, greet,
}

-- A peer that speaks this version and a format that V8 reads, and has been told so.
pub record IsVetted (runtime : Runtime) (auth : AuthenticatePayload) (g : Greeting) : Type 0 where
  pub version : auth.protocol_version ≡ protocol_version
  pub readable : is_readable runtime.read_version (probe_format_version auth.probe) ≡ true
  pub told : g.hellos ≡ encode_hello_payload accepted runtime.probe [] ∷ []

check_auth-IsVetted :
    (runtime : Runtime) (socket : Socket) (a auth : AuthenticatePayload)
    → (check_auth runtime socket a).session ≡ some auth
    → IsVetted runtime auth (check_auth runtime socket a)
unfolding check_auth send_hello
check_auth-IsVetted runtime socket a auth h = ground arith

check_payload-IsVetted :
    (runtime : Runtime) (socket : Socket) (r : Result ErrorKind AuthenticatePayload)
    (auth : AuthenticatePayload)
    → (check_payload runtime socket r).session ≡ some auth
    → IsVetted runtime auth (check_payload runtime socket r)
unfolding check_payload
check_payload-IsVetted runtime socket (err e) auth h = cc
check_payload-IsVetted runtime socket (ok a) auth h = check_auth-IsVetted runtime socket a auth h

check_frame-IsVetted :
    (runtime : Runtime) (socket : Socket) (r : Result ErrorKind TypedFrame)
    (auth : AuthenticatePayload)
    → (check_frame runtime socket r).session ≡ some auth
    → IsVetted runtime auth (check_frame runtime socket r)
unfolding check_frame
check_frame-IsVetted runtime socket (err e) auth h = cc
check_frame-IsVetted runtime socket (ok frame) auth h =
    ground
      (arith, check_payload-IsVetted runtime socket (parse_authenticate_payload frame.payload) auth)

-- Whatever a peer sends, and whenever: if the loop starts, the peer speaks this protocol version and a
-- serialization format that V8 reads, and has been written one accepting `Hello` and nothing else.
pub greet-IsVetted :
    (runtime : Runtime) (socket : Socket) (deadline : ℕ) (reads : List (ℕ × Event))
    (auth : AuthenticatePayload)
    → (greet runtime socket deadline reads).session ≡ some auth
    → IsVetted runtime auth (greet runtime socket deadline reads)
unfolding greet
greet-IsVetted runtime socket deadline reads auth h = check_frame-IsVetted runtime socket _ auth h

-- A socket on which all goes well.
pub record Works (socket : Socket) : Type 0 where
  pub clears : socket.clears_deadline ≡ true
  pub takes : socket.takes_hello ≡ true
  pub starts : socket.starts_writer ≡ true

check_auth-welcomes :
    (runtime : Runtime) (socket : Socket) (auth : AuthenticatePayload)
    → Works socket
    → auth.protocol_version ≡ protocol_version
    → is_readable runtime.read_version (probe_format_version auth.probe) ≡ true
    → check_auth runtime socket auth
      ≡ record { hellos = encode_hello_payload accepted runtime.probe [] ∷ []; session = some auth }
unfolding check_auth send_hello
check_auth-welcomes runtime socket auth w v r = rw (v, r, w.takes, w.starts) refl

read-authenticate :
    (payload bs rest : Bytes) (es : List Event)
    → write_frame_with_limit 1 payload auth_max_frame_length ≡ ok bs
    → IsClean es
    → delivered es ≡ bs ++ rest
    → (read_ts_to_rust_frame_with_limit es auth_max_frame_length).0
      ≡ ok (record { message_type = TsToRustMessageType.authenticate; payload = payload })
unfolding read_ts_to_rust_frame_with_limit typed parse_ts_to_rust_message_type
read-authenticate payload bs rest es w c d =
    let f = read_frame-written 1 payload auth_max_frame_length bs rest es w c d in
    ap (λ (r : Result ErrorKind Frame × List Event). bind r.0 typed) f.runs

authenticated :
    (runtime : Runtime) (socket : Socket) (payload : Bytes)
    → socket.clears_deadline ≡ true
    → check_frame runtime socket
        (ok (record { message_type = TsToRustMessageType.authenticate; payload = payload }))
      ≡ check_payload runtime socket (parse_authenticate_payload payload)
unfolding check_frame
authenticated runtime socket payload h = rw h refl

-- A host of this version, with a probe that V8 reads and whose length is a u32, is let in with its
-- credentials and one accepting `Hello`, if its `Authenticate` is within the handshake's ceiling and
-- arrives before the deadline, however the reads cut it, and the socket works.
pub greet-welcomes :
    (runtime : Runtime) (socket : Socket) (deadline : ℕ) (reads : List (ℕ × Event))
    (auth : AuthenticatePayload) (payload bs rest : Bytes)
    → Works socket
    → auth.protocol_version ≡ protocol_version
    → is_readable runtime.read_version (probe_format_version auth.probe) ≡ true
    → IsU32 (length auth.probe)
    → encode_authenticate_payload auth ≡ ok payload
    → write_frame_with_limit 1 payload auth_max_frame_length ≡ ok bs
    → IsClean (map (handshake_read deadline) reads)
    → delivered (map (handshake_read deadline) reads) ≡ bs ++ rest
    → greet runtime socket deadline reads
      ≡ record { hellos = encode_hello_payload accepted runtime.probe [] ∷ []; session = some auth }
unfolding greet check_frame check_payload
greet-welcomes runtime socket deadline reads auth payload bs rest w v r u e f c d =
    ap (check_frame runtime socket)
      (read-authenticate payload bs rest (map (handshake_read deadline) reads) f c d)
    ∙ authenticated runtime socket payload w.clears
    ∙ ap (check_payload runtime socket) (parse-encode_authenticate auth payload u e)
    ∙ check_auth-welcomes runtime socket auth w v r
