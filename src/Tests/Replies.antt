-- ===== src/Tests/Replies.antt =====
-- Bridge calls and their answers.
use iso.Base.{◌≡◌, refl, false, Option, none, some, [], ◌∷◌, ok, arith}
use iso.Wire.Bytes.{Bytes, is_utf8, utf8_loop, utf8_lead}
use iso.Wire.Reader.Reads.{IsText}
use iso.Reply.Bridge.{
  HostBridgeError, heard, encode_bridge_response_payload, parse_bridge_response_payload,
  parse-encode_bridge_response,
}
use iso.Reply.Args.{JsArgs, primitive, object, array}

-- "db" and "get".
abbrev db : Bytes
db = 100 ∷ 98 ∷ []

abbrev get : Bytes
get = 103 ∷ 101 ∷ 116 ∷ []

db-IsText : IsText db
unfolding is_utf8 utf8_loop utf8_lead
db-IsText = (omega arith, refl)

get-IsText : IsText get
unfolding is_utf8 utf8_loop utf8_lead
get-IsText = (omega arith, refl)

-- A conversion that keeps every byte.
abbrev same_text : Bytes → Bytes
same_text s = s

-- Every blob decodes to an array of a number and an empty array, which are two slots.
abbrev two_args : JsArgs
two_args = record {
  root = object 0;
  objects = some (array (some primitive ∷ some (object 1) ∷ []) []) ∷ some (array [] []) ∷ [];
}

abbrev decoded_to : Bytes → Option JsArgs
decoded_to blob = some two_args

abbrev a_failure : HostBridgeError
a_failure = record { name = db; message = get; encoded_fields = some (1 ∷ []) }

parse-encode_bridge_response_example :
    parse_bridge_response_payload (encode_bridge_response_payload 7 2 false none (some a_failure))
    ≡ ok (7, 2, heard false none (some a_failure))
parse-encode_bridge_response_example =
    parse-encode_bridge_response 7 2 false none (some a_failure) (omega arith) (omega arith)
      (db-IsText, get-IsText, omega arith)
