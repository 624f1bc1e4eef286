-- ===== src/Reply/Call.antt =====
-- packages/iso4-sandbox/src/ipc.ts, `decodeBridgeCallPayload` on what the server sends: the header of
-- crates/server/src/wire.rs and the argument bytes. A thrown error is an `err`. `Buffer.toString('utf8')`
-- is a parameter, and so is what V8 and the revival of host types make of the argument bytes.
use iso.Base.{
  ℕ, zero, suc, ◌-◌, ◌≡◌, refl, ap, subst, true, List, [], ◌∷◌, ◌++◌, Result, ok, bind, ErrorKind,
  invalid_data, Option, length, take, All, map,
}
use iso.Wire.Bytes.{Bytes, IsU32, is_utf8}
use iso.Wire.Reader.{
  Reader, pure, fail, ◌>>=◌, ◌>>◌, read_u8, read_u32, read_bytes, read_value_blob, read_n,
}
use iso.Wire.Reader.Reads.{
  Reads, Reads-bind, Reads-last, Reads-pure, Reads-whole, Reads-u32, Reads-bytes, Reads-n, sized,
  listed, concat_map, IsText,
}
use iso.Reply.Types.{BridgeTarget, global, import_leaf}
use iso.Reply.Args.{JsArgs, checked_args}

-- `{ targetKind: 0, exportName }` and `{ targetKind: 1, key }`.
pub data HostTarget : Type 0 where
  export_name : Bytes → HostTarget
  import_key : Bytes → HostTarget

pub record BridgeCallInfo : Type 0 where
  pub run_id : ℕ
  pub call_id : ℕ
  pub target : HostTarget
  pub args : JsArgs

-- What is read before the arguments are decoded.
pub record CallFields : Type 0 where
  pub run_id : ℕ
  pub call_id : ℕ
  pub target : HostTarget
  pub args_blob : Bytes

-- The bytes that a reader moves over.
unfoldable pub consumed : Reader (Unit {0}) → Reader Bytes
consumed skip bs = bind (skip bs) λ (done, rest). ok (take (length bs - length rest) bs, rest)

unfoldable pub skip_sized : Reader (Unit {0})
skip_sized = do len ← read_u32; read_bytes len; pure tt

unfoldable pub skip_key : Reader (Unit {0})
skip_key = do skip_sized; count ← read_u32; read_n count skip_sized; pure tt

unfoldable pub read_import_key : Reader Bytes
read_import_key = consumed skip_key

module _ (to_utf8 : Bytes → Bytes) where
  unfoldable pub host_string : Reader Bytes
  host_string = do len ← read_u32; s ← read_bytes len; pure (to_utf8 s)

  unfoldable pub host_string_list : Reader (List Bytes)
  host_string_list = do count ← read_u32; read_n count host_string

  -- The kind byte and the presence byte must agree.
  unfoldable pub target_of : ℕ → ℕ → Reader HostTarget
  target_of zero (suc zero) = fail invalid_data
  target_of zero _ = do name ← host_string; pure (export_name name)
  target_of (suc zero) (suc zero) = do key ← read_import_key; pure (import_key key)
  target_of _ _ = fail invalid_data

  unfoldable pub call_fields : Reader CallFields
  call_fields = do
    run_id ← read_u32
    call_id ← read_u32
    kind ← read_u8
    present ← read_u8
    target ← target_of kind present
    args_blob ← read_value_blob
    pure (record { run_id = run_id; call_id = call_id; target = target; args_blob = args_blob })

  -- `deserialize` is none where it throws.
  unfoldable pub decode_bridge_call_payload :
      (Bytes → Option JsArgs) → Bytes → Result ErrorKind BridgeCallInfo
  unfolding call_fields checked_args
  decode_bridge_call_payload deserialize buf = bind (call_fields buf) λ (fields, rest).
      bind (checked_args deserialize fields.args_blob) λ args. ok (record {
        run_id = fields.run_id;
        call_id = fields.call_id;
        target = fields.target;
        args = args;
      })

  unfoldable pub decode_import_key : Bytes → Result ErrorKind (Bytes × List Bytes)
  decode_import_key key =
      bind ((do specifier ← host_string; path ← host_string_list; pure (specifier, path)) key)
        λ (parts, rest). ok parts

-- The host's key of a function leaf, `encodeImportKey`.
pub encode_import_key : Bytes → List Bytes → Bytes
encode_import_key specifier path = sized specifier ++ listed sized path

abbrev pub PathFits : Bytes → List Bytes → Type 0
PathFits specifier path = IsText specifier × IsU32 (length path) × All IsText path

abbrev pub TargetFits : BridgeTarget → Type 0
TargetFits (global name) = IsText name
TargetFits (import_leaf specifier path) = PathFits specifier path

-- What the host makes of a target.
pub host_target : BridgeTarget → HostTarget
host_target (global name) = export_name name
host_target (import_leaf specifier path) = import_key (encode_import_key specifier path)

abbrev call_info : ℕ → ℕ → HostTarget → Bytes → CallFields
call_info run_id call_id target args_blob = record {
  run_id = run_id;
  call_id = call_id;
  target = target;
  args_blob = args_blob;
}

abbrev call_of : ℕ → ℕ → HostTarget → JsArgs → BridgeCallInfo
call_of run_id call_id target args = record {
  run_id = run_id;
  call_id = call_id;
  target = target;
  args = args;
}

map_same : (xs : List Bytes) → map (λ x. x) xs ≡ xs
map_same [] = refl
map_same (x ∷ xs) = ap (λ rest. x ∷ rest) (map_same xs)

module _ (to_utf8 : Bytes → Bytes) (keeps : (s : Bytes) → is_utf8 s ≡ true → to_utf8 s ≡ s) where
  Reads-host_string : (s : Bytes) → IsText s → Reads (host_string to_utf8) (sized s) s
  unfolding host_string
  Reads-host_string s t = Reads-bind _ _ (Reads-u32 (length s) t.0) (
      Reads-last _ _ (Reads-bytes s)
        (subst (λ x. Reads (pure (to_utf8 s)) [] x) (keeps s t.1) (Reads-pure (to_utf8 s))))

  Reads-key :
      (specifier : Bytes) (path : List Bytes)
      → PathFits specifier path
      → Reads {A = Bytes × List Bytes}
          (do s ← host_string to_utf8; p ← host_string_list to_utf8; pure (s, p))
          (sized specifier ++ listed sized path)
          (specifier, path)
  unfolding host_string_list
  Reads-key specifier path (s, n, p) =
      let segments = Reads-n (host_string to_utf8) sized (λ x. x) IsText Reads-host_string path p in
      let unchanged =
        subst (Reads (read_n (length path) (host_string to_utf8)) (concat_map sized path))
          (map_same path) segments in
      Reads-bind _ _ (Reads-host_string specifier s)
        (Reads-last _ _ (Reads-bind _ _ (Reads-u32 (length path) n) unchanged) (Reads-pure _))

  -- The key of a specifier and a path that fit leads back to them, for a conversion that keeps UTF-8.
  pub decode-encode_import_key :
      (specifier : Bytes) (path : List Bytes)
      → PathFits specifier path
      → decode_import_key to_utf8 (encode_import_key specifier path) ≡ ok (specifier, path)
  unfolding decode_import_key encode_import_key
  decode-encode_import_key specifier path f = rw (Reads-whole (Reads-key specifier path f)) refl
