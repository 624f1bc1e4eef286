-- ===== src/Payload.antt =====
-- crates/server/src/ipc.rs: the parsers of the payloads that the host sends, over `PayloadReader`.
-- `parse_all` is the frame that they share: a reader on the whole payload, then `assert_done`.
pub mod Blocks
pub mod Streams
pub mod Depth
use iso.Base.{
  ℕ, zero, suc, ◌+◌, ◌*◌, Bool, true, false, Option, none, some, List, Result, ok, err, ErrorKind,
  invalid_data, length, drop, ltb, ◌==◌, not, if◌then◌else◌,
}
use iso.Wire.Bytes.{Bytes, from_be32}
use iso.Wire.Reader.{
  Reader, Allocator, pure, fail, ◌>>=◌, ◌>>◌, read_u8, read_u32, read_bool, read_string,
  read_optional, read_list, parse_all,
}
use iso.Limits.{ResourceLimits, BandPolicy, managed, strict, stream_chunk_max_bytes}
use iso.Types.{
  HostGlobalDef, ImportBinding, RunRequest, PrefixRunRequest, TerminateMode, soft, hard,
}
use Blocks.{
  read_optional_string, read_resource_limits, read_global_defs, read_import_bindings,
  read_import_rebinds, read_call, read_optional_call,
}

pub record PrecompilePayload : Type 0 where
  pub request_id : ℕ
  pub code : Bytes
  pub filename : Option Bytes
  pub globals : List HostGlobalDef
  pub imports : List ImportBinding

-- `(code, filename, limits, globals)`.
pub record CodeFields : Type 0 where
  pub code : Bytes
  pub filename : Option Bytes
  pub limits : ResourceLimits
  pub globals : List HostGlobalDef

module _ ⦃alloc : Allocator⦄ where
  unfoldable pub parse_code_fields : BandPolicy → Reader CodeFields
  parse_code_fields band = do
    code ← read_string
    filename ← read_optional_string
    limits ← read_resource_limits band
    globals ← read_global_defs
    pure (record { code = code; filename = filename; limits = limits; globals = globals })

  unfoldable pub run_fields : Reader RunRequest
  run_fields = do
    run_id ← read_u32
    fields ← parse_code_fields strict
    imports ← read_import_bindings
    call ← read_optional_call
    pure (record {
      run_id = run_id;
      code = fields.code;
      filename = fields.filename;
      limits = fields.limits;
      globals = fields.globals;
      imports = imports;
      call = call;
    })

  unfoldable pub parse_run_payload : Bytes → Result ErrorKind RunRequest
  parse_run_payload = parse_all run_fields

  unfoldable pub precompile_fields : Reader PrecompilePayload
  precompile_fields = do
    request_id ← read_u32
    fields ← parse_code_fields managed
    imports ← read_import_bindings
    pure (record {
      request_id = request_id;
      code = fields.code;
      filename = fields.filename;
      globals = fields.globals;
      imports = imports;
    })

  unfoldable pub parse_precompile_payload : Bytes → Result ErrorKind PrecompilePayload
  parse_precompile_payload = parse_all precompile_fields

  unfoldable pub prefix_run_fields : Reader PrefixRunRequest
  prefix_run_fields = do
    run_id ← read_u32
    prefix_id ← read_string
    limits ← read_resource_limits managed
    globals ← read_global_defs
    import_rebinds ← read_import_rebinds
    call ← read_call
    pure (record {
      run_id = run_id;
      prefix_id = prefix_id;
      limits = limits;
      globals = globals;
      import_rebinds = import_rebinds;
      call = call;
    })

  unfoldable pub parse_prefix_run_payload : Bytes → Result ErrorKind PrefixRunRequest
  parse_prefix_run_payload = parse_all prefix_run_fields

unfoldable pub parse_dispose_prefix_payload : Bytes → Result ErrorKind Bytes
parse_dispose_prefix_payload = parse_all read_string

unfoldable pub terminate_mode_of : ℕ → Reader TerminateMode
terminate_mode_of zero = pure soft
terminate_mode_of (suc zero) = pure hard
terminate_mode_of (suc (suc b)) = fail invalid_data

unfoldable pub terminate_fields : Reader (ℕ × TerminateMode)
terminate_fields = do
  run_id ← read_u32
  byte ← read_u8
  mode ← terminate_mode_of byte
  pure (run_id, mode)

unfoldable pub parse_terminate_payload : Bytes → Result ErrorKind (ℕ × TerminateMode)
parse_terminate_payload = parse_all terminate_fields
