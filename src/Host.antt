-- ===== src/Host.antt =====
-- packages/iso4-sandbox/src/ipc.ts: the host's `PayloadWriter` and its request encoders. A writer
-- appends to the parts that `toBuffer` concatenates, so each write is the bytes that it appends. A
-- value reaches a writer as the blob that `serializeValue` made of it.
pub mod Fits
pub mod Streams
pub mod Blocks
pub mod RoundTrip
use iso.Base.{ℕ, Bool, true, false, Option, none, some, List, [], ◌∷◌, ◌++◌, length}
use iso.Wire.Bytes.{Bytes, be32}
use iso.Wire.Reader.Reads.{optional, sized, listed, bool_byte}
use iso.Types.{
  HostModuleNode, HostModuleEntries, function, leaf, object, no_entries, entry, ImportModule,
  ImportBinding, ImportRebind, CallSpec,
}
use iso.Payload.Blocks.{unwrap_or}

pub record WireResourceLimits : Type 0 where
  pub memory_mb : Option ℕ
  pub cpu_time_ms : Option ℕ
  pub wall_time_ms : Option ℕ
  pub max_export_bytes : Option ℕ
  pub max_stdout_bytes : Option ℕ
  pub max_stderr_bytes : Option ℕ
  pub max_bridge_call_bytes : Option ℕ
  pub max_bridge_calls : Option ℕ
  pub grace_ms : Option ℕ
  pub hard_memory_mb : Option ℕ

-- `{}`: every limit left to the runtime.
abbrev pub no_limits : WireResourceLimits
no_limits = record {
  memory_mb = none;
  cpu_time_ms = none;
  wall_time_ms = none;
  max_export_bytes = none;
  max_stdout_bytes = none;
  max_stderr_bytes = none;
  max_bridge_call_bytes = none;
  max_bridge_calls = none;
  grace_ms = none;
  hard_memory_mb = none;
}

pub data GlobalDefPayload : Type 0 where
  bridge : (name : Bytes) → (enumerable : Option Bool) → GlobalDefPayload
  string_expr : (name expr : Bytes) → (enumerable : Option Bool) → GlobalDefPayload
  data_blob : (name blob : Bytes) → (enumerable : Option Bool) → GlobalDefPayload
  shim : (name source handler_name : Bytes) → (enumerable : Option Bool) → GlobalDefPayload

unfoldable pub write_optional_u32 : Option ℕ → Bytes
write_optional_u32 = optional be32

unfoldable pub write_optional_string : Option Bytes → Bytes
write_optional_string = optional sized

unfoldable pub write_resource_limits : WireResourceLimits → Bytes
write_resource_limits l =
    write_optional_u32 l.memory_mb
    ++ (write_optional_u32 l.cpu_time_ms
        ++ (write_optional_u32 l.wall_time_ms
            ++ (write_optional_u32 l.max_export_bytes
                ++ (write_optional_u32 l.max_stdout_bytes
                    ++ (write_optional_u32 l.max_stderr_bytes
                        ++ (write_optional_u32 l.max_bridge_call_bytes
                            ++ (write_optional_u32 l.max_bridge_calls
                                ++ (write_optional_u32 l.grace_ms
                                    ++ write_optional_u32 l.hard_memory_mb))))))))

-- `(enumerable ?? true) ? 1 : 0`.
abbrev pub write_enumerable : Option Bool → Bytes
write_enumerable e = bool_byte (unwrap_or e true) ∷ []

unfoldable pub write_global_def : GlobalDefPayload → Bytes
write_global_def (bridge name e) = 0 ∷ [] ++ (sized name ++ write_enumerable e)
write_global_def (string_expr name expr e) =
    1 ∷ [] ++ (sized name ++ (write_enumerable e ++ sized expr))
write_global_def (data_blob name blob e) =
    2 ∷ [] ++ (sized name ++ (write_enumerable e ++ sized blob))
write_global_def (shim name source handler_name e) =
    3 ∷ [] ++ (sized name ++ (write_enumerable e ++ (sized source ++ sized handler_name)))

unfoldable pub write_global_defs : List GlobalDefPayload → Bytes
write_global_defs = listed write_global_def

abbrev pub entries_length : HostModuleEntries → ℕ
entries_length no_entries = 0
entries_length (entry key node rest) = ℕ.suc (entries_length rest)

unfoldable mutual
  pub write_host_module_node : HostModuleNode → Bytes
  write_host_module_node function = 0 ∷ []
  write_host_module_node (leaf blob) = 1 ∷ [] ++ sized blob
  write_host_module_node (object entries) =
      2 ∷ [] ++ (be32 (entries_length entries) ++ write_entries entries)

  pub write_entries : HostModuleEntries → Bytes
  write_entries no_entries = []
  write_entries (entry key node rest) =
      sized key ++ (write_host_module_node node ++ write_entries rest)

unfoldable pub write_import_module : ImportModule → Bytes
write_import_module (ImportModule.source text) = 0 ∷ [] ++ sized text
write_import_module (ImportModule.host exports) =
    1 ∷ [] ++ (be32 (entries_length exports) ++ write_entries exports)

unfoldable pub write_import : ImportBinding → Bytes
write_import i = sized i.specifier ++ write_import_module i.binding

unfoldable pub write_imports : List ImportBinding → Bytes
write_imports = listed write_import

unfoldable pub write_import_rebind : ImportRebind → Bytes
write_import_rebind r = sized r.specifier ++ listed sized r.path

unfoldable pub write_import_rebinds : List ImportRebind → Bytes
write_import_rebinds = listed write_import_rebind

unfoldable pub write_call : CallSpec → Bytes
write_call c = sized c.export_path ++ sized c.args_blob

unfoldable pub write_optional_call : Option CallSpec → Bytes
write_optional_call = optional write_call

pub record RunPayloadOptions : Type 0 where
  pub run_id : ℕ
  pub code : Bytes
  pub filename : Option Bytes
  pub limits : Option WireResourceLimits
  pub globals : Option (List GlobalDefPayload)
  pub imports : Option (List ImportBinding)
  pub call : Option CallSpec

unfoldable pub encode_run_payload : RunPayloadOptions → Bytes
encode_run_payload o =
    be32 o.run_id
    ++ (sized o.code
        ++ (write_optional_string o.filename
            ++ (write_resource_limits (unwrap_or o.limits no_limits)
                ++ (write_global_defs (unwrap_or o.globals [])
                    ++ (write_imports (unwrap_or o.imports []) ++ write_optional_call o.call)))))

pub record PrecompilePayloadOptions : Type 0 where
  pub request_id : ℕ
  pub code : Bytes
  pub filename : Option Bytes
  pub limits : Option WireResourceLimits
  pub globals : Option (List GlobalDefPayload)
  pub imports : Option (List ImportBinding)

unfoldable pub encode_precompile_payload : PrecompilePayloadOptions → Bytes
encode_precompile_payload o =
    be32 o.request_id
    ++ (sized o.code
        ++ (write_optional_string o.filename
            ++ (write_resource_limits (unwrap_or o.limits no_limits)
                ++ (write_global_defs (unwrap_or o.globals [])
                    ++ write_imports (unwrap_or o.imports [])))))

pub record PrefixRunPayloadOptions : Type 0 where
  pub run_id : ℕ
  pub prefix_id : Bytes
  pub limits : Option WireResourceLimits
  pub globals : Option (List GlobalDefPayload)
  pub import_rebinds : Option (List ImportRebind)
  pub call : CallSpec

unfoldable pub encode_prefix_run_payload : PrefixRunPayloadOptions → Bytes
encode_prefix_run_payload o =
    be32 o.run_id
    ++ (sized o.prefix_id
        ++ (write_resource_limits (unwrap_or o.limits no_limits)
            ++ (write_global_defs (unwrap_or o.globals [])
                ++ (write_import_rebinds (unwrap_or o.import_rebinds []) ++ write_call o.call))))

unfoldable pub encode_dispose_prefix_payload : Bytes → Bytes
encode_dispose_prefix_payload = sized

-- `hard ? 1 : 0`.
unfoldable pub encode_terminate_payload : ℕ → Bool → Bytes
encode_terminate_payload run_id hard = be32 run_id ++ (bool_byte hard ∷ [])
