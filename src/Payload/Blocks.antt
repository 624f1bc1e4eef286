-- ===== src/Payload/Blocks.antt =====
-- crates/server/src/ipc.rs, `PayloadReader`: the blocks that the request payloads share.
use iso.Base.{ℕ, zero, suc, ◌+◌, ◌-◌, Bool, Option, none, some, List, invalid_data}
use iso.Wire.Bytes.{Bytes}
use iso.Wire.Reader.{
  Reader, Allocator, pure, fail, ◌>>=◌, read_u8, read_u32, read_bool, read_string, read_value_blob,
  read_optional, read_count, read_list,
}
use iso.Limits.{
  ResourceLimits, BandPolicy, resolve_heap_lines, default_memory_mb, default_cpu_time_ms,
  default_wall_time_ms, default_max_export_bytes, default_max_stdout_bytes,
  default_max_stderr_bytes, default_max_bridge_call_bytes, default_max_bridge_calls,
  default_grace_ms,
}
use iso.Types.{
  HostGlobalDef, HostModuleNode, HostModuleEntries, function, leaf, object, no_entries, entry,
  ImportModule, ImportBinding, ImportRebind, CallSpec, max_host_module_depth,
}

abbrev pub unwrap_or {ℓ} : {A : Type ℓ} → Option A → A → A
unwrap_or none d = d
unwrap_or (some a) d = a

unfoldable pub read_optional_u32 : Reader (Option ℕ)
read_optional_u32 = read_optional read_u32

unfoldable pub read_optional_string : Reader (Option Bytes)
read_optional_string = read_optional read_string

-- Ten optional fields in wire order, the hard override last; an absent one takes its default.
unfoldable pub read_resource_limits : BandPolicy → Reader ResourceLimits
read_resource_limits band = do
  cap_mb ← read_optional_u32
  cpu_time_ms ← read_optional_u32
  wall_time_ms ← read_optional_u32
  max_export_bytes ← read_optional_u32
  max_stdout_bytes ← read_optional_u32
  max_stderr_bytes ← read_optional_u32
  max_bridge_call_bytes ← read_optional_u32
  max_bridge_calls ← read_optional_u32
  grace_ms ← read_optional_u32
  hard_override ← read_optional_u32
  let lines = resolve_heap_lines (unwrap_or cap_mb default_memory_mb) hard_override band
  pure (record {
    soft_memory_mb = lines.0;
    hard_memory_mb = lines.1;
    cpu_time_ms = unwrap_or cpu_time_ms default_cpu_time_ms;
    wall_time_ms = unwrap_or wall_time_ms default_wall_time_ms;
    max_export_bytes = unwrap_or max_export_bytes default_max_export_bytes;
    max_stdout_bytes = unwrap_or max_stdout_bytes default_max_stdout_bytes;
    max_stderr_bytes = unwrap_or max_stderr_bytes default_max_stderr_bytes;
    max_bridge_call_bytes = unwrap_or max_bridge_call_bytes default_max_bridge_call_bytes;
    max_bridge_calls = unwrap_or max_bridge_calls default_max_bridge_calls;
    grace_ms = unwrap_or grace_ms default_grace_ms;
  })

-- The kind byte decides which fields follow the name and the enumerable flag.
unfoldable pub global_def_of : ℕ → Bytes → Bool → Reader HostGlobalDef
global_def_of zero name e = pure (HostGlobalDef.bridge name e)
global_def_of (suc zero) name e = do
  expr ← read_string
  pure (HostGlobalDef.string_expr name expr e)
global_def_of (suc (suc zero)) name e = do
  blob ← read_value_blob
  pure (HostGlobalDef.data_blob name blob e)
global_def_of (suc (suc (suc zero))) name e = do
  shim ← read_string
  handler_name ← read_string
  pure (HostGlobalDef.shim name shim handler_name e)
global_def_of (suc (suc (suc (suc k)))) name e = fail invalid_data

unfoldable pub read_global_def : Reader HostGlobalDef
read_global_def = do
  kind ← read_u8
  name ← read_string
  enumerable ← read_bool
  global_def_of kind name enumerable

-- The loop over the entries of a shape object: a key, then a node.
unfoldable pub read_entries : ℕ → Reader HostModuleNode → Reader HostModuleEntries
read_entries zero node = pure no_entries
read_entries (suc n) node = do
  key ← read_string
  child ← node
  rest ← read_entries n node
  pure (entry key child rest)

unfoldable pub read_call : Reader CallSpec
read_call = do
  export_path ← read_string
  args_blob ← read_value_blob
  pure (record { export_path = export_path; args_blob = args_blob })

unfoldable pub read_optional_call : Reader (Option CallSpec)
read_optional_call = read_optional read_call

module _ ⦃alloc : Allocator⦄ where
  unfoldable pub read_global_defs : Reader (List HostGlobalDef)
  read_global_defs = read_list read_global_def

  -- The tag decides; the children of an object are read by `child`.
  unfoldable pub host_module_node_of : Reader HostModuleNode → ℕ → Reader HostModuleNode
  host_module_node_of child zero = pure function
  host_module_node_of child (suc zero) = do blob ← read_value_blob; pure (leaf blob)
  host_module_node_of child (suc (suc zero)) = do
    count ← read_count
    entries ← read_entries count child
    pure (object entries)
  host_module_node_of child (suc (suc (suc k))) = fail invalid_data

  -- `left` levels may still be opened; none left is the refusal past the depth cap.
  unfoldable pub read_host_module_levels : ℕ → Reader HostModuleNode
  read_host_module_levels zero = fail invalid_data
  read_host_module_levels (suc left) = do
    tag ← read_u8
    host_module_node_of (read_host_module_levels left) tag

  -- `depth` is the node's path length from the top-level export: refused when it is past the cap.
  unfoldable pub read_host_module_node : ℕ → Reader HostModuleNode
  read_host_module_node depth = read_host_module_levels (max_host_module_depth + 1 - depth)

  unfoldable pub import_module_of : ℕ → Reader ImportModule
  import_module_of zero = do text ← read_string; pure (ImportModule.source text)
  import_module_of (suc zero) = do
    count ← read_count
    exports ← read_entries count (read_host_module_node 1)
    pure (ImportModule.host exports)
  import_module_of (suc (suc k)) = fail invalid_data

  unfoldable pub read_import_binding : Reader ImportBinding
  read_import_binding = do
    specifier ← read_string
    kind ← read_u8
    binding ← import_module_of kind
    pure (record { specifier = specifier; binding = binding })

  unfoldable pub read_import_bindings : Reader (List ImportBinding)
  read_import_bindings = read_list read_import_binding

  unfoldable pub read_import_rebind : Reader ImportRebind
  read_import_rebind = do
    specifier ← read_string
    path ← read_list read_string
    pure (record { specifier = specifier; path = path })

  unfoldable pub read_import_rebinds : Reader (List ImportRebind)
  read_import_rebinds = read_list read_import_rebind
