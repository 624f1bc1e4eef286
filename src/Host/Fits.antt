-- ===== src/Host/Fits.antt =====
-- What the host may put into a payload: counts and lengths fit their u32, texts are UTF-8, and shape
-- trees stay within the depth cap.
use iso.Base.{ℕ, zero, suc, true, List, length, All}
use iso.Wire.Bytes.{IsU32}
use iso.Wire.Reader.Reads.{IsText, WhenSome}
use iso.Limits.{
  ResourceLimits, BandPolicy, resolve_heap_lines, default_memory_mb, default_cpu_time_ms,
  default_wall_time_ms, default_max_export_bytes, default_max_stdout_bytes,
  default_max_stderr_bytes, default_max_bridge_call_bytes, default_max_bridge_calls,
  default_grace_ms,
}
use iso.Types.{
  HostGlobalDef, HostModuleNode, HostModuleEntries, function, leaf, object, no_entries, entry,
  ImportModule, ImportBinding, ImportRebind, CallSpec, max_host_module_depth,
}
use iso.Payload.Blocks.{unwrap_or}
use iso.Host.{WireResourceLimits, GlobalDefPayload, entries_length}

pub record LimitsFit (l : WireResourceLimits) : Type 0 where
  pub memory_mb : WhenSome IsU32 l.memory_mb
  pub cpu_time_ms : WhenSome IsU32 l.cpu_time_ms
  pub wall_time_ms : WhenSome IsU32 l.wall_time_ms
  pub max_export_bytes : WhenSome IsU32 l.max_export_bytes
  pub max_stdout_bytes : WhenSome IsU32 l.max_stdout_bytes
  pub max_stderr_bytes : WhenSome IsU32 l.max_stderr_bytes
  pub max_bridge_call_bytes : WhenSome IsU32 l.max_bridge_call_bytes
  pub max_bridge_calls : WhenSome IsU32 l.max_bridge_calls
  pub grace_ms : WhenSome IsU32 l.grace_ms
  pub hard_memory_mb : WhenSome IsU32 l.hard_memory_mb

-- The limits that the runtime resolves from what the host sent.
abbrev pub resolved : BandPolicy → WireResourceLimits → ResourceLimits
resolved band l =
    let lines =
      resolve_heap_lines (unwrap_or l.memory_mb default_memory_mb) l.hard_memory_mb band in
    record {
      soft_memory_mb = lines.0;
      hard_memory_mb = lines.1;
      cpu_time_ms = unwrap_or l.cpu_time_ms default_cpu_time_ms;
      wall_time_ms = unwrap_or l.wall_time_ms default_wall_time_ms;
      max_export_bytes = unwrap_or l.max_export_bytes default_max_export_bytes;
      max_stdout_bytes = unwrap_or l.max_stdout_bytes default_max_stdout_bytes;
      max_stderr_bytes = unwrap_or l.max_stderr_bytes default_max_stderr_bytes;
      max_bridge_call_bytes = unwrap_or l.max_bridge_call_bytes default_max_bridge_call_bytes;
      max_bridge_calls = unwrap_or l.max_bridge_calls default_max_bridge_calls;
      grace_ms = unwrap_or l.grace_ms default_grace_ms;
    }

abbrev pub GlobalFits : GlobalDefPayload → Type 0
GlobalFits (GlobalDefPayload.bridge name e) = IsText name
GlobalFits (GlobalDefPayload.string_expr name expr e) = IsText name × IsText expr
GlobalFits (GlobalDefPayload.data_blob name blob e) = IsText name × IsU32 (length blob)
GlobalFits (GlobalDefPayload.shim name source handler_name e) =
    IsText name × IsText source × IsText handler_name

-- The def that the runtime sees: enumerable unless the host said otherwise.
abbrev pub declared : GlobalDefPayload → HostGlobalDef
declared (GlobalDefPayload.bridge name e) = HostGlobalDef.bridge name (unwrap_or e true)
declared (GlobalDefPayload.string_expr name expr e) =
    HostGlobalDef.string_expr name expr (unwrap_or e true)
declared (GlobalDefPayload.data_blob name blob e) =
    HostGlobalDef.data_blob name blob (unwrap_or e true)
declared (GlobalDefPayload.shim name source handler_name e) =
    HostGlobalDef.shim name source handler_name (unwrap_or e true)

-- `left` levels of nesting are allowed.
unfoldable mutual
  pub NodeFits : ℕ → HostModuleNode → Type 0
  NodeFits zero node = ⊥
  NodeFits (suc left) function = Unit {0}
  NodeFits (suc left) (leaf blob) = IsU32 (length blob)
  NodeFits (suc left) (object entries) = IsU32 (entries_length entries) × EntriesFit left entries

  pub EntriesFit : ℕ → HostModuleEntries → Type 0
  EntriesFit left no_entries = Unit {0}
  EntriesFit left (entry key node rest) = IsText key × NodeFits left node × EntriesFit left rest

abbrev pub ModuleFits : ImportModule → Type 0
ModuleFits (ImportModule.source text) = IsText text
ModuleFits (ImportModule.host exports) =
    IsU32 (entries_length exports) × EntriesFit max_host_module_depth exports

abbrev pub ImportFits : ImportBinding → Type 0
ImportFits i = IsText i.specifier × ModuleFits i.binding

abbrev pub RebindFits : ImportRebind → Type 0
RebindFits r = IsText r.specifier × IsU32 (length r.path) × All IsText r.path

abbrev pub CallFits : CallSpec → Type 0
CallFits c = IsText c.export_path × IsU32 (length c.args_blob)

abbrev pub ListFits {ℓ} : {A : Type ℓ} → (A → Type 0) → List A → Type 0
ListFits P xs = IsU32 (length xs) × All P xs
