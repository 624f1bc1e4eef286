-- ===== src/Types.antt =====
-- crates/types/src/lib.rs: the shapes of a prefix and of the requests. A `String` is the list of its
-- UTF-8 bytes, a `Vec<u8>` the list of its bytes. `HostModuleNode` holds a list of named nodes, so
-- it stands in one block with that list.
use iso.Base.{ℕ, Bool, Option, none, some, List}
use iso.Wire.Bytes.{Bytes}
use iso.Limits.{ResourceLimits}

pub data HostGlobalDef : Type 0 where
  bridge : (name : Bytes) → (enumerable : Bool) → HostGlobalDef
  string_expr : (name expr : Bytes) → (enumerable : Bool) → HostGlobalDef
  data_blob : (name blob : Bytes) → (enumerable : Bool) → HostGlobalDef
  shim : (name source handler_name : Bytes) → (enumerable : Bool) → HostGlobalDef

-- The bridge stub that a def installs, if any.
unfoldable pub bridge_stub_name : HostGlobalDef → Option Bytes
bridge_stub_name (HostGlobalDef.bridge name e) = some name
bridge_stub_name (HostGlobalDef.string_expr name expr e) = none
bridge_stub_name (HostGlobalDef.data_blob name blob e) = none
bridge_stub_name (HostGlobalDef.shim name source handler_name e) = some handler_name

abbrev pub max_host_module_depth : ℕ
max_host_module_depth = 64

mutual
  pub data HostModuleNode : Type 0 where
    function : HostModuleNode
    leaf : Bytes → HostModuleNode
    object : HostModuleEntries → HostModuleNode

  pub data HostModuleEntries : Type 0 where
    no_entries : HostModuleEntries
    entry : (key : Bytes) → HostModuleNode → HostModuleEntries → HostModuleEntries

pub data ImportModule : Type 0 where
  source : Bytes → ImportModule
  host : HostModuleEntries → ImportModule

pub record ImportBinding : Type 0 where
  pub specifier : Bytes
  pub binding : ImportModule

pub record ImportRebind : Type 0 where
  pub specifier : Bytes
  pub path : List Bytes

pub record CallSpec : Type 0 where
  pub export_path : Bytes
  pub args_blob : Bytes

pub record RunRequest : Type 0 where
  pub run_id : ℕ
  pub code : Bytes
  pub filename : Option Bytes
  pub limits : ResourceLimits
  pub globals : List HostGlobalDef
  pub imports : List ImportBinding
  pub call : Option CallSpec

pub record PrefixRunRequest : Type 0 where
  pub run_id : ℕ
  pub prefix_id : Bytes
  pub limits : ResourceLimits
  pub globals : List HostGlobalDef
  pub import_rebinds : List ImportRebind
  pub call : CallSpec

pub data TerminateMode : Type 0 where
  soft hard : TerminateMode
