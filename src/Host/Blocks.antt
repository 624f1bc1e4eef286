-- ===== src/Host/Blocks.antt =====
-- The runtime reads back what the host wrote: the blocks that the payloads share.
use mathlib.Core.List.{map-id}
use iso.Base.{ℕ, zero, suc, ◌≤◌, Option, List, ◌++◌, map, length, length-append, subst, arith}
use iso.Wire.Bytes.{Bytes, IsU32, be32}
use iso.Wire.Reader.{Reader, Allocator, pure, ◌>>=◌, read_u32, read_string, read_count, read_list}
use iso.Wire.Reader.Reads.{
  Reads, Reads-bind, Reads-last, Reads-pure, Reads-u8, Reads-u32, Reads-bool, Reads-string,
  Reads-value_blob, Reads-optional, Reads-list, read_count-run, IsText, WhenSome, IsServing, sized,
  listed,
}
use iso.Limits.{BandPolicy}
use iso.Types.{
  HostModuleNode, HostModuleEntries, function, leaf, object, no_entries, entry, ImportModule,
  ImportBinding, ImportRebind, CallSpec, max_host_module_depth,
}
use iso.Payload.Blocks.{
  read_optional_u32, read_optional_string, read_resource_limits, global_def_of, read_global_def,
  read_global_defs, read_entries, host_module_node_of, read_host_module_levels,
  read_host_module_node, import_module_of, read_import_binding, read_import_bindings,
  read_import_rebind, read_import_rebinds, read_call, read_optional_call,
}
use iso.Host.{
  WireResourceLimits, GlobalDefPayload, write_optional_u32, write_optional_string,
  write_resource_limits, write_global_def, write_global_defs, entries_length,
  write_host_module_node, write_entries, write_import_module, write_import, write_imports,
  write_import_rebind, write_import_rebinds, write_call, write_optional_call,
}
use iso.Host.Fits.{
  LimitsFit, resolved, GlobalFits, declared, NodeFits, EntriesFit, ModuleFits, ImportFits,
  RebindFits, CallFits, ListFits,
}

Reads-optional_u32 :
    (o : Option ℕ) → WhenSome IsU32 o → Reads read_optional_u32 (write_optional_u32 o) o
unfolding read_optional_u32 write_optional_u32
Reads-optional_u32 = Reads-optional read_u32 be32 IsU32 Reads-u32

pub Reads-optional_string :
    (o : Option Bytes) → WhenSome IsText o → Reads read_optional_string (write_optional_string o) o
unfolding read_optional_string write_optional_string
Reads-optional_string = Reads-optional read_string sized IsText Reads-string

pub Reads-resource_limits :
    (band : BandPolicy) (l : WireResourceLimits)
    → LimitsFit l
    → Reads (read_resource_limits band) (write_resource_limits l) (resolved band l)
unfolding read_resource_limits write_resource_limits
Reads-resource_limits band l f = Reads-bind _ _ (Reads-optional_u32 _ f.memory_mb) (
    Reads-bind _ _ (Reads-optional_u32 _ f.cpu_time_ms) (
      Reads-bind _ _ (Reads-optional_u32 _ f.wall_time_ms) (
        Reads-bind _ _ (Reads-optional_u32 _ f.max_export_bytes) (
          Reads-bind _ _ (Reads-optional_u32 _ f.max_stdout_bytes) (
            Reads-bind _ _ (Reads-optional_u32 _ f.max_stderr_bytes) (
              Reads-bind _ _ (Reads-optional_u32 _ f.max_bridge_call_bytes) (
                Reads-bind _ _ (Reads-optional_u32 _ f.max_bridge_calls) (
                  Reads-bind _ _ (Reads-optional_u32 _ f.grace_ms)
                    (Reads-last _ _ (Reads-optional_u32 _ f.hard_memory_mb) (Reads-pure _))))))))))

-- The fields after the enumerable flag, for each kind.
Reads-global_def :
    (d : GlobalDefPayload) → GlobalFits d → Reads read_global_def (write_global_def d) (declared d)
unfolding read_global_def write_global_def global_def_of
Reads-global_def (GlobalDefPayload.bridge name e) f =
    Reads-bind _ _ (Reads-u8 _)
      (Reads-bind _ _ (Reads-string _ f) (Reads-last _ _ (Reads-bool _) (Reads-pure _)))
Reads-global_def (GlobalDefPayload.string_expr name expr e) f = Reads-bind _ _ (Reads-u8 _) (
    Reads-bind _ _ (Reads-string _ f.0)
      (Reads-bind _ _ (Reads-bool _) (Reads-last _ _ (Reads-string _ f.1) (Reads-pure _))))
Reads-global_def (GlobalDefPayload.data_blob name blob e) f = Reads-bind _ _ (Reads-u8 _) (
    Reads-bind _ _ (Reads-string _ f.0)
      (Reads-bind _ _ (Reads-bool _) (Reads-last _ _ (Reads-value_blob _ f.1) (Reads-pure _))))
Reads-global_def (GlobalDefPayload.shim name source handler_name e) f =
    Reads-bind _ _ (Reads-u8 _) (
      Reads-bind _ _ (Reads-string _ f.0) (
        Reads-bind _ _ (Reads-bool _) (
          Reads-bind _ _ (Reads-string _ f.1)
            (Reads-last _ _ (Reads-string _ f.2) (Reads-pure _)))))

pub Reads-call : (c : CallSpec) → CallFits c → Reads read_call (write_call c) c
unfolding read_call write_call
Reads-call c f =
    Reads-bind _ _ (Reads-string _ f.0) (Reads-last _ _ (Reads-value_blob _ f.1) (Reads-pure _))

pub Reads-optional_call :
    (o : Option CallSpec) → WhenSome CallFits o → Reads read_optional_call (write_optional_call o) o
unfolding read_optional_call write_optional_call
Reads-optional_call = Reads-optional read_call write_call CallFits Reads-call

-- A key and a node take a byte each at least, so a count of entries is backed by their bytes.
length-write_entries-le : (es : HostModuleEntries) → entries_length es ≤ length (write_entries es)
unfolding write_entries
length-write_entries-le no_entries = omega arith
length-write_entries-le (entry key node rest) = omega (
  arith,
  length-append (sized key) (write_host_module_node node ++ write_entries rest),
  length-append (write_host_module_node node) (write_entries rest),
  length-write_entries-le rest,
)

module _ ⦃alloc : Allocator⦄ (serves : IsServing) where
  -- An entry count, then as many entries as a node reader accepts.
  Reads-counted :
      {B : Type 0} (es : HostModuleEntries) (node : Reader HostModuleNode)
      → IsU32 (entries_length es)
      → Reads (read_entries (entries_length es) node) (write_entries es) es
      → (f : HostModuleEntries → B)
      → Reads
          (do count ← read_count; entries ← read_entries count node; pure (f entries))
          (be32 (entries_length es) ++ write_entries es)
          (f es)
  unfolding ◌>>=◌ pure
  Reads-counted es node u h f = record {
    run = λ rest.
        let backed = length-append (write_entries es) rest in
        let below = length-write_entries-le es in
        rw (
          read_count-run (entries_length es) (write_entries es ++ rest) serves u (omega arith),
          h.run rest,
        );
  }

  mutual
    unfolding read_host_module_levels host_module_node_of read_entries write_host_module_node
        NodeFits

    Reads-levels :
        (left : ℕ) (node : HostModuleNode)
        → NodeFits left node
        → Reads (read_host_module_levels left) (write_host_module_node node) node
    Reads-levels zero node f = absurd f
    Reads-levels (suc left) function f = Reads-last _ _ (Reads-u8 _) (Reads-pure _)
    Reads-levels (suc left) (leaf blob) f =
        Reads-bind _ _ (Reads-u8 _) (Reads-last _ _ (Reads-value_blob _ f) (Reads-pure _))
    Reads-levels (suc left) (object es) f =
        Reads-bind _ _ (Reads-u8 _)
          (Reads-counted es (read_host_module_levels left) f.0 (Reads-entries left es f.1) object)

    Reads-entries :
        (left : ℕ) (es : HostModuleEntries)
        → EntriesFit left es
        → Reads
            (read_entries (entries_length es) (read_host_module_levels left))
            (write_entries es)
            es
    Reads-entries left no_entries f = Reads-pure _
    Reads-entries left (entry key node rest) f = Reads-bind _ _ (Reads-string _ f.0) (
        Reads-bind _ _ (Reads-levels left node f.1)
          (Reads-last _ _ (Reads-entries left rest f.2) (Reads-pure _)))

  Reads-binding :
      (specifier : Bytes) (m : ImportModule)
      → IsText specifier
      → ModuleFits m
      → Reads read_import_binding
          (sized specifier ++ write_import_module m)
          (record { specifier = specifier; binding = m })
  unfolding read_import_binding import_module_of write_import_module read_host_module_node
  Reads-binding specifier (ImportModule.source text) t f = Reads-bind _ _ (Reads-string _ t) (
      Reads-bind _ _ (Reads-u8 0)
        (Reads-last _ _ (Reads-last _ _ (Reads-string _ f) (Reads-pure _)) (Reads-pure _)))
  Reads-binding specifier (ImportModule.host es) t f = Reads-bind _ _ (Reads-string _ t) (
      Reads-bind _ _ (Reads-u8 1) (
        Reads-last _ _
          (Reads-counted es (read_host_module_levels max_host_module_depth) f.0
            (Reads-entries max_host_module_depth es f.1) ImportModule.host)
          (Reads-pure _)))

  Reads-import : (i : ImportBinding) → ImportFits i → Reads read_import_binding (write_import i) i
  unfolding write_import
  Reads-import i f = Reads-binding i.specifier i.binding f.0 f.1

  sized-pos : (s : Bytes) → 1 ≤ length (sized s)
  sized-pos s = omega arith

  write_import-pos : (i : ImportBinding) → ImportFits i → 1 ≤ length (write_import i)
  unfolding write_import
  write_import-pos i f = omega arith

  pub Reads-imports :
      (is : List ImportBinding)
      → ListFits ImportFits is
      → Reads read_import_bindings (write_imports is) is
  unfolding read_import_bindings write_imports
  Reads-imports is f =
      subst (λ r. Reads read_import_bindings (write_imports is) r) (map-id is)
        (Reads-list read_import_binding write_import (λ i. i) ImportFits Reads-import
          write_import-pos serves is f.1 f.0)

  Reads-path :
      (path : List Bytes)
      → ListFits IsText path
      → Reads (read_list read_string) (listed sized path) path
  Reads-path path f =
      subst (λ r. Reads (read_list read_string) (listed sized path) r) (map-id path)
        (Reads-list read_string sized (λ s. s) IsText Reads-string (λ s t. sized-pos s) serves path
          f.1 f.0)

  Reads-rebind :
      (r : ImportRebind) → RebindFits r → Reads read_import_rebind (write_import_rebind r) r
  unfolding read_import_rebind write_import_rebind
  Reads-rebind r f =
      Reads-bind _ _ (Reads-string _ f.0)
        (Reads-last _ _ (Reads-path r.path (f.1, f.2)) (Reads-pure _))

  write_rebind-pos : (r : ImportRebind) → RebindFits r → 1 ≤ length (write_import_rebind r)
  unfolding write_import_rebind
  write_rebind-pos r f = omega arith

  pub Reads-rebinds :
      (rs : List ImportRebind)
      → ListFits RebindFits rs
      → Reads read_import_rebinds (write_import_rebinds rs) rs
  unfolding read_import_rebinds write_import_rebinds
  Reads-rebinds rs f =
      subst (λ r. Reads read_import_rebinds (write_import_rebinds rs) r) (map-id rs)
        (Reads-list read_import_rebind write_import_rebind (λ r. r) RebindFits Reads-rebind
          write_rebind-pos serves rs f.1 f.0)

  write_global_def-pos : (d : GlobalDefPayload) → GlobalFits d → 1 ≤ length (write_global_def d)
  unfolding write_global_def
  write_global_def-pos (GlobalDefPayload.bridge name e) f = omega arith
  write_global_def-pos (GlobalDefPayload.string_expr name expr e) f = omega arith
  write_global_def-pos (GlobalDefPayload.data_blob name blob e) f = omega arith
  write_global_def-pos (GlobalDefPayload.shim name source handler_name e) f = omega arith

  pub Reads-global_defs :
      (ds : List GlobalDefPayload)
      → ListFits GlobalFits ds
      → Reads read_global_defs (write_global_defs ds) (map declared ds)
  unfolding read_global_defs write_global_defs
  Reads-global_defs ds f =
      Reads-list read_global_def write_global_def declared GlobalFits Reads-global_def
        write_global_def-pos serves ds f.1 f.0
