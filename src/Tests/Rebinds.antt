-- ===== src/Tests/Rebinds.antt =====
-- Rebinds against a small declared shape.
use iso.Base.{◌≡◌, ◌↔◌, refl, true, List, [], ◌∷◌, ok, err, All, Elem}
use iso.Wire.Bytes.{Bytes}
use iso.Types.{
  HostGlobalDef, HostModuleEntries, function, leaf, object, no_entries, entry, ImportModule,
  ImportBinding, ImportRebind,
}
use iso.Prefix.{
  same, validate_global_rebinds, find_host_node, exports_verdict, module_verdict, node_verdict,
  child, step, validate_import_rebinds, frozen_binding, find_from,
}
use iso.Prefix.Rebinds.{
  IsRebindable, IsFrozen, validate_import_rebinds-accepts, validate_import_rebinds-IsFrozen,
}
use iso.Prefix.Globals.{IsDeclaredStub, validate_global_rebinds-accepts}

abbrev a : Bytes
a = 97 ∷ []

abbrev b : Bytes
b = 98 ∷ []

-- { a: { b: function }, b: data }
abbrev exports : HostModuleEntries
exports = entry a (object (entry b function no_entries)) (entry b (leaf []) no_entries)

abbrev shape : List ImportBinding
shape = record { specifier = a; binding = ImportModule.host exports } ∷ []

abbrev good : ImportRebind
good = record { specifier = a; path = a ∷ b ∷ [] }

abbrev bad : ImportRebind
bad = record { specifier = a; path = b ∷ [] }

validate_import_rebinds-accepts_example :
    (validate_import_rebinds (good ∷ bad ∷ []) shape ≡ ok tt)
    ↔ All (IsRebindable shape) (good ∷ bad ∷ [])
validate_import_rebinds-accepts_example = validate_import_rebinds-accepts (good ∷ bad ∷ []) shape

refused : validate_import_rebinds (good ∷ bad ∷ []) shape ≡ err frozen_binding
unfolding validate_import_rebinds module_verdict exports_verdict node_verdict find_host_node
    find_from step child same
refused = refl

validate_import_rebinds-IsFrozen_example :
    (rb : ImportRebind) × Elem rb (good ∷ bad ∷ []) × IsFrozen shape rb
validate_import_rebinds-IsFrozen_example =
    validate_import_rebinds-IsFrozen (good ∷ bad ∷ []) shape refused

abbrev two_defs : List HostGlobalDef
two_defs = HostGlobalDef.bridge a true ∷ HostGlobalDef.data_blob b [] true ∷ []

validate_global_rebinds-accepts_example :
    (validate_global_rebinds two_defs (a ∷ []) two_defs ≡ ok tt)
    ↔ All (IsDeclaredStub (a ∷ [])) two_defs
validate_global_rebinds-accepts_example = validate_global_rebinds-accepts two_defs (a ∷ []) two_defs
