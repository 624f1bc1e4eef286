-- ===== src/Prefix.antt =====
-- crates/core/src/prefix.rs: the checks of a prefix run's rebinds against the declared shape. A
-- `RunError` is its variant; the text of the message is left out.
pub mod Rebinds
pub mod Globals
use iso.Base.{
  ℕ, zero, suc, ◌+◌, Bool, true, false, Option, none, some, List, [], ◌∷◌, Result, ok, err, bind,
  ltb, ◌==◌, if◌then◌else◌, ◌&&◌, ◌||◌, length,
}
use iso.Wire.Bytes.{Bytes}
use iso.Reply.Types.{RunErrorPayload}
use iso.Types.{
  HostGlobalDef, HostModuleNode, HostModuleEntries, function, leaf, object, no_entries, entry,
  ImportModule, source, host, ImportBinding, ImportRebind,
}

-- The source and the declared shape of one prepared prefix.
pub record PrefixData : Type 0 where
  pub id : ℕ
  pub code : Bytes
  pub filename : Option Bytes
  pub globals : List HostGlobalDef
  pub declared_globals : List Bytes
  pub declared_imports : List ImportBinding

-- A stored prefix: runnable, or broken by a cold start that failed.
pub data PrefixEntry : Type 0 where
  ready : PrefixData → PrefixEntry
  broken : RunErrorPayload → PrefixEntry

pub data RebindError : Type 0 where
  frozen_binding undeclared_binding : RebindError

unfoldable pub same : Bytes → Bytes → Bool
same [] [] = true
same [] (b ∷ bs) = false
same (a ∷ rest) [] = false
same (a ∷ rest) (b ∷ bs) = (a == b) && same rest bs

-- `iter().any(..)` and `iter().find(..)`.
abbrev pub any : {A : Type 0} → (A → Bool) → List A → Bool
any p [] = false
any p (x ∷ xs) = p x || any p xs

abbrev pub find : {A : Type 0} → (A → Bool) → List A → Option A
find p [] = none
find p (x ∷ xs) = if p x then some x else find p xs

-- The name of a def, and whether it is a bridge stub.
unfoldable pub name_of : HostGlobalDef → Bytes × Bool
name_of (HostGlobalDef.bridge name e) = (name, true)
name_of (HostGlobalDef.string_expr name expr e) = (name, false)
name_of (HostGlobalDef.data_blob name blob e) = (name, false)
name_of (HostGlobalDef.shim name code handler_name e) = (name, false)

-- A string or data global of that name, which is frozen with the prefix.
unfoldable pub is_value_global : Bytes → HostGlobalDef → Bool
is_value_global name (HostGlobalDef.bridge n e) = false
is_value_global name (HostGlobalDef.string_expr n expr e) = same n name
is_value_global name (HostGlobalDef.data_blob n blob e) = same n name
is_value_global name (HostGlobalDef.shim n code handler_name e) = false

unfoldable pub validate_global_rebinds :
    List HostGlobalDef → List Bytes → List HostGlobalDef → Result RebindError (Unit {0})
unfolding name_of is_value_global
validate_global_rebinds [] declared_stubs declared = ok tt
validate_global_rebinds (def ∷ globals) declared_stubs declared =
    if (name_of def).1 && any (λ d. same d (name_of def).0) declared_stubs
    then validate_global_rebinds globals declared_stubs declared
    else err (
        if any (is_value_global (name_of def).0) declared
        then frozen_binding
        else undeclared_binding)

-- The node of the first entry with that key.
unfoldable pub child : HostModuleEntries → Bytes → Option HostModuleNode
child no_entries segment = none
child (entry key node rest) segment = if same key segment then some node else child rest segment

-- One more segment, number `i` of a path of `len`: the node found, and the entries that the next
-- segment looks in.
unfoldable pub step :
    ℕ
    → ℕ
    → HostModuleEntries
    → Option HostModuleNode
    → Result ℕ (HostModuleNode × HostModuleEntries)
step i len level none = err (i + 1)
step i len level (some (object children)) = ok (object children, children)
step i len level (some function) = if ltb (i + 1) len then err len else ok (function, level)
step i len level (some (leaf blob)) = if ltb (i + 1) len then err len else ok (leaf blob, level)

-- The loop of `find_host_node` from segment `i` on; an empty path has no node.
unfoldable pub find_from :
    ℕ → ℕ → HostModuleEntries → Option HostModuleNode → List Bytes → Result ℕ HostModuleNode
unfolding step child
find_from i len level none [] = err len
find_from i len level (some last) [] = ok last
find_from i len level last (segment ∷ path) =
    bind (step i len level (child level segment))
      λ (found, next). find_from (suc i) len next (some found) path

unfoldable pub find_host_node : HostModuleEntries → List Bytes → Result ℕ HostModuleNode
unfolding find_from
find_host_node entries path = find_from 0 (length path) entries none path

unfoldable pub node_verdict : Result ℕ HostModuleNode → Result RebindError (Unit {0})
node_verdict (ok function) = ok tt
node_verdict (ok (leaf blob)) = err frozen_binding
node_verdict (ok (object children)) = err undeclared_binding
node_verdict (err depth) = err undeclared_binding

unfoldable pub exports_verdict : ImportModule → List Bytes → Result RebindError (Unit {0})
unfolding find_host_node node_verdict
exports_verdict (source code) path = err frozen_binding
exports_verdict (host exports) path = node_verdict (find_host_node exports path)

unfoldable pub module_verdict : Option ImportBinding → List Bytes → Result RebindError (Unit {0})
unfolding exports_verdict
module_verdict none path = err undeclared_binding
module_verdict (some b) path = exports_verdict b.binding path

unfoldable pub validate_import_rebinds :
    List ImportRebind → List ImportBinding → Result RebindError (Unit {0})
unfolding module_verdict
validate_import_rebinds [] declared = ok tt
validate_import_rebinds (rb ∷ rebinds) declared =
    bind (module_verdict (find (λ b. same b.specifier rb.specifier) declared) rb.path)
      λ _. validate_import_rebinds rebinds declared
