-- ===== src/Prefix/Rebinds.antt =====
-- What the rebind checks accept and which binding they refuse.
use iso.Base.{
  ℕ, suc, ◌+◌, ◌<◌, ◌≡◌, refl, sym, subst, ◌↔◌, ◌⊎◌, inl, inr, Option, none, some, List, [], ◌∷◌,
  Result, ok, err, bind-eq-ok, bind-eq-err, All, Elem, length, arith,
}
use iso.Wire.Bytes.{Bytes}
use iso.Types.{
  HostModuleNode, HostModuleEntries, function, leaf, object, source, host, ImportModule,
  ImportBinding, ImportRebind,
}
use iso.Prefix.{
  RebindError, frozen_binding, same, find, child, step, find_from, find_host_node, node_verdict,
  exports_verdict, module_verdict, validate_import_rebinds,
}

-- The path leads from the entries to the node: each segment but the last names an object.
abbrev pub Leads : HostModuleEntries → List Bytes → HostModuleNode → Type 0
Leads e [] n = ⊥
Leads e (s ∷ []) n = child e s ≡ some n
Leads e (s ∷ t ∷ path) n =
    (c : HostModuleEntries) × (child e s ≡ some (object c)) × Leads c (t ∷ path) n

step-last :
    (i : ℕ) (e : HostModuleEntries) (found : Option HostModuleNode) (m : HostModuleNode)
    (next : HostModuleEntries)
    → step i (i + 1) e found ≡ ok (m, next)
    → found ≡ some m
unfolding step
step-last i e none m next h = cc
step-last i e (some (object c)) m next h = cc
step-last i e (some function) m next h = ground arith
step-last i e (some (leaf blob)) m next h = ground arith

step-inner :
    (i len : ℕ) (e : HostModuleEntries) (found : Option HostModuleNode) (m : HostModuleNode)
    (next : HostModuleEntries)
    → i + 1 < len
    → step i len e found ≡ ok (m, next)
    → found ≡ some (object next)
unfolding step
step-inner i len e none m next k h = cc
step-inner i len e (some (object c)) m next k h = cc
step-inner i len e (some function) m next k h = ground arith
step-inner i len e (some (leaf blob)) m next k h = ground arith

step-found :
    (i : ℕ) (e : HostModuleEntries) (m : HostModuleNode)
    → (next : HostModuleEntries) × (step i (i + 1) e (some m) ≡ ok (m, next))
unfolding step
step-found i e (object c) = (c, refl)
step-found i e function = (e, ground arith)
step-found i e (leaf blob) = (e, ground arith)

find_from_sound :
    (i len : ℕ) (e : HostModuleEntries) (last : Option HostModuleNode) (s : Bytes)
    (path : List Bytes) (n : HostModuleNode)
    → i + length (s ∷ path) ≡ len
    → find_from i len e last (s ∷ path) ≡ ok n
    → Leads e (s ∷ path) n
unfolding find_from
find_from_sound i len e last s [] n q h =
    let one : len ≡ i + 1 = sym q in
    let k =
      bind-eq-ok (step i len e (child e s)) (λ (m, next). find_from (suc i) len next (some m) [])
        h in
    let at = step-last i e (child e s) _ _ (subst (λ l. step i l e (child e s) ≡ ok k.0) one k.1) in
    cc
find_from_sound i len e last s (t ∷ path) n q h =
    let k =
      bind-eq-ok (step i len e (child e s))
        (λ (m, next). find_from (suc i) len next (some m) (t ∷ path)) h in
    (
      k.0.1,
      step-inner i len e (child e s) k.0.0 k.0.1 (omega arith) k.1,
      find_from_sound (suc i) len k.0.1 (some k.0.0) t path n (omega arith) k.2,
    )

find_from_complete :
    (i len : ℕ) (e : HostModuleEntries) (last : Option HostModuleNode) (s : Bytes)
    (path : List Bytes) (n : HostModuleNode)
    → i + length (s ∷ path) ≡ len
    → Leads e (s ∷ path) n
    → find_from i len e last (s ∷ path) ≡ ok n
unfolding find_from
find_from_complete i len e last s [] n q h =
    let one : len ≡ i + 1 = sym q in
    let k = step-found i e n in
    let at = subst (λ l. step i l e (some n) ≡ ok (n, k.0)) (sym one) k.1 in rw (h, at) refl
find_from_complete i len e last s (t ∷ path) n q (c, h, rest) =
    rw (h) (
      unfold step in find_from_complete (suc i) len c (some (object c)) t path n (omega arith) rest)

-- The search finds a node exactly when the path leads to it.
pub find_host_node-Leads :
    (e : HostModuleEntries) (path : List Bytes) (n : HostModuleNode)
    → (find_host_node e path ≡ ok n) ↔ Leads e path n
unfolding find_host_node
find_host_node-Leads e [] n = unfold find_from in ((λ h. cc), (λ v. absurd v))
find_host_node-Leads e (s ∷ path) n = (
  find_from_sound 0 (length (s ∷ path)) e none s path n (omega arith),
  find_from_complete 0 (length (s ∷ path)) e none s path n (omega arith),
)

-- The first import declared under the rebind's specifier.
abbrev declared_import : List ImportBinding → ImportRebind → Option ImportBinding
declared_import declared rb = find (λ b. same b.specifier rb.specifier) declared

-- The path of the rebind leads to a function of a declared host module.
abbrev pub IsRebindable : List ImportBinding → ImportRebind → Type 0
IsRebindable declared rb =
    (b : ImportBinding) × (e : HostModuleEntries) × (declared_import declared rb ≡ some b)
    × (b.binding ≡ host e)
    × Leads e rb.path function

-- The import is declared, but as a source module, or its path leads to a data leaf.
abbrev pub IsFrozen : List ImportBinding → ImportRebind → Type 0
IsFrozen declared rb =
    (b : ImportBinding) × (declared_import declared rb ≡ some b)
    × (((code : Bytes) × (b.binding ≡ source code))
        ⊎ ((e : HostModuleEntries) × (blob : Bytes) × (b.binding ≡ host e)
            × Leads e rb.path (leaf blob)))

node_verdict-ok : (r : Result ℕ HostModuleNode) → node_verdict r ≡ ok tt → r ≡ ok function
unfolding node_verdict
node_verdict-ok (ok function) h = refl
node_verdict-ok (ok (leaf blob)) h = cc
node_verdict-ok (ok (object c)) h = cc
node_verdict-ok (err depth) h = cc

node_verdict-frozen :
    (r : Result ℕ HostModuleNode)
    → node_verdict r ≡ err frozen_binding
    → (blob : Bytes) × (r ≡ ok (leaf blob))
unfolding node_verdict
node_verdict-frozen (ok function) h = cc
node_verdict-frozen (ok (leaf blob)) h = (blob, refl)
node_verdict-frozen (ok (object c)) h = cc
node_verdict-frozen (err depth) h = cc

exports_verdict-ok :
    (m : ImportModule) (path : List Bytes)
    → exports_verdict m path ≡ ok tt
    → (e : HostModuleEntries) × (m ≡ host e) × Leads e path function
unfolding exports_verdict
exports_verdict-ok (source code) path h = cc
exports_verdict-ok (host e) path h =
    (e, refl, (find_host_node-Leads e path function).0 (node_verdict-ok _ h))

exports_verdict-frozen :
    (m : ImportModule) (path : List Bytes)
    → exports_verdict m path ≡ err frozen_binding
    → ((code : Bytes) × (m ≡ source code))
      ⊎ ((e : HostModuleEntries) × (blob : Bytes) × (m ≡ host e) × Leads e path (leaf blob))
unfolding exports_verdict
exports_verdict-frozen (source code) path h = inl (code, refl)
exports_verdict-frozen (host e) path h =
    let k = node_verdict-frozen _ h in
    inr (e, k.0, refl, (find_host_node-Leads e path (leaf k.0)).0 k.1)

module_verdict-ok :
    (o : Option ImportBinding) (path : List Bytes)
    → module_verdict o path ≡ ok tt
    → (b : ImportBinding) × (e : HostModuleEntries) × (o ≡ some b)
      × (b.binding ≡ host e)
      × Leads e path function
unfolding module_verdict
module_verdict-ok none path h = cc
module_verdict-ok (some b) path h =
    let k = exports_verdict-ok b.binding path h in (b, k.0, refl, k.1, k.2)

module_verdict-frozen :
    (o : Option ImportBinding) (path : List Bytes)
    → module_verdict o path ≡ err frozen_binding
    → (b : ImportBinding) × (o ≡ some b)
      × (((code : Bytes) × (b.binding ≡ source code))
          ⊎ ((e : HostModuleEntries) × (blob : Bytes) × (b.binding ≡ host e)
              × Leads e path (leaf blob)))
unfolding module_verdict
module_verdict-frozen none path h = cc
module_verdict-frozen (some b) path h = (b, refl, exports_verdict-frozen b.binding path h)

module_verdict-accepts :
    (o : Option ImportBinding) (path : List Bytes) (b : ImportBinding) (e : HostModuleEntries)
    → o ≡ some b
    → b.binding ≡ host e
    → Leads e path function
    → module_verdict o path ≡ ok tt
unfolding module_verdict exports_verdict node_verdict
module_verdict-accepts o path b e q h k =
    let at = (find_host_node-Leads e path function).1 k in rw (q, h, at) refl

imports_sound :
    (rebinds : List ImportRebind) (declared : List ImportBinding)
    → validate_import_rebinds rebinds declared ≡ ok tt
    → All (IsRebindable declared) rebinds
unfolding validate_import_rebinds
imports_sound [] declared h = tt
imports_sound (rb ∷ rebinds) declared h =
    let k =
      bind-eq-ok (module_verdict (declared_import declared rb) rb.path)
        (λ _. validate_import_rebinds rebinds declared) h in
    (module_verdict-ok _ rb.path k.1, imports_sound rebinds declared k.2)

imports_complete :
    (rebinds : List ImportRebind) (declared : List ImportBinding)
    → All (IsRebindable declared) rebinds
    → validate_import_rebinds rebinds declared ≡ ok tt
unfolding validate_import_rebinds
imports_complete [] declared a = refl
imports_complete (rb ∷ rebinds) declared ((b, e, q, h, k), a) =
    rw (module_verdict-accepts (declared_import declared rb) rb.path b e q h k)
      (imports_complete rebinds declared a)

-- The import rebinds are accepted exactly when each addresses a function leaf of a host module that
-- was declared.
pub validate_import_rebinds-accepts :
    (rebinds : List ImportRebind) (declared : List ImportBinding)
    → (validate_import_rebinds rebinds declared ≡ ok tt) ↔ All (IsRebindable declared) rebinds
validate_import_rebinds-accepts rebinds declared =
    (imports_sound rebinds declared, imports_complete rebinds declared)

-- A refusal as frozen names a rebind whose import is declared as a source module, or leads to a data
-- leaf.
pub validate_import_rebinds-IsFrozen :
    (rebinds : List ImportRebind) (declared : List ImportBinding)
    → validate_import_rebinds rebinds declared ≡ err frozen_binding
    → (rb : ImportRebind) × Elem rb rebinds × IsFrozen declared rb
unfolding validate_import_rebinds
validate_import_rebinds-IsFrozen [] declared h = cc
validate_import_rebinds-IsFrozen (rb ∷ rebinds) declared h =
    let next : Unit {0} → Result RebindError (Unit {0}) =
      λ u. validate_import_rebinds rebinds declared in
    elim (bind-eq-err (module_verdict (declared_import declared rb) rb.path) next h) [
      | inl q ↦ (rb, inl refl, module_verdict-frozen _ rb.path q)
      | inr (u, q, k) ↦
          let later = validate_import_rebinds-IsFrozen rebinds declared k in
          (later.0, inr later.1, later.2)
    ]
