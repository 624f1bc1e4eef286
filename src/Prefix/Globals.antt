-- ===== src/Prefix/Globals.antt =====
-- Which global rebinds a prefix run may carry.
use iso.Base.{
  ◌≡◌, refl, sym, subst, ◌↔◌, inl, inr, Bool, true, false, ◌&&◌, ◌||◌, &&-true, List, [], ◌∷◌, ok,
  err, All, Elem, Bool-cases, ◌==◌, ==→eq, ==_refl, if◌then◌else◌,
}
use iso.Wire.Bytes.{Bytes}
use iso.Types.{HostGlobalDef}
use iso.Prefix.{
  RebindError, frozen_binding, undeclared_binding, same, any, name_of, is_value_global,
  validate_global_rebinds,
}

pub same_sound : (a b : Bytes) → same a b ≡ true → a ≡ b
unfolding same
same_sound [] [] h = refl
same_sound [] (y ∷ b) h = cc
same_sound (x ∷ a) [] h = cc
same_sound (x ∷ a) (y ∷ b) h =
    let k = &&-true (x == y) (same a b) h in
    let tail = same_sound a b k.1 in let head = ==→eq x y k.0 in cc

pub same_refl : (a : Bytes) → same a a ≡ true
unfolding same
same_refl [] = refl
same_refl (x ∷ a) = rw (==_refl x) (same_refl a)

any-same :
    (name : Bytes) (names : List Bytes) → any (λ d. same d name) names ≡ true → Elem name names
any-same name [] h = cc
any-same name (d ∷ names) h = elim (Bool-cases (same d name)) [
  | inl q ↦ inl (sym (same_sound d name q))
  | inr q ↦ inr (any-same name names (subst (λ b. (b || any (λ d. same d name) names) ≡ true) q h))
]

any-same_complete :
    (name : Bytes) (names : List Bytes) → Elem name names → any (λ d. same d name) names ≡ true
any-same_complete name [] e = absurd e
any-same_complete name (d ∷ names) (inl q) = rw (sym q, same_refl name) refl
any-same_complete name (d ∷ names) (inr e) = elim (Bool-cases (same d name)) [
  | inl q ↦ rw q refl
  | inr q ↦ rw q (any-same_complete name names e)
]

-- The def is a bridge stub of a declared name.
abbrev pub IsDeclaredStub : List Bytes → HostGlobalDef → Type 0
IsDeclaredStub declared_stubs def = ((name_of def).1 ≡ true) × Elem (name_of def).0 declared_stubs

abbrev pub is_declared_stub : List Bytes → HostGlobalDef → Bool
is_declared_stub declared_stubs def =
    (name_of def).1 && any (λ d. same d (name_of def).0) declared_stubs

stub_sound :
    (stubs : List Bytes) (def : HostGlobalDef)
    → is_declared_stub stubs def ≡ true
    → IsDeclaredStub stubs def
stub_sound stubs def h = let k = &&-true _ _ h in (k.0, any-same _ stubs k.1)

stub_complete :
    (stubs : List Bytes) (def : HostGlobalDef)
    → IsDeclaredStub stubs def
    → is_declared_stub stubs def ≡ true
stub_complete stubs def (s, e) = rw (s, any-same_complete (name_of def).0 stubs e) refl

globals_sound :
    (globals : List HostGlobalDef) (stubs : List Bytes) (declared : List HostGlobalDef)
    → validate_global_rebinds globals stubs declared ≡ ok tt
    → All (IsDeclaredStub stubs) globals
unfolding validate_global_rebinds
globals_sound [] stubs declared h = tt
globals_sound (def ∷ globals) stubs declared h = elim (Bool-cases (is_declared_stub stubs def)) [
  | inl q ↦ (stub_sound stubs def q, globals_sound globals stubs declared (simp q at h))
  | inr q ↦ let k = simp q at h in absurd cc
]

globals_complete :
    (globals : List HostGlobalDef) (stubs : List Bytes) (declared : List HostGlobalDef)
    → All (IsDeclaredStub stubs) globals
    → validate_global_rebinds globals stubs declared ≡ ok tt
unfolding validate_global_rebinds
globals_complete [] stubs declared a = refl
globals_complete (def ∷ globals) stubs declared (s, a) =
    rw (stub_complete stubs def s) (globals_complete globals stubs declared a)

-- The globals of a prefix run are accepted exactly when each is a bridge stub whose name was
-- declared as a stub.
pub validate_global_rebinds-accepts :
    (globals : List HostGlobalDef) (stubs : List Bytes) (declared : List HostGlobalDef)
    → (validate_global_rebinds globals stubs declared ≡ ok tt) ↔ All (IsDeclaredStub stubs) globals
validate_global_rebinds-accepts globals stubs declared =
    (globals_sound globals stubs declared, globals_complete globals stubs declared)

-- The class of a refusal: frozen for the name of a declared string or data global.
abbrev pub RefusalOf : List HostGlobalDef → HostGlobalDef → RebindError → Type 0
RefusalOf declared def frozen_binding =
    (d : HostGlobalDef) × Elem d declared × (is_value_global (name_of def).0 d ≡ true)
RefusalOf declared def undeclared_binding =
    All (λ d. is_value_global (name_of def).0 d ≡ false) declared

any-true :
    (p : HostGlobalDef → Bool) (xs : List HostGlobalDef)
    → any p xs ≡ true
    → (d : HostGlobalDef) × Elem d xs × (p d ≡ true)
any-true p [] h = cc
any-true p (x ∷ xs) h = elim (Bool-cases (p x)) [
  | inl q ↦ (x, inl refl, q)
  | inr q ↦ let k = any-true p xs (simp q at h) in (k.0, inr k.1, k.2)
]

any-false :
    (p : HostGlobalDef → Bool) (xs : List HostGlobalDef)
    → any p xs ≡ false
    → All (λ d. p d ≡ false) xs
any-false p [] h = tt
any-false p (x ∷ xs) h = elim (Bool-cases (p x)) [
  | inl q ↦ let k = simp q at h in absurd cc
  | inr q ↦ (q, any-false p xs (simp q at h))
]

class_of :
    (declared : List HostGlobalDef) (def : HostGlobalDef) (b : Bool)
    → any (is_value_global (name_of def).0) declared ≡ b
    → RefusalOf declared def (if b then frozen_binding else undeclared_binding)
class_of declared def true h = any-true _ declared h
class_of declared def false h = any-false _ declared h

-- A refusal names a global that is no declared stub, as frozen when its name was declared as a string
-- or data global, and as undeclared when it was not.
pub validate_global_rebinds-refuses :
    (globals : List HostGlobalDef) (stubs : List Bytes) (declared : List HostGlobalDef)
    (e : RebindError)
    → validate_global_rebinds globals stubs declared ≡ err e
    → (def : HostGlobalDef) × Elem def globals
      × (is_declared_stub stubs def ≡ false)
      × RefusalOf declared def e
unfolding validate_global_rebinds
validate_global_rebinds-refuses [] stubs declared e h = cc
validate_global_rebinds-refuses (def ∷ globals) stubs declared e h =
    elim (Bool-cases (is_declared_stub stubs def)) [
      | inl q ↦
          let k = validate_global_rebinds-refuses globals stubs declared e (simp q at h) in
          (k.0, inr k.1, k.2, k.3)
      | inr q ↦
          let k = simp q at h in
          let c : (if any (is_value_global (name_of def).0) declared
                then frozen_binding
                else undeclared_binding)
              ≡ e =
            cc in
          (def, inl refl, q, subst (RefusalOf declared def) c (class_of declared def _ refl))
    ]
