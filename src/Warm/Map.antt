-- ===== src/Warm/Map.antt =====
-- The `HashMap` of prefixes as an association list: its iteration order is one of those that the
-- library may pick. `entry(key).or_default()` and a change of the entry is one `put`.
use iso.Base.{
  ℕ, ◌+◌, ◌≤◌, ◌≡◌, ==_sym, refl, subst, inl, inr, false, Option, none, some, List, [], ◌∷◌, arith,
  Bool-cases, if◌then◌else◌, All,
}
use mathlib.Core.Option.{some-injective}
use iso.Wire.Bytes.{Bytes}
use iso.Prefix.{same}
use iso.Prefix.Globals.{same_sound, same_refl}

pub same_sym : (a b : Bytes) → same a b ≡ same b a
unfolding same
same_sym [] [] = refl
same_sym [] (y ∷ b) = refl
same_sym (x ∷ a) [] = refl
same_sym (x ∷ a) (y ∷ b) = rw (same_sym a b, ==_sym x y) refl

module _ {V : Type 0} where
  abbrev pub lookup : Bytes → List (Bytes × V) → Option V
  lookup key [] = none
  lookup key ((k, v) ∷ rest) = if same k key then some v else lookup key rest

  abbrev pub put : Bytes → V → List (Bytes × V) → List (Bytes × V)
  put key value [] = (key, value) ∷ []
  put key value ((k, v) ∷ rest) =
      if same k key then (k, value) ∷ rest else (k, v) ∷ put key value rest

  abbrev pub remove : Bytes → List (Bytes × V) → List (Bytes × V)
  remove key [] = []
  remove key ((k, v) ∷ rest) = if same k key then rest else (k, v) ∷ remove key rest

  abbrev pub or_default : V → Option V → V
  or_default d none = d
  or_default d (some v) = v

  -- A count summed over the values.
  abbrev pub sum_by : (V → ℕ) → List (Bytes × V) → ℕ
  sum_by f [] = 0
  sum_by f ((k, v) ∷ rest) = f v + sum_by f rest

  abbrev pub AllValues : (V → Type 0) → List (Bytes × V) → Type 0
  AllValues P = All (λ e. P e.1)

  -- A value put in place of another changes the sum by the difference.
  pub sum_by-put :
      (f : V → ℕ) (d : V) (key : Bytes) (value : V) (m : List (Bytes × V))
      → f d ≡ 0
      → sum_by f (put key value m) + f (or_default d (lookup key m)) ≡ sum_by f m + f value
  sum_by-put f d key value [] z = omega arith
  sum_by-put f d key value ((k, v) ∷ rest) z = elim (Bool-cases (same k key)) [
    | inl h ↦ rw h (omega arith)
    | inr h ↦ rw h (omega (arith, sum_by-put f d key value rest z))
  ]

  pub sum_by-remove :
      (f : V → ℕ) (key : Bytes) (v : V) (m : List (Bytes × V))
      → lookup key m ≡ some v
      → sum_by f (remove key m) + f v ≡ sum_by f m
  sum_by-remove f key v [] h = cc
  sum_by-remove f key v ((k, u) ∷ rest) h = elim (Bool-cases (same k key)) [
    | inl q ↦ let e : u ≡ v = some-injective _ _ (simp q at h) in rw q (rw e (omega arith))
    | inr q ↦ rw q (omega (arith, sum_by-remove f key v rest (simp q at h)))
  ]

  pub AllValues-put :
      (P : V → Type 0) (key : Bytes) (value : V) (m : List (Bytes × V))
      → P value
      → AllValues P m
      → AllValues P (put key value m)
  AllValues-put P key value [] p a = (p, tt)
  AllValues-put P key value ((k, v) ∷ rest) p a = elim (Bool-cases (same k key)) [
    | inl h ↦ rw h (p, a.1)
    | inr h ↦ rw h (a.0, AllValues-put P key value rest p a.1)
  ]

  pub AllValues-remove :
      (P : V → Type 0) (key : Bytes) (m : List (Bytes × V))
      → AllValues P m
      → AllValues P (remove key m)
  AllValues-remove P key [] a = tt
  AllValues-remove P key ((k, v) ∷ rest) a = elim (Bool-cases (same k key)) [
    | inl h ↦ rw h a.1
    | inr h ↦ rw h (a.0, AllValues-remove P key rest a.1)
  ]

  pub AllValues-lookup :
      (P : V → Type 0) (key : Bytes) (d : V) (m : List (Bytes × V))
      → P d
      → AllValues P m
      → P (or_default d (lookup key m))
  AllValues-lookup P key d [] p a = p
  AllValues-lookup P key d ((k, v) ∷ rest) p a = elim (Bool-cases (same k key)) [
    | inl h ↦ rw h a.0
    | inr h ↦ rw h (AllValues-lookup P key d rest p a.1)
  ]

  abbrev pub Absent : Bytes → List (Bytes × V) → Type 0
  Absent key = All (λ e. same e.0 key ≡ false)

  -- No key stands twice.
  abbrev pub DistinctKeys : List (Bytes × V) → Type 0
  DistinctKeys [] = Unit
  DistinctKeys ((k, v) ∷ rest) = Absent k rest × DistinctKeys rest

  Absent-put :
      (k key : Bytes) (value : V) (m : List (Bytes × V))
      → same key k ≡ false
      → Absent k m
      → Absent k (put key value m)
  Absent-put k key value [] q a = (q, tt)
  Absent-put k key value ((j, v) ∷ rest) q a = elim (Bool-cases (same j key)) [
    | inl h ↦ rw h (a.0, a.1)
    | inr h ↦ rw h (a.0, Absent-put k key value rest q a.1)
  ]

  pub DistinctKeys-put :
      (key : Bytes) (value : V) (m : List (Bytes × V))
      → DistinctKeys m
      → DistinctKeys (put key value m)
  DistinctKeys-put key value [] d = (tt, tt)
  DistinctKeys-put key value ((k, v) ∷ rest) d = elim (Bool-cases (same k key)) [
    | inl h ↦ rw h (d.0, d.1)
    | inr h ↦
        let back = subst (λ b. b ≡ false) (same_sym k key) h in
        rw h (Absent-put k key value rest back d.0, DistinctKeys-put key value rest d.1)
  ]

  AllKeys-remove :
      (P : Bytes → Type 0) (key : Bytes) (m : List (Bytes × V))
      → All (λ e. P e.0) m
      → All (λ e. P e.0) (remove key m)
  AllKeys-remove P key [] a = tt
  AllKeys-remove P key ((k, v) ∷ rest) a = elim (Bool-cases (same k key)) [
    | inl h ↦ rw h a.1
    | inr h ↦ rw h (a.0, AllKeys-remove P key rest a.1)
  ]

  Absent-remove : (k key : Bytes) (m : List (Bytes × V)) → Absent k m → Absent k (remove key m)
  Absent-remove k key m a = AllKeys-remove (λ j. same j k ≡ false) key m a

  pub DistinctKeys-remove :
      (key : Bytes) (m : List (Bytes × V)) → DistinctKeys m → DistinctKeys (remove key m)
  DistinctKeys-remove key [] d = tt
  DistinctKeys-remove key ((k, v) ∷ rest) d = elim (Bool-cases (same k key)) [
    | inl h ↦ rw h d.1
    | inr h ↦ rw h (Absent-remove k key rest d.0, DistinctKeys-remove key rest d.1)
  ]

  -- One value's count is within the sum.
  pub sum_by-lookup :
      (f : V → ℕ) (d : V) (key : Bytes) (m : List (Bytes × V))
      → f d ≡ 0
      → f (or_default d (lookup key m)) ≤ sum_by f m
  sum_by-lookup f d key [] z = omega arith
  sum_by-lookup f d key ((k, v) ∷ rest) z = elim (Bool-cases (same k key)) [
    | inl h ↦ rw h (omega arith)
    | inr h ↦ rw h (omega (arith, sum_by-lookup f d key rest z))
  ]

  -- What is read back after a `put`.
  pub lookup-put :
      (key : Bytes) (value : V) (m : List (Bytes × V)) → lookup key (put key value m) ≡ some value
  lookup-put key value [] = rw (same_refl key) refl
  lookup-put key value ((k, v) ∷ rest) = elim (Bool-cases (same k key)) [
    | inl h ↦ rw (h, h) refl
    | inr h ↦ rw (h, h) (lookup-put key value rest)
  ]

  pub lookup-put_other :
      (key other : Bytes) (value : V) (m : List (Bytes × V))
      → same key other ≡ false
      → lookup other (put key value m) ≡ lookup other m
  lookup-put_other key other value [] d = rw d refl
  lookup-put_other key other value ((k, v) ∷ rest) d = elim (Bool-cases (same k key)) [
    | inl h ↦ let apart : same k other ≡ false = rw (same_sound k key h) d in rw (h, apart) refl
    | inr h ↦ elim (Bool-cases (same k other)) [
      | inl q ↦ rw (h, q) refl
      | inr q ↦ rw (h, q) (lookup-put_other key other value rest d)
    ]
  ]

  lookup-Absent : (key : Bytes) (m : List (Bytes × V)) → Absent key m → lookup key m ≡ none
  lookup-Absent key [] a = refl
  lookup-Absent key ((k, v) ∷ rest) a = rw (a.0) (lookup-Absent key rest a.1)

  pub lookup-remove :
      (key : Bytes) (m : List (Bytes × V)) → DistinctKeys m → lookup key (remove key m) ≡ none
  lookup-remove key [] d = refl
  lookup-remove key ((k, v) ∷ rest) d = elim (Bool-cases (same k key)) [
    | inl h ↦ rw h (lookup-Absent key rest (subst (λ j. Absent j rest) (same_sound k key h) d.0))
    | inr h ↦ rw (h, h) (lookup-remove key rest d.1)
  ]

  pub lookup-remove_other :
      (key other : Bytes) (m : List (Bytes × V))
      → same key other ≡ false
      → lookup other (remove key m) ≡ lookup other m
  lookup-remove_other key other [] d = refl
  lookup-remove_other key other ((k, v) ∷ rest) d = elim (Bool-cases (same k key)) [
    | inl h ↦ let apart : same k other ≡ false = rw (same_sound k key h) d in rw (h, apart) refl
    | inr h ↦ elim (Bool-cases (same k other)) [
      | inl q ↦ rw (h, q) refl
      | inr q ↦ rw (h, q) (lookup-remove_other key other rest d)
    ]
  ]
