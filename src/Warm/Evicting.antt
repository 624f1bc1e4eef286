-- ===== src/Warm/Evicting.antt =====
-- What an eviction takes: one idle instance of a known prefix, as long as there is one.
use iso.Base.{
  ℕ, zero, suc, ◌+◌, ◌≡◌, refl, sym, ap, subst, ◌⊎◌, inl, inr, true, false, some, List, [], ◌∷◌,
  ◌++◌, arith, Bool-cases, Elem, Elem-keep, keep, get_elem?, length, length-append, map,
}
use mathlib.Core.Option.{some-injective}
use iso.Float.{F64}
use iso.Wire.Bytes.{Bytes}
use iso.Prefix.{same}
use iso.Prefix.Globals.{same_refl}
use iso.Warm.Map.{sum_by, Absent, DistinctKeys, same_sym}
use iso.Warm.State.{Instance, is_idle, PrefixEntry}
use iso.Warm.Pressure.{Candidate, candidate, without, candidates}
use iso.Warm.Counts.{count, idle_count, DistinctIds, count-without}
use iso.Warm.Invariant.{idle, entry_of}

Elem-append : {A : Type 0} (a : A) (xs ys : List A) → Elem a (xs ++ ys) → Elem a xs ⊎ Elem a ys
Elem-append a [] ys e = inr e
Elem-append a (x ∷ xs) ys (inl e) = inl (inl e)
Elem-append a (x ∷ xs) ys (inr e) = elim (Elem-append a xs ys e) [
  | inl q ↦ inl (inr q)
  | inr q ↦ inr q
]

Elem-map :
    {A B : Type 0} (f : A → B) (b : B) (xs : List A)
    → Elem b (map f xs)
    → (a : A) × (Elem a xs × (b ≡ f a))
Elem-map f b [] e = absurd e
Elem-map f b (x ∷ xs) (inl e) = (x, (inl refl, e))
Elem-map f b (x ∷ xs) (inr e) = let (a, (q, h)) = Elem-map f b xs e in (a, (inr q, h))

pub Elem-get_elem? :
    {A : Type 0} (a : A) (xs : List A) (n : ℕ) → get_elem? xs n ≡ some a → Elem a xs
Elem-get_elem? a [] n h = cc
Elem-get_elem? a (x ∷ xs) zero h = inl (sym (some-injective _ _ h))
Elem-get_elem? a (x ∷ xs) (suc n) h = inr (Elem-get_elem? a xs n h)

pub get_elem?-map_lt :
    {A B : Type 0} (f : A → B) (xs : List A) (n : ℕ) (b : B)
    → get_elem? (map f xs) n ≡ some b
    → (a : A) × (get_elem? xs n ≡ some a)
get_elem?-map_lt f [] n b h = cc
get_elem?-map_lt f (x ∷ xs) zero b h = (x, refl)
get_elem?-map_lt f (x ∷ xs) (suc n) b h = get_elem?-map_lt f xs n b h

pub length-keep_idle : (xs : List Instance) → length (keep is_idle xs) ≡ idle_count xs
length-keep_idle [] = refl
length-keep_idle (x ∷ xs) = elim (Bool-cases (is_idle x)) [
  | inl h ↦ rw h (omega (arith, length-keep_idle xs))
  | inr h ↦ rw h (omega (arith, length-keep_idle xs))
]

pub length-map : {A B : Type 0} (f : A → B) (xs : List A) → length (map f xs) ≡ length xs
length-map f [] = refl
length-map f (x ∷ xs) = ap suc (length-map f xs)

count-length : (xs : List Instance) → count (λ i. true) xs ≡ length xs
count-length [] = refl
count-length (x ∷ xs) = omega (arith, count-length xs)

-- One instance fewer, and one idle one fewer if it was idle.
pub length-without :
    (i : Instance) (xs : List Instance)
    → Elem i xs
    → DistinctIds xs
    → length (without i.id xs) + 1 ≡ length xs
length-without i xs e d =
    omega
      (arith, count-length xs, count-length (without i.id xs), count-without (λ j. true) i xs e d)

pub idle_count-without :
    (i : Instance) (xs : List Instance)
    → Elem i xs
    → DistinctIds xs
    → is_idle i ≡ true
    → idle_count (without i.id xs) + 1 ≡ idle_count xs
idle_count-without i xs e d h = let k = rw h at (count-without is_idle i xs e d) in k

module _ ⦃fl : F64⦄ where
  -- Where a candidate comes from.
  pub record IsIdleAt (c : Candidate) (m : List (Bytes × PrefixEntry)) : Type 0 where
    pub instance_of : Instance
    pub is_elem : Elem instance_of (entry_of c.prefix_id m).instances
    pub idle_eq : is_idle instance_of ≡ true
    pub id_eq : c.instance_id ≡ instance_of.id

  Elem-candidates_key :
      (c : Candidate) (k : Bytes) (m : List (Bytes × PrefixEntry))
      → Elem c (candidates m)
      → Absent k m
      → same c.prefix_id k ≡ false
  unfolding candidates
  Elem-candidates_key c k [] e a = absurd e
  Elem-candidates_key c k ((j, x) ∷ rest) e a =
      elim (Elem-append c (map (candidate j) (keep is_idle x.instances)) (candidates rest) e) [
        | inl q ↦
            let (i, (p, h)) = Elem-map (candidate j) c _ q in
            subst (λ (d : Candidate). same d.prefix_id k ≡ false) (sym h) a.0
        | inr q ↦ Elem-candidates_key c k rest q a.1
      ]

  pub Elem-candidates :
      (c : Candidate) (m : List (Bytes × PrefixEntry))
      → Elem c (candidates m)
      → DistinctKeys m
      → IsIdleAt c m
  unfolding candidates
  Elem-candidates c [] e d = absurd e
  Elem-candidates c ((j, x) ∷ rest) e d =
      elim (Elem-append c (map (candidate j) (keep is_idle x.instances)) (candidates rest) e) [
        | inl q ↦
            let (i, (p, h)) = Elem-map (candidate j) c _ q in
            let (t, at) = Elem-keep is_idle i x.instances p in
            subst (λ (b : Candidate). IsIdleAt b ((j, x) ∷ rest)) (sym h)
              (record { instance_of = i; is_elem = rw (same_refl j) at; idle_eq = t; id_eq = refl })
        | inr q ↦
            let r = Elem-candidates c rest q d.1 in
            let apart : same j c.prefix_id ≡ false =
              subst (λ b. b ≡ false) (same_sym c.prefix_id j)
                (Elem-candidates_key c j rest q d.0) in
            record {
              instance_of = r.instance_of;
              is_elem = rw apart r.is_elem;
              idle_eq = r.idle_eq;
              id_eq = r.id_eq;
            }
      ]

  pub length-candidates : (m : List (Bytes × PrefixEntry)) → length (candidates m) ≡ sum_by idle m
  unfolding candidates
  length-candidates [] = refl
  length-candidates ((j, x) ∷ rest) =
      let here = length-map (candidate j) (keep is_idle x.instances) in
      rw (length-append (map (candidate j) (keep is_idle x.instances)) (candidates rest))
        (omega (arith, here, length-keep_idle x.instances, length-candidates rest))
