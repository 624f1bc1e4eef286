-- ===== src/Warm/Counts.antt =====
-- How the changes of an entry's instances change their number and the number of idle ones, and that the
-- ids stay distinct.
use iso.Base.{
  ℕ, zero, suc, ◌+◌, ◌<◌, ◌≡◌, refl, sym, subst, ◌⊎◌, inl, inr, Bool, false, some, List, [], ◌∷◌,
  ◌++◌, arith, ◌==◌, ==_refl, ==_sym, Bool-cases, All, All-append, All-weaken, Elem, get_elem?,
  length,
}
use mathlib.Core.Option.{some-injective}
use iso.Warm.State.{HeapCaps, Instance, is_idle}
use iso.Warm.Pressure.{without}
use iso.Warm.Acquire.{modify_at, spawned}
use iso.Warm.Release.{one_if}

abbrev pub count : (Instance → Bool) → List Instance → ℕ
count p [] = 0
count p (i ∷ rest) = one_if (p i) + count p rest

abbrev pub idle_count : List Instance → ℕ
idle_count = count is_idle

-- Below the next id, and alive or busy.
abbrev pub InstanceOk : ℕ → Instance → Type 0
InstanceOk next i = (i.id < next) × ((i.dead ≡ false) ⊎ (0 < i.in_flight))

abbrev pub Fresh : ℕ → List Instance → Type 0
Fresh id = All (λ j. (j.id == id) ≡ false)

abbrev pub DistinctIds : List Instance → Type 0
DistinctIds [] = Unit
DistinctIds (i ∷ rest) = Fresh i.id rest × DistinctIds rest

abbrev pub InstancesOk : ℕ → List Instance → Type 0
InstancesOk next xs = All (InstanceOk next) xs × DistinctIds xs

module _ (f : Instance → Instance) where
  pub length-modify_at : (n : ℕ) (xs : List Instance) → length (modify_at n f xs) ≡ length xs
  length-modify_at n [] = refl
  length-modify_at zero (x ∷ xs) = refl
  length-modify_at (suc n) (x ∷ xs) = omega (arith, length-modify_at n xs)

  pub count-modify_at :
      (p : Instance → Bool) (n : ℕ) (xs : List Instance) (i : Instance)
      → get_elem? xs n ≡ some i
      → count p (modify_at n f xs) + one_if (p i) ≡ count p xs + one_if (p (f i))
  count-modify_at p n [] i h = cc
  count-modify_at p zero (x ∷ xs) i h = let e : x ≡ i = some-injective _ _ h in rw e (omega arith)
  count-modify_at p (suc n) (x ∷ xs) i h = omega (arith, count-modify_at p n xs i h)

  module _ (keeps_id : (i : Instance) → (f i).id ≡ i.id) where
    Fresh-modify_at : (id n : ℕ) (xs : List Instance) → Fresh id xs → Fresh id (modify_at n f xs)
    Fresh-modify_at id n [] a = tt
    Fresh-modify_at id zero (x ∷ xs) a = (rw (keeps_id x) a.0, a.1)
    Fresh-modify_at id (suc n) (x ∷ xs) a = (a.0, Fresh-modify_at id n xs a.1)

    pub DistinctIds-modify_at :
        (n : ℕ) (xs : List Instance) → DistinctIds xs → DistinctIds (modify_at n f xs)
    DistinctIds-modify_at n [] d = tt
    DistinctIds-modify_at zero (x ∷ xs) d = (rw (keeps_id x) d.0, d.1)
    DistinctIds-modify_at (suc n) (x ∷ xs) d =
        (Fresh-modify_at x.id n xs d.0, DistinctIds-modify_at n xs d.1)

pub All-modify_at :
    (P : Instance → Type 0) (f : Instance → Instance) (n : ℕ) (xs : List Instance)
    → ((i : Instance) → P i → P (f i))
    → All P xs
    → All P (modify_at n f xs)
All-modify_at P f n [] k a = tt
All-modify_at P f zero (x ∷ xs) k a = (k x a.0, a.1)
All-modify_at P f (suc n) (x ∷ xs) k a = (a.0, All-modify_at P f n xs k a.1)

count-append :
    (p : Instance → Bool) (xs ys : List Instance) → count p (xs ++ ys) ≡ count p xs + count p ys
count-append p [] ys = omega arith
count-append p (x ∷ xs) ys = omega (arith, count-append p xs ys)

DistinctIds-append :
    (xs : List Instance) (i : Instance)
    → All (λ j. j.id < i.id) xs
    → DistinctIds xs
    → DistinctIds (xs ++ (i ∷ []))
DistinctIds-append [] i a d = (tt, tt)
DistinctIds-append (x ∷ xs) i a d =
    let apart : (i.id == x.id) ≡ false = ground (arith, a.0) in
    (All-append _ xs (i ∷ []) d.0 (apart, tt), DistinctIds-append xs i a.1 d.1)

-- The new instance has the next id.
pub InstancesOk-spawned :
    (next : ℕ) (caps : HeapCaps) (at : ℕ) (xs : List Instance)
    → InstancesOk next xs
    → InstancesOk (next + 1) (xs ++ (spawned next caps at ∷ []))
InstancesOk-spawned next caps at xs (a, d) = (
  All-append _ xs (spawned next caps at ∷ [])
      (All-weaken _ _ xs (λ i o. (omega (arith, o.0), o.1)) a) ((omega arith, inl refl), tt),
  DistinctIds-append xs (spawned next caps at) (All-weaken _ _ xs (λ i o. o.0) a) d,
)

pub idle_count-spawned :
    (id : ℕ) (caps : HeapCaps) (at : ℕ) (xs : List Instance)
    → idle_count (xs ++ (spawned id caps at ∷ [])) ≡ idle_count xs
idle_count-spawned id caps at xs = omega (arith, count-append is_idle xs (spawned id caps at ∷ []))

Elem-All : (P : Instance → Type 0) (i : Instance) (xs : List Instance) → Elem i xs → All P xs → P i
Elem-All P i [] e a = absurd e
Elem-All P i (x ∷ xs) (inl e) a = subst P (sym e) a.0
Elem-All P i (x ∷ xs) (inr e) a = Elem-All P i xs e a.1

pub Fresh-apart :
    (i x : Instance) (xs : List Instance) → Elem i xs → Fresh x.id xs → (x.id == i.id) ≡ false
Fresh-apart i x xs e d =
    subst (λ b. b ≡ false) (==_sym i.id x.id) (Elem-All (λ j. (j.id == x.id) ≡ false) i xs e d)

-- Removal by id.
without-Fresh : (id : ℕ) (xs : List Instance) → Fresh id xs → without id xs ≡ xs
without-Fresh id [] a = refl
without-Fresh id (x ∷ xs) a = rw (a.0, without-Fresh id xs a.1) refl

pub All-without :
    (P : Instance → Type 0) (id : ℕ) (xs : List Instance) → All P xs → All P (without id xs)
All-without P id [] a = tt
All-without P id (x ∷ xs) a = elim (Bool-cases (x.id == id)) [
  | inl h ↦ rw h (All-without P id xs a.1)
  | inr h ↦ rw h (a.0, All-without P id xs a.1)
]

pub DistinctIds-without :
    (id : ℕ) (xs : List Instance) → DistinctIds xs → DistinctIds (without id xs)
DistinctIds-without id [] d = tt
DistinctIds-without id (x ∷ xs) d = elim (Bool-cases (x.id == id)) [
  | inl h ↦ rw h (DistinctIds-without id xs d.1)
  | inr h ↦ rw h (All-without _ id xs d.0, DistinctIds-without id xs d.1)
]

-- One instance of the id goes, and the rest stays.
pub count-without :
    (p : Instance → Bool) (i : Instance) (xs : List Instance)
    → Elem i xs
    → DistinctIds xs
    → count p (without i.id xs) + one_if (p i) ≡ count p xs
count-without p i [] e d = absurd e
count-without p i (x ∷ xs) (inl e) d =
    subst (λ j. count p (without j.id (x ∷ xs)) + one_if (p j) ≡ count p (x ∷ xs)) (sym e)
      (rw (==_refl x.id, without-Fresh x.id xs d.0) (omega arith))
count-without p i (x ∷ xs) (inr e) d =
    let apart = Fresh-apart i x xs e d.0 in rw apart (omega (arith, count-without p i xs e d.1))
