-- ===== src/Base/Choice.antt =====
-- `Iterator::enumerate`, `max_by` and `min_by`, and what they choose.
use Prim.Native.Nat.{ℕ, suc, ◌-◌, ◌≤◌}
use mathlib.Core.Path.{◌≡◌, refl, sym, subst, ap}
use mathlib.Core.Logic.{◌⊎◌, inl, inr}
use mathlib.Core.Bool.{Bool, true, false}
use mathlib.Core.List.{List, [], ◌∷◌}
use mathlib.Core.Option.{Option, none, some, some-injective}
use native.Mathlib.Omega.{arith}
use iso.Base.Tests.{if◌then◌else◌, Bool-cases}
use iso.Base.Lists.{All, get_elem?}

module _ {ℓ} {A : Type ℓ} where
  abbrev pub enumerate : ℕ → List A → List (ℕ × A)
  enumerate i [] = []
  enumerate i (x ∷ xs) = (i, x) ∷ enumerate (suc i) xs

  abbrev pub keep : (A → Bool) → List A → List A
  keep p [] = []
  keep p (x ∷ xs) = if p x then x ∷ keep p xs else keep p xs

  -- `reduce`, from the first element on.
  abbrev pub fold_from : (A → A → A) → A → List A → A
  fold_from f acc [] = acc
  fold_from f acc (x ∷ xs) = fold_from f (f acc x) xs

  abbrev pub reduce : (A → A → A) → List A → Option A
  reduce f [] = none
  reduce f (x ∷ xs) = some (fold_from f x xs)

  -- `gt a b` says that the comparison of `a` with `b` is `Greater`. Of equal elements `max_by` gives
  -- the last and `min_by` the first.
  abbrev pub max_by : (A → A → Bool) → List A → Option A
  max_by gt = reduce (λ x y. if gt x y then x else y)

  abbrev pub min_by : (A → A → Bool) → List A → Option A
  min_by gt = reduce (λ x y. if gt x y then y else x)

abbrev pub Elem : {A : Type 0} → A → List A → Type 0
Elem a [] = ⊥
Elem a (x ∷ xs) = (a ≡ x) ⊎ Elem a xs

-- `gt` is the strict part of a total preorder.
pub record IsGreater {ℓ} {A : Type ℓ} (gt : A → A → Bool) : Type ℓ where
  pub asym : (a b : A) → gt a b ≡ true → gt b a ≡ false
  pub trans : (a b c : A) → gt a b ≡ false → gt b c ≡ false → gt a c ≡ false

-- `m` is an element, and no element compares greater.
pub record IsMax {A : Type 0} (gt : A → A → Bool) (m : A) (xs : List A) : Type 0 where
  pub is_elem : Elem m xs
  pub is_greatest : All (λ x. gt x m ≡ false) xs

pub record IsMin {A : Type 0} (gt : A → A → Bool) (m : A) (xs : List A) : Type 0 where
  pub is_elem : Elem m xs
  pub is_least : All (λ x. gt m x ≡ false) xs

module _ {A : Type 0} (gt : A → A → Bool) (o : IsGreater gt) where
  irrefl : (a : A) → gt a a ≡ false
  irrefl a = elim (Bool-cases (gt a a)) [ inl h ↦ o.asym a a h | inr h ↦ h ]

  -- The running choice is carried along: what the fold ends with is at least as great.
  IsMax-fold :
      (acc : A) (xs : List A)
      → IsMax gt (fold_from (λ x y. if gt x y then x else y) acc xs) (acc ∷ xs)
  IsMax-fold acc [] = record { is_elem = inl refl; is_greatest = (irrefl acc, tt) }
  IsMax-fold acc (x ∷ xs) = elim (Bool-cases (gt acc x)) [
    | inl h ↦
        let m = IsMax-fold acc xs in
        rw h (record {
          is_elem = elim m.is_elem [ inl e ↦ inl e | inr e ↦ inr (inr e) ];
          is_greatest = (
            m.is_greatest.0,
            (o.trans x acc _ (o.asym acc x h) m.is_greatest.0, m.is_greatest.1),
          );
        })
    | inr h ↦
        let m = IsMax-fold x xs in
        rw h (record {
          is_elem = elim m.is_elem [ inl e ↦ inr (inl e) | inr e ↦ inr (inr e) ];
          is_greatest = (o.trans acc x _ h m.is_greatest.0, (m.is_greatest.0, m.is_greatest.1));
        })
  ]

  IsMin-fold :
      (acc : A) (xs : List A)
      → IsMin gt (fold_from (λ x y. if gt x y then y else x) acc xs) (acc ∷ xs)
  IsMin-fold acc [] = record { is_elem = inl refl; is_least = (irrefl acc, tt) }
  IsMin-fold acc (x ∷ xs) = elim (Bool-cases (gt acc x)) [
    | inl h ↦
        let m = IsMin-fold x xs in
        rw h (record {
          is_elem = elim m.is_elem [ inl e ↦ inr (inl e) | inr e ↦ inr (inr e) ];
          is_least = (o.trans _ x acc m.is_least.0 (o.asym acc x h), (m.is_least.0, m.is_least.1));
        })
    | inr h ↦
        let m = IsMin-fold acc xs in
        rw h (record {
          is_elem = elim m.is_elem [ inl e ↦ inl e | inr e ↦ inr (inr e) ];
          is_least = (m.is_least.0, (o.trans _ acc x m.is_least.0 h, m.is_least.1));
        })
  ]

  pub max_by-IsMax : (xs : List A) (m : A) → max_by gt xs ≡ some m → IsMax gt m xs
  max_by-IsMax [] m h = cc
  max_by-IsMax (x ∷ xs) m h =
      subst (λ k. IsMax gt k (x ∷ xs)) (some-injective _ _ h) (IsMax-fold x xs)

  pub min_by-IsMin : (xs : List A) (m : A) → min_by gt xs ≡ some m → IsMin gt m xs
  min_by-IsMin [] m h = cc
  min_by-IsMin (x ∷ xs) m h =
      subst (λ k. IsMin gt k (x ∷ xs)) (some-injective _ _ h) (IsMin-fold x xs)

-- An element of an enumeration is at its index.
pub Elem-enumerate :
    {A : Type 0} (k i : ℕ) (a : A) (xs : List A)
    → Elem (i, a) (enumerate k xs)
    → (k ≤ i) × (get_elem? xs (i - k) ≡ some a)
Elem-enumerate k i a [] e = absurd e
Elem-enumerate {A} k i a (x ∷ xs) (inl e) =
    let at : i ≡ k = ap (λ (p : ℕ × A). p.0) e in
    let z : i - k ≡ 0 = omega arith in
    (omega arith, rw z (ap some (sym (ap (λ (p : ℕ × A). p.1) e))))
Elem-enumerate k i a (x ∷ xs) (inr e) =
    let rest = Elem-enumerate (suc k) i a xs e in
    let past = rest.0 in let z : i - k ≡ suc (i - suc k) = omega arith in (omega arith, rw z rest.1)

pub Elem-enumerate_index :
    {A : Type 0} (i : ℕ) (a : A) (xs : List A)
    → Elem (i, a) (enumerate 0 xs)
    → get_elem? xs i ≡ some a
Elem-enumerate_index i a xs e =
    let z : i - 0 ≡ i = omega arith in
    subst (λ k. get_elem? xs k ≡ some a) z (Elem-enumerate 0 i a xs e).1

-- What `keep` and `enumerate` do to the elements, and when `reduce` has nothing to give.
module _ {A : Type 0} where
  pub Elem-keep :
      (p : A → Bool) (a : A) (xs : List A) → Elem a (keep p xs) → (p a ≡ true) × Elem a xs
  Elem-keep p a [] e = absurd e
  Elem-keep p a (x ∷ xs) e = elim (Bool-cases (p x)) [
    | inl h ↦ elim (subst (λ b. Elem a (if b then x ∷ keep p xs else keep p xs)) h e) [
      | inl q ↦ (rw q h, inl q)
      | inr r ↦ let k = Elem-keep p a xs r in (k.0, inr k.1)
    ]
    | inr h ↦
        let k =
          Elem-keep p a xs (subst (λ b. Elem a (if b then x ∷ keep p xs else keep p xs)) h e) in
        (k.0, inr k.1)
  ]

  pub All-keep :
      (P : A → Type 0) (p : A → Bool) (xs : List A)
      → All P (keep p xs)
      → All (λ x. (p x ≡ false) ⊎ P x) xs
  All-keep P p [] a = tt
  All-keep P p (x ∷ xs) a = elim (Bool-cases (p x)) [
    | inl h ↦
        let k = subst (λ b. All P (if b then x ∷ keep p xs else keep p xs)) h a in
        (inr k.0, All-keep P p xs k.1)
    | inr h ↦
        let k = subst (λ b. All P (if b then x ∷ keep p xs else keep p xs)) h a in
        (inl h, All-keep P p xs k)
  ]

  pub All-enumerate :
      (P : A → Type 0) (k : ℕ) (xs : List A)
      → All (λ (e : ℕ × A). P e.1) (enumerate k xs)
      → All P xs
  All-enumerate P k [] a = tt
  All-enumerate P k (x ∷ xs) a = (a.0, All-enumerate P (suc k) xs a.1)

  pub All-weaken : (P Q : A → Type 0) (xs : List A) → ((x : A) → P x → Q x) → All P xs → All Q xs
  All-weaken P Q [] f a = tt
  All-weaken P Q (x ∷ xs) f a = (f x a.0, All-weaken P Q xs f a.1)

  pub reduce-none : (f : A → A → A) (xs : List A) → reduce f xs ≡ none → xs ≡ []
  reduce-none f [] h = refl
  reduce-none f (x ∷ xs) h = cc
