-- ===== src/Timers/Refines.antt =====
-- The table with its lazily cleared heap against the list of the pending timers in firing order.
use iso.Base.{
  ℕ, ◌≡◌, refl, sym, ap, ◌∙◌, subst, inl, inr, true, false, Option, none, some, List, [], ◌∷◌,
  arith, All, All-weaken, ◌==◌, ==_sym, Bool-cases, Option-cases, if◌then◌else◌,
}
use iso.Timers.{
  Due, due_before, push, TimerEntry, delete, set, TimerTable, live, live_entry, pop_from,
}
use iso.Timers.Pending.{
  IsInOrder, HasDistinctIds, cons_live, pending_of, pending, pending_of-delete_other,
}

before_trans :
    (a b c : Due) → due_before a b ≡ true → due_before c b ≡ false → due_before a c ≡ true
before_trans a b c h k = ground arith

before_asym : (a b : Due) → due_before a b ≡ true → due_before b a ≡ false
before_asym a b h = ground arith

pub All-push :
    (P : Due → Type 0) (d : Due) (order : List Due) → P d → All P order → All P (push d order)
All-push P d [] p a = (p, tt)
All-push P d (e ∷ order) p a = elim (Bool-cases (due_before d e)) [
  | inl h ↦ rw h (p, a)
  | inr h ↦ rw h (a.0, All-push P d order p a.1)
]

pub IsInOrder-push : (d : Due) (order : List Due) → IsInOrder order → IsInOrder (push d order)
IsInOrder-push d [] s = (tt, tt)
IsInOrder-push d (e ∷ order) s = elim (Bool-cases (due_before d e)) [
  | inl h ↦ rw h (
    (before_asym d e h, All-weaken _ _ order (λ c q. before_asym d c (before_trans d e c h q)) s.0),
    s,
  )
  | inr h ↦ rw h (All-push (λ c. due_before c e ≡ false) d order h s.0, IsInOrder-push d order s.1)
]

pub HasDistinctIds-push :
    (d : Due) (order : List Due)
    → All (λ e. (e.id == d.id) ≡ false) order
    → HasDistinctIds order
    → HasDistinctIds (push d order)
HasDistinctIds-push d [] a s = (tt, tt)
HasDistinctIds-push d (e ∷ order) a s = elim (Bool-cases (due_before d e)) [
  | inl h ↦ rw h (a, s)
  | inr h ↦ rw h (
    All-push (λ c. (c.id == e.id) ≡ false) d order (subst (λ b. b ≡ false) (==_sym e.id d.id) a.0)
        s.0,
    HasDistinctIds-push d order a.1 s.1,
  )
]

module _ {C V : Type 0} where
  -- A timer among the pending ones, behind those that are not later.
  abbrev pub fire_insert :
      Due × TimerEntry C V → List (Due × TimerEntry C V) → List (Due × TimerEntry C V)
  fire_insert x [] = x ∷ []
  fire_insert x (y ∷ ys) = if due_before x.0 y.0 then x ∷ y ∷ ys else y ∷ fire_insert x ys

  All-cons_live :
      (P : Due → Type 0) (o : Option (TimerEntry C V)) (d : Due) (xs : List (Due × TimerEntry C V))
      → P d
      → All (λ x. P x.0) xs
      → All (λ x. P x.0) (cons_live o d xs)
  All-cons_live P none d xs p a = a
  All-cons_live P (some e) d xs p a = (p, a)

  All-pending_of :
      (P : Due → Type 0) (entries : List (ℕ × TimerEntry C V)) (order : List Due)
      → All P order
      → All (λ x. P x.0) (pending_of entries order)
  All-pending_of P entries [] a = tt
  All-pending_of P entries (d ∷ order) a =
      All-cons_live P (live_entry entries d) d (pending_of entries order) a.0
        (All-pending_of P entries order a.1)

  fire_insert-front :
      (d : Due) (e : TimerEntry C V) (xs : List (Due × TimerEntry C V))
      → All (λ x. due_before d x.0 ≡ true) xs
      → fire_insert (d, e) xs ≡ (d, e) ∷ xs
  fire_insert-front d e [] a = refl
  fire_insert-front d e (x ∷ xs) a = rw (a.0) refl

  fire_insert-cons_live :
      (d c : Due) (e : TimerEntry C V) (o : Option (TimerEntry C V))
      (xs : List (Due × TimerEntry C V))
      → due_before d c ≡ false
      → fire_insert (d, e) (cons_live o c xs) ≡ cons_live o c (fire_insert (d, e) xs)
  fire_insert-cons_live d c e none xs h = refl
  fire_insert-cons_live d c e (some f) xs h = rw h refl

  pub pending_of-push :
      (entries : List (ℕ × TimerEntry C V)) (d : Due) (e : TimerEntry C V) (order : List Due)
      → live_entry entries d ≡ some e
      → IsInOrder order
      → pending_of entries (push d order) ≡ fire_insert (d, e) (pending_of entries order)
  pending_of-push entries d e [] h s = rw h refl
  pending_of-push entries d e (c ∷ order) h s = elim (Bool-cases (due_before d c)) [
    | inl q ↦
        rw (q, h)
          (sym (
            fire_insert-front d e (pending_of entries (c ∷ order)) (
              All-pending_of (λ x. due_before d x ≡ true) entries (c ∷ order)
                (q, All-weaken _ _ order (λ x r. before_trans d c x q r) s.0))))
    | inr q ↦ rw q (
        ap (cons_live (live_entry entries c) c) (pending_of-push entries d e order h s.1)
        ∙ sym (fire_insert-cons_live d c e (live_entry entries c) (pending_of entries order) q))
  ]

  -- Items of other ids do not see a new entry.
  pub pending_of-set :
      (id : ℕ) (e : TimerEntry C V) (entries : List (ℕ × TimerEntry C V)) (order : List Due)
      → All (λ d. (d.id == id) ≡ false) order
      → pending_of (set id e entries) order ≡ pending_of entries order
  pending_of-set id e entries [] a = refl
  pending_of-set id e entries (d ∷ order) a =
      let apart : (id == d.id) ≡ false = subst (λ b. b ≡ false) (==_sym d.id id) a.0 in
      let whole = pending_of-delete_other id entries (d ∷ order) a in
      rw apart (
        ap (cons_live (live_entry (delete id entries) d) d) (
          pending_of-set id e entries order a.1
          ∙ sym (pending_of-delete_other id entries order a.1))
        ∙ whole)

  live_some :
      (o : Option (TimerEntry C V)) (at : ℕ) (e : TimerEntry C V) → live o at ≡ some e → o ≡ some e
  live_some none at e h = cc
  live_some (some f) at e h = elim (Bool-cases (f.deadline == at)) [
    | inl q ↦ let k = rw q at h in k
    | inr q ↦ let k = rw q at h in cc
  ]

  -- The earliest pending timer is what a pop gives, and the others stay.
  abbrev pub IsPop : List (Due × TimerEntry C V) → Option (TimerEntry C V) × TimerTable C V → Type 0
  IsPop [] r = (r.0 ≡ none) × (pending r.1 ≡ [])
  IsPop ((d, e) ∷ xs) r = (r.0 ≡ some e) × (pending r.1 ≡ xs)

  pub pop_from-IsPop :
      (t : TimerTable C V) (order : List Due)
      → HasDistinctIds order
      → IsPop (pending_of t.entries order) (pop_from t order)
  unfolding pop_from
  pop_from-IsPop t [] s = (refl, refl)
  pop_from-IsPop t (d ∷ order) s = elim (Option-cases (live_entry t.entries d)) [
    | inl q ↦ rw (pop_from, q) (pop_from-IsPop t order s.1)
    | inr (e, q) ↦
        rw (pop_from, q) (live_some _ d.at e q, pending_of-delete_other d.id t.entries order s.0)
  ]

  abbrev pub head_deadline : List (Due × TimerEntry C V) → Option ℕ
  head_deadline [] = none
  head_deadline (x ∷ xs) = some (x.0).at
