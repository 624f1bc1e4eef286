-- ===== src/Timers/Pending.antt =====
-- The timers that a table stands for, in the order in which they fire, and what the table keeps to.
use iso.Base.{
  ℕ, ◌≤◌, ◌<◌, ◌≡◌, refl, sym, ap, ◌∙◌, subst, inl, inr, true, false, not, Option, none, some, List,
  [], ◌∷◌, arith, All, keep, ◌==◌, ==→eq, Bool-cases,
}
use iso.Timers.{Due, due_before, TimerEntry, get, delete, TimerTable, new_table, live_entry}

-- Nothing that stands later is due before.
abbrev pub IsInOrder : List Due → Type 0
IsInOrder [] = Unit
IsInOrder (d ∷ order) = All (λ e. due_before e d ≡ false) order × IsInOrder order

-- An id stands once.
abbrev pub HasDistinctIds : List Due → Type 0
HasDistinctIds [] = Unit
HasDistinctIds (d ∷ order) = All (λ e. (e.id == d.id) ≡ false) order × HasDistinctIds order

module _ {C V : Type 0} where
  abbrev pub cons_live :
      Option (TimerEntry C V) → Due → List (Due × TimerEntry C V) → List (Due × TimerEntry C V)
  cons_live none d xs = xs
  cons_live (some e) d xs = (d, e) ∷ xs

  -- The items that are not cleared, with their entries.
  abbrev pub pending_of : List (ℕ × TimerEntry C V) → List Due → List (Due × TimerEntry C V)
  pending_of entries [] = []
  pending_of entries (d ∷ order) = cons_live (live_entry entries d) d (pending_of entries order)

  abbrev pub pending : TimerTable C V → List (Due × TimerEntry C V)
  pending t = pending_of t.entries t.order

  pub record IsTable (t : TimerTable C V) : Type 0 where
    pub in_order : IsInOrder t.order
    pub distinct : HasDistinctIds t.order
    pub ids_le : All (λ d. d.id ≤ t.last_id) t.order
    pub seqs_lt : All (λ d. d.seq < t.next_seq) t.order

  pub new_table-IsTable : IsTable new_table
  new_table-IsTable = record { in_order = tt; distinct = tt; ids_le = tt; seqs_lt = tt }

  get-delete_other :
      (id other : ℕ) (entries : List (ℕ × TimerEntry C V))
      → (other == id) ≡ false
      → get other (delete id entries) ≡ get other entries
  get-delete_other id other [] h = refl
  get-delete_other id other ((k, e) ∷ entries) h = elim (Bool-cases (k == id)) [
    | inl q ↦
        let miss : (k == other) ≡ false = ground arith in
        rw (q, miss) (get-delete_other id other entries h)
    | inr q ↦ elim (Bool-cases (k == other)) [
      | inl r ↦ rw (q, r) refl
      | inr r ↦ rw (q, r) (get-delete_other id other entries h)
    ]
  ]

  get-delete : (id : ℕ) (entries : List (ℕ × TimerEntry C V)) → get id (delete id entries) ≡ none
  get-delete id [] = refl
  get-delete id ((k, e) ∷ entries) = elim (Bool-cases (k == id)) [
    | inl q ↦ rw q (get-delete id entries)
    | inr q ↦ rw (q, q) (get-delete id entries)
  ]

  -- Items of other ids do not see a deletion.
  pub pending_of-delete_other :
      (id : ℕ) (entries : List (ℕ × TimerEntry C V)) (order : List Due)
      → All (λ d. (d.id == id) ≡ false) order
      → pending_of (delete id entries) order ≡ pending_of entries order
  pending_of-delete_other id entries [] a = refl
  pending_of-delete_other id entries (d ∷ order) a =
      rw (get-delete_other id d.id entries a.0)
        (ap (cons_live (live_entry entries d) d) (pending_of-delete_other id entries order a.1))

  keep-cons_live_out :
      (id : ℕ) (o : Option (TimerEntry C V)) (d : Due) (xs : List (Due × TimerEntry C V))
      → (d.id == id) ≡ true
      → keep (λ x. not ((x.0).id == id)) (cons_live o d xs) ≡ keep (λ x. not ((x.0).id == id)) xs
  keep-cons_live_out id none d xs h = refl
  keep-cons_live_out id (some e) d xs h = rw h refl

  keep-cons_live_in :
      (id : ℕ) (o : Option (TimerEntry C V)) (d : Due) (xs : List (Due × TimerEntry C V))
      → (d.id == id) ≡ false
      → keep (λ x. not ((x.0).id == id)) (cons_live o d xs)
        ≡ cons_live o d (keep (λ x. not ((x.0).id == id)) xs)
  keep-cons_live_in id none d xs h = refl
  keep-cons_live_in id (some e) d xs h = rw h refl

  -- A deletion takes the item of its id out.
  pub pending_of-delete :
      (id : ℕ) (entries : List (ℕ × TimerEntry C V)) (order : List Due)
      → pending_of (delete id entries) order
        ≡ keep (λ x. not ((x.0).id == id)) (pending_of entries order)
  pending_of-delete id entries [] = refl
  pending_of-delete id entries (d ∷ order) =
      let rest = pending_of-delete id entries order in
      elim (Bool-cases (d.id == id)) [
        | inl h ↦
            let here : get d.id (delete id entries) ≡ none =
              subst (λ k. get k (delete id entries) ≡ none) (sym (==→eq d.id id h))
                (get-delete id entries) in
            rw here (
              rest
              ∙ sym (keep-cons_live_out id (live_entry entries d) d (pending_of entries order) h))
        | inr h ↦ rw (get-delete_other id d.id entries h) (
            ap (cons_live (live_entry entries d) d) rest
            ∙ sym (keep-cons_live_in id (live_entry entries d) d (pending_of entries order) h))
      ]
