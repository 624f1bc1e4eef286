-- ===== src/Warm/Leaving.antt =====
-- How a release and a disposal change the number of an entry's instances and of its idle ones.
use iso.Base.{
  ℕ, ◌+◌, ◌-◌, ◌<◌, ◌≡◌, refl, sym, subst, ◌⊎◌, inl, inr, true, false, not, ◌&&◌, none, some, List,
  [], ◌∷◌, arith, ltb, ◌==◌, Bool-cases, All, length,
}
use iso.Warm.State.{Instance}
use iso.Warm.Counts.{idle_count, InstanceOk, Fresh, DistinctIds, InstancesOk}
use iso.Warm.Release.{
  Finish, leave, leave_counts, left, struck, settle, rested, one_if, mark_dead, drained_count,
}

struck-same :
    (i : Instance) (f : Finish) → ((struck i f).id ≡ i.id) × ((struck i f).in_flight ≡ i.in_flight)
unfolding struck
struck-same i f = elim (Bool-cases (not f.tainted && ltb 0 i.caps.soft_bytes)) [
  | inl h ↦ rw h (refl, refl)
  | inr h ↦ rw h (refl, refl)
]

-- One run fewer, under the same id.
pub left_same :
    (i : Instance) (f : Finish) → ((left i f).id ≡ i.id) × ((left i f).in_flight ≡ i.in_flight - 1)
unfolding left
left_same i f = struck-same (record i { in_flight = i.in_flight - 1 }) f

-- The three ends of a release.
settle-cases :
    (j : Instance) (f : Finish)
    → ((settle j f ≡ none) × (((j.in_flight == 0) ≡ true) × (j.dead ≡ true)))
      ⊎ (((settle j f ≡ some (rested j f)) × (((j.in_flight == 0) ≡ true) × (j.dead ≡ false)))
          ⊎ ((settle j f ≡ some j) × ((j.in_flight == 0) ≡ false)))
unfolding settle
settle-cases j f = elim (Bool-cases (j.in_flight == 0)) [
  | inl h ↦ elim (Bool-cases j.dead) [
    | inl q ↦ inl (rw (h, q) refl, (h, q))
    | inr q ↦ inr (inl (rw (h, q) refl, (h, q)))
  ]
  | inr h ↦ inr (inr (rw h refl, h))
]

-- No idle instance has the id.
abbrev pub NoneIdle : ℕ → List Instance → Type 0
NoneIdle id = All (λ i. ((i.id == id) ≡ false) ⊎ (0 < i.in_flight))

pub length-leave :
    (id : ℕ) (f : Finish) (xs : List Instance)
    → length (leave id f xs) + one_if (leave_counts id f xs).0 ≡ length xs
unfolding leave leave_counts
length-leave id f [] = omega arith
length-leave id f (x ∷ xs) = elim (Bool-cases (x.id == id)) [
  | inl h ↦ elim (settle-cases (left x f) f) [
    | inl (s, (z, d)) ↦ rw (h, s, z, d) (omega arith)
    | inr (inl (s, (z, d))) ↦ rw (h, s, z, d) (omega arith)
    | inr (inr (s, z)) ↦ rw (h, s, z) (omega arith)
  ]
  | inr h ↦ rw h (omega (arith, length-leave id f xs))
]

pub idle_count-leave :
    (id : ℕ) (f : Finish) (xs : List Instance)
    → NoneIdle id xs
    → idle_count (leave id f xs) ≡ idle_count xs + one_if (leave_counts id f xs).1
unfolding leave leave_counts
idle_count-leave id f [] b = omega arith
idle_count-leave id f (x ∷ xs) b = elim (Bool-cases (x.id == id)) [
  | inl h ↦
      let busy : (x.in_flight == 0) ≡ false = elim b.0 [ inl q ↦ cc | inr q ↦ ground arith ] in
      elim (settle-cases (left x f) f) [
        | inl (s, (z, d)) ↦ rw (h, s, z, d, busy) (omega arith)
        | inr (inl (s, (z, d))) ↦ rw (h, s, z, d, busy) (omega arith)
        | inr (inr (s, z)) ↦ rw (h, s, z, busy) (omega arith)
      ]
  | inr h ↦ rw h (omega (arith, idle_count-leave id f xs b.1))
]

module _ (id : ℕ) (f : Finish) where
  -- A release keeps what holds of the ids.
  All-leave :
      (P : ℕ → Type 0) (xs : List Instance)
      → All (λ i. P i.id) xs
      → All (λ i. P i.id) (leave id f xs)
  unfolding leave
  All-leave P [] a = tt
  All-leave P (x ∷ xs) a = elim (Bool-cases (x.id == id)) [
    | inl h ↦
        let kept = subst P (sym (left_same x f).0) a.0 in
        elim (settle-cases (left x f) f) [
          | inl (s, (z, d)) ↦ rw (h, s) a.1
          | inr (inl (s, (z, d))) ↦ rw (h, s) (kept, a.1)
          | inr (inr (s, z)) ↦ rw (h, s) (kept, a.1)
        ]
    | inr h ↦ rw h (a.0, All-leave P xs a.1)
  ]

  DistinctIds-leave : (xs : List Instance) → DistinctIds xs → DistinctIds (leave id f xs)
  unfolding leave
  DistinctIds-leave [] d = tt
  DistinctIds-leave (x ∷ xs) d = elim (Bool-cases (x.id == id)) [
    | inl h ↦
        let kept : Fresh (left x f).id xs = rw (left_same x f).0 d.0 in
        elim (settle-cases (left x f) f) [
          | inl (s, (z, e)) ↦ rw (h, s) d.1
          | inr (inl (s, (z, e))) ↦ rw (h, s) (kept, d.1)
          | inr (inr (s, z)) ↦ rw (h, s) (kept, d.1)
        ]
    | inr h ↦ rw h (All-leave (λ k. (k == x.id) ≡ false) xs d.0, DistinctIds-leave xs d.1)
  ]

  InstanceOk-leave :
      (next : ℕ) (xs : List Instance)
      → All (InstanceOk next) xs
      → All (InstanceOk next) (leave id f xs)
  unfolding leave
  InstanceOk-leave next [] a = tt
  InstanceOk-leave next (x ∷ xs) a = elim (Bool-cases (x.id == id)) [
    | inl h ↦
        let low : (left x f).id < next = rw (left_same x f).0 (a.0).0 in
        elim (settle-cases (left x f) f) [
          | inl (s, (z, e)) ↦ rw (h, s) a.1
          | inr (inl (s, (z, e))) ↦ rw (h, s) ((low, inl e), a.1)
          | inr (inr (s, z)) ↦ rw (h, s) ((low, inr (ground arith)), a.1)
        ]
    | inr h ↦ rw h (a.0, InstanceOk-leave next xs a.1)
  ]

  pub InstancesOk-leave :
      (next : ℕ) (xs : List Instance) → InstancesOk next xs → InstancesOk next (leave id f xs)
  InstancesOk-leave next xs ok = (InstanceOk-leave next xs ok.0, DistinctIds-leave xs ok.1)

-- A disposal: the drained go, and the busy ones stay and die.
pub length-mark_dead : (xs : List Instance) → length (mark_dead xs) + drained_count xs ≡ length xs
unfolding mark_dead
length-mark_dead [] = omega arith
length-mark_dead (x ∷ xs) = elim (Bool-cases (x.in_flight == 0)) [
  | inl h ↦ rw h (omega (arith, length-mark_dead xs))
  | inr h ↦ rw h (omega (arith, length-mark_dead xs))
]

pub idle_count-mark_dead : (xs : List Instance) → idle_count (mark_dead xs) ≡ 0
unfolding mark_dead
idle_count-mark_dead [] = refl
idle_count-mark_dead (x ∷ xs) = elim (Bool-cases (x.in_flight == 0)) [
  | inl h ↦ rw h (idle_count-mark_dead xs)
  | inr h ↦ rw (h, h) (omega (arith, idle_count-mark_dead xs))
]

-- A drained instance of a registered prefix is alive.
pub drained-idle_count :
    (next : ℕ) (xs : List Instance) → All (InstanceOk next) xs → drained_count xs ≡ idle_count xs
drained-idle_count next [] a = refl
drained-idle_count next (x ∷ xs) a = elim (Bool-cases (x.in_flight == 0)) [
  | inl h ↦
      let live : x.dead ≡ false = elim (a.0).1 [ inl q ↦ q | inr q ↦ absurd (ground arith) ] in
      rw (h, live) (omega (arith, drained-idle_count next xs a.1))
  | inr h ↦ rw h (omega (arith, drained-idle_count next xs a.1))
]

All-mark_dead :
    (P : ℕ → Type 0) (xs : List Instance) → All (λ i. P i.id) xs → All (λ i. P i.id) (mark_dead xs)
unfolding mark_dead
All-mark_dead P [] a = tt
All-mark_dead P (x ∷ xs) a = elim (Bool-cases (x.in_flight == 0)) [
  | inl h ↦ rw h (All-mark_dead P xs a.1)
  | inr h ↦ rw h (a.0, All-mark_dead P xs a.1)
]

pub InstancesOk-mark_dead :
    (next : ℕ) (xs : List Instance) → InstancesOk next xs → InstancesOk next (mark_dead xs)
unfolding mark_dead
InstancesOk-mark_dead next [] ok = (tt, tt)
InstancesOk-mark_dead next (x ∷ xs) (a, d) =
    let rest = InstancesOk-mark_dead next xs (a.1, d.1) in
    elim (Bool-cases (x.in_flight == 0)) [
      | inl h ↦ rw h rest
      | inr h ↦ rw h (
        (((a.0).0, inr (ground arith)), rest.0),
        (All-mark_dead (λ k. (k == x.id) ≡ false) xs d.0, rest.1),
      )
    ]
