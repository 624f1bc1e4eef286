-- ===== src/Warm/Tally.antt =====
-- The statistics agree with the counters that the registry keeps.
use iso.Base.{
  ℕ, ◌+◌, ◌≡◌, refl, sym, ap, ◌∙◌, inl, inr, true, false, Option, List, [], ◌∷◌, arith, ltb, ◌==◌,
  Bool-cases, All, length, map,
}
use iso.Float.{F64}
use iso.Wire.Bytes.{Bytes}
use iso.Warm.Map.{sum_by, AllValues}
use iso.Warm.State.{Instance, is_idle, PrefixEntry, RegistryInner, Marks}
use iso.Warm.Release.{sum, is_empty}
use iso.Warm.Stats.{
  bytes_le, insert_by_id, sort_by_id, busy_in, idle_in, occupied, over, prefix_line, stats,
}
use iso.Warm.Counts.{InstanceOk, InstancesOk}
use iso.Warm.Evicting.{length-keep_idle}
use iso.Warm.Releasing.{empty-length}
use iso.Warm.Invariant.{size, idle, IsConsistent}

-- An instance that is alive or busy is either idle or busy.
idle_or_busy :
    (next : ℕ) (xs : List Instance) → All (InstanceOk next) xs → idle_in xs + busy_in xs ≡ length xs
idle_or_busy next [] a = refl
idle_or_busy next (x ∷ xs) a =
    let rest = idle_or_busy next xs a.1 in
    elim (Bool-cases (ltb 0 x.in_flight)) [
      | inl h ↦ let busy : is_idle x ≡ false = ground arith in rw (h, busy) (omega (arith, rest))
      | inr h ↦
          let live : x.dead ≡ false = elim (a.0).1 [ inl q ↦ q | inr q ↦ absurd (ground arith) ] in
          let rests : (x.in_flight == 0) ≡ true = ground arith in
          rw (h, rests, live) (omega (arith, rest))
    ]

-- Sorting moves no count.
sum-insert :
    (f : Bytes × ℕ × ℕ → ℕ) (e : Bytes × ℕ × ℕ) (xs : List (Bytes × ℕ × ℕ))
    → sum (map f (insert_by_id e xs)) ≡ f e + sum (map f xs)
sum-insert f e [] = refl
sum-insert f e (x ∷ xs) = elim (Bool-cases (bytes_le e.0 x.0)) [
  | inl h ↦ rw h refl
  | inr h ↦ rw h (omega (arith, sum-insert f e xs))
]

sum-sort :
    (f : Bytes × ℕ × ℕ → ℕ) (xs : List (Bytes × ℕ × ℕ))
    → sum (map f (sort_by_id xs)) ≡ sum (map f xs)
sum-sort f [] = refl
sum-sort f (x ∷ xs) = omega (arith, sum-insert f x (sort_by_id xs), sum-sort f xs)

-- Neighbours are in the order of their ids.
abbrev pub IsSortedById : List (Bytes × ℕ × ℕ) → Type 0
IsSortedById [] = Unit
IsSortedById (e ∷ []) = Unit
IsSortedById (e ∷ f ∷ rest) = (bytes_le e.0 f.0 ≡ true) × IsSortedById (f ∷ rest)

bytes_le_total : (a b : Bytes) → bytes_le a b ≡ false → bytes_le b a ≡ true
bytes_le_total [] b h = cc
bytes_le_total (x ∷ a) [] h = refl
bytes_le_total (x ∷ a) (y ∷ b) h = elim (Bool-cases (bytes_le a b)) [
  | inl q ↦ let k = rw q at h in ground arith
  | inr q ↦ let r = bytes_le_total a b q in let k = rw q at h in rw r (ground arith)
]

insert-IsSortedById :
    (e : Bytes × ℕ × ℕ) (xs : List (Bytes × ℕ × ℕ))
    → IsSortedById xs
    → IsSortedById (insert_by_id e xs)
insert-IsSortedById e [] s = tt
insert-IsSortedById e (x ∷ []) s = elim (Bool-cases (bytes_le e.0 x.0)) [
  | inl h ↦ rw h (h, tt)
  | inr h ↦ rw h (bytes_le_total e.0 x.0 h, tt)
]
insert-IsSortedById e (x ∷ y ∷ rest) s = elim (Bool-cases (bytes_le e.0 x.0)) [
  | inl h ↦ rw h (h, s)
  | inr h ↦
      let tail = insert-IsSortedById e (y ∷ rest) s.1 in
      elim (Bool-cases (bytes_le e.0 y.0)) [
        | inl q ↦ rw (h, q) (bytes_le_total e.0 x.0 h, (q, s.1))
        | inr q ↦ rw (h, q) (s.0, rw q at tail)
      ]
]

sort-IsSortedById : (xs : List (Bytes × ℕ × ℕ)) → IsSortedById (sort_by_id xs)
sort-IsSortedById [] = tt
sort-IsSortedById (x ∷ xs) = insert-IsSortedById x (sort_by_id xs) (sort-IsSortedById xs)

module _ ⦃fl : F64⦄ where
  sum-prefix_line :
      (f : Bytes × ℕ × ℕ → ℕ) (m : List (Bytes × PrefixEntry))
      → sum (map f (map prefix_line m))
        ≡ sum (map (λ (e : Bytes × PrefixEntry). f (prefix_line e)) m)
  sum-prefix_line f [] = refl
  sum-prefix_line f (e ∷ rest) = ap (◌+◌ (f (prefix_line e))) (sum-prefix_line f rest)

  -- A prefix without instances adds nothing.
  over-sum_by :
      (f : List Instance → ℕ) (m : List (Bytes × PrefixEntry))
      → f [] ≡ 0
      → over f m ≡ sum_by (λ (e : PrefixEntry). f e.instances) m
  over-sum_by f [] z = refl
  over-sum_by f ((k, e) ∷ rest) z = elim (Bool-cases (is_empty e.instances)) [
    | inl h ↦
        let nothing : e.instances ≡ [] = empty-length e.instances h in
        rw (h, nothing) (omega (arith, z, over-sum_by f rest z))
    | inr h ↦ rw h (ap (◌+◌ (f e.instances)) (over-sum_by f rest z))
  ]

  sum_by-same :
      (f g : PrefixEntry → ℕ) (m : List (Bytes × PrefixEntry))
      → ((e : PrefixEntry) → f e ≡ g e)
      → sum_by f m ≡ sum_by g m
  sum_by-same f g [] h = refl
  sum_by-same f g ((k, e) ∷ rest) h = rw (h e) (ap (◌+◌ (g e)) (sum_by-same f g rest h))

  sum_by-idle_or_busy :
      (next : ℕ) (m : List (Bytes × PrefixEntry))
      → AllValues (λ (e : PrefixEntry). InstancesOk next e.instances) m
      → sum_by (λ (e : PrefixEntry). idle_in e.instances) m
          + sum_by (λ (e : PrefixEntry). busy_in e.instances) m
        ≡ sum_by size m
  sum_by-idle_or_busy next [] a = refl
  sum_by-idle_or_busy next ((k, e) ∷ rest) a =
      omega (arith, idle_or_busy next e.instances (a.0).0, sum_by-idle_or_busy next rest a.1)

  sum-lines :
      (f : Bytes × ℕ × ℕ → ℕ) (m : List (Bytes × PrefixEntry))
      → sum (map f (sort_by_id (map prefix_line (occupied m))))
        ≡ sum (map (λ (e : Bytes × PrefixEntry). f (prefix_line e)) (occupied m))
  sum-lines f m = sum-sort f (map prefix_line (occupied m)) ∙ sum-prefix_line f (occupied m)

  -- Of a consistent registry, the idle instances that the statistics count are the registry's idle
  -- total, which the code asserts in a debug build. Each pooled instance counts as idle or as busy but
  -- not as both, so that with the one-off runs they are the total. The prefixes' own lines, which are
  -- sorted by their ids, add up to the two counts.
  pub stats_lem :
      (marks : Marks) (r : RegistryInner) (container_bytes rss : Option ℕ)
      → IsConsistent r
      → ((stats marks r container_bytes rss).warm_idle ≡ r.idle_total)
        × ((stats marks r container_bytes rss).warm_idle
              + (stats marks r container_bytes rss).warm_busy
              + (stats marks r container_bytes rss).oneoff_running
            ≡ r.total)
        × (sum (map (λ e. e.1) (stats marks r container_bytes rss).per_prefix)
            ≡ (stats marks r container_bytes rss).warm_idle)
        × (sum (map (λ e. e.2) (stats marks r container_bytes rss).per_prefix)
            ≡ (stats marks r container_bytes rss).warm_busy)
        × IsSortedById (stats marks r container_bytes rss).per_prefix
  unfolding stats
  stats_lem marks r container_bytes rss k =
      let idles = over-sum_by idle_in r.prefixes refl in
      let busies = over-sum_by busy_in r.prefixes refl in
      let same_idle =
        sum_by-same (λ (e : PrefixEntry). idle_in e.instances) idle r.prefixes
          (λ e. length-keep_idle e.instances) in
      let split = sum_by-idle_or_busy r.next_instance_id r.prefixes k.instances_ok in
      (
        idles ∙ same_idle ∙ sym k.idle_eq,
        omega (arith, idles, busies, split, k.total_eq),
        sum-lines (λ e. e.1) r.prefixes,
        sum-lines (λ e. e.2) r.prefixes,
        sort-IsSortedById (map prefix_line (occupied r.prefixes)),
      )
