-- ===== src/Warm/Invariant.antt =====
-- What holds of the registry at every moment, and the changes that keep it.
use iso.Base.{
  ℕ, ◌+◌, ◌≤◌, ◌≡◌, refl, ap, subst, inl, inr, Option, none, some, List, arith, ltb, Bool-cases,
  Option-cases, All-weaken, length,
}
use iso.Float.{F64}
use iso.Wire.Bytes.{Bytes}
use iso.Warm.Map.{
  lookup, put, or_default, lookup-put, lookup-put_other, sum_by, AllValues, DistinctKeys,
  sum_by-put, sum_by-lookup, AllValues-put, AllValues-lookup, DistinctKeys-put,
}
use iso.Prefix.{same}
use iso.Prefix.Globals.{same_sound}
use iso.Warm.Demand.{PrefixDemand, note_completion}
use iso.Warm.State.{
  PrefixEntry, new_entry, RegistryInner, new_registry, note_demand, recompute_slots,
  note_slot_sample, recompute_every,
}
use iso.Warm.Counts.{idle_count, InstancesOk}

module _ ⦃fl : F64⦄ where
  open fl use {Carrier}

  abbrev pub size : PrefixEntry → ℕ
  size e = length e.instances

  abbrev pub idle : PrefixEntry → ℕ
  idle e = idle_count e.instances

  -- The entry that `entry(id).or_default()` gives.
  abbrev pub entry_of : Bytes → List (Bytes × PrefixEntry) → PrefixEntry
  entry_of id m = or_default new_entry (lookup id m)

  -- The counters agree with the instances, ids are distinct, and every instance is alive or busy.
  pub record Counted (m : List (Bytes × PrefixEntry)) (total oneoff idle_total next : ℕ)
      : Type 0 where
    pub total_eq : total ≡ sum_by size m + oneoff
    pub idle_eq : idle_total ≡ sum_by idle m
    pub instances_ok : AllValues (λ (e : PrefixEntry). InstancesOk next e.instances) m
    pub keys : DistinctKeys m

  abbrev pub IsConsistent : RegistryInner → Type 0
  IsConsistent r = Counted r.prefixes r.total r.oneoff_running r.idle_total r.next_instance_id

  pub new_registry-IsConsistent : (cores : ℕ) → IsConsistent (new_registry cores)
  unfolding new_registry
  new_registry-IsConsistent cores = record {
    total_eq = omega arith;
    idle_eq = refl;
    instances_ok = tt;
    keys = tt;
  }

  module _ (m : List (Bytes × PrefixEntry)) (total oneoff idle_total next : ℕ)
      (c : Counted m total oneoff idle_total next) where
    -- An entry's share of the counters.
    pub entry_size_le : (id : Bytes) → size (entry_of id m) + oneoff ≤ total
    entry_size_le id = omega (arith, c.total_eq, sum_by-lookup size new_entry id m refl)

    pub entry_idle_le : (id : Bytes) → idle (entry_of id m) ≤ idle_total
    entry_idle_le id = omega (arith, c.idle_eq, sum_by-lookup idle new_entry id m refl)

    pub entry_ok : (id : Bytes) → InstancesOk next (entry_of id m).instances
    entry_ok id =
        AllValues-lookup (λ (e : PrefixEntry). InstancesOk next e.instances) id new_entry m (tt, tt)
          c.instances_ok

    -- An entry is replaced, and the counters follow it.
    pub Counted-put :
        (id : Bytes) (e : PrefixEntry) (total_ oneoff_ idle_ next_ : ℕ)
        → total_ + (size (entry_of id m) + oneoff) ≡ total + (size e + oneoff_)
        → idle_ + idle (entry_of id m) ≡ idle_total + idle e
        → next ≤ next_
        → InstancesOk next_ e.instances
        → Counted (put id e m) total_ oneoff_ idle_ next_
    Counted-put id e total_ oneoff_ idle_ next_ ht hi hn ok = record {
      total_eq = omega (arith, c.total_eq, sum_by-put size new_entry id e m refl);
      idle_eq = omega (arith, c.idle_eq, sum_by-put idle new_entry id e m refl);
      instances_ok =
          AllValues-put (λ (x : PrefixEntry). InstancesOk next_ x.instances) id e m ok
            (All-weaken _ _ m
              (λ x o.
                (All-weaken _ _ (x.1).instances (λ i q. (omega (arith, q.0, hn), q.1)) o.0, o.1))
              c.instances_ok);
      keys = DistinctKeys-put id e m c.keys;
    }

    -- Only the demand of an entry changes.
    pub Counted-put_demand :
        (id : Bytes) (e : PrefixEntry) (d : PrefixDemand)
        → entry_of id m ≡ e
        → Counted (put id (record e { demand = d }) m) total oneoff idle_total next
    Counted-put_demand id e d h =
        Counted-put id (record e { demand = d }) total oneoff idle_total next (rw h refl)
          (rw h refl) (omega arith)
          (subst (λ (x : PrefixEntry). InstancesOk next x.instances) h (entry_ok id))

  note_demand-IsConsistent :
      (r : RegistryInner) (id : Option Bytes) (wall cpu : Carrier) (now : ℕ)
      → IsConsistent r
      → IsConsistent (note_demand r id wall cpu now)
  unfolding note_demand
  note_demand-IsConsistent r none wall cpu now c = c
  note_demand-IsConsistent r (some id) wall cpu now c = elim (Option-cases (lookup id r.prefixes)) [
    | inl h ↦ rw (note_demand, h) c
    | inr (e, h) ↦
        rw (note_demand, h) (Counted-put_demand _ _ _ _ _ c id e _ (ap (or_default new_entry) h))
  ]

  pub note_slot_sample-IsConsistent :
      (r : RegistryInner) (id : Option Bytes) (wall cpu : Carrier) (now : ℕ)
      → IsConsistent r
      → IsConsistent (note_slot_sample r id wall cpu now)
  unfolding note_slot_sample recompute_slots
  note_slot_sample-IsConsistent r id wall cpu now c =
      let noted = note_demand-IsConsistent r id wall cpu now c in
      elim (Bool-cases
        (ltb ((note_demand r id wall cpu now).releases_since_recompute + 1) recompute_every)) [
          | inl h ↦ rw h noted
          | inr h ↦ rw h noted
        ]

  note_demand-instances :
      (r : RegistryInner) (id : Option Bytes) (wall cpu : Carrier) (now : ℕ) (at : Bytes)
      → (entry_of at (note_demand r id wall cpu now).prefixes).instances
        ≡ (entry_of at r.prefixes).instances
  unfolding note_demand
  note_demand-instances r none wall cpu now at = refl
  note_demand-instances r (some id) wall cpu now at = elim (Option-cases (lookup id r.prefixes)) [
    | inl h ↦ rw (note_demand, h) refl
    | inr (e, h) ↦
        let fed = record e { demand = note_completion e.demand wall cpu now } in
        elim (Bool-cases (same id at)) [
          | inr q ↦ rw (note_demand, h, lookup-put_other id at fed r.prefixes q) refl
          | inl q ↦
              let eq = same_sound id at q in
              rw (note_demand, h)
                (subst
                  (λ b.
                    (entry_of b (put id fed r.prefixes)).instances
                    ≡ (entry_of b r.prefixes).instances)
                  eq (rw (lookup-put id fed r.prefixes, h) refl))
        ]
  ]

  -- A completion's sample changes no entry's instances.
  pub note_slot_sample-instances :
      (r : RegistryInner) (id : Option Bytes) (wall cpu : Carrier) (now : ℕ) (at : Bytes)
      → (entry_of at (note_slot_sample r id wall cpu now).prefixes).instances
        ≡ (entry_of at r.prefixes).instances
  unfolding note_slot_sample recompute_slots
  note_slot_sample-instances r id wall cpu now at =
      let noted = note_demand-instances r id wall cpu now at in
      elim (Bool-cases
        (ltb ((note_demand r id wall cpu now).releases_since_recompute + 1) recompute_every)) [
          | inl h ↦ rw (note_slot_sample, h) noted
          | inr h ↦ rw (note_slot_sample, h) noted
        ]
