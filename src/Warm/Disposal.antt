-- ===== src/Warm/Disposal.antt =====
-- What a disposal leaves: only dying instances of the prefix, and every other prefix as it was.
use iso.Base.{
  ◌<◌, ◌≡◌, refl, inl, inr, true, false, Option, none, some, List, [], ◌∷◌, arith, ◌==◌, Bool-cases,
  All,
}
use iso.Float.{F64}
use iso.Wire.Bytes.{Bytes}
use iso.Prefix.{same}
use iso.Warm.Map.{
  lookup, DistinctKeys, lookup-put, lookup-put_other, lookup-remove, lookup-remove_other,
}
use iso.Warm.State.{Instance, PrefixEntry, RegistryInner}
use iso.Warm.Release.{mark_dead, is_empty, put_or_remove, disposed, dispose_prefix}
use iso.Warm.Invariant.{entry_of, IsConsistent}

-- A run is in flight, and the instance dies with the last one.
abbrev pub IsDying : Instance → Type 0
IsDying i = (i.dead ≡ true) × (0 < i.in_flight)

mark_dead-IsDying : (xs : List Instance) → All IsDying (mark_dead xs)
unfolding mark_dead
mark_dead-IsDying [] = tt
mark_dead-IsDying (x ∷ xs) = elim (Bool-cases (x.in_flight == 0)) [
  | inl h ↦ rw h (mark_dead-IsDying xs)
  | inr h ↦ rw h ((refl, ground arith), mark_dead-IsDying xs)
]

module _ ⦃fl : F64⦄ where
  disposed-IsDying :
      (r : RegistryInner) (id : Bytes) (o : Option PrefixEntry)
      → DistinctKeys r.prefixes
      → lookup id r.prefixes ≡ o
      → All IsDying (entry_of id (disposed r id o).prefixes).instances
  unfolding disposed put_or_remove
  disposed-IsDying r id none d h = rw h tt
  disposed-IsDying r id (some e) d h = elim (Bool-cases (is_empty (mark_dead e.instances))) [
    | inl q ↦ rw (disposed, put_or_remove, q, lookup-remove id r.prefixes d) tt
    | inr q ↦
        rw
          (
            disposed,
            put_or_remove,
            q,
            lookup-put id (record e { instances = mark_dead e.instances }) r.prefixes,
          )
          (mark_dead-IsDying e.instances)
  ]

  disposed_other :
      (r : RegistryInner) (id other : Bytes) (o : Option PrefixEntry)
      → same id other ≡ false
      → lookup other (disposed r id o).prefixes ≡ lookup other r.prefixes
  unfolding disposed put_or_remove
  disposed_other r id other none d = refl
  disposed_other r id other (some e) d = elim (Bool-cases (is_empty (mark_dead e.instances))) [
    | inl q ↦ rw (disposed, put_or_remove, q) (lookup-remove_other id other r.prefixes d)
    | inr q ↦
        rw (disposed, put_or_remove, q)
          (lookup-put_other id other (record e { instances = mark_dead e.instances }) r.prefixes d)
  ]

  -- After a disposal in a consistent registry every instance of the prefix that is left is dead and
  -- still has a run in flight, and the entries of the other prefixes are unchanged.
  pub dispose_prefix-IsDying :
      (r : RegistryInner) (id : Bytes)
      → IsConsistent r
      → All IsDying (entry_of id (dispose_prefix r id).prefixes).instances
        × ((other : Bytes)
            → same id other ≡ false
            → lookup other (dispose_prefix r id).prefixes ≡ lookup other r.prefixes)
  unfolding dispose_prefix
  dispose_prefix-IsDying r id k = (
    disposed-IsDying r id _ k.keys refl,
    λ other d. disposed_other r id other (lookup id r.prefixes) d,
  )
