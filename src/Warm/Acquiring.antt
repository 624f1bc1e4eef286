-- ===== src/Warm/Acquiring.antt =====
-- The whole of `acquire` and of the reservation of a one-off run, from the pressure pass on.
use iso.Base.{ℕ, ◌≡◌, refl, ap, inl, inr, Bool, Option, none, some, arith, Bool-cases}
use iso.Float.{F64}
use iso.Wire.Bytes.{Bytes}
use iso.Warm.Map.{or_default, lookup-put}
use iso.Warm.State.{HeapCaps, PrefixEntry, new_entry, RegistryInner, Marks, sample_usage}
use iso.Warm.Pressure.{pressure_pass, admit}
use iso.Warm.Acquire.{
  World, with_instances, idle_pos, pick_instance, known_entry, acquire, reserve_oneoff,
}
use iso.Warm.Invariant.{entry_of, Counted-put_demand, IsConsistent}
use iso.Warm.Shedding.{pressure_pass-IsShed}
use iso.Warm.Attaching.{IsAnswered, may_open, reuse_idle-IsAnswered, past_idle-IsAnswered}

module _ ⦃fl : F64⦄ where
  pick_instance-IsAnswered :
      (marks : Marks) (r : RegistryInner) (id : Bytes) (e : PrefixEntry) (caps : HeapCaps)
      (warm : Bool) (usage : Option ℕ) (w : World) (o : Option ℕ)
      → IsConsistent r
      → entry_of id r.prefixes ≡ e
      → idle_pos caps e.instances ≡ o
      → IsAnswered r caps id warm
          (may_open marks usage caps e)
          (pick_instance marks r id e caps warm usage w o)
  unfolding pick_instance
  pick_instance-IsAnswered marks r id e caps warm usage w none k here h =
      past_idle-IsAnswered r id e caps warm _ k here marks usage w _ refl h refl
  pick_instance-IsAnswered marks r id e caps warm usage w (some pos) k here h =
      reuse_idle-IsAnswered r id e caps warm _ k here pos h

  -- The registry and the verdict of the pass that a request begins with.
  abbrev pub passed : Marks → RegistryInner → World → RegistryInner
  passed marks r w =
      (pressure_pass r (sample_usage marks w.reading) marks.warm_budget_bytes w.pass_now).1

  abbrev pub may_pool : Marks → RegistryInner → World → Bool
  may_pool marks r w =
      (pressure_pass r (sample_usage marks w.reading) marks.warm_budget_bytes w.pass_now).0

  passed-IsConsistent :
      (marks : Marks) (r : RegistryInner) (w : World)
      → IsConsistent r
      → IsConsistent (passed marks r w)
  passed-IsConsistent marks r w k =
      (pressure_pass-IsShed r (sample_usage marks w.reading) marks.warm_budget_bytes w.pass_now
        k).consistent

  -- From a consistent registry, `acquire` never indexes out of range. It leaves a consistent registry,
  -- an attached id is that of a live instance of the prefix with the run's heap limits and with a run
  -- in flight, after the pass one isolate at most is opened and only when the lines allow one, and a
  -- pooled one only when the pass does.
  pub acquire-IsAnswered :
      (marks : Marks) (r : RegistryInner) (id : Bytes) (caps : HeapCaps) (w : World)
      → IsConsistent r
      → IsAnswered
          (passed marks r w)
          caps
          id
          (may_pool marks r w)
          (may_open marks
            (sample_usage marks w.reading)
            caps
            (known_entry (passed marks r w) id caps w))
          (acquire marks r id caps w)
  unfolding acquire known_entry
  acquire-IsAnswered marks r id caps w k =
      let p = passed marks r w in
      let e = known_entry p id caps w in
      let a =
        pick_instance-IsAnswered marks (with_instances p id e e.instances) id e caps
          (may_pool marks r w) (sample_usage marks w.reading) w _
          (Counted-put_demand _ _ _ _ _ (passed-IsConsistent marks r w k) id _ e.demand refl)
          (ap (or_default new_entry) (lookup-put id e p.prefixes)) refl in
      record { consistent = a.consistent; answer = a.answer; opened = a.opened; pooled = a.pooled }

  pub reserve_oneoff-IsConsistent :
      (marks : Marks) (r : RegistryInner) (run_cap : ℕ) (w : World)
      → IsConsistent r
      → IsConsistent (reserve_oneoff marks r run_cap w).0
  unfolding reserve_oneoff
  reserve_oneoff-IsConsistent marks r run_cap w k =
      let p = passed-IsConsistent marks r w k in
      elim (Bool-cases (admit marks (sample_usage marks w.reading) run_cap)) [
        | inl h ↦
            rw (reserve_oneoff, h)
              (record {
                total_eq = omega (arith, p.total_eq);
                idle_eq = p.idle_eq;
                instances_ok = p.instances_ok;
                keys = p.keys;
              })
        | inr h ↦ rw (reserve_oneoff, h) p
      ]
