-- ===== src/Warm/Releasing.antt =====
-- The releases and the disposal keep the registry consistent.
use iso.Base.{
  ℕ, ◌+◌, ◌-◌, ◌≤◌, ◌<◌, ◌≡◌, refl, sym, ap, subst, inl, inr, Bool, true, false, not, ◌&&◌, Option,
  none, some, List, [], ◌∷◌, arith, Bool-cases, if◌then◌else◌,
}
use iso.Float.{F64}
use iso.Wire.Bytes.{Bytes}
use iso.Warm.Map.{lookup, or_default, sum_by-remove, AllValues-remove, DistinctKeys-remove}
use iso.Warm.State.{
  Instance, PrefixEntry, new_entry, RegistryInner, Marks, sample_usage, note_slot_sample,
}
use iso.Warm.Release.{
  Finish, mark_dead, is_empty, release_oneoff, entry_left, put_or_remove, run_left, release,
  disposed, dispose_prefix,
}
use iso.Warm.Counts.{InstancesOk}
use iso.Warm.Leaving.{
  NoneIdle, length-leave, idle_count-leave, InstancesOk-leave, length-mark_dead,
  idle_count-mark_dead, drained-idle_count, InstancesOk-mark_dead,
}
use iso.Warm.Invariant.{
  size, idle, entry_of, Counted, Counted-put, IsConsistent, entry_size_le, entry_idle_le, entry_ok,
  note_slot_sample-IsConsistent, note_slot_sample-instances,
}
use iso.Warm.Shedding.{pressure_pass-IsShed}

pub empty-length : (xs : List Instance) → is_empty xs ≡ true → xs ≡ []
empty-length [] h = refl
empty-length (x ∷ xs) h = cc

module _ ⦃fl : F64⦄ where
  open fl use {Carrier}

  -- A known entry is replaced, or goes when it is empty and its prefix is dead.
  Counted-put_or_remove :
      (m : List (Bytes × PrefixEntry)) (total oneoff idle_total next : ℕ)
      → Counted m total oneoff idle_total next
      → (id : Bytes) (old e : PrefixEntry) (alive : Bool) (total_ idle_ : ℕ)
      → lookup id m ≡ some old
      → total_ + size old ≡ total + size e
      → idle_ + idle old ≡ idle_total + idle e
      → InstancesOk next e.instances
      → Counted (put_or_remove alive id e m) total_ oneoff idle_ next
  unfolding put_or_remove
  Counted-put_or_remove m total oneoff idle_total next c id old e alive total_ idle_ h ht hi ok =
      let here : entry_of id m ≡ old = ap (or_default new_entry) h in
      elim (Bool-cases (not alive && is_empty e.instances)) [
        | inr q ↦
            rw (put_or_remove, q)
              (Counted-put m total oneoff idle_total next c id e total_ oneoff idle_ next
                (rw here (omega (arith, ht))) (rw here hi) (omega arith) ok)
        | inl q ↦
            let none_left : e.instances ≡ [] = empty-length e.instances (ground arith) in
            let ht' = rw none_left at ht in
            let hi' = rw none_left at hi in
            rw (put_or_remove, q)
              (record {
                total_eq = omega (arith, c.total_eq, sum_by-remove size id old m h, ht');
                idle_eq = omega (arith, c.idle_eq, sum_by-remove idle id old m h, hi');
                instances_ok =
                    AllValues-remove (λ (x : PrefixEntry). InstancesOk next x.instances) id m
                      c.instances_ok;
                keys = DistinctKeys-remove id m c.keys;
              })
      ]

  -- The run that leaves is in flight: no idle instance of the prefix has its id.
  abbrev pub IsRunning : RegistryInner → Bytes → ℕ → Type 0
  IsRunning r prefix_id id = NoneIdle id (entry_of prefix_id r.prefixes).instances

  run_left-IsConsistent :
      (r : RegistryInner) (prefix_id : Bytes) (id : ℕ) (f : Finish) (cpu : Carrier)
      (o : Option PrefixEntry)
      → IsConsistent r
      → IsRunning r prefix_id id
      → lookup prefix_id r.prefixes ≡ o
      → IsConsistent (run_left r prefix_id id f cpu o)
  unfolding run_left entry_left
  run_left-IsConsistent r prefix_id id f cpu none k run h = k
  run_left-IsConsistent r prefix_id id f cpu (some e) k run h =
      let here : entry_of prefix_id r.prefixes ≡ e = ap (or_default new_entry) h in
      let runs = subst (λ (x : PrefixEntry). NoneIdle id x.instances) here run in
      let ok =
        subst (λ (x : PrefixEntry). InstancesOk r.next_instance_id x.instances) here
          (entry_ok _ _ _ _ _ k prefix_id) in
      let room =
        subst (λ (x : PrefixEntry). size x + r.oneoff_running ≤ r.total) here
          (entry_size_le _ _ _ _ _ k prefix_id) in
      Counted-put_or_remove _ _ _ _ _ k prefix_id e (entry_left e id f cpu) f.prefix_alive _ _ h
        (omega (arith, length-leave id f e.instances, room))
        (omega (arith, idle_count-leave id f e.instances runs))
        (InstancesOk-leave id f r.next_instance_id e.instances ok)

  disposed-IsConsistent :
      (r : RegistryInner) (prefix_id : Bytes) (o : Option PrefixEntry)
      → IsConsistent r
      → lookup prefix_id r.prefixes ≡ o
      → IsConsistent (disposed r prefix_id o)
  unfolding disposed
  disposed-IsConsistent r prefix_id none k h = k
  disposed-IsConsistent r prefix_id (some e) k h =
      let here : entry_of prefix_id r.prefixes ≡ e = ap (or_default new_entry) h in
      let ok =
        subst (λ (x : PrefixEntry). InstancesOk r.next_instance_id x.instances) here
          (entry_ok _ _ _ _ _ k prefix_id) in
      let room =
        subst (λ (x : PrefixEntry). size x + r.oneoff_running ≤ r.total) here
          (entry_size_le _ _ _ _ _ k prefix_id) in
      let idles =
        subst (λ (x : PrefixEntry). idle x ≤ r.idle_total) here
          (entry_idle_le _ _ _ _ _ k prefix_id) in
      Counted-put_or_remove _ _ _ _ _ k prefix_id e (record e { instances = mark_dead e.instances })
        false _ _ h (omega (arith, length-mark_dead e.instances, room))
        (omega
          (arith, idle_count-mark_dead e.instances, drained-idle_count _ e.instances ok.0, idles))
        (InstancesOk-mark_dead r.next_instance_id e.instances ok)

  pub dispose_prefix-IsConsistent :
      (r : RegistryInner) (prefix_id : Bytes)
      → IsConsistent r
      → IsConsistent (dispose_prefix r prefix_id)
  unfolding dispose_prefix
  dispose_prefix-IsConsistent r prefix_id k = disposed-IsConsistent r prefix_id _ k refl

  noted-IsConsistent :
      (r : RegistryInner) (tainted : Bool) (id : Option Bytes) (wall cpu : Carrier) (now : ℕ)
      → IsConsistent r
      → IsConsistent (if not tainted then note_slot_sample r id wall cpu now else r)
  noted-IsConsistent r true id wall cpu now k = k
  noted-IsConsistent r false id wall cpu now k = note_slot_sample-IsConsistent r id wall cpu now k

  noted-instances :
      (r : RegistryInner) (tainted : Bool) (id : Bytes) (wall cpu : Carrier) (now : ℕ)
      → (entry_of id
          (if not tainted then note_slot_sample r (some id) wall cpu now else r).prefixes).instances
        ≡ (entry_of id r.prefixes).instances
  noted-instances r true id wall cpu now = refl
  noted-instances r false id wall cpu now = note_slot_sample-instances r (some id) wall cpu now id

  pub release_oneoff-IsConsistent :
      (marks : Marks) (r : RegistryInner) (tainted : Bool) (wall cpu : Carrier) (reading : Option ℕ)
      (now pass_now : ℕ)
      → IsConsistent r
      → 0 < r.oneoff_running
      → IsConsistent (release_oneoff marks r tainted wall cpu reading now pass_now)
  unfolding release_oneoff
  release_oneoff-IsConsistent marks r tainted wall cpu reading now pass_now k one =
      let less = record r { total = r.total - 1; oneoff_running = r.oneoff_running - 1 } in
      let kept : IsConsistent less = record {
        total_eq = omega (arith, k.total_eq, one);
        idle_eq = k.idle_eq;
        instances_ok = k.instances_ok;
        keys = k.keys;
      } in
      (pressure_pass-IsShed _ (sample_usage marks reading) marks.warm_budget_bytes pass_now
        (noted-IsConsistent less tainted none wall cpu now kept)).consistent

  pub release-IsConsistent :
      (marks : Marks) (r : RegistryInner) (prefix_id : Bytes) (id : ℕ) (f : Finish)
      (wall cpu : Carrier)
      → IsConsistent r
      → IsRunning r prefix_id id
      → IsConsistent (release marks r prefix_id id f wall cpu)
  unfolding release
  release-IsConsistent marks r prefix_id id f wall cpu k run =
      let noted =
        if not f.tainted then note_slot_sample r (some prefix_id) wall cpu f.sampled_at else r in
      (pressure_pass-IsShed _ (sample_usage marks f.reading) marks.warm_budget_bytes f.pass_now (
        run_left-IsConsistent noted prefix_id id f cpu _
          (noted-IsConsistent r f.tainted (some prefix_id) wall cpu f.sampled_at k)
          (subst (NoneIdle id) (sym (noted-instances r f.tainted prefix_id wall cpu f.sampled_at))
            run)
          refl)).consistent
