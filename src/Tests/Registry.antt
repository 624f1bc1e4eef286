-- ===== src/Tests/Registry.antt =====
-- A registry of one prefix: a first run spawns an instance, a second one joins it, and one is released.
use iso.Base.{◌≡◌, ◌+◌, refl, inr, true, false, none, some, [], ◌∷◌, arith, All, map}
use iso.Float.{whole}
use iso.Wire.Bytes.{Bytes}
use iso.Prefix.{same}
use iso.Warm.Map.{lookup}
use iso.Warm.State.{HeapCaps, RegistryInner, new_registry, Marks, sample_usage}
use iso.Policy.{watermark_action, admit_isolate}
use iso.Warm.Pressure.{pressure_pass, admit}
use iso.Warm.Acquire.{World, Acquired, idle_pos, acquire, known_entry}
use iso.Warm.Release.{Finish, release, dispose_prefix, sum}
use iso.Warm.Stats.{stats}
use iso.Warm.Invariant.{entry_of, IsConsistent, new_registry-IsConsistent}
use iso.Warm.Shedding.{IsShed, pass_drops, pressure_pass-IsShed}
use iso.Warm.Attaching.{IsAnswered, may_open}
use iso.Warm.Acquiring.{passed, may_pool, acquire-IsAnswered}
use iso.Warm.Releasing.{IsRunning, release-IsConsistent}
use iso.Warm.Reach.{acquires, releases, disposes, here, next, reachable-IsConsistent}
use iso.Warm.Tally.{IsSortedById, stats_lem}
use iso.Warm.Disposal.{IsDying, dispose_prefix-IsDying}

abbrev a_prefix : Bytes
a_prefix = 112 ∷ []

abbrev pub marks : Marks ⦃fl = whole⦄
marks = record { warm_budget_bytes = 1000; hard_line_bytes = 2000 }

abbrev caps : HeapCaps
caps = record { soft_bytes = 100; hard_bytes = 200 }

abbrev pub calm : World
calm = record {
  reading = some 500;
  now = 1_000_000;
  pass_now = 1_000_000;
  spawned_at = 1_000_000;
  spawns = true;
  util_permille = λ id. 100;
}

abbrev fresh : RegistryInner ⦃fl = whole⦄
fresh = new_registry ⦃fl = whole⦄ 4

abbrev warmed : RegistryInner ⦃fl = whole⦄
warmed = (acquire ⦃fl = whole⦄ marks fresh a_prefix caps calm).0

warmed-IsConsistent : IsConsistent ⦃fl = whole⦄ warmed
warmed-IsConsistent =
    (acquire-IsAnswered ⦃fl = whole⦄ marks fresh a_prefix caps calm
      (new_registry-IsConsistent ⦃fl = whole⦄ 4)).consistent

spawned_first : (acquire ⦃fl = whole⦄ marks fresh a_prefix caps calm).1 ≡ Acquired.attached 1
unfolding acquire pressure_pass new_registry idle_pos sample_usage watermark_action admit
    admit_isolate
spawned_first = refl

-- The first run is in flight.
first_runs : IsRunning ⦃fl = whole⦄ warmed a_prefix 1
unfolding acquire pressure_pass new_registry idle_pos sample_usage watermark_action admit
    admit_isolate same
first_runs = (inr (omega arith), tt)

abbrev a_finish : Finish
a_finish = record {
  tainted = false;
  heap_used_bytes = 40;
  prefix_alive = true;
  reading = some 1500;
  sampled_at = 2_000_000;
  now = 2_000_000;
  pass_now = 2_000_000;
}

abbrev rested : RegistryInner ⦃fl = whole⦄
rested = release ⦃fl = whole⦄ marks warmed a_prefix 1 a_finish 9 3

rested-IsConsistent : IsConsistent ⦃fl = whole⦄ rested
rested-IsConsistent =
    release-IsConsistent ⦃fl = whole⦄ marks warmed a_prefix 1 a_finish 9 3 warmed-IsConsistent
      first_runs

reachable-IsConsistent_example :
    IsConsistent ⦃fl = whole⦄ (dispose_prefix ⦃fl = whole⦄ rested a_prefix)
reachable-IsConsistent_example =
    reachable-IsConsistent ⦃fl = whole⦄ 4 (dispose_prefix ⦃fl = whole⦄ rested a_prefix) (
      next
        (next (next here (acquires marks fresh a_prefix caps calm))
          (releases marks warmed a_prefix 1 a_finish 9 3 first_runs))
        (disposes rested a_prefix))

-- A second run, which joins the first one's instance.
acquire-IsAnswered_example :
    IsAnswered ⦃fl = whole⦄
      (passed ⦃fl = whole⦄ marks warmed calm)
      caps
      a_prefix
      (may_pool ⦃fl = whole⦄ marks warmed calm)
      (may_open ⦃fl = whole⦄ marks
        (some 500)
        caps
        (known_entry ⦃fl = whole⦄ (passed ⦃fl = whole⦄ marks warmed calm) a_prefix caps calm))
      (acquire ⦃fl = whole⦄ marks warmed a_prefix caps calm)
unfolding sample_usage
acquire-IsAnswered_example =
    acquire-IsAnswered ⦃fl = whole⦄ marks warmed a_prefix caps calm warmed-IsConsistent

pressure_pass-IsShed_example :
    IsShed ⦃fl = whole⦄ rested
      (pass_drops ⦃fl = whole⦄ rested (some 3000) 1000)
      (pressure_pass ⦃fl = whole⦄ rested (some 3000) 1000 5_000_000).1
pressure_pass-IsShed_example =
    pressure_pass-IsShed ⦃fl = whole⦄ rested (some 3000) 1000 5_000_000 rested-IsConsistent

stats_lem_example :
    ((stats ⦃fl = whole⦄ marks rested none (some 9)).warm_idle ≡ rested.idle_total)
    × ((stats ⦃fl = whole⦄ marks rested none (some 9)).warm_idle
          + (stats ⦃fl = whole⦄ marks rested none (some 9)).warm_busy
          + (stats ⦃fl = whole⦄ marks rested none (some 9)).oneoff_running
        ≡ rested.total)
    × (sum (map (λ e. e.1) (stats ⦃fl = whole⦄ marks rested none (some 9)).per_prefix)
        ≡ (stats ⦃fl = whole⦄ marks rested none (some 9)).warm_idle)
    × (sum (map (λ e. e.2) (stats ⦃fl = whole⦄ marks rested none (some 9)).per_prefix)
        ≡ (stats ⦃fl = whole⦄ marks rested none (some 9)).warm_busy)
    × IsSortedById (stats ⦃fl = whole⦄ marks rested none (some 9)).per_prefix
stats_lem_example = stats_lem ⦃fl = whole⦄ marks rested none (some 9) rested-IsConsistent

dispose_prefix-IsDying_example :
    All IsDying
      (entry_of ⦃fl = whole⦄ a_prefix
        (dispose_prefix ⦃fl = whole⦄ warmed a_prefix).prefixes).instances
    × ((other : Bytes)
        → same a_prefix other ≡ false
        → lookup other (dispose_prefix ⦃fl = whole⦄ warmed a_prefix).prefixes
          ≡ lookup other warmed.prefixes)
dispose_prefix-IsDying_example =
    dispose_prefix-IsDying ⦃fl = whole⦄ warmed a_prefix warmed-IsConsistent
