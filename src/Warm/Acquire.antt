-- ===== src/Warm/Acquire.antt =====
-- crates/core/src/warm.rs: `WarmRegistry::acquire` and the reservation of a one-off run.
use iso.Base.{
  ℕ, zero, suc, ◌+◌, ◌-◌, Bool, true, false, not, ◌&&◌, ◌||◌, Option, none, some, List, [], ◌∷◌,
  ◌++◌, ltb, if◌then◌else◌, map, get_elem?, enumerate, keep, max_by, length,
}
use iso.Float.{F64}
use iso.Wire.Bytes.{Bytes}
use iso.Policy.{JoinFact, index, pick_join_target, join_fallback, should_spawn}
use iso.Warm.Map.{lookup, put, or_default}
use iso.Warm.Demand.{PrefixDemand, ewma_update, ewma_get, note_arrival, arrivals_per_sec}
use iso.Warm.State.{
  HeapCaps, same_caps, Instance, is_idle, PrefixEntry, new_entry, RegistryInner, Marks,
  sample_usage,
}
use iso.Warm.Pressure.{pressure_pass, admit}

-- What the surroundings answer during one operation: the usage reading, the clocks, each owner
-- thread's utilization, and whether a thread could be spawned.
pub record World : Type 0 where
  pub reading : Option ℕ
  pub now : ℕ
  pub pass_now : ℕ
  pub spawned_at : ℕ
  pub spawns : Bool
  pub util_permille : ℕ → ℕ

-- `panicked` is an index out of range, which `acquire` never reaches.
pub data Acquired : Type 0 where
  attached : ℕ → Acquired
  cold refused spawn_failed panicked : Acquired

abbrev pub modify_at : {A : Type 0} → ℕ → (A → A) → List A → List A
modify_at n f [] = []
modify_at zero f (x ∷ xs) = f x ∷ xs
modify_at (suc n) f (x ∷ xs) = x ∷ modify_at n f xs

-- `max_by_key(last_used)`, which gives the last of equal ones.
abbrev pub warmer : ℕ × Instance → ℕ × Instance → Bool
warmer a b = ltb (b.1).last_used (a.1).last_used

abbrev pub is_reusable : HeapCaps → ℕ × Instance → Bool
is_reusable caps e = is_idle e.1 && same_caps (e.1).caps caps

unfoldable pub idle_pos : HeapCaps → List Instance → Option ℕ
idle_pos caps instances = index (max_by warmer (keep (is_reusable caps) (enumerate 0 instances)))

abbrev pub is_joinable : HeapCaps → ℕ × Instance → Bool
is_joinable caps e = not (e.1).dead && same_caps (e.1).caps caps

-- The joinable instances with their positions.
abbrev pub joinable : HeapCaps → List Instance → List (ℕ × Instance)
joinable caps instances = keep (is_joinable caps) (enumerate 0 instances)

abbrev pub live_count : List Instance → ℕ
live_count instances = length (keep (λ i. not i.dead) instances)

abbrev pub join_fact : (ℕ → ℕ) → ℕ × Instance → JoinFact
join_fact util e = record { in_flight = (e.1).in_flight; util_permille = util (e.1).id }

abbrev pub taken : Instance → Instance
taken i = record i { in_flight = 1 }

abbrev pub joined : Instance → Instance
joined i = record i { in_flight = i.in_flight + 1 }

abbrev pub spawned : ℕ → HeapCaps → ℕ → Instance
spawned id caps at = record {
  id = id;
  last_used = at;
  heap_used_bytes = 0;
  settled_heap = 0;
  in_flight = 1;
  caps = caps;
  soft_strikes = 0;
  dead = false;
}

-- `target.or_else(|| join_fallback(..))`.
abbrev pub or_fallback : Option ℕ → List JoinFact → Option ℕ
or_fallback none facts = join_fallback facts
or_fallback (some i) facts = some i

abbrev pub is_none : Option ℕ → Bool
is_none none = true
is_none (some i) = false

module _ ⦃fl : F64⦄ where
  open fl use {Carrier, of_nat, to_u64}

  -- The run's arrival in the prefix's demand; the heap average starts at the run's cap.
  unfoldable pub arrived : PrefixDemand → ℕ → ℕ → PrefixDemand
  unfolding note_arrival ewma_update
  arrived d now run_cap_bytes =
      let noted = note_arrival d now in
      if not noted.heap_bytes.seeded && ltb 0 run_cap_bytes
      then record noted { heap_bytes = ewma_update noted.heap_bytes (of_nat run_cap_bytes) }
      else noted

  abbrev pub with_instances : RegistryInner → Bytes → PrefixEntry → List Instance → RegistryInner
  with_instances inner prefix_id e instances = record inner {
    prefixes = put prefix_id (record e { instances = instances }) inner.prefixes;
  }

  -- Attach to the instance at a position.
  unfoldable pub attach_at :
      RegistryInner → Bytes → PrefixEntry → ℕ → (Instance → Instance) → RegistryInner × Acquired
  attach_at inner prefix_id e pos change = elim (get_elem? e.instances pos) [
    | none ↦ (inner, panicked)
    | some i ↦ (with_instances inner prefix_id e (modify_at pos change e.instances), attached i.id)
  ]

  unfoldable pub reuse_idle : RegistryInner → Bytes → PrefixEntry → ℕ → RegistryInner × Acquired
  unfolding attach_at
  reuse_idle inner prefix_id e pos =
      attach_at (record inner { idle_total = inner.idle_total - 1 }) prefix_id e pos taken

  unfoldable pub spawn_pooled :
      RegistryInner → Bytes → PrefixEntry → HeapCaps → World → RegistryInner × Acquired
  spawn_pooled inner prefix_id e caps w =
      let id = inner.next_instance_id in
      let grown = record inner {
        total = inner.total + 1;
        next_instance_id = inner.next_instance_id + 1;
      } in
      if not w.spawns then (inner, spawn_failed) else (
        with_instances grown prefix_id e (e.instances ++ (spawned id caps w.spawned_at ∷ [])),
        attached id,
      )

  -- Nothing to join: the admission line, then the latch, then the spawn.
  unfoldable pub first_isolate :
      Marks
      → RegistryInner
      → Bytes
      → PrefixEntry
      → HeapCaps
      → Bool
      → Option ℕ
      → World
      → RegistryInner × Acquired
  unfolding spawn_pooled
  first_isolate marks inner prefix_id e caps admit_warm usage w =
      if not (admit marks usage caps.hard_bytes)
      then (inner, refused)
      else if admit_warm
      then spawn_pooled inner prefix_id e caps w
      else if not w.spawns
      then (inner, spawn_failed)
      else (
        record inner { total = inner.total + 1; oneoff_running = inner.oneoff_running + 1 },
        cold,
      )

  abbrev pub spawn_cap : Option Carrier → ℕ → ℕ
  spawn_cap none run_cap_bytes = run_cap_bytes
  spawn_cap (some h) run_cap_bytes = to_u64 h

  unfoldable pub join_at :
      RegistryInner → Bytes → PrefixEntry → Option (ℕ × Instance) → RegistryInner × Acquired
  unfolding attach_at
  join_at inner prefix_id e none = (inner, panicked)
  join_at inner prefix_id e (some (pos, i)) = attach_at inner prefix_id e pos joined

  -- `match join`: the chosen fact's position, or a spawn.
  unfoldable pub join_or_spawn :
      RegistryInner
      → Bytes
      → PrefixEntry
      → HeapCaps
      → World
      → List (ℕ × Instance)
      → Option ℕ
      → RegistryInner × Acquired
  unfolding join_at spawn_pooled
  join_or_spawn inner prefix_id e caps w js none = spawn_pooled inner prefix_id e caps w
  join_or_spawn inner prefix_id e caps w js (some i) = join_at inner prefix_id e (get_elem? js i)

  -- The latch, the CPU count and the admission line, at the average heap of the prefix's runs.
  unfoldable pub can_spawn : Marks → RegistryInner → PrefixEntry → HeapCaps → Bool → Option ℕ → Bool
  can_spawn marks inner e caps admit_warm usage =
      admit_warm
      && (ltb (live_count e.instances) inner.cores
          && admit marks usage (spawn_cap (ewma_get e.demand.heap_bytes) caps.hard_bytes))

  -- The demand asks for another isolate.
  unfoldable pub wants_spawn : RegistryInner → PrefixEntry → Bool
  wants_spawn inner e = should_spawn (record {
    arrivals_per_sec = arrivals_per_sec e.demand;
    cpu_ms_per_run = ewma_get e.demand.cpu_ms;
    live_instances = live_count e.instances;
    cores = inner.cores;
  })

  -- Join a pooled instance or open another one.
  unfoldable pub route :
      Marks
      → RegistryInner
      → Bytes
      → PrefixEntry
      → HeapCaps
      → Bool
      → Option ℕ
      → World
      → List (ℕ × Instance)
      → RegistryInner × Acquired
  unfolding join_or_spawn can_spawn wants_spawn
  route marks inner prefix_id e caps admit_warm usage w js =
      let facts = map (join_fact w.util_permille) js in
      let target = pick_join_target facts in
      join_or_spawn inner prefix_id e caps w js (
        if (wants_spawn inner e || is_none target) && can_spawn marks inner e caps admit_warm usage
        then none
        else or_fallback target facts)

  unfoldable pub past_idle :
      Marks
      → RegistryInner
      → Bytes
      → PrefixEntry
      → HeapCaps
      → Bool
      → Option ℕ
      → World
      → List (ℕ × Instance)
      → RegistryInner × Acquired
  unfolding first_isolate route
  past_idle marks inner prefix_id e caps admit_warm usage w [] =
      first_isolate marks inner prefix_id e caps admit_warm usage w
  past_idle marks inner prefix_id e caps admit_warm usage w (j ∷ js) =
      route marks inner prefix_id e caps admit_warm usage w (j ∷ js)

  unfoldable pub pick_instance :
      Marks
      → RegistryInner
      → Bytes
      → PrefixEntry
      → HeapCaps
      → Bool
      → Option ℕ
      → World
      → Option ℕ
      → RegistryInner × Acquired
  unfolding reuse_idle past_idle
  pick_instance marks inner prefix_id e caps admit_warm usage w (some pos) =
      reuse_idle inner prefix_id e pos
  pick_instance marks inner prefix_id e caps admit_warm usage w none =
      past_idle marks inner prefix_id e caps admit_warm usage w (joinable caps e.instances)

  -- `entry(prefix_id).or_default()`, and the run's arrival.
  unfoldable pub known_entry : RegistryInner → Bytes → HeapCaps → World → PrefixEntry
  unfolding arrived
  known_entry inner prefix_id caps w =
      let e = or_default new_entry (lookup prefix_id inner.prefixes) in
      record e { demand = arrived e.demand w.now caps.hard_bytes }

  unfoldable pub acquire :
      Marks → RegistryInner → Bytes → HeapCaps → World → RegistryInner × Acquired
  unfolding known_entry pick_instance
  acquire marks inner prefix_id caps w =
      let usage = sample_usage marks w.reading in
      let (admit_warm, passed) = pressure_pass inner usage marks.warm_budget_bytes w.pass_now in
      let known = known_entry passed prefix_id caps w in
      pick_instance marks (with_instances passed prefix_id known known.instances) prefix_id known
        caps admit_warm usage w (idle_pos caps known.instances)

  -- `Err` is `false`: the admission line refuses the one-off run.
  unfoldable pub reserve_oneoff : Marks → RegistryInner → ℕ → World → RegistryInner × Bool
  reserve_oneoff marks inner run_cap_bytes w =
      let usage = sample_usage marks w.reading in
      let (admit_warm, passed) = pressure_pass inner usage marks.warm_budget_bytes w.pass_now in
      if not (admit marks usage run_cap_bytes) then (passed, false) else (
        record passed { total = passed.total + 1; oneoff_running = passed.oneoff_running + 1 },
        true,
      )
