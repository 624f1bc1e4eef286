-- ===== src/Warm/Pressure.antt =====
-- crates/core/src/warm.rs: the eviction of one instance, the pressure pass and the admission of a new
-- isolate. The usage sample and the clock are arguments.
use iso.Base.{
  ℕ, zero, suc, ◌-◌, Bool, true, false, not, Option, none, some, List, [], ◌∷◌, ◌++◌, ltb, ◌==◌,
  if◌then◌else◌, map, get_elem?, keep,
}
use iso.Float.{F64}
use iso.Wire.Bytes.{Bytes}
use iso.Policy.{VictimFact, PressureVerdict, watermark_action, admit_isolate, pick_victim}
use iso.Warm.Map.{lookup, put, or_default}
use iso.Warm.State.{Instance, is_idle, PrefixEntry, new_entry, RegistryInner, Marks}

-- An idle instance: where it is, and what the victim picker is told of it.
pub record Candidate : Type 0 where
  pub prefix_id : Bytes
  pub instance_id : ℕ
  pub fact : VictimFact

abbrev pub candidate : Bytes → Instance → Candidate
candidate prefix_id i = record {
  prefix_id = prefix_id;
  instance_id = i.id;
  fact = record { heap_used_bytes = i.heap_used_bytes; last_used = i.last_used };
}

-- `retain(|i| i.id != id)`.
abbrev pub without : ℕ → List Instance → List Instance
without id = keep (λ i. not (i.id == id))

module _ ⦃fl : F64⦄ where
  unfoldable pub candidates : List (Bytes × PrefixEntry) → List Candidate
  candidates [] = []
  candidates ((prefix_id, e) ∷ rest) =
      map (candidate prefix_id) (keep is_idle e.instances) ++ candidates rest

  unfoldable pub drop_instance : RegistryInner → Candidate → RegistryInner
  drop_instance inner c =
      let e = or_default new_entry (lookup c.prefix_id inner.prefixes) in
      record inner {
        prefixes =
            put c.prefix_id (record e { instances = without c.instance_id e.instances })
              inner.prefixes;
        total = inner.total - 1;
        idle_total = inner.idle_total - 1;
      }

  -- The candidate at the picked index.
  unfoldable pub picked : List Candidate → Option ℕ → Option Candidate
  picked cs none = none
  picked cs (some pick) = get_elem? cs pick

  unfoldable pub drop_picked : RegistryInner → Option Candidate → Option RegistryInner
  unfolding drop_instance
  drop_picked inner none = none
  drop_picked inner (some c) = some (drop_instance inner c)

  -- `false` is `none`: nothing is idle, for a picked index is in range.
  unfoldable pub evict_scored : RegistryInner → ℕ → Option RegistryInner
  unfolding drop_picked picked
  evict_scored inner now =
      let cs = candidates inner.prefixes in
      drop_picked inner (picked cs (pick_victim (map (λ c. c.fact) cs) now))

  -- `while dropped < evict && evict_scored(..)`: how many were dropped.
  unfoldable pub shed : ℕ → RegistryInner → ℕ → ℕ × RegistryInner
  shed zero inner now = (0, inner)
  shed (suc n) inner now = elim (evict_scored inner now) [
    | none ↦ (0, inner)
    | some less ↦ let (dropped, last) = shed n less now in (suc dropped, last)
  ]

  -- The pass is recorded if it dropped something.
  unfoldable pub record_pass : ℕ → ℕ × RegistryInner → RegistryInner
  record_pass usage_bytes (dropped, inner) =
      if ltb 0 dropped
      then record inner { last_pass = some (record { usage_at_pass = usage_bytes }) }
      else inner

  abbrev pub verdict_for : RegistryInner → ℕ → ℕ → PressureVerdict
  verdict_for inner usage_bytes budget_bytes = watermark_action (record {
    usage_bytes = usage_bytes;
    budget_bytes = budget_bytes;
    was_shedding = inner.shedding;
    last_pass = inner.last_pass;
    idle_count = inner.idle_total;
  })

  -- Whether a new instance may be pooled, and the registry after the pass.
  unfoldable pub pressure_pass : RegistryInner → Option ℕ → ℕ → ℕ → Bool × RegistryInner
  unfolding shed record_pass
  pressure_pass inner none budget_bytes now =
      (true, record inner { shedding = false; last_pass = none })
  pressure_pass inner (some usage_bytes) budget_bytes now =
      let verdict = verdict_for inner usage_bytes budget_bytes in
      let latched = record inner {
        shedding = verdict.shedding;
        last_pass = if verdict.shedding then inner.last_pass else none;
      } in
      (not verdict.shedding, record_pass usage_bytes (shed verdict.evict latched now))

  -- May a new isolate of that cap be created? Without a reading there are no lines.
  unfoldable pub admit : Marks → Option ℕ → ℕ → Bool
  admit w none run_cap_bytes = true
  admit w (some usage_bytes) run_cap_bytes = admit_isolate (record {
    usage_bytes = usage_bytes;
    run_cap_bytes = run_cap_bytes;
    hard_line_bytes = w.hard_line_bytes;
    budget_bytes = w.warm_budget_bytes;
  })
