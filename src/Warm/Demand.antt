-- ===== src/Warm/Demand.antt =====
-- crates/core/src/warm.rs: the demand statistics of a prefix. Instants are nanoseconds.
use iso.Base.{ℕ, ◌-◌, Bool, true, false, not, ◌||◌, Option, none, some, ltb, if◌then◌else◌}
use iso.Float.{F64}
use iso.Policy.{SlotFacts}

-- 30 s, in nanoseconds.
abbrev pub demand_stale_after : ℕ
demand_stale_after = 30_000_000_000

module _ ⦃fl : F64⦄ where
  open fl use {Carrier, of_nat, decimal, as_secs, add, mul, div, fmin, lt, le}

  -- A fading average.
  pub record Ewma : Type 0 where
    pub value : Carrier
    pub seeded : Bool

  abbrev pub new_ewma : Ewma
  new_ewma = record { value = of_nat 0; seeded = false }

  unfoldable pub ewma_update : Ewma → Carrier → Ewma
  ewma_update e sample = record {
    value = if e.seeded then add (mul e.value (decimal 8 1)) (mul sample (decimal 2 1)) else sample;
    seeded = true;
  }

  unfoldable pub ewma_get : Ewma → Option Carrier
  ewma_get e = if e.seeded then some e.value else none

  -- The lowest sample, which drifts up by half a percent a sample.
  pub record DecayingMin : Type 0 where
    pub value : Carrier
    pub seeded : Bool

  abbrev pub new_min : DecayingMin
  new_min = record { value = of_nat 0; seeded = false }

  unfoldable pub min_update : DecayingMin → Carrier → DecayingMin
  min_update m sample =
      if not m.seeded || le sample m.value
      then record { value = sample; seeded = true }
      else record m { value = fmin (mul m.value (decimal 1005 3)) sample }

  unfoldable pub min_get : DecayingMin → Option Carrier
  min_get m = if m.seeded then some m.value else none

  pub record PrefixDemand : Type 0 where
    pub last_arrival : Option ℕ
    pub interval_ms : Ewma
    pub cpu_ms : Ewma
    pub wall_min : DecayingMin
    pub cpu_min : DecayingMin
    pub last_sample : Option ℕ
    pub heap_bytes : Ewma

  abbrev pub new_demand : PrefixDemand
  new_demand = record {
    last_arrival = none;
    interval_ms = new_ewma;
    cpu_ms = new_ewma;
    wall_min = new_min;
    cpu_min = new_min;
    last_sample = none;
    heap_bytes = new_ewma;
  }

  unfoldable pub interval_after : Ewma → Option ℕ → ℕ → Ewma
  unfolding ewma_update
  interval_after interval none now = interval
  interval_after interval (some last) now =
      ewma_update interval (mul (as_secs (now - last)) (of_nat 1000))

  unfoldable pub note_arrival : PrefixDemand → ℕ → PrefixDemand
  unfolding interval_after
  note_arrival d now = record d {
    interval_ms = interval_after d.interval_ms d.last_arrival now;
    last_arrival = some now;
  }

  unfoldable pub rate_of : Option Carrier → Carrier
  rate_of none = of_nat 0
  rate_of (some ms) = if lt (of_nat 0) ms then div (of_nat 1000) ms else of_nat 0

  unfoldable pub arrivals_per_sec : PrefixDemand → Carrier
  unfolding rate_of ewma_get
  arrivals_per_sec d = rate_of (ewma_get d.interval_ms)

  unfoldable pub note_completion : PrefixDemand → Carrier → Carrier → ℕ → PrefixDemand
  unfolding min_update
  note_completion d wall_ms cpu_ms now = record d {
    wall_min = if lt (of_nat 0) wall_ms then min_update d.wall_min wall_ms else d.wall_min;
    cpu_min = if lt (of_nat 0) cpu_ms then min_update d.cpu_min cpu_ms else d.cpu_min;
    last_sample = some now;
  }

  unfoldable pub facts_of : Carrier → Option Carrier → Option Carrier → Option SlotFacts
  facts_of rate (some wall) (some cpu) =
      some (record { arrivals_per_sec = rate; wall_ms = wall; cpu_ms = cpu })
  facts_of rate _ _ = none

  unfoldable pub fresh_facts : PrefixDemand → ℕ → Option ℕ → Option SlotFacts
  unfolding facts_of min_get arrivals_per_sec
  fresh_facts d now none = none
  fresh_facts d now (some last) =
      if ltb demand_stale_after (now - last)
      then none
      else facts_of (arrivals_per_sec d) (min_get d.wall_min) (min_get d.cpu_min)

  unfoldable pub slot_facts : PrefixDemand → ℕ → Option SlotFacts
  unfolding fresh_facts
  slot_facts d now = fresh_facts d now d.last_sample
