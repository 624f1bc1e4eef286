-- ===== src/Warm/State.antt =====
-- crates/core/src/warm.rs: the registry's state and the slot allowance. The channel to an instance's
-- thread is left out: an instance is what the registry knows of it. `settled_heap` is the reading that
-- the owner thread leaves in the shared load.
use iso.Base.{
  ℕ, ◌+◌, Bool, false, not, ◌&&◌, Option, none, some, List, [], ◌∷◌, ◌++◌, min, ltb, ◌==◌,
  if◌then◌else◌, map,
}
use iso.Float.{F64}
use iso.Wire.Bytes.{Bytes}
use iso.Limits.{u32_max}
use iso.Policy.{PassOutcome, SlotFacts, target_slots}
use iso.Warm.Map.{lookup, put}
use iso.Warm.Demand.{PrefixDemand, new_demand, note_completion, slot_facts}

pub record HeapCaps : Type 0 where
  pub soft_bytes : ℕ
  pub hard_bytes : ℕ

abbrev pub same_caps : HeapCaps → HeapCaps → Bool
same_caps a b = (a.soft_bytes == b.soft_bytes) && (a.hard_bytes == b.hard_bytes)

-- `InstanceHandle` and `Instance` in one.
pub record Instance : Type 0 where
  pub id : ℕ
  pub last_used : ℕ
  pub heap_used_bytes : ℕ
  pub settled_heap : ℕ
  pub in_flight : ℕ
  pub caps : HeapCaps
  pub soft_strikes : ℕ
  pub dead : Bool

-- `in_flight == 0 && !dead`.
abbrev pub is_idle : Instance → Bool
is_idle i = (i.in_flight == 0) && not i.dead

-- Completed runs between two recomputations of the allowance.
abbrev pub recompute_every : ℕ
recompute_every = 32

module _ ⦃fl : F64⦄ where
  open fl use {Carrier}

  pub record PrefixEntry : Type 0 where
    pub instances : List Instance
    pub demand : PrefixDemand

  abbrev pub new_entry : PrefixEntry
  new_entry = record { instances = []; demand = new_demand }

  -- `slot_allowance` is the process-wide counter that every `Result` carries.
  pub record RegistryInner : Type 0 where
    pub prefixes : List (Bytes × PrefixEntry)
    pub total : ℕ
    pub oneoff_running : ℕ
    pub idle_total : ℕ
    pub next_instance_id : ℕ
    pub shedding : Bool
    pub last_pass : Option PassOutcome
    pub oneoff_demand : PrefixDemand
    pub releases_since_recompute : ℕ
    pub cores : ℕ
    pub slot_allowance : ℕ

  unfoldable pub new_registry : ℕ → RegistryInner
  new_registry cores = record {
    prefixes = [];
    total = 0;
    oneoff_running = 0;
    idle_total = 0;
    next_instance_id = 1;
    shedding = false;
    last_pass = none;
    oneoff_demand = new_demand;
    releases_since_recompute = 0;
    cores = cores;
    slot_allowance = 0;
  }

  -- The two lines that a registry acts on.
  pub record Marks : Type 0 where
    pub warm_budget_bytes : ℕ
    pub hard_line_bytes : ℕ

  -- `container::usage_bytes().or_else(rss::process_rss_bytes)` is `reading`; no line asks for one when
  -- both are disabled.
  unfoldable pub sample_usage : Marks → Option ℕ → Option ℕ
  sample_usage w reading =
      if (w.warm_budget_bytes == 0) && (w.hard_line_bytes == 0) then none else reading

  -- `filter_map`.
  abbrev pub somes : List (Option SlotFacts) → List SlotFacts
  somes [] = []
  somes (none ∷ rest) = somes rest
  somes (some f ∷ rest) = f ∷ somes rest

  unfoldable pub note_demand : RegistryInner → Option Bytes → Carrier → Carrier → ℕ → RegistryInner
  note_demand inner none wall_ms cpu_ms now = record inner {
    oneoff_demand = note_completion inner.oneoff_demand wall_ms cpu_ms now;
  }
  note_demand inner (some id) wall_ms cpu_ms now = elim (lookup id inner.prefixes) [
    | none ↦ inner
    | some e ↦ record inner {
      prefixes =
          put id (record e { demand = note_completion e.demand wall_ms cpu_ms now }) inner.prefixes;
    }
  ]

  unfoldable pub recompute_slots : RegistryInner → ℕ → RegistryInner
  recompute_slots inner now =
      let facts = somes (
        map (λ (e : Bytes × PrefixEntry). slot_facts (e.1).demand now) inner.prefixes
        ++ (slot_facts inner.oneoff_demand now ∷ [])) in
      record inner {
        releases_since_recompute = 0;
        slot_allowance = min (target_slots facts inner.cores) u32_max;
      }

  unfoldable pub note_slot_sample :
      RegistryInner → Option Bytes → Carrier → Carrier → ℕ → RegistryInner
  unfolding note_demand recompute_slots
  note_slot_sample inner prefix_id wall_ms cpu_ms now =
      let noted = note_demand inner prefix_id wall_ms cpu_ms now in
      let n = noted.releases_since_recompute + 1 in
      if ltb n recompute_every
      then record noted { releases_since_recompute = n }
      else recompute_slots noted now
