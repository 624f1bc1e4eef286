-- ===== src/Policy.antt =====
-- crates/core/src/policy.rs: eviction and memory-pressure policy, pure functions of their facts.
-- Instants are nanoseconds; a difference of them saturates at 0, as `saturating_duration_since` does.
pub mod Watermark
pub mod Routing
pub mod Victim
use iso.Base.{
  ℕ, zero, suc, ◌+◌, ◌-◌, ◌*◌, ◌/◌, ◌^◌, Bool, true, false, not, ◌&&◌, ◌||◌, Option, none, some,
  List, [], ◌∷◌, map, min, max, ltb, leb, ◌==◌, if◌then◌else◌, enumerate, keep, max_by, min_by,
  length,
}
use iso.Float.{F64}

pub record VictimFact : Type 0 where
  pub heap_used_bytes : ℕ
  pub last_used : ℕ

pub record PassOutcome : Type 0 where
  pub usage_at_pass : ℕ

pub record PressureFacts : Type 0 where
  pub usage_bytes : ℕ
  pub budget_bytes : ℕ
  pub was_shedding : Bool
  pub last_pass : Option PassOutcome
  pub idle_count : ℕ

pub record PressureVerdict : Type 0 where
  pub shedding : Bool
  pub evict : ℕ

abbrev pub u64_max : ℕ
u64_max = 2 ^ 64 - 1

abbrev pub abs_diff : ℕ → ℕ → ℕ
abs_diff a b = (a - b) + (b - a)

-- A tenth of the idle population, at least one.
unfoldable pub shed_target : ℕ → ℕ
shed_target idle_count = max (idle_count / 10) 1

-- The last pass left the usage within 5 % of what it acted on.
unfoldable pub is_flat : ℕ → Option PassOutcome → Bool
is_flat usage_bytes none = false
is_flat usage_bytes (some last) =
    leb (abs_diff usage_bytes last.usage_at_pass) (last.usage_at_pass / 20)

unfoldable pub watermark_action : PressureFacts → PressureVerdict
unfolding shed_target is_flat
watermark_action facts =
    let release = facts.budget_bytes / 5 * 4 in
    let shedding =
      leb facts.budget_bytes facts.usage_bytes
      || (facts.was_shedding && ltb release facts.usage_bytes) in
    if facts.budget_bytes == 0
    then record { shedding = false; evict = 0 }
    else if not shedding || facts.idle_count == 0
    then record { shedding = shedding; evict = 0 }
    else if is_flat facts.usage_bytes facts.last_pass
    then record { shedding = shedding; evict = 0 }
    else record { shedding = shedding; evict = shed_target facts.idle_count }

abbrev pub soft_line_strikes : ℕ
soft_line_strikes = 2

-- The count of strikes, a u8, and whether the instance retires.
unfoldable pub soft_strike : ℕ → Bool → ℕ × Bool
soft_strike prev over_soft =
    if not over_soft
    then (0, false)
    else let strikes = min (prev + 1) 255 in (strikes, leb soft_line_strikes strikes)

pub record AdmitFacts : Type 0 where
  pub usage_bytes : ℕ
  pub run_cap_bytes : ℕ
  pub hard_line_bytes : ℕ
  pub budget_bytes : ℕ

unfoldable pub admit_isolate : AdmitFacts → Bool
admit_isolate facts =
    if facts.run_cap_bytes == 0
    then facts.budget_bytes == 0 || ltb facts.usage_bytes facts.budget_bytes
    else facts.hard_line_bytes == 0
      || leb (min (facts.usage_bytes + facts.run_cap_bytes) u64_max) facts.hard_line_bytes

abbrev pub utilization_target_permille : ℕ
utilization_target_permille = 800

pub record JoinFact : Type 0 where
  pub in_flight : ℕ
  pub util_permille : ℕ

abbrev pub index {ℓ} : {A : Type ℓ} → Option (ℕ × A) → Option ℕ
index none = none
index (some (i, a)) = some i

abbrev pub fuller : ℕ × JoinFact → ℕ × JoinFact → Bool
fuller a b = ltb (b.1).in_flight (a.1).in_flight

-- The fullest instance whose thread is not saturated.
unfoldable pub pick_join_target : List JoinFact → Option ℕ
pick_join_target instances = index (
    max_by fuller
      (keep (λ e. ltb (e.1).util_permille utilization_target_permille) (enumerate 0 instances)))

-- The comparison of `(util_permille, in_flight)`.
abbrev pub busier : ℕ × JoinFact → ℕ × JoinFact → Bool
busier a b =
    ltb (b.1).util_permille (a.1).util_permille
    || ((a.1).util_permille == (b.1).util_permille && ltb (b.1).in_flight (a.1).in_flight)

-- The least utilized instance, whatever its load.
unfoldable pub join_fallback : List JoinFact → Option ℕ
join_fallback instances = index (min_by busier (enumerate 0 instances))

module _ ⦃fl : F64⦄ where
  open fl use {
    Carrier, of_nat, decimal, as_secs, add, mul, div, powf, fmax, round, is_finite, lt, to_u64, sum,
  }

  unfoldable pub score : VictimFact → ℕ → Carrier
  score fact now =
      mul (of_nat fact.heap_used_bytes) (powf (as_secs (now - fact.last_used)) (decimal 12 1))

  -- The order of `max_by`: by score, and of equal scores the earlier `last_used` is greater.
  abbrev pub outscores : ℕ → ℕ × VictimFact → ℕ × VictimFact → Bool
  outscores now a b =
      lt (score b.1 now) (score a.1 now)
      || (not (lt (score a.1 now) (score b.1 now)) && ltb (a.1).last_used (b.1).last_used)

  unfoldable pub pick_victim : List VictimFact → ℕ → Option ℕ
  pick_victim idle now = index (max_by (outscores now) (enumerate 0 idle))

  pub record SpawnFacts : Type 0 where
    pub arrivals_per_sec : Carrier
    pub cpu_ms_per_run : Option Carrier
    pub live_instances : ℕ
    pub cores : ℕ

  -- The demand for threads exceeds what the live instances absorb.
  unfoldable pub outgrown : SpawnFacts → Option Carrier → Bool
  outgrown f none = true
  outgrown f (some cpu_ms) =
      let demand_threads = div (mul f.arrivals_per_sec cpu_ms) (of_nat 1000) in
      let absorbed =
        div (mul (of_nat f.live_instances) (of_nat utilization_target_permille)) (of_nat 1000) in
      lt absorbed demand_threads

  unfoldable pub should_spawn : SpawnFacts → Bool
  unfolding outgrown
  should_spawn f = if leb f.cores f.live_instances then false else outgrown f f.cpu_ms_per_run

  pub record SlotFacts : Type 0 where
    pub arrivals_per_sec : Carrier
    pub wall_ms : Carrier
    pub cpu_ms : Carrier

  -- `u64::clamp`, for a floor not above the ceiling.
  abbrev pub clamp : ℕ → ℕ → ℕ → ℕ
  clamp x lo hi = if ltb x lo then lo else if ltb hi x then hi else x

  -- The formula on the folded shape, floored at the cores and below 2 ^ 32.
  unfoldable pub slots_for : ℕ → Carrier → Carrier → ℕ
  slots_for cores wall_ms cpu_ms =
      let floor = max cores 1 in
      let slots =
        div (mul (mul (decimal 50 1) (of_nat floor)) (powf wall_ms (decimal 7 1)))
          (powf cpu_ms (decimal 12 1)) in
      if not (lt (of_nat 0) wall_ms) || not (lt (of_nat 0) cpu_ms)
      then floor
      else if not (is_finite slots)
      then floor
      else clamp (to_u64 (round slots)) floor (2 ^ 32 - 1)

  abbrev pub weight : SlotFacts → Carrier
  weight p = fmax p.arrivals_per_sec (of_nat 0)

  unfoldable pub target_slots : List SlotFacts → ℕ → ℕ
  unfolding slots_for
  target_slots prefixes cores =
      let total_weight = sum (map weight prefixes) in
      let n = of_nat (length prefixes) in
      if lt (of_nat 0) total_weight
      then slots_for cores (div (sum (map (λ p. mul p.wall_ms (weight p)) prefixes)) total_weight)
          (div (sum (map (λ p. mul p.cpu_ms (weight p)) prefixes)) total_weight)
      else if length prefixes == 0
      then max cores 1
      else slots_for cores (div (sum (map (λ p. p.wall_ms) prefixes)) n)
          (div (sum (map (λ p. p.cpu_ms) prefixes)) n)
