-- ===== src/Warm/Release.antt =====
-- crates/core/src/warm.rs: the releases, the disposal of a prefix and the statistics.
use iso.Base.{
  ℕ, ◌+◌, ◌-◌, Bool, true, false, not, ◌&&◌, ◌||◌, Option, none, some, List, [], ◌∷◌, ltb, ◌==◌,
  if◌then◌else◌, map, keep, length,
}
use iso.Float.{F64}
use iso.Wire.Bytes.{Bytes}
use iso.Policy.{soft_strike}
use iso.Warm.Map.{lookup, put, remove}
use iso.Warm.Demand.{PrefixDemand, ewma_update}
use iso.Warm.State.{Instance, PrefixEntry, RegistryInner, Marks, sample_usage, note_slot_sample}
use iso.Warm.Pressure.{pressure_pass}

-- The facts of a finished run, and what the surroundings answer while it is released.
pub record Finish : Type 0 where
  pub tainted : Bool
  pub heap_used_bytes : ℕ
  pub prefix_alive : Bool
  pub reading : Option ℕ
  pub sampled_at : ℕ
  pub now : ℕ
  pub pass_now : ℕ

-- The soft line: a clean finish is judged, if the instance has one.
unfoldable pub struck : Instance → Finish → Instance
struck i f =
    let (strikes, retire) = soft_strike i.soft_strikes (ltb i.caps.soft_bytes f.heap_used_bytes) in
    if not f.tainted && ltb 0 i.caps.soft_bytes
    then record i { soft_strikes = strikes; dead = i.dead || retire }
    else i

-- One run leaves: the strike, and death by taint or by a disposed prefix.
unfoldable pub left : Instance → Finish → Instance
unfolding struck
left i f =
    let j = struck (record i { in_flight = i.in_flight - 1 }) f in
    record j { dead = j.dead || (f.tainted || not f.prefix_alive) }

-- The instance goes idle.
abbrev pub rested : Instance → Finish → Instance
rested i f = record i { last_used = f.now; heap_used_bytes = f.heap_used_bytes; settled_heap = 0 }

-- A drained dead instance is removed, a drained live one goes idle, and a busy one stays.
unfoldable pub settle : Instance → Finish → Option Instance
settle i f = if i.in_flight == 0 then (if i.dead then none else some (rested i f)) else some i

abbrev pub cons_some : Option Instance → List Instance → List Instance
cons_some none xs = xs
cons_some (some x) xs = x ∷ xs

-- `position(|i| i.id == id)`, and the change or the removal there.
unfoldable pub leave : ℕ → Finish → List Instance → List Instance
unfolding left settle
leave id f [] = []
leave id f (i ∷ rest) =
    if i.id == id then cons_some (settle (left i f) f) rest else i ∷ leave id f rest

-- What that does to the two totals: whether an instance went, and whether one came to rest.
unfoldable pub leave_counts : ℕ → Finish → List Instance → Bool × Bool
unfolding left
leave_counts id f [] = (false, false)
leave_counts id f (i ∷ rest) =
    let j = left i f in
    if i.id == id
    then ((j.in_flight == 0) && j.dead, (j.in_flight == 0) && not j.dead)
    else leave_counts id f rest

abbrev pub one_if : Bool → ℕ
one_if true = 1
one_if false = 0

abbrev pub buried : Instance → Instance
buried i = record i { dead = true }

-- `retain_mut` of a disposal: the busy ones, marked dead.
unfoldable pub mark_dead : List Instance → List Instance
mark_dead instances = map buried (keep (λ i. not (i.in_flight == 0)) instances)

abbrev pub drained_count : List Instance → ℕ
drained_count instances = length (keep (λ i. i.in_flight == 0) instances)

abbrev pub is_empty : List Instance → Bool
is_empty [] = true
is_empty (i ∷ rest) = false

abbrev pub sum : List ℕ → ℕ
sum [] = 0
sum (n ∷ rest) = n + sum rest

module _ ⦃fl : F64⦄ where
  open fl use {Carrier, of_nat}

  unfoldable pub release_oneoff :
      Marks → RegistryInner → Bool → Carrier → Carrier → Option ℕ → ℕ → ℕ → RegistryInner
  release_oneoff marks inner tainted wall_ms cpu_ms reading now pass_now =
      let less = record inner {
        total = inner.total - 1;
        oneoff_running = inner.oneoff_running - 1;
      } in
      let noted = if not tainted then note_slot_sample less none wall_ms cpu_ms now else less in
      (pressure_pass noted (sample_usage marks reading) marks.warm_budget_bytes pass_now).1

  -- A clean completion feeds the averages.
  unfoldable pub fed : PrefixDemand → Finish → Carrier → PrefixDemand
  unfolding ewma_update
  fed d f cpu_ms = if f.tainted then d else record d {
    cpu_ms = ewma_update d.cpu_ms cpu_ms;
    heap_bytes =
        if ltb 0 f.heap_used_bytes
        then ewma_update d.heap_bytes (of_nat f.heap_used_bytes)
        else d.heap_bytes;
  }

  -- The entry after one run left it.
  unfoldable pub entry_left : PrefixEntry → ℕ → Finish → Carrier → PrefixEntry
  unfolding fed leave
  entry_left e id f cpu_ms = record {
    instances = leave id f e.instances;
    demand = fed e.demand f cpu_ms;
  }

  -- A disposed prefix goes with its last instance.
  unfoldable pub put_or_remove :
      Bool → Bytes → PrefixEntry → List (Bytes × PrefixEntry) → List (Bytes × PrefixEntry)
  put_or_remove prefix_alive prefix_id e prefixes =
      if not prefix_alive && is_empty e.instances
      then remove prefix_id prefixes
      else put prefix_id e prefixes

  unfoldable pub run_left :
      RegistryInner → Bytes → ℕ → Finish → Carrier → Option PrefixEntry → RegistryInner
  unfolding entry_left leave_counts put_or_remove
  run_left inner prefix_id id f cpu_ms none = inner
  run_left inner prefix_id id f cpu_ms (some e) =
      let (gone, idle) = leave_counts id f e.instances in
      record inner {
        prefixes = put_or_remove f.prefix_alive prefix_id (entry_left e id f cpu_ms) inner.prefixes;
        total = inner.total - one_if gone;
        idle_total = inner.idle_total + one_if idle;
      }

  unfoldable pub release :
      Marks → RegistryInner → Bytes → ℕ → Finish → Carrier → Carrier → RegistryInner
  unfolding run_left
  release marks inner prefix_id id f wall_ms cpu_ms =
      let noted =
        if not f.tainted
        then note_slot_sample inner (some prefix_id) wall_ms cpu_ms f.sampled_at
        else inner in
      let after = run_left noted prefix_id id f cpu_ms (lookup prefix_id noted.prefixes) in
      (pressure_pass after (sample_usage marks f.reading) marks.warm_budget_bytes f.pass_now).1

  unfoldable pub disposed : RegistryInner → Bytes → Option PrefixEntry → RegistryInner
  unfolding mark_dead put_or_remove
  disposed inner prefix_id none = inner
  disposed inner prefix_id (some e) = record inner {
    prefixes =
        put_or_remove false prefix_id (record e { instances = mark_dead e.instances })
          inner.prefixes;
    total = inner.total - drained_count e.instances;
    idle_total = inner.idle_total - drained_count e.instances;
  }

  unfoldable pub dispose_prefix : RegistryInner → Bytes → RegistryInner
  unfolding disposed
  dispose_prefix inner prefix_id = disposed inner prefix_id (lookup prefix_id inner.prefixes)
