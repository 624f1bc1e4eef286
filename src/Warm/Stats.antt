-- ===== src/Warm/Stats.antt =====
-- crates/core/src/warm.rs: `WarmRegistry::stats`. The process's memory readings are arguments.
use iso.Base.{
  ℕ, Bool, true, false, not, ◌&&◌, ◌||◌, Option, none, some, List, [], ◌∷◌, ltb, ◌==◌,
  if◌then◌else◌, map, keep, length,
}
use iso.Float.{F64}
use iso.Wire.Bytes.{Bytes}
use iso.Reply.Types.{RegistryStats}
use iso.Warm.State.{Instance, is_idle, PrefixEntry, RegistryInner, Marks}
use iso.Warm.Release.{sum, is_empty}

-- `a <= b` of two ids, as `cmp` orders their bytes.
abbrev pub bytes_le : Bytes → Bytes → Bool
bytes_le [] b = true
bytes_le (x ∷ a) [] = false
bytes_le (x ∷ a) (y ∷ b) = ltb x y || ((x == y) && bytes_le a b)

abbrev pub insert_by_id : Bytes × ℕ × ℕ → List (Bytes × ℕ × ℕ) → List (Bytes × ℕ × ℕ)
insert_by_id e [] = e ∷ []
insert_by_id e (f ∷ rest) = if bytes_le e.0 f.0 then e ∷ f ∷ rest else f ∷ insert_by_id e rest

-- `sort_by`, which is stable.
abbrev pub sort_by_id : List (Bytes × ℕ × ℕ) → List (Bytes × ℕ × ℕ)
sort_by_id [] = []
sort_by_id (e ∷ rest) = insert_by_id e (sort_by_id rest)

-- What an idle instance still holds: the settled reading once there is one.
abbrev pub idle_heap_bytes : Instance → ℕ
idle_heap_bytes i = if i.settled_heap == 0 then i.heap_used_bytes else i.settled_heap

abbrev pub busy_in : List Instance → ℕ
busy_in instances = length (keep (λ i. ltb 0 i.in_flight) instances)

abbrev pub idle_in : List Instance → ℕ
idle_in instances = length (keep is_idle instances)

abbrev pub runs_in : List Instance → ℕ
runs_in instances = sum (map (λ i. i.in_flight) instances)

abbrev pub heap_in : List Instance → ℕ
heap_in instances = sum (map idle_heap_bytes (keep is_idle instances))

-- `or_else(..).unwrap_or(0)`.
abbrev pub or_zero : Option ℕ → ℕ
or_zero none = 0
or_zero (some n) = n

abbrev pub or_else : Option ℕ → Option ℕ → Option ℕ
or_else none b = b
or_else (some a) b = some a

module _ ⦃fl : F64⦄ where
  abbrev pub occupied : List (Bytes × PrefixEntry) → List (Bytes × PrefixEntry)
  occupied = keep (λ e. not (is_empty (e.1).instances))

  abbrev pub over : (List Instance → ℕ) → List (Bytes × PrefixEntry) → ℕ
  over f m = sum (map (λ (e : Bytes × PrefixEntry). f (e.1).instances) (occupied m))

  abbrev pub prefix_line : Bytes × PrefixEntry → Bytes × ℕ × ℕ
  prefix_line e = (e.0, idle_in (e.1).instances, busy_in (e.1).instances)

  unfoldable pub stats : Marks → RegistryInner → Option ℕ → Option ℕ → RegistryStats
  stats marks inner container_bytes rss = record {
    oneoff_running = inner.oneoff_running;
    warm_busy = over busy_in inner.prefixes;
    warm_runs = over runs_in inner.prefixes;
    warm_idle = over idle_in inner.prefixes;
    idle_heap_bytes = over heap_in inner.prefixes;
    per_prefix = sort_by_id (map prefix_line (occupied inner.prefixes));
    warm_budget_bytes = marks.warm_budget_bytes;
    rss_bytes = or_zero rss;
    usage_bytes = or_zero (or_else container_bytes rss);
    hard_line_bytes = marks.hard_line_bytes;
    under_pressure = inner.shedding;
  }
