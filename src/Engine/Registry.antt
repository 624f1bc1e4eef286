-- ===== src/Engine/Registry.antt =====
-- How many one-off slots each operation of the registry leaves taken.
use iso.Base.{
  ℕ, zero, suc, ◌+◌, ◌-◌, ◌≡◌, refl, sym, ap, ◌∙◌, not, if◌then◌else◌, Bool, true, false, Option,
  none, some, List, [], ◌∷◌, arith, Bool-cases, Option-cases, inl, inr, ltb, get_elem?,
}
use iso.Float.{F64}
use iso.Wire.Bytes.{Bytes}
use iso.Warm.Map.{lookup}
use iso.Warm.State.{
  HeapCaps, Instance, PrefixEntry, RegistryInner, Marks, note_slot_sample, sample_usage,
  note_demand, recompute_slots, recompute_every,
}
use iso.Warm.Pressure.{
  Candidate, evict_scored, drop_picked, drop_instance, shed, record_pass, pressure_pass, admit,
}
use iso.Warm.Acquire.{
  World, Acquired, attached, cold, refused, spawn_failed, panicked, acquire, reserve_oneoff,
  attach_at, reuse_idle, spawn_pooled, first_isolate, join_at, join_or_spawn, route, past_idle,
  pick_instance, known_entry, with_instances, idle_pos,
}
use iso.Warm.Acquiring.{passed, may_pool}
use iso.Warm.Release.{Finish, release_oneoff, run_left, release, disposed, dispose_prefix}

-- A cold acquisition takes a slot.
abbrev pub slot_taken : Acquired → ℕ
slot_taken (attached id) = 0
slot_taken cold = 1
slot_taken refused = 0
slot_taken spawn_failed = 0
slot_taken panicked = 0

module _ ⦃fl : F64⦄ where
  open fl use {Carrier}

  abbrev slots_or : RegistryInner → Option RegistryInner → ℕ
  slots_or r none = r.oneoff_running
  slots_or r (some s) = s.oneoff_running

  drop_picked-oneoff :
      (r : RegistryInner) (o : Option Candidate) → slots_or r (drop_picked r o) ≡ r.oneoff_running
  unfolding drop_picked drop_instance
  drop_picked-oneoff r none = refl
  drop_picked-oneoff r (some c) = refl

  evict_scored-oneoff :
      (r s : RegistryInner) (now : ℕ)
      → evict_scored r now ≡ some s
      → s.oneoff_running ≡ r.oneoff_running
  unfolding evict_scored
  evict_scored-oneoff r s now h = sym (ap (slots_or r) h) ∙ drop_picked-oneoff r _

  shed-oneoff :
      (n : ℕ) (r : RegistryInner) (now : ℕ) → (shed n r now).1.oneoff_running ≡ r.oneoff_running
  unfolding shed
  shed-oneoff zero r now = refl
  shed-oneoff (suc n) r now = elim (Option-cases (evict_scored r now)) [
    | inl h ↦ rw (shed, h) refl
    | inr (s, h) ↦ rw (shed, h) (shed-oneoff n s now ∙ evict_scored-oneoff r s now h)
  ]

  record_pass-oneoff :
      (usage : ℕ) (d : ℕ × RegistryInner)
      → (record_pass usage d).oneoff_running ≡ d.1.oneoff_running
  unfolding record_pass
  record_pass-oneoff usage (dropped, r) = elim (Bool-cases (ltb 0 dropped)) [
    | inl h ↦ rw h refl
    | inr h ↦ rw h refl
  ]

  pub pressure_pass-oneoff :
      (r : RegistryInner) (usage : Option ℕ) (budget now : ℕ)
      → (pressure_pass r usage budget now).1.oneoff_running ≡ r.oneoff_running
  unfolding pressure_pass
  pressure_pass-oneoff r none budget now = refl
  pressure_pass-oneoff r (some u) budget now = record_pass-oneoff u _ ∙ shed-oneoff _ _ now

  note_demand-oneoff :
      (r : RegistryInner) (id : Option Bytes) (wall cpu : Carrier) (now : ℕ)
      → (note_demand r id wall cpu now).oneoff_running ≡ r.oneoff_running
  unfolding note_demand
  note_demand-oneoff r none wall cpu now = refl
  note_demand-oneoff r (some id) wall cpu now = elim (Option-cases (lookup id r.prefixes)) [
    | inl h ↦ rw (note_demand, h) refl
    | inr (e, h) ↦ rw (note_demand, h) refl
  ]

  note_slot_sample-oneoff :
      (r : RegistryInner) (id : Option Bytes) (wall cpu : Carrier) (now : ℕ)
      → (note_slot_sample r id wall cpu now).oneoff_running ≡ r.oneoff_running
  unfolding note_slot_sample recompute_slots
  note_slot_sample-oneoff r id wall cpu now =
      let n = (note_demand r id wall cpu now).releases_since_recompute + 1 in
      elim (Bool-cases (ltb n recompute_every)) [
        | inl h ↦ rw h (note_demand-oneoff r id wall cpu now)
        | inr h ↦ rw h (note_demand-oneoff r id wall cpu now)
      ]

  pub release_oneoff-oneoff :
      (marks : Marks) (r : RegistryInner) (tainted : Bool) (wall cpu : Carrier) (reading : Option ℕ)
      (now pass_now : ℕ)
      → (release_oneoff marks r tainted wall cpu reading now pass_now).oneoff_running
        ≡ r.oneoff_running - 1
  unfolding release_oneoff
  release_oneoff-oneoff marks r true wall cpu reading now pass_now = pressure_pass-oneoff _ _ _ _
  release_oneoff-oneoff marks r false wall cpu reading now pass_now =
      pressure_pass-oneoff _ _ _ _ ∙ note_slot_sample-oneoff _ none wall cpu now

  run_left-oneoff :
      (r : RegistryInner) (prefix_id : Bytes) (id : ℕ) (f : Finish) (cpu : Carrier)
      (o : Option PrefixEntry)
      → (run_left r prefix_id id f cpu o).oneoff_running ≡ r.oneoff_running
  unfolding run_left
  run_left-oneoff r prefix_id id f cpu none = refl
  run_left-oneoff r prefix_id id f cpu (some e) = refl

  noted-oneoff :
      (r : RegistryInner) (prefix_id : Option Bytes) (tainted : Bool) (wall cpu : Carrier) (now : ℕ)
      → (if not tainted then note_slot_sample r prefix_id wall cpu now else r).oneoff_running
        ≡ r.oneoff_running
  noted-oneoff r prefix_id true wall cpu now = refl
  noted-oneoff r prefix_id false wall cpu now = note_slot_sample-oneoff r prefix_id wall cpu now

  pub release-oneoff :
      (marks : Marks) (r : RegistryInner) (prefix_id : Bytes) (id : ℕ) (f : Finish)
      (wall cpu : Carrier)
      → (release marks r prefix_id id f wall cpu).oneoff_running ≡ r.oneoff_running
  unfolding release
  release-oneoff marks r prefix_id id f wall cpu =
      pressure_pass-oneoff _ _ _ _
      ∙ run_left-oneoff _ prefix_id id f cpu _
      ∙ noted-oneoff r (some prefix_id) f.tainted wall cpu f.sampled_at

  disposed-oneoff :
      (r : RegistryInner) (prefix_id : Bytes) (o : Option PrefixEntry)
      → (disposed r prefix_id o).oneoff_running ≡ r.oneoff_running
  unfolding disposed
  disposed-oneoff r prefix_id none = refl
  disposed-oneoff r prefix_id (some e) = refl

  pub dispose_prefix-oneoff :
      (r : RegistryInner) (prefix_id : Bytes)
      → (dispose_prefix r prefix_id).oneoff_running ≡ r.oneoff_running
  unfolding dispose_prefix
  dispose_prefix-oneoff r prefix_id = disposed-oneoff r prefix_id _

  -- The slots of a registry and an answer, from `n` slots.
  abbrev Takes : ℕ → RegistryInner × Acquired → Type 0
  Takes n x = x.0.oneoff_running ≡ slot_taken x.1 + n

  attach_at-Takes :
      (r : RegistryInner) (id : Bytes) (e : PrefixEntry) (pos : ℕ) (change : Instance → Instance)
      → Takes r.oneoff_running (attach_at r id e pos change)
  unfolding attach_at
  attach_at-Takes r id e pos change = elim (Option-cases (get_elem? e.instances pos)) [
    | inl h ↦ rw (attach_at, h) (omega arith)
    | inr (i, h) ↦ rw (attach_at, h) (omega arith)
  ]

  spawn_pooled-Takes :
      (r : RegistryInner) (id : Bytes) (e : PrefixEntry) (caps : HeapCaps) (w : World)
      → Takes r.oneoff_running (spawn_pooled r id e caps w)
  unfolding spawn_pooled
  spawn_pooled-Takes r id e caps w = elim (Bool-cases w.spawns) [
    | inl h ↦ rw h (omega arith)
    | inr h ↦ rw h (omega arith)
  ]

  first_isolate-Takes :
      (marks : Marks) (r : RegistryInner) (id : Bytes) (e : PrefixEntry) (caps : HeapCaps)
      (warm : Bool) (usage : Option ℕ) (w : World)
      → Takes r.oneoff_running (first_isolate marks r id e caps warm usage w)
  unfolding first_isolate
  first_isolate-Takes marks r id e caps warm usage w =
      elim (Bool-cases (admit marks usage caps.hard_bytes)) [
        | inr h ↦ rw h (omega arith)
        | inl h ↦ elim (Bool-cases warm) [
          | inl q ↦ rw (h, q) (spawn_pooled-Takes r id e caps w)
          | inr q ↦ elim (Bool-cases w.spawns) [
            | inl t ↦ rw (h, q, t) (omega arith)
            | inr t ↦ rw (h, q, t) (omega arith)
          ]
        ]
      ]

  join_or_spawn-Takes :
      (r : RegistryInner) (id : Bytes) (e : PrefixEntry) (caps : HeapCaps) (w : World)
      (js : List (ℕ × Instance)) (o : Option ℕ)
      → Takes r.oneoff_running (join_or_spawn r id e caps w js o)
  unfolding join_or_spawn join_at
  join_or_spawn-Takes r id e caps w js none = spawn_pooled-Takes r id e caps w
  join_or_spawn-Takes r id e caps w js (some i) = elim (Option-cases (get_elem? js i)) [
    | inl h ↦ rw h (omega arith)
    | inr ((pos, x), h) ↦ rw h (attach_at-Takes r id e pos _)
  ]

  past_idle-Takes :
      (marks : Marks) (r : RegistryInner) (id : Bytes) (e : PrefixEntry) (caps : HeapCaps)
      (warm : Bool) (usage : Option ℕ) (w : World) (js : List (ℕ × Instance))
      → Takes r.oneoff_running (past_idle marks r id e caps warm usage w js)
  unfolding past_idle route
  past_idle-Takes marks r id e caps warm usage w [] =
      first_isolate-Takes marks r id e caps warm usage w
  past_idle-Takes marks r id e caps warm usage w (j ∷ js) =
      join_or_spawn-Takes r id e caps w (j ∷ js) _

  pick_instance-Takes :
      (marks : Marks) (r : RegistryInner) (id : Bytes) (e : PrefixEntry) (caps : HeapCaps)
      (warm : Bool) (usage : Option ℕ) (w : World) (o : Option ℕ)
      → Takes r.oneoff_running (pick_instance marks r id e caps warm usage w o)
  unfolding pick_instance reuse_idle
  pick_instance-Takes marks r id e caps warm usage w none =
      past_idle-Takes marks r id e caps warm usage w _
  pick_instance-Takes marks r id e caps warm usage w (some pos) = attach_at-Takes _ id e pos _

  pub acquire-Takes :
      (marks : Marks) (r : RegistryInner) (id : Bytes) (caps : HeapCaps) (w : World)
      → (acquire marks r id caps w).0.oneoff_running
        ≡ slot_taken (acquire marks r id caps w).1 + r.oneoff_running
  unfolding acquire
  acquire-Takes marks r id caps w =
      let usage = sample_usage marks w.reading in
      let p = passed marks r w in
      let e = known_entry p id caps w in
      pick_instance-Takes marks (with_instances p id e e.instances) id e caps (may_pool marks r w)
        usage w (idle_pos caps e.instances)
      ∙ ap (λ n. slot_taken (acquire marks r id caps w).1 + n)
          (pressure_pass-oneoff r usage marks.warm_budget_bytes w.pass_now)

  -- A reservation takes a slot unless it is refused.
  abbrev pub slot_if : Bool → ℕ
  slot_if true = 1
  slot_if false = 0

  pub reserve_oneoff-Takes :
      (marks : Marks) (r : RegistryInner) (run_cap : ℕ) (w : World)
      → (reserve_oneoff marks r run_cap w).0.oneoff_running
        ≡ slot_if (reserve_oneoff marks r run_cap w).1 + r.oneoff_running
  unfolding reserve_oneoff
  reserve_oneoff-Takes marks r run_cap w =
      let usage = sample_usage marks w.reading in
      let same = pressure_pass-oneoff r usage marks.warm_budget_bytes w.pass_now in
      elim (Bool-cases (admit marks usage run_cap)) [
        | inl h ↦ rw h (omega (arith, same))
        | inr h ↦ rw h (omega (arith, same))
      ]
