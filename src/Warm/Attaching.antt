-- ===== src/Warm/Attaching.antt =====
-- What `acquire` and the reservation of a one-off run do to the registry and answer.
use iso.Base.{
  ℕ, ◌+◌, ◌-◌, ◌≤◌, ◌<◌, ◌≡◌, refl, sym, subst, ◌⊎◌, inl, inr, Bool, true, false, ◌&&◌, ◌||◌,
  Option, none, some, List, [], ◌∷◌, ◌++◌, arith, ltb, Bool-cases, if◌then◌else◌, &&-true, Elem,
  get_elem?, length-append, map,
}
use iso.Float.{F64}
use iso.Wire.Bytes.{Bytes}
use iso.Policy.{pick_join_target}
use iso.Warm.Map.{lookup-put}
use iso.Warm.Demand.{ewma_get}
use iso.Warm.State.{HeapCaps, same_caps, Instance, is_idle, PrefixEntry, RegistryInner, Marks}
use iso.Warm.Pressure.{admit}
use iso.Warm.Release.{one_if}
use iso.Warm.Acquire.{
  World, Acquired, attached, cold, refused, spawn_failed, panicked, modify_at, idle_pos, joinable,
  join_fact, taken, joined, spawned, attach_at, reuse_idle, spawn_pooled, first_isolate, spawn_cap,
  or_fallback, is_none, can_spawn, wants_spawn, live_count, join_at, join_or_spawn, route,
  past_idle,
}
use iso.Warm.Counts.{
  InstanceOk, InstancesOk, length-modify_at, count-modify_at, DistinctIds-modify_at, All-modify_at,
  InstancesOk-spawned, idle_count-spawned,
}
use iso.Warm.Invariant.{idle, entry_of, Counted-put, IsConsistent, entry_idle_le, entry_ok}
use iso.Warm.Positions.{
  IsUsable, idle_pos_sound, joinable_sound, IsIn, join_choice-IsIn, join_choice_none,
  Elem-modify_at,
}

-- A run is added, and nothing else that an attachment depends on changes.
record IsAttach (change : Instance → Instance) : Type 0 where
  same_id : (j : Instance) → (change j).id ≡ j.id
  same_dead : (j : Instance) → (change j).dead ≡ j.dead
  same_limits : (j : Instance) → (change j).caps ≡ j.caps
  busy : (j : Instance) → 0 < (change j).in_flight

taken-IsAttach : IsAttach taken
taken-IsAttach = record {
  same_id = λ j. refl;
  same_dead = λ j. refl;
  same_limits = λ j. refl;
  busy = λ j. omega arith;
}

joined-IsAttach : IsAttach joined
joined-IsAttach = record {
  same_id = λ j. refl;
  same_dead = λ j. refl;
  same_limits = λ j. refl;
  busy = λ j. omega arith;
}

not_idle_busy : (i : Instance) → 0 < i.in_flight → is_idle i ≡ false
not_idle_busy i h = ground arith

same_caps_refl : (c : HeapCaps) → same_caps c c ≡ true
same_caps_refl c = ground arith

or_true : (a b : Bool) → b ≡ true → (a || b) ≡ true
or_true a b h = ground arith

Elem-last : (i : Instance) (xs : List Instance) → Elem i (xs ++ (i ∷ []))
Elem-last i [] = inl refl
Elem-last i (x ∷ xs) = inr (Elem-last i xs)

module _ ⦃fl : F64⦄ where
  open fl use {Carrier}

  -- An attached id is that of a live instance of the prefix that fits and runs something.
  abbrev pub IsAnswer : HeapCaps → Bytes → List (Bytes × PrefixEntry) → Acquired → Type 0
  IsAnswer caps id m (attached n) =
      (i : Instance) × Elem i (entry_of id m).instances
      × (i.id ≡ n)
      × (i.dead ≡ false)
      × (same_caps i.caps caps ≡ true)
      × (0 < i.in_flight)
  IsAnswer caps id m cold = Unit
  IsAnswer caps id m refused = Unit
  IsAnswer caps id m spawn_failed = Unit
  IsAnswer caps id m panicked = ⊥

  -- The lines let one more isolate in, at the run's cap or at the average heap of the prefix.
  abbrev pub may_open : Marks → Option ℕ → HeapCaps → PrefixEntry → Bool
  may_open marks usage caps e =
      admit marks usage caps.hard_bytes
      || admit marks usage (spawn_cap (ewma_get e.demand.heap_bytes) caps.hard_bytes)

  -- What a branch of `acquire` leaves and answers. `warm` says whether the pass allows a pooled
  -- instance, `open` whether the lines allow an isolate.
  pub record IsAnswered (r : RegistryInner) (caps : HeapCaps) (id : Bytes) (warm admitted : Bool)
      (p : RegistryInner × Acquired) : Type 0 where
    pub consistent : IsConsistent p.0
    pub answer : IsAnswer caps id (p.0).prefixes p.1
    pub opened : ((p.0).total ≡ r.total) ⊎ (((p.0).total ≡ r.total + 1) × (admitted ≡ true))
    pub pooled : ((p.0).next_instance_id ≡ r.next_instance_id) ⊎ (warm ≡ true)

  module _ (r : RegistryInner) (id : Bytes) (e : PrefixEntry) (caps : HeapCaps)
      (warm admitted : Bool) (k : IsConsistent r) (here : entry_of id r.prefixes ≡ e) where
    entry_at-ok : InstancesOk r.next_instance_id e.instances
    entry_at-ok =
        subst (λ (x : PrefixEntry). InstancesOk r.next_instance_id x.instances) here
          (entry_ok _ _ _ _ _ k id)

    attach_at-IsAnswered :
        (left pos : ℕ) (change : Instance → Instance) (i : Instance)
        → IsUsable caps e.instances pos i
        → IsAttach change
        → left ≡ r.idle_total - one_if (is_idle i)
        → IsAnswered r caps id warm admitted
            (attach_at (record r { idle_total = left }) id e pos change)
    unfolding attach_at
    attach_at-IsAnswered left pos change i u a q =
        let ok = entry_at-ok in
        let xs = modify_at pos change e.instances in
        let size_eq = length-modify_at change pos e.instances in
        let idle_eq =
          rw (not_idle_busy (change i) (a.busy i)) at
            (count-modify_at change is_idle pos e.instances i u.at) in
        let idles =
          subst (λ (x : PrefixEntry). idle x ≤ r.idle_total) here (entry_idle_le _ _ _ _ _ k id) in
        let shape =
          All-modify_at (InstanceOk r.next_instance_id) change pos e.instances
            (λ j o. (rw (a.same_id j) o.0, inr (a.busy j))) ok.0 in
        rw (attach_at, u.at)
          (record {
            consistent =
                Counted-put _ _ _ _ _ k id (record e { instances = xs }) _ _ _ _
                  (rw (here, size_eq) refl) (rw here (omega (arith, q, idle_eq, idles)))
                  (omega arith)
                  (shape, DistinctIds-modify_at change a.same_id pos e.instances ok.1);
            answer = rw (lookup-put id (record e { instances = xs }) r.prefixes) (
              change i,
              Elem-modify_at change e.instances pos i u.at,
              a.same_id i,
              rw (a.same_dead i) u.live,
              rw (a.same_limits i) u.fits,
              a.busy i,
            );
            opened = inl refl;
            pooled = inl refl;
          })

    pub reuse_idle-IsAnswered :
        (pos : ℕ)
        → idle_pos caps e.instances ≡ some pos
        → IsAnswered r caps id warm admitted (reuse_idle r id e pos)
    unfolding reuse_idle
    reuse_idle-IsAnswered pos h =
        let (i, (u, idle)) = idle_pos_sound caps e.instances pos h in
        attach_at-IsAnswered (r.idle_total - 1) pos taken i u taken-IsAttach (rw idle refl)

    join_at-IsAnswered :
        (n : ℕ)
        → idle_pos caps e.instances ≡ none
        → IsIn (joinable caps e.instances) (some n)
        → IsAnswered r caps id warm admitted
            (join_at r id e (get_elem? (joinable caps e.instances) n))
    unfolding join_at
    join_at-IsAnswered n h ((pos, i), at) =
        let (u, idle) = joinable_sound caps e.instances n pos i h at in
        rw (at, join_at)
          (attach_at-IsAnswered r.idle_total pos joined i u joined-IsAttach (rw idle (omega arith)))

    -- Nothing changes when a thread cannot be spawned.
    unchanged-IsAnswered :
        (a : Acquired) → IsAnswer caps id r.prefixes a → IsAnswered r caps id warm admitted (r, a)
    unchanged-IsAnswered a h = record {
      consistent = k;
      answer = h;
      opened = inl refl;
      pooled = inl refl;
    }

    spawn_pooled-IsAnswered :
        (w : World)
        → warm ≡ true
        → admitted ≡ true
        → IsAnswered r caps id warm admitted (spawn_pooled r id e caps w)
    unfolding spawn_pooled
    spawn_pooled-IsAnswered w may fits = elim (Bool-cases w.spawns) [
      | inr h ↦ rw (spawn_pooled, h) (unchanged-IsAnswered spawn_failed tt)
      | inl h ↦
          let new = spawned r.next_instance_id caps w.spawned_at in
          let xs = e.instances ++ (new ∷ []) in
          let size_eq = length-append e.instances (new ∷ []) in
          rw (spawn_pooled, h)
            (record {
              consistent =
                  Counted-put _ _ _ _ _ k id (record e { instances = xs }) _ _ _ _
                    (rw here (omega (arith, size_eq)))
                    (rw (here, idle_count-spawned r.next_instance_id caps w.spawned_at e.instances)
                      refl)
                    (omega arith)
                    (InstancesOk-spawned r.next_instance_id caps w.spawned_at e.instances
                      entry_at-ok);
              answer =
                  rw (lookup-put id (record e { instances = xs }) r.prefixes)
                    (new, Elem-last new e.instances, refl, refl, same_caps_refl caps, omega arith);
              opened = inr (refl, fits);
              pooled = inr may;
            })
    ]

    first_isolate-IsAnswered :
        (marks : Marks) (usage : Option ℕ) (w : World)
        → may_open marks usage caps e ≡ admitted
        → IsAnswered r caps id warm admitted (first_isolate marks r id e caps warm usage w)
    unfolding first_isolate
    first_isolate-IsAnswered marks usage w m =
        elim (Bool-cases (admit marks usage caps.hard_bytes)) [
          | inr h ↦ rw (first_isolate, h) (unchanged-IsAnswered refused tt)
          | inl h ↦
              let fits : admitted ≡ true = subst (λ b. b ≡ true) m (rw h refl) in
              elim (Bool-cases warm) [
                | inl q ↦
                    rw (first_isolate, h, q)
                      (subst (λ b. IsAnswered r caps id b admitted (spawn_pooled r id e caps w)) q
                        (spawn_pooled-IsAnswered w q fits))
                | inr q ↦ elim (Bool-cases w.spawns) [
                  | inr z ↦
                      rw (first_isolate, h, q, z)
                        (subst (λ b. IsAnswered r caps id b admitted (r, spawn_failed)) q
                          (unchanged-IsAnswered spawn_failed tt))
                  | inl z ↦
                      rw (first_isolate, h, q, z)
                        (record {
                          consistent = record {
                            total_eq = omega (arith, k.total_eq);
                            idle_eq = k.idle_eq;
                            instances_ok = k.instances_ok;
                            keys = k.keys;
                          };
                          answer = tt;
                          opened = inr (refl, fits);
                          pooled = inl refl;
                        })
                ]
              ]
        ]

    join_or_spawn-IsAnswered :
        (w : World) (o : Option ℕ)
        → idle_pos caps e.instances ≡ none
        → IsIn (joinable caps e.instances) o
        → (o ≡ none → (warm ≡ true) × (admitted ≡ true))
        → IsAnswered r caps id warm admitted
            (join_or_spawn r id e caps w (joinable caps e.instances) o)
    unfolding join_or_spawn
    join_or_spawn-IsAnswered w none h i may =
        let (warms, fits) = may refl in spawn_pooled-IsAnswered w warms fits
    join_or_spawn-IsAnswered w (some n) h i may = join_at-IsAnswered n h i

    may_spawn :
        (marks : Marks) (usage : Option ℕ)
        → may_open marks usage caps e ≡ admitted
        → can_spawn marks r e caps warm usage ≡ true
        → (warm ≡ true) × (admitted ≡ true)
    unfolding can_spawn
    may_spawn marks usage m h =
        let (a, b) = &&-true warm _ h in
        let (c, d) = &&-true (ltb (live_count e.instances) r.cores) _ b in
        (a, subst (λ x. x ≡ true) m (or_true _ _ d))

    pub past_idle-IsAnswered :
        (marks : Marks) (usage : Option ℕ) (w : World) (js : List (ℕ × Instance))
        → may_open marks usage caps e ≡ admitted
        → idle_pos caps e.instances ≡ none
        → joinable caps e.instances ≡ js
        → IsAnswered r caps id warm admitted (past_idle marks r id e caps warm usage w js)
    unfolding past_idle route
    past_idle-IsAnswered marks usage w [] m h q = first_isolate-IsAnswered marks usage w m
    past_idle-IsAnswered marks usage w (j ∷ js) m h q =
        let target = pick_join_target (map (join_fact w.util_permille) (j ∷ js)) in
        let spawns = (wants_spawn r e || is_none target) && can_spawn marks r e caps warm usage in
        let choice =
          if spawns then none else or_fallback target (map (join_fact w.util_permille) (j ∷ js)) in
        subst (λ l. IsAnswered r caps id warm admitted (join_or_spawn r id e caps w l choice)) q
          (join_or_spawn-IsAnswered w choice h
            (subst (λ l. IsIn l choice) (sym q) (join_choice-IsIn w.util_permille (j ∷ js) spawns))
            (λ n.
              may_spawn marks usage m
                (&&-true (wants_spawn r e || is_none target) _
                  (join_choice_none w.util_permille j js spawns n)).1))
