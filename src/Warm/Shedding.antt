-- ===== src/Warm/Shedding.antt =====
-- What the eviction loop and the pressure pass take from the registry.
use iso.Base.{
  ℕ, zero, suc, ◌+◌, ◌≡◌, refl, sym, ap, ◌∙◌, subst, ◌⊎◌, inl, inr, Bool, true, false, not, Option,
  none, some, List, [], ◌∷◌, arith, ltb, ◌==◌, min, Bool-cases, if◌then◌else◌, All, All-weaken,
  Elem, keep, length, map,
}
use iso.Float.{F64}
use iso.Wire.Bytes.{Bytes}
use iso.Prefix.{same}
use iso.Prefix.Globals.{same_sound}
use iso.Policy.{pick_victim, PassOutcome}
use iso.Policy.Victim.{IsChoice, pick_victim-IsChoice}
use iso.Warm.Map.{put, lookup-put, lookup-put_other}
use iso.Warm.State.{Instance, is_idle, RegistryInner}
use iso.Warm.Pressure.{
  Candidate, without, candidates, drop_instance, picked, drop_picked, evict_scored, shed,
  record_pass, verdict_for, pressure_pass,
}
use iso.Warm.Counts.{DistinctIds, Fresh-apart, All-without, DistinctIds-without}
use iso.Warm.Invariant.{entry_of, Counted-put, IsConsistent, entry_size_le, entry_idle_le, entry_ok}
use iso.Warm.Evicting.{
  IsIdleAt, Elem-candidates, length-candidates, Elem-get_elem?, get_elem?-map_lt, length-without,
  idle_count-without, length-map,
}

keep-without :
    (id : ℕ) (p : Instance → Bool) (xs : List Instance)
    → All (λ i. ((i.id == id) ≡ false) ⊎ (p i ≡ false)) xs
    → keep p (without id xs) ≡ keep p xs
keep-without id p [] a = refl
keep-without id p (x ∷ xs) a = elim (Bool-cases (x.id == id)) [
  | inl h ↦
      let out : p x ≡ false = elim a.0 [ inl q ↦ cc | inr q ↦ q ] in
      rw (h, out) (keep-without id p xs a.1)
  | inr h ↦ elim (Bool-cases (p x)) [
    | inl q ↦ rw (h, q) (ap (◌∷◌ x) (keep-without id p xs a.1))
    | inr q ↦ rw (h, q) (keep-without id p xs a.1)
  ]
]

-- Of distinct ids, only the idle instance has its own.
others_apart :
    (i : Instance) (xs : List Instance)
    → Elem i xs
    → DistinctIds xs
    → is_idle i ≡ true
    → All (λ j. ((j.id == i.id) ≡ false) ⊎ (not (is_idle j) ≡ false)) xs
others_apart i [] e d h = tt
others_apart i (x ∷ xs) (inl e) d h = (
  inr (subst (λ (j : Instance). not (is_idle j) ≡ false) e (rw h refl)),
  All-weaken _ _ xs (λ j q. inl (subst (λ (x : Instance). (j.id == x.id) ≡ false) (sym e) q)) d.0,
)
others_apart i (x ∷ xs) (inr e) d h = (inl (Fresh-apart i x xs e d.0), others_apart i xs e d.1 h)

module _ ⦃fl : F64⦄ where
  -- The instances of a prefix that run something or were killed.
  abbrev pub busy_of : Bytes → RegistryInner → List Instance
  busy_of id r = keep (λ i. not (is_idle i)) (entry_of id r.prefixes).instances

  -- What one eviction, or a loop of `dropped` of them, leaves.
  pub record IsShed (r : RegistryInner) (dropped : ℕ) (s : RegistryInner) : Type 0 where
    pub consistent : IsConsistent s
    pub idle_eq : s.idle_total + dropped ≡ r.idle_total
    pub total_eq : s.total + dropped ≡ r.total
    pub oneoff_eq : s.oneoff_running ≡ r.oneoff_running
    pub next_eq : s.next_instance_id ≡ r.next_instance_id
    pub busy_eq : (id : Bytes) → busy_of id s ≡ busy_of id r

  IsShed-refl : (r : RegistryInner) → IsConsistent r → IsShed r 0 r
  IsShed-refl r c = record {
    consistent = c;
    idle_eq = omega arith;
    total_eq = omega arith;
    oneoff_eq = refl;
    next_eq = refl;
    busy_eq = λ id. refl;
  }

  IsShed-latched :
      (r : RegistryInner)
      → IsConsistent r
      → (shedding : Bool) (last_pass : Option PassOutcome)
      → IsShed r 0 (record r { shedding = shedding; last_pass = last_pass })
  IsShed-latched r c shedding last_pass = record {
    consistent = c;
    idle_eq = omega arith;
    total_eq = omega arith;
    oneoff_eq = refl;
    next_eq = refl;
    busy_eq = λ id. refl;
  }

  IsShed-trans :
      (r s t : RegistryInner) (m n : ℕ) → IsShed r m s → IsShed s n t → IsShed r (m + n) t
  IsShed-trans r s t m n a b = record {
    consistent = b.consistent;
    idle_eq = omega (arith, a.idle_eq, b.idle_eq);
    total_eq = omega (arith, a.total_eq, b.total_eq);
    oneoff_eq = b.oneoff_eq ∙ a.oneoff_eq;
    next_eq = b.next_eq ∙ a.next_eq;
    busy_eq = λ id. b.busy_eq id ∙ a.busy_eq id;
  }

  busy_of-drop_instance :
      (r : RegistryInner) (c : Candidate) (id : Bytes)
      → IsConsistent r
      → IsIdleAt c r.prefixes
      → busy_of id (drop_instance r c) ≡ busy_of id r
  unfolding drop_instance
  busy_of-drop_instance r c id k at =
      let e = entry_of c.prefix_id r.prefixes in
      let xs = without c.instance_id e.instances in
      let ok = entry_ok _ _ _ _ _ k c.prefix_id in
      let same_busy : keep (λ i. not (is_idle i)) xs ≡ keep (λ i. not (is_idle i)) e.instances =
        keep-without c.instance_id _ e.instances
          (rw at.id_eq (others_apart at.instance_of e.instances at.is_elem ok.1 at.idle_eq)) in
      elim (Bool-cases (same c.prefix_id id)) [
        | inl h ↦
            subst
              (λ j.
                keep (λ i. not (is_idle i))
                  (entry_of j (put c.prefix_id (record e { instances = xs }) r.prefixes)).instances
                ≡ keep (λ i. not (is_idle i)) (entry_of j r.prefixes).instances)
              (same_sound c.prefix_id id h)
              (rw (lookup-put c.prefix_id (record e { instances = xs }) r.prefixes) same_busy)
        | inr h ↦
            rw (lookup-put_other c.prefix_id id (record e { instances = xs }) r.prefixes h) refl
      ]

  IsShed-drop_instance :
      (r : RegistryInner) (c : Candidate)
      → IsConsistent r
      → IsIdleAt c r.prefixes
      → IsShed r 1 (drop_instance r c)
  unfolding drop_instance
  IsShed-drop_instance r c k at =
      let i = at.instance_of in
      let e = entry_of c.prefix_id r.prefixes in
      let ok = entry_ok _ _ _ _ _ k c.prefix_id in
      let fewer : length (without c.instance_id e.instances) + 1 ≡ length e.instances =
        rw at.id_eq (length-without i e.instances at.is_elem ok.1) in
      let idler =
        rw (sym at.id_eq) at (idle_count-without i e.instances at.is_elem ok.1 at.idle_eq) in
      let room = entry_size_le _ _ _ _ _ k c.prefix_id in
      let idles = entry_idle_le _ _ _ _ _ k c.prefix_id in
      record {
        consistent =
            Counted-put _ _ _ _ _ k c.prefix_id
              (record e { instances = without c.instance_id e.instances }) _ _ _ _
              (omega (arith, fewer, room)) (omega (arith, idler, idles)) (omega arith)
              (
                All-without _ c.instance_id e.instances ok.0,
                DistinctIds-without c.instance_id e.instances ok.1,
              );
        idle_eq = omega (arith, idler, idles);
        total_eq = omega (arith, fewer, room);
        oneoff_eq = refl;
        next_eq = refl;
        busy_eq = λ id. busy_of-drop_instance r c id k at;
      }

  -- An eviction drops an idle instance, unless nothing is idle.
  picked-cases :
      (r : RegistryInner) (now : ℕ) (o : Option ℕ)
      → IsConsistent r
      → pick_victim (map (λ c. c.fact) (candidates r.prefixes)) now ≡ o
      → ((drop_picked r (picked (candidates r.prefixes) o) ≡ none) × (r.idle_total ≡ 0))
        ⊎ ((s : RegistryInner) × ((drop_picked r (picked (candidates r.prefixes) o) ≡ some s)
              × IsShed r 1 s))
  unfolding drop_picked picked
  picked-cases r now none k h =
      let facts = map (λ (c : Candidate). c.fact) (candidates r.prefixes) in
      let empty : facts ≡ [] = subst (λ o. IsChoice facts o) h (pick_victim-IsChoice facts now) in
      inl (
        refl,
        k.idle_eq
            ∙ sym (length-candidates r.prefixes)
            ∙ sym (length-map (λ (c : Candidate). c.fact) (candidates r.prefixes))
            ∙ ap length empty,
      )
  picked-cases r now (some i) k h =
      let facts = map (λ (c : Candidate). c.fact) (candidates r.prefixes) in
      let (f, at) = subst (λ o. IsChoice facts o) h (pick_victim-IsChoice facts now) in
      let (c, q) = get_elem?-map_lt (λ (c : Candidate). c.fact) (candidates r.prefixes) i f at in
      let idle_at =
        Elem-candidates c r.prefixes (Elem-get_elem? c (candidates r.prefixes) i q) k.keys in
      inr (drop_instance r c, (rw q refl, IsShed-drop_instance r c k idle_at))

  evict_scored-cases :
      (r : RegistryInner) (now : ℕ)
      → IsConsistent r
      → ((evict_scored r now ≡ none) × (r.idle_total ≡ 0))
        ⊎ ((s : RegistryInner) × ((evict_scored r now ≡ some s) × IsShed r 1 s))
  unfolding evict_scored
  evict_scored-cases r now k = picked-cases r now _ k refl

  -- The loop drops what it was told to, or everything idle, and ends.
  pub shed-IsShed :
      (n : ℕ) (r : RegistryInner) (now : ℕ)
      → IsConsistent r
      → ((shed n r now).0 ≡ min n r.idle_total) × IsShed r (shed n r now).0 (shed n r now).1
  unfolding shed
  shed-IsShed zero r now k = (omega arith, IsShed-refl r k)
  shed-IsShed (suc n) r now k = elim (evict_scored-cases r now k) [
    | inl (h, z) ↦ rw (shed, h) (omega (arith, z), IsShed-refl r k)
    | inr (s, (h, one)) ↦
        let (m, rest) = shed-IsShed n s now one.consistent in
        rw (shed, h)
          (
            omega (arith, m, one.idle_eq),
            subst (λ j. IsShed r j (shed n s now).1) (omega arith)
                (IsShed-trans r s _ 1 _ one rest),
          )
  ]

  -- The pass latches, sheds and records, which changes nothing else.
  record_pass-IsShed :
      (r s : RegistryInner) (usage d : ℕ) → IsShed r d s → IsShed r d (record_pass usage (d, s))
  unfolding record_pass
  record_pass-IsShed r s usage d h = elim (Bool-cases (ltb 0 d)) [
    | inl q ↦ rw q (record {
      consistent = h.consistent;
      idle_eq = h.idle_eq;
      total_eq = h.total_eq;
      oneoff_eq = h.oneoff_eq;
      next_eq = h.next_eq;
      busy_eq = h.busy_eq;
    })
    | inr q ↦ rw q h
  ]

  -- What the pass is to drop: nothing without a reading, else what the verdict says, up to what is idle.
  abbrev pub pass_drops : RegistryInner → Option ℕ → ℕ → ℕ
  pass_drops r none budget = 0
  pass_drops r (some usage) budget = min (verdict_for r usage budget).evict r.idle_total

  -- A pass over a consistent registry leaves it consistent and ends having dropped what the verdict
  -- says, up to the idle instances, and nothing without a reading. Both totals fall by that number, and
  -- every prefix keeps its busy and its dead instances, unchanged and in order.
  pub pressure_pass-IsShed :
      (r : RegistryInner) (usage : Option ℕ) (budget now : ℕ)
      → IsConsistent r
      → IsShed r (pass_drops r usage budget) (pressure_pass r usage budget now).1
  unfolding pressure_pass
  pressure_pass-IsShed r none budget now k = IsShed-latched r k false none
  pressure_pass-IsShed r (some u) budget now k =
      let v = verdict_for r u budget in
      let kept = if v.shedding then r.last_pass else none in
      let latched = IsShed-latched r k v.shedding kept in
      let (m, done) =
        shed-IsShed v.evict (record r { shedding = v.shedding; last_pass = kept }) now
          latched.consistent in
      let passed = (pressure_pass r (some u) budget now).1 in
      subst (λ n. IsShed r n passed) m
        (subst (λ n. IsShed r n passed) (omega arith)
          (IsShed-trans r _ _ 0 _ latched (record_pass-IsShed _ _ u _ done)))
