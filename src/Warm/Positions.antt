-- ===== src/Warm/Positions.antt =====
-- Where `acquire` looks: the idle instance to reuse, and the instances to join.
use iso.Base.{
  ℕ, zero, suc, ◌≡◌, ◌≢◌, refl, sym, ap, subst, inl, inr, Bool, true, false, not, ◌&&◌, Option,
  none, some, List, [], ◌∷◌, arith, Bool-cases, if◌then◌else◌, &&-true, Elem, Elem-keep,
  Elem-enumerate_index, keep, get_elem?, map, enumerate, max_by, max_by-IsMax, IsGreater,
  reduce-none,
}
use mathlib.Core.Option.{some-injective}
use iso.Policy.{JoinFact, index, pick_join_target}
use iso.Policy.Routing.{
  JoinSpec, pick_join_target-JoinSpec, FallbackSpec, join_fallback-FallbackSpec,
}
use iso.Warm.State.{HeapCaps, same_caps, Instance, is_idle}
use iso.Warm.Acquire.{
  warmer, is_reusable, idle_pos, is_joinable, joinable, join_fact, modify_at, or_fallback,
}
use iso.Warm.Evicting.{Elem-get_elem?, get_elem?-map_lt}

warmer-IsGreater : IsGreater warmer
warmer-IsGreater = record { asym = λ a b h. ground arith; trans = λ a b c h k. ground arith }

-- The instance at a position fits a run of the caps.
pub record IsUsable (caps : HeapCaps) (xs : List Instance) (pos : ℕ) (i : Instance) : Type 0 where
  pub at : get_elem? xs pos ≡ some i
  pub live : i.dead ≡ false
  pub fits : same_caps i.caps caps ≡ true

live_of_idle : (i : Instance) → is_idle i ≡ true → i.dead ≡ false
live_of_idle i h = ground arith

idle_pos_cases :
    (caps : HeapCaps) (xs : List Instance) (o : Option (ℕ × Instance)) (pos : ℕ)
    → max_by warmer (keep (is_reusable caps) (enumerate 0 xs)) ≡ o
    → index o ≡ some pos
    → (i : Instance) × (IsUsable caps xs pos i × (is_idle i ≡ true))
idle_pos_cases caps xs none pos h q = cc
idle_pos_cases caps xs (some (n, i)) pos h q =
    let m = max_by-IsMax warmer warmer-IsGreater _ (n, i) h in
    let (t, e) = Elem-keep (is_reusable caps) (n, i) (enumerate 0 xs) m.is_elem in
    let (idle, fits) = &&-true (is_idle i) (same_caps i.caps caps) t in
    let eq : n ≡ pos = cc in
    (
      i,
      (
        record {
          at = subst (λ k. get_elem? xs k ≡ some i) eq (Elem-enumerate_index n i xs e);
          live = live_of_idle i idle;
          fits = fits;
        },
        idle,
      ),
    )

-- The reused instance is idle and fits.
pub idle_pos_sound :
    (caps : HeapCaps) (xs : List Instance) (pos : ℕ)
    → idle_pos caps xs ≡ some pos
    → (i : Instance) × (IsUsable caps xs pos i × (is_idle i ≡ true))
unfolding idle_pos
idle_pos_sound caps xs pos h = idle_pos_cases caps xs _ pos refl h

keep-nil :
    {A : Type 0} (p : A → Bool) (a : A) (xs : List A) → keep p xs ≡ [] → Elem a xs → p a ≡ false
keep-nil p a [] h e = absurd e
keep-nil p a (x ∷ xs) h e = elim (Bool-cases (p x)) [
  | inl q ↦ let k = subst (λ b. (if b then x ∷ keep p xs else keep p xs) ≡ []) q h in cc
  | inr q ↦
      let k = subst (λ b. (if b then x ∷ keep p xs else keep p xs) ≡ []) q h in
      elim e [ inl w ↦ rw w q | inr w ↦ keep-nil p a xs k w ]
]

index-none : {A : Type 0} (o : Option (ℕ × A)) → index o ≡ none → o ≡ none
index-none none h = refl
index-none (some (n, a)) h = cc

not_idle : (idle fits : Bool) → (idle && fits) ≡ false → fits ≡ true → idle ≡ false
not_idle idle fits h q = ground arith

-- An instance to join fits, and is busy if none was idle.
pub joinable_sound :
    (caps : HeapCaps) (xs : List Instance) (n pos : ℕ) (i : Instance)
    → idle_pos caps xs ≡ none
    → get_elem? (joinable caps xs) n ≡ some (pos, i)
    → IsUsable caps xs pos i × (is_idle i ≡ false)
unfolding idle_pos
joinable_sound caps xs n pos i h at =
    let (t, e) =
      Elem-keep (is_joinable caps) (pos, i) (enumerate 0 xs)
        (Elem-get_elem? (pos, i) (joinable caps xs) n at) in
    let (live, fits) = &&-true (not i.dead) (same_caps i.caps caps) t in
    let empty = reduce-none _ (keep (is_reusable caps) (enumerate 0 xs)) (index-none _ h) in
    let out = keep-nil (is_reusable caps) (pos, i) (enumerate 0 xs) empty e in
    (
      record { at = Elem-enumerate_index pos i xs e; live = ground arith; fits = fits },
      not_idle (is_idle i) (same_caps i.caps caps) out fits,
    )

-- A choice of a fact is one of the list's.
abbrev pub IsIn : {A : Type 0} → List A → Option ℕ → Type 0
IsIn xs none = Unit
IsIn {A} xs (some n) = (a : A) × (get_elem? xs n ≡ some a)

target-IsIn : (facts : List JoinFact) (o : Option ℕ) → JoinSpec facts o → IsIn facts o
target-IsIn facts none s = tt
target-IsIn facts (some n) (f, h, below, rest) = (f, h)

fallback-IsIn : (facts : List JoinFact) (o : Option ℕ) → FallbackSpec facts o → IsIn facts o
fallback-IsIn facts none s = tt
fallback-IsIn facts (some n) (f, h, rest) = (f, h)

or_fallback-IsIn :
    (facts : List JoinFact) (o : Option ℕ) → IsIn facts o → IsIn facts (or_fallback o facts)
or_fallback-IsIn facts none s = fallback-IsIn facts _ (join_fallback-FallbackSpec facts)
or_fallback-IsIn facts (some n) s = s

map-IsIn : {A B : Type 0} (f : A → B) (xs : List A) (o : Option ℕ) → IsIn (map f xs) o → IsIn xs o
map-IsIn f xs none s = tt
map-IsIn f xs (some n) (b, h) = get_elem?-map_lt f xs n b h

-- Whatever the join policy chooses is one of the joinable instances.
pub join_choice-IsIn :
    (util : ℕ → ℕ) (js : List (ℕ × Instance)) (spawns : Bool)
    → IsIn js (
        if spawns
        then none
        else or_fallback (pick_join_target (map (join_fact util) js)) (map (join_fact util) js))
join_choice-IsIn util js true = tt
join_choice-IsIn util js false =
    let facts = map (join_fact util) js in
    map-IsIn (join_fact util) js _
      (or_fallback-IsIn facts _ (target-IsIn facts _ (pick_join_target-JoinSpec facts)))

no_fallback :
    (x : JoinFact) (facts : List JoinFact) (o : Option ℕ) → FallbackSpec (x ∷ facts) o → o ≢ none
no_fallback x facts none s h = let empty : x ∷ facts ≡ [] = s in cc
no_fallback x facts (some n) s h = cc

or_fallback_some :
    (x : JoinFact) (facts : List JoinFact) (o : Option ℕ) → or_fallback o (x ∷ facts) ≢ none
or_fallback_some x facts none h = no_fallback x facts _ (join_fallback-FallbackSpec (x ∷ facts)) h
or_fallback_some x facts (some n) h = cc

-- With an instance to join, a spawn is chosen only when it is asked for.
pub join_choice_none :
    (util : ℕ → ℕ) (j : ℕ × Instance) (js : List (ℕ × Instance)) (spawns : Bool)
    → (if spawns
        then none
        else or_fallback
            (pick_join_target (map (join_fact util) (j ∷ js)))
            (map (join_fact util) (j ∷ js)))
      ≡ none
    → spawns ≡ true
join_choice_none util j js true h = refl
join_choice_none util j js false h = absurd (or_fallback_some _ _ _ h)

pub Elem-modify_at :
    (f : Instance → Instance) (xs : List Instance) (n : ℕ) (i : Instance)
    → get_elem? xs n ≡ some i
    → Elem (f i) (modify_at n f xs)
Elem-modify_at f [] n i h = cc
Elem-modify_at f (x ∷ xs) zero i h = inl (ap f (sym (some-injective _ _ h)))
Elem-modify_at f (x ∷ xs) (suc n) i h = inr (Elem-modify_at f xs n i h)
