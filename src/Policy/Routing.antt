-- ===== src/Policy/Routing.antt =====
-- Which instance a run joins: what the two choices promise.
use iso.Base.{
  ℕ, ◌≤◌, ◌<◌, ◌≡◌, refl, ◌⊎◌, inl, inr, Bool, false, Option, none, some, List, [], ◌∷◌, All,
  get_elem?, enumerate, keep, max_by, min_by, Elem-enumerate_index, IsGreater, max_by-IsMax,
  min_by-IsMin, arith, ltb, ltb→lt, ltb_false→le, Elem-keep, All-keep, All-enumerate, All-weaken,
  reduce-none,
}
use iso.Policy.{
  JoinFact, pick_join_target, join_fallback, fuller, busier, index, utilization_target_permille,
}

fuller-IsGreater : IsGreater fuller
fuller-IsGreater = record { asym = λ a b h. ground arith; trans = λ a b c h k. ground arith }

busier-IsGreater : IsGreater busier
busier-IsGreater = record { asym = λ a b h. ground arith; trans = λ a b c h k. ground arith }

abbrev is_unsaturated : ℕ × JoinFact → Bool
is_unsaturated e = ltb (e.1).util_permille utilization_target_permille

-- Every instance is saturated and none is chosen; or the chosen one is not, and no other that is not
-- saturated has more runs in flight.
abbrev pub JoinSpec : List JoinFact → Option ℕ → Type 0
JoinSpec instances none = All (λ g. utilization_target_permille ≤ g.util_permille) instances
JoinSpec instances (some i) =
    (f : JoinFact) × (get_elem? instances i ≡ some f)
    × (f.util_permille < utilization_target_permille)
    × All (λ g. (utilization_target_permille ≤ g.util_permille) ⊎ (g.in_flight ≤ f.in_flight))
        instances

join_cases :
    (instances : List JoinFact) (r : Option (ℕ × JoinFact))
    → max_by fuller (keep is_unsaturated (enumerate 0 instances)) ≡ r
    → JoinSpec instances (index r)
join_cases instances none h =
    let empty = reduce-none _ (keep is_unsaturated (enumerate 0 instances)) h in
    let nothing = All-keep (λ e. ⊥) is_unsaturated (enumerate 0 instances) (rw empty tt) in
    All-enumerate _ 0 instances (
      All-weaken _ _ (enumerate 0 instances)
        (λ e s. elim s [ inl q ↦ ltb_false→le _ _ q | inr v ↦ absurd v ]) nothing)
join_cases instances (some (i, f)) h =
    let m = max_by-IsMax fuller fuller-IsGreater _ (i, f) h in
    let e = Elem-keep is_unsaturated (i, f) (enumerate 0 instances) m.is_elem in
    let others = All-keep _ is_unsaturated (enumerate 0 instances) m.is_greatest in
    (
      f,
      Elem-enumerate_index i f instances e.1,
      ltb→lt _ _ e.0,
      All-enumerate _ 0 instances (
          All-weaken _ _ (enumerate 0 instances)
            (λ e s. elim s [ inl q ↦ inl (ltb_false→le _ _ q) | inr q ↦ inr (ltb_false→le _ _ q) ])
            others),
    )

-- Either every instance is saturated and none is chosen, or the chosen one is not saturated and no
-- other unsaturated one has more runs in flight.
pub pick_join_target-JoinSpec :
    (instances : List JoinFact) → JoinSpec instances (pick_join_target instances)
unfolding pick_join_target
pick_join_target-JoinSpec instances = join_cases instances _ refl

-- There is no instance; or the chosen one is least by its utilization and then its runs in flight.
abbrev pub FallbackSpec : List JoinFact → Option ℕ → Type 0
FallbackSpec instances none = instances ≡ []
FallbackSpec instances (some i) =
    (f : JoinFact) × (get_elem? instances i ≡ some f)
    × All
        (λ g.
          (f.util_permille < g.util_permille)
          ⊎ (f.util_permille ≡ g.util_permille) × (f.in_flight ≤ g.in_flight))
        instances

not_busier :
    (f g : ℕ × JoinFact)
    → busier f g ≡ false
    → ((f.1).util_permille < (g.1).util_permille)
      ⊎ ((f.1).util_permille ≡ (g.1).util_permille) × ((f.1).in_flight ≤ (g.1).in_flight)
not_busier f g h = ground arith

enumerate-nil : (xs : List JoinFact) → enumerate 0 xs ≡ [] → xs ≡ []
enumerate-nil [] h = refl
enumerate-nil (x ∷ xs) h = cc

fallback_cases :
    (instances : List JoinFact) (r : Option (ℕ × JoinFact))
    → min_by busier (enumerate 0 instances) ≡ r
    → FallbackSpec instances (index r)
fallback_cases instances none h = enumerate-nil instances (reduce-none _ (enumerate 0 instances) h)
fallback_cases instances (some (i, f)) h =
    let m = min_by-IsMin busier busier-IsGreater _ (i, f) h in
    (
      f,
      Elem-enumerate_index i f instances m.is_elem,
      All-enumerate _ 0 instances
          (All-weaken _ _ (enumerate 0 instances) (λ e q. not_busier (i, f) e q) m.is_least),
    )

-- With an instance there is a fallback, and it is the least utilized one, the one with the fewest
-- runs in flight among equals.
pub join_fallback-FallbackSpec :
    (instances : List JoinFact) → FallbackSpec instances (join_fallback instances)
unfolding join_fallback
join_fallback-FallbackSpec instances = fallback_cases instances _ refl
