-- ===== src/Policy/Watermark.antt =====
-- The shedding latch and the passes, the soft line, and the admission of an isolate.
use iso.Base.{
  ℕ, ◌+◌, ◌*◌, ◌/◌, ◌≤◌, ◌<◌, ◌≡◌, refl, ◌↔◌, ◌⊎◌, Bool, true, false, List, [], ◌∷◌, ltb, All,
  arith, ◌&&◌, ◌||◌, min, Option, none, some, inl, inr, Bool-cases,
}
use iso.Policy.{
  PassOutcome, PressureFacts, watermark_action, shed_target, is_flat, soft_strike, AdmitFacts,
  admit_isolate, u64_max,
}

module _ (f : PressureFacts) where
  -- The latch closes at or above the budget, stays closed while the usage is above 4/5 of it, and is
  -- open at any other usage and with no budget.
  pub watermark_action-shedding : ((watermark_action f).shedding ≡ true) ↔ (
      (0 < f.budget_bytes)
      × ((f.budget_bytes ≤ f.usage_bytes)
          ⊎ (f.was_shedding ≡ true) × (f.budget_bytes / 5 * 4 < f.usage_bytes)))
  unfolding watermark_action
  watermark_action-shedding = (λ h. ground arith, λ h. ground arith)

  -- The last pass left the usage within a twentieth of what it acted on.
  abbrev pub Still : Option PassOutcome → Type 0
  Still none = ⊥
  Still (some last) =
      (f.usage_bytes ≤ last.usage_at_pass + last.usage_at_pass / 20)
      × (last.usage_at_pass ≤ f.usage_bytes + last.usage_at_pass / 20)

  -- There was no last pass, or the usage has moved by more than that.
  abbrev pub Moved : Option PassOutcome → Type 0
  Moved none = Unit
  Moved (some last) =
      (last.usage_at_pass + last.usage_at_pass / 20 < f.usage_bytes)
      ⊎ (f.usage_bytes + last.usage_at_pass / 20 < last.usage_at_pass)

  -- A tenth of the idle ones rounded down, or the only one to take.
  abbrev pub IsShare : ℕ → Type 0
  IsShare n =
      (10 * n ≤ f.idle_count) × (f.idle_count < 10 * n + 10) × (0 < n)
      ⊎ (f.idle_count < 10) × (n ≡ 1)

  abbrev pub HasMove : Option PassOutcome → Type 0
  HasMove last =
      ((watermark_action f).shedding ≡ true)
      × (0 < f.idle_count)
      × Moved last
      × IsShare (watermark_action f).evict

  abbrev pub HasRest : Option PassOutcome → Type 0
  HasRest last =
      ((watermark_action f).evict ≡ 0)
      × (((watermark_action f).shedding ≡ false) ⊎ (f.idle_count ≡ 0) ⊎ Still last)

  flat_cases :
      (last : Option PassOutcome)
      → ((is_flat f.usage_bytes last ≡ true) × Still last)
        ⊎ ((is_flat f.usage_bytes last ≡ false) × Moved last)
  unfolding is_flat
  flat_cases none = inr (refl, tt)
  flat_cases (some last) = elim (Bool-cases (is_flat f.usage_bytes (some last))) [
    | inl h ↦ inl (h, ground arith)
    | inr h ↦ inr (h, ground arith)
  ]

  -- A pass evicts exactly while it sheds, something is idle, and the usage is more than a twentieth away
  -- from what the last pass acted on, if there was one. It then takes a tenth of the idle population,
  -- rounded down, or one of fewer than ten.
  pub watermark_action-evicts : HasMove f.last_pass ⊎ HasRest f.last_pass
  unfolding watermark_action shed_target
  watermark_action-evicts = elim (flat_cases f.last_pass) [
    | inl (h, still) ↦ ground arith
    | inr (h, moved) ↦ ground arith
  ]

-- The latch over a run of samples, each verdict fed back as the next `was_shedding`.
pub latch : ℕ → Bool → List PressureFacts → Bool
latch budget shedding [] = shedding
latch budget shedding (f ∷ rest) =
    latch budget
      (watermark_action (record f { budget_bytes = budget; was_shedding = shedding })).shedding rest

watermark_action-held :
    (f : PressureFacts)
    → f.budget_bytes / 5 * 4 < f.usage_bytes
    → f.usage_bytes < f.budget_bytes
    → (watermark_action f).shedding ≡ f.was_shedding
unfolding watermark_action
watermark_action-held f h k = ground arith

-- Between 4/5 of the budget and the budget no run of samples changes the latch: usage that hovers
-- about one mark does not make it flap.
pub latch-between :
    (budget : ℕ) (shedding : Bool) (fs : List PressureFacts)
    → All (λ f. (budget / 5 * 4 < f.usage_bytes) × (f.usage_bytes < budget)) fs
    → latch budget shedding fs ≡ shedding
unfolding latch
latch-between budget shedding [] a = refl
latch-between budget shedding (f ∷ fs) a =
    let held =
      watermark_action-held (record f { budget_bytes = budget; was_shedding = shedding }) (a.0).0
        (a.0).1 in
    rw held (latch-between budget shedding fs a.1)

-- Whether some finish in a run of finishes retires the instance, from a count of strikes.
pub retires : ℕ → List Bool → Bool
retires strikes [] = false
retires strikes (over ∷ rest) =
    (soft_strike strikes over).1 || retires (soft_strike strikes over).0 rest

pub two_in_a_row : Bool → List Bool → Bool
two_in_a_row prev [] = false
two_in_a_row prev (over ∷ rest) = (prev && over) || two_in_a_row over rest

-- From any count, the soft line retires an instance exactly when two finishes in a row are over it,
-- a positive count standing for a last finish that was.
pub retires-two_in_a_row :
    (strikes : ℕ) (overs : List Bool) → retires strikes overs ≡ two_in_a_row (ltb 0 strikes) overs
unfolding retires two_in_a_row soft_strike
retires-two_in_a_row strikes [] = refl
retires-two_in_a_row strikes (false ∷ rest) = ground (arith, retires-two_in_a_row 0 rest)
retires-two_in_a_row strikes (true ∷ rest) =
    ground (arith, retires-two_in_a_row (min (strikes + 1) 255) rest)

-- Whom the admission lines let in: a run with a cap while the usage and the cap stay within the hard
-- line, an uncapped one while the usage is below the budget; a line of 0 is no line.
abbrev pub Admissible : AdmitFacts → Type 0
Admissible f =
    (f.run_cap_bytes ≡ 0) × ((f.budget_bytes ≡ 0) ⊎ (f.usage_bytes < f.budget_bytes))
    ⊎ (0 < f.run_cap_bytes)
      × ((f.hard_line_bytes ≡ 0) ⊎ (f.usage_bytes + f.run_cap_bytes ≤ f.hard_line_bytes))

-- Saturation changes no verdict: below the top of u64, the lines admit exactly the admissible runs.
pub admit_isolate-Admissible :
    (f : AdmitFacts) → f.hard_line_bytes < u64_max → (admit_isolate f ≡ true) ↔ Admissible f
unfolding admit_isolate
admit_isolate-Admissible f h = (λ a. ground arith, λ a. ground arith)
