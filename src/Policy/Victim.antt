-- ===== src/Policy/Victim.antt =====
-- Which idle instance is evicted, and how many slots are offered, whatever the floats do.
use iso.Base.{
  ℕ, ◌^◌, ◌≤◌, ◌<◌, ◌≡◌, refl, ◌∙◌, subst, IsGreater, All, All-enumerate, All-weaken, max_by-IsMax,
  ltb_false→le, ◌⊎◌, inl, inr, Bool, true, false, not, ◌&&◌, ◌||◌, Option, none, some, List, [],
  ◌∷◌, max, arith, ltb, get_elem?, enumerate, max_by, fold_from, Elem, Elem-enumerate_index,
  reduce-none, if◌then◌else◌, Bool-cases,
}
use mathlib.Core.Option.{some-injective}
use iso.Float.{F64}
use iso.Policy.{
  VictimFact, score, outscores, pick_victim, index, SlotFacts, slots_for, target_slots,
}

-- One of the two is kept at each step.
Elem-fold :
    {A : Type 0} (gt : A → A → Bool) (acc : A) (xs : List A)
    → Elem (fold_from (λ x y. if gt x y then x else y) acc xs) (acc ∷ xs)
Elem-fold gt acc [] = inl refl
Elem-fold gt acc (x ∷ xs) = elim (Elem-fold gt (if gt acc x then acc else x) xs) [
  | inl e ↦ elim (Bool-cases (gt acc x)) [
    | inl h ↦ inl (e ∙ (rw h refl))
    | inr h ↦ inr (inl (e ∙ (rw h refl)))
  ]
  | inr e ↦ inr (inr e)
]

-- The choice is one of the idle instances, if there is one.
abbrev pub IsChoice : List VictimFact → Option ℕ → Type 0
IsChoice idle none = idle ≡ []
IsChoice idle (some i) = (f : VictimFact) × (get_elem? idle i ≡ some f)

enumerate-nil : (xs : List VictimFact) → enumerate 0 xs ≡ [] → xs ≡ []
enumerate-nil [] h = refl
enumerate-nil (x ∷ xs) h = cc

max_by-Elem :
    {A : Type 0} (gt : A → A → Bool) (xs : List A) (m : A) → max_by gt xs ≡ some m → Elem m xs
max_by-Elem gt [] m h = cc
max_by-Elem gt (x ∷ xs) m h =
    subst (λ k. Elem k (x ∷ xs)) (some-injective _ _ h) (Elem-fold gt x xs)

IsChoice-cases :
    (gt : ℕ × VictimFact → ℕ × VictimFact → Bool) (idle : List VictimFact)
    (r : Option (ℕ × VictimFact))
    → max_by gt (enumerate 0 idle) ≡ r
    → IsChoice idle (index r)
IsChoice-cases gt idle none h = enumerate-nil idle (reduce-none _ (enumerate 0 idle) h)
IsChoice-cases gt idle (some (i, f)) h =
    (f, Elem-enumerate_index i f idle (max_by-Elem gt (enumerate 0 idle) (i, f) h))

-- The lexicographic order, of which `xy` says that the score of x is below that of y.
lexicographic_asym :
    (xy yx : Bool) (l m : ℕ)
    → (xy ≡ true → yx ≡ false)
    → (yx || (not xy && ltb l m)) ≡ true
    → (xy || (not yx && ltb m l)) ≡ false
lexicographic_asym true true l m f h = let k = f refl in cc
lexicographic_asym true false l m f h = cc
lexicographic_asym false true l m f h = refl
lexicographic_asym false false l m f h = ground arith

lexicographic_trans :
    (xy yx yz zy xz zx : Bool) (l m n : ℕ)
    → (zy ≡ false → yx ≡ false → zx ≡ false)
    → (xz ≡ false → zy ≡ false → xy ≡ false)
    → (yx ≡ false → xz ≡ false → yz ≡ false)
    → (yx || (not xy && ltb l m)) ≡ false
    → (zy || (not yz && ltb m n)) ≡ false
    → (zx || (not xz && ltb l n)) ≡ false
lexicographic_trans xy true yz zy xz zx l m n f g e h k = cc
lexicographic_trans xy false yz true xz zx l m n f g e h k = cc
lexicographic_trans xy false yz false true zx l m n f g e h k = rw (f refl refl) refl
lexicographic_trans xy false yz false false zx l m n f g e h k =
    let xy_false = g refl refl in
    let yz_false = e refl refl in
    let h' = rw xy_false at h in let k' = rw yz_false at k in rw (f refl refl) (ground arith)

not_outscored :
    (up down : Bool) (m n : ℕ)
    → (up || (not down && ltb m n)) ≡ false
    → (up ≡ false) × ((down ≡ true) ⊎ (n ≤ m))
not_outscored true down m n h = cc
not_outscored false true m n h = (refl, inl refl)
not_outscored false false m n h = (refl, inr (ltb_false→le m n h))

module _ ⦃fl : F64⦄ where
  -- Whatever the float operations return, a victim is an index into the idle instances, and there is
  -- none only when nothing is idle.
  pub pick_victim-IsChoice :
      (idle : List VictimFact) (now : ℕ) → IsChoice idle (pick_victim idle now)
  unfolding pick_victim
  pick_victim-IsChoice idle now = IsChoice-cases (outscores now) idle _ refl

  -- No idle instance scores higher than the victim, and of equal ones none was used earlier.
  abbrev pub IsVictim : List VictimFact → ℕ → Option ℕ → Type 0
  IsVictim idle now none = idle ≡ []
  IsVictim idle now (some i) =
      (f : VictimFact) × (get_elem? idle i ≡ some f)
      × All
          (λ g.
            (fl.lt (score f now) (score g now) ≡ false)
            × ((fl.lt (score g now) (score f now) ≡ true) ⊎ (f.last_used ≤ g.last_used)))
          idle

  -- The order of the scores, when these are numbers: `<` is never both ways, and not below is
  -- transitive on them.
  module _ (IsNumber : fl.Carrier → Type 0)
      (scores : (f : VictimFact) (now : ℕ) → IsNumber (score f now))
      (asym : (a b : fl.Carrier) → fl.lt a b ≡ true → fl.lt b a ≡ false)
      (trans : (a b c : fl.Carrier)
        → IsNumber a
        → IsNumber b
        → IsNumber c
        → fl.lt a b ≡ false
        → fl.lt b c ≡ false
        → fl.lt a c ≡ false) where
    outscores-IsGreater : (now : ℕ) → IsGreater (outscores now)
    outscores-IsGreater now = record {
      asym = λ x y h.
          lexicographic_asym (below x y) (below y x) (x.1).last_used (y.1).last_used
            (asym (score x.1 now) (score y.1 now)) h;
      trans = λ x y z h k.
          let sx = scores x.1 now in
          let sy = scores y.1 now in
          let sz = scores z.1 now in
          lexicographic_trans (below x y) (below y x) (below y z) (below z y) (below x z)
            (below z x) (x.1).last_used (y.1).last_used (z.1).last_used (trans _ _ _ sz sy sx)
            (trans _ _ _ sx sz sy) (trans _ _ _ sy sx sz) h k;
    }
      where
        below : ℕ × VictimFact → ℕ × VictimFact → Bool
        below x y = fl.lt (score x.1 now) (score y.1 now)

    IsVictim-cases :
        (idle : List VictimFact) (now : ℕ) (r : Option (ℕ × VictimFact))
        → max_by (outscores now) (enumerate 0 idle) ≡ r
        → IsVictim idle now (index r)
    IsVictim-cases idle now none h = enumerate-nil idle (reduce-none _ (enumerate 0 idle) h)
    IsVictim-cases idle now (some (i, f)) h =
        let m = max_by-IsMax (outscores now) (outscores-IsGreater now) _ (i, f) h in
        (
          f,
          Elem-enumerate_index i f idle m.is_elem,
          All-enumerate _ 0 idle
              (All-weaken _ _ (enumerate 0 idle) (λ e q. not_outscored _ _ _ _ q) m.is_greatest),
        )

    -- If scores are numbers, and on numbers `<` is a strict order whose negation is transitive, the
    -- victim is an idle instance that none outscores, of equal ones one that none was used before.
    pub pick_victim-IsVictim :
        (idle : List VictimFact) (now : ℕ) → IsVictim idle now (pick_victim idle now)
    unfolding pick_victim
    pick_victim-IsVictim idle now = IsVictim-cases idle now _ refl

  slots_for_bounds :
      (cores : ℕ) (wall_ms cpu_ms : fl.Carrier)
      → cores < 2 ^ 32
      → (max cores 1 ≤ slots_for cores wall_ms cpu_ms) × (slots_for cores wall_ms cpu_ms < 2 ^ 32)
  unfolding slots_for
  slots_for_bounds cores wall_ms cpu_ms h = ground arith

  -- Whatever was measured and whatever the float operations return, the slots offered are at least the
  -- cores, one at least, and fit the u32 of the wire, for a number of cores that fits it.
  pub target_slots_bounds :
      (prefixes : List SlotFacts) (cores : ℕ)
      → cores < 2 ^ 32
      → (max cores 1 ≤ target_slots prefixes cores) × (target_slots prefixes cores < 2 ^ 32)
  unfolding target_slots
  target_slots_bounds prefixes cores h = ground (arith, slots_for_bounds cores)
