-- ===== src/Limits/Lines.antt =====
-- The two heap lines: the width of the band and how the lines relate.
use native.Mathlib.Nat.{pow-suc}
use iso.Base.{
  ℕ, zero, suc, ◌+◌, ◌-◌, ◌*◌, ◌/◌, ◌^◌, ◌≤◌, ◌<◌, ◌≡◌, refl, ◌⊎◌, inl, inr, Option, none, some,
  arith, leb, ltb, leb→le, leb_false→lt, ltb→lt, ltb_false→le, ◌==◌, false, Bool-cases, min,
}
use iso.Limits.{isqrt, heap_band_mb, resolve_heap_lines, BandPolicy, managed, strict, u32_max}

-- The square root is the greatest number whose square fits.
isqrt_bounds :
    (bits n : ℕ)
    → n < 4 ^ bits
    → (isqrt bits n * isqrt bits n ≤ n) × (n < (isqrt bits n + 1) * (isqrt bits n + 1))
unfolding isqrt
isqrt_bounds zero n h = omega arith
isqrt_bounds (suc bits) n h =
    let ih = isqrt_bounds bits (n / 4) (omega (arith, pow-suc 4 bits)) in
    elim (Bool-cases (leb ((2 * isqrt bits (n / 4) + 1) * (2 * isqrt bits (n / 4) + 1)) n)) [
      | inl fits ↦ rw fits (omega (arith, leb→le _ _ fits), omega (arith, ih))
      | inr over ↦ rw over (omega (arith, ih), omega (arith, leb_false→lt _ _ over))
    ]

sq_mono : (a b : ℕ) → a ≤ b → a * a ≤ b * b
sq_mono a b h = grind arith

sq_lt : (a b : ℕ) → a * a < b * b → a < b
sq_lt a b h = elim (Bool-cases (ltb a b)) [
  | inl below ↦ ltb→lt a b below
  | inr above ↦ absurd (omega (arith, sq_mono b a (ltb_false→le a b above)))
]

-- The band through the integer root of 32 cap.
root : ℕ → ℕ
root cap = isqrt 19 (32 * cap)

root_bounds :
    (cap : ℕ)
    → cap < 2 ^ 32
    → (root cap * root cap ≤ 32 * cap) × (32 * cap < (root cap + 1) * (root cap + 1))
unfolding root
root_bounds cap h = isqrt_bounds 19 (32 * cap) (omega arith)

root-pos : (cap : ℕ) → 0 < cap → cap < 2 ^ 32 → 1 ≤ root cap
root-pos cap h k = omega (arith, sq_lt 1 (root cap + 1) (omega (arith, root_bounds cap k)))

root_mono : (c d : ℕ) → c ≤ d → d < 2 ^ 32 → root c ≤ root d
root_mono c d h k = omega (
  arith,
  sq_lt (root c) (root d + 1) (omega (arith, root_bounds c (omega arith), root_bounds d k)),
)

heap_band_mb-root : (cap : ℕ) → heap_band_mb cap ≡ (root cap + 1) / 2
unfolding heap_band_mb root
heap_band_mb-root zero = unfold isqrt in refl
heap_band_mb-root (suc n) = let e : (suc n == 0) ≡ false = ground arith in rw e

-- Below 2 ^ 32 the band is sqrt(8 cap) rounded to the nearest integer: 2 band - 1 is at most
-- sqrt(32 cap), and 2 band + 1 is above it.
pub heap_band_mb-nearest :
    (cap : ℕ)
    → cap < 2 ^ 32
    → ((2 * heap_band_mb cap - 1) * (2 * heap_band_mb cap - 1) ≤ 32 * cap)
      × (32 * cap < (2 * heap_band_mb cap + 1) * (2 * heap_band_mb cap + 1))
heap_band_mb-nearest cap h =
    let s = root_bounds cap h in
    rw (heap_band_mb-root cap) (
      omega (arith, s, sq_mono (2 * ((root cap + 1) / 2) - 1) (root cap) (omega arith)),
      omega (arith, s, sq_mono (root cap + 1) (2 * ((root cap + 1) / 2) + 1) (omega arith)),
    )

-- A larger cap never gets a smaller band.
heap_band_mb_mono : (c d : ℕ) → c ≤ d → d < 2 ^ 32 → heap_band_mb c ≤ heap_band_mb d
heap_band_mb_mono c d h k =
    rw (heap_band_mb-root c, heap_band_mb-root d) (omega (arith, root_mono c d h k))

heap_band_mb-pos : (cap : ℕ) → 0 < cap → cap < 2 ^ 32 → 0 < heap_band_mb cap
heap_band_mb-pos cap h k = rw (heap_band_mb-root cap) (omega (arith, root-pos cap h k))

abbrev soft : ℕ × ℕ → ℕ
soft p = p.0

abbrev hard : ℕ × ℕ → ℕ
hard p = p.1

-- The number nearest to sqrt(8 cap): 2 b - 1 is at most sqrt(32 cap), and 2 b + 1 is above it.
abbrev pub IsBand : ℕ → ℕ → Type 0
IsBand cap b = ((2 * b - 1) * (2 * b - 1) ≤ 32 * cap) × (32 * cap < (2 * b + 1) * (2 * b + 1))

-- What the two lines promise, for each override and frame kind: 0 disables both lines; a one-off
-- has no soft line and terminates at the override or the cap; a reused instance retires at the cap
-- and terminates its band above it, at u32::MAX at most; with an override it terminates at the
-- override, and retires at the cap or, where the override is not above the cap, never.
abbrev pub LinesSpec : ℕ → Option ℕ → BandPolicy → ℕ × ℕ → Type 0
LinesSpec cap none strict r = (soft r ≡ 0) × (hard r ≡ cap)
LinesSpec cap none managed r =
    (soft r ≡ cap)
    × ((b : ℕ) × IsBand cap b × (hard r ≡ min (cap + b) u32_max))
    × ((cap < hard r) ⊎ (cap ≡ 0) ⊎ (cap ≡ u32_max))
LinesSpec cap (some zero) band r = (soft r ≡ 0) × (hard r ≡ 0)
LinesSpec cap (some (suc h)) strict r = (soft r ≡ 0) × (hard r ≡ suc h)
LinesSpec cap (some (suc h)) managed r =
    (hard r ≡ suc h) × ((cap < suc h) × (soft r ≡ cap) ⊎ (suc h ≤ cap) × (soft r ≡ 0))

managed_gap :
    (cap : ℕ)
    → cap < 2 ^ 32
    → (cap < min (cap + heap_band_mb cap) u32_max) ⊎ (cap ≡ 0) ⊎ (cap ≡ u32_max)
managed_gap zero k = inr (inl refl)
managed_gap (suc n) k = elim (Bool-cases (ltb (suc n) u32_max)) [
  | inl below ↦ inl (omega (arith, ltb→lt _ _ below, heap_band_mb-pos (suc n) (omega arith) k))
  | inr top ↦ inr (inr (omega (arith, ltb_false→le _ _ top)))
]

-- For a cap that is a u32: with no override, a managed frame retires at the cap and terminates at the
-- cap and sqrt(8 cap) rounded to the nearest integer, at u32::MAX at most, which is above the cap but for
-- the caps 0 and u32::MAX; with one, it terminates there and retires at the cap if that is below the
-- override, or never. A strict frame has no soft line and terminates at its override or the cap, and an
-- override of 0 disables both lines.
pub resolve_heap_lines-LinesSpec :
    (cap : ℕ) (override : Option ℕ) (band : BandPolicy)
    → cap < 2 ^ 32
    → LinesSpec cap override band (resolve_heap_lines cap override band)
unfolding resolve_heap_lines
resolve_heap_lines-LinesSpec cap none strict k = (refl, refl)
resolve_heap_lines-LinesSpec cap none managed k =
    (refl, (heap_band_mb cap, heap_band_mb-nearest cap k, refl), managed_gap cap k)
resolve_heap_lines-LinesSpec cap (some zero) band k = (refl, refl)
resolve_heap_lines-LinesSpec cap (some (suc h)) strict k = (refl, refl)
resolve_heap_lines-LinesSpec cap (some (suc h)) managed k = ground arith

-- With no override and caps that are u32, a larger cap never yields a smaller terminating line,
-- whatever the frame kind.
pub resolve_heap_lines_mono :
    (c d : ℕ) (band : BandPolicy)
    → c ≤ d
    → d < 2 ^ 32
    → (resolve_heap_lines c none band).1 ≤ (resolve_heap_lines d none band).1
unfolding resolve_heap_lines
resolve_heap_lines_mono c d strict h k = h
resolve_heap_lines_mono c d managed h k = omega (arith, heap_band_mb_mono c d h k)
