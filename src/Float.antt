-- ===== src/Float.antt =====
-- Rust's f64, as the program uses it: the operations are a parameter. `lt` and `le` are `<` and `<=`
-- (false on a NaN), so `a.partial_cmp(&b).unwrap_or(Equal)` is `Greater` exactly when `lt b a`.
use iso.Base.{ℕ, ◌+◌, ◌*◌, ◌/◌, min, max, Bool, true, List, [], ◌∷◌, ltb, leb}

pub record F64 : Type 1 where
  pub Carrier : Type 0
  -- `n as f64`, and the literal n / 10 ^ k.
  pub of_nat : ℕ → Carrier
  pub decimal : ℕ → ℕ → Carrier
  -- `Duration::as_secs_f64` of a span of nanoseconds.
  pub as_secs : ℕ → Carrier
  pub add : Carrier → Carrier → Carrier
  pub mul : Carrier → Carrier → Carrier
  pub div : Carrier → Carrier → Carrier
  pub powf : Carrier → Carrier → Carrier
  pub fmin : Carrier → Carrier → Carrier
  pub fmax : Carrier → Carrier → Carrier
  -- `Iterator::sum`.
  pub sum : List Carrier → Carrier
  pub round : Carrier → Carrier
  pub is_finite : Carrier → Bool
  pub lt : Carrier → Carrier → Bool
  pub le : Carrier → Carrier → Bool
  -- `x as u64`, which saturates.
  pub to_u64 : Carrier → ℕ

abbrev pub whole_sum : List ℕ → ℕ
whole_sum [] = 0
whole_sum (x ∷ xs) = x + whole_sum xs

-- Numbers in place of floats, for the examples: fractions are cut off.
abbrev pub whole : F64
whole = record {
  Carrier = ℕ;
  of_nat = λ n. n;
  decimal = λ n k. n;
  as_secs = λ n. n / 1_000_000_000;
  add = λ a b. a + b;
  mul = λ a b. a * b;
  div = λ a b. a / b;
  powf = λ a b. a;
  fmin = λ a b. min a b;
  fmax = λ a b. max a b;
  sum = whole_sum;
  round = λ a. a;
  is_finite = λ a. true;
  lt = ltb;
  le = leb;
  to_u64 = λ a. a;
}
