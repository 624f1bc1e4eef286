-- ===== src/Reply/Clamp.antt =====
-- crates/core/src/errors.rs, `clamp_error_text`: the ceiling on each piece of error text.
use iso.Base.{
  ℕ, zero, suc, ◌+◌, ◌*◌, ◌/◌, ◌%◌, ◌≤◌, Bool, true, ◌||◌, inl, inr, [], ◌∷◌, ◌++◌, length,
  length-append, take, length-take, drop, leb, ltb, if◌then◌else◌, arith, Bool-cases, leb→le,
}
use iso.Wire.Bytes.{Bytes}

abbrev pub max_error_text_bytes : ℕ
max_error_text_bytes = 64 * 1024

-- `is_char_boundary`: the start, the end, or before a byte that continues no character.
unfoldable pub starts_character : Bytes → Bool
starts_character [] = true
starts_character (b ∷ rest) = ltb b 0x80 || leb 0xc0 b

-- The loop that steps back to a boundary.
unfoldable pub boundary_below : Bytes → ℕ → ℕ
unfolding starts_character
boundary_below text zero = 0
boundary_below text (suc end) =
    let below = boundary_below text end in
    if starts_character (drop (suc end) text) then suc end else below

-- The decimal digits of a number below 10 ^ `fuel`.
unfoldable pub digits : ℕ → ℕ → Bytes
digits zero n = []
digits (suc fuel) n =
    let more = digits fuel (n / 10) in (if ltb n 10 then [] else more) ++ ((48 + n % 10) ∷ [])

-- "… [truncated by iso4: " and " bytes total]".
abbrev truncated_by : Bytes
truncated_by =
    0xe2 ∷ 0x80 ∷ 0xa6 ∷ 32 ∷ 91 ∷ 116 ∷ 114 ∷ 117 ∷ 110 ∷ 99 ∷ 97 ∷ 116 ∷ 101 ∷ 100 ∷ 32 ∷ 98 ∷ 121
    ∷ 32 ∷ 105 ∷ 115 ∷ 111 ∷ 52 ∷ 58 ∷ 32 ∷ []

abbrev bytes_total : Bytes
bytes_total = 32 ∷ 98 ∷ 121 ∷ 116 ∷ 101 ∷ 115 ∷ 32 ∷ 116 ∷ 111 ∷ 116 ∷ 97 ∷ 108 ∷ 93 ∷ []

-- A length is a usize, below 10 ^ 20.
unfoldable pub clamp_error_text : Bytes → Bytes
clamp_error_text text =
    if leb (length text) max_error_text_bytes
    then text
    else take (boundary_below text max_error_text_bytes) text
      ++ (truncated_by ++ (digits 20 (length text) ++ bytes_total))

boundary_below_le : (text : Bytes) (end : ℕ) → boundary_below text end ≤ end
unfolding boundary_below
boundary_below_le text zero = omega arith
boundary_below_le text (suc end) = ground (arith, boundary_below_le text end)

length-digits : (fuel n : ℕ) → length (digits fuel n) ≤ fuel
unfolding digits
length-digits zero n = omega arith
length-digits (suc fuel) n = elim (Bool-cases (ltb n 10)) [
  | inl h ↦ rw h (omega arith)
  | inr h ↦ rw h (
      omega (
        arith,
        length-digits fuel (n / 10),
        length-append (digits fuel (n / 10)) ((48 + n % 10) ∷ []),
      ))
]

length-clamped : (text : Bytes) (end : ℕ) → length (take (boundary_below text end) text) ≤ end
length-clamped text end =
    omega (arith, length-take (boundary_below text end) text, boundary_below_le text end)

-- No text comes out longer than the ceiling and 57 bytes of notice.
pub length-clamp_error_text :
    (text : Bytes) → length (clamp_error_text text) ≤ max_error_text_bytes + 57
unfolding clamp_error_text
length-clamp_error_text text = elim (Bool-cases (leb (length text) max_error_text_bytes)) [
  | inl h ↦ rw h (omega (arith, leb→le _ _ h))
  | inr h ↦
      let n = length text in
      let front = take (boundary_below text max_error_text_bytes) text in
      rw h (
        omega (
          arith,
          length-append front (truncated_by ++ (digits 20 n ++ bytes_total)),
          length-append truncated_by (digits 20 n ++ bytes_total),
          length-append (digits 20 n) bytes_total,
          length-digits 20 n,
          length-clamped text max_error_text_bytes,
        ))
]
