-- ===== src/Wire/Bytes.antt =====
-- Byte strings: Rust's big-endian conversions (`to_be_bytes`, `from_be_bytes`) and the validity test
-- of `String::from_utf8`. A byte string is a list of numbers below 256; a Rust `String` is the list
-- of its UTF-8 bytes.
use iso.Base.{
  ℕ, zero, suc, ◌+◌, ◌*◌, ◌/◌, ◌%◌, ◌^◌, ◌<◌, ◌≡◌, refl, Bool, true, false, ◌&&◌, ◌||◌, Option,
  none, some, List, [], ◌∷◌, ltb, leb, ◌==◌, if◌then◌else◌, arith,
}

abbrev pub Bytes : Type 0
Bytes = List ℕ

abbrev pub IsByte : ℕ → Type 0
IsByte b = b < 256

abbrev pub IsU32 : ℕ → Type 0
IsU32 n = n < 2 ^ 32

abbrev pub be16 : ℕ → Bytes
be16 n = (n / 2 ^ 8 % 256) ∷ (n % 256) ∷ []

abbrev pub be32 : ℕ → Bytes
be32 n = (n / 2 ^ 24 % 256) ∷ (n / 2 ^ 16 % 256) ∷ (n / 2 ^ 8 % 256) ∷ (n % 256) ∷ []

abbrev pub from_be16 : ℕ → ℕ → ℕ
from_be16 a b = a * 2 ^ 8 + b

abbrev pub from_be32 : ℕ → ℕ → ℕ → ℕ → ℕ
from_be32 a b c d = a * 2 ^ 24 + b * 2 ^ 16 + c * 2 ^ 8 + d

pub from_be32-be32 :
    (n : ℕ)
    → IsU32 n
    → from_be32 (n / 2 ^ 24 % 256) (n / 2 ^ 16 % 256) (n / 2 ^ 8 % 256) (n % 256) ≡ n
from_be32-be32 n h = omega arith

pub be32-from_be32 :
    (a b c d : ℕ)
    → IsByte a
    → IsByte b
    → IsByte c
    → IsByte d
    → be32 (from_be32 a b c d) ≡ a ∷ b ∷ c ∷ d ∷ []
be32-from_be32 a b c d ha hb hc hd = ground arith

-- What a leading byte asks of the bytes after it: how many follow, and the range of the first.
unfoldable pub utf8_lead : ℕ → Option (ℕ × ℕ × ℕ)
utf8_lead b =
    if ltb b 0x80
    then some (0, 0x80, 0xbf)
    else if ltb b 0xc2
    then none
    else if ltb b 0xe0
    then some (1, 0x80, 0xbf)
    else if b == 0xe0
    then some (2, 0xa0, 0xbf)
    else if b == 0xed
    then some (2, 0x80, 0x9f)
    else if ltb b 0xf0
    then some (2, 0x80, 0xbf)
    else if b == 0xf0
    then some (3, 0x90, 0xbf)
    else if ltb b 0xf4
    then some (3, 0x80, 0xbf)
    else if b == 0xf4
    then some (3, 0x80, 0x8f)
    else none

-- `need` continuation bytes are open, the next one between `lo` and `hi`.
unfoldable pub utf8_loop : ℕ → ℕ → ℕ → Bytes → Bool
utf8_loop need lo hi [] = need == 0
utf8_loop zero lo hi (b ∷ bs) = elim (utf8_lead b) [
  | none ↦ false
  | some (n, lo', hi') ↦ utf8_loop n lo' hi' bs
]
utf8_loop (suc need) lo hi (b ∷ bs) = (leb lo b && leb b hi) && utf8_loop need 0x80 0xbf bs

unfoldable pub is_utf8 : Bytes → Bool
unfolding utf8_loop utf8_lead
is_utf8 bs = utf8_loop 0 0x80 0xbf bs

-- "é" and "€" are valid; a lone continuation byte, an overlong form, a surrogate and a cut
-- sequence are not.
utf8_accepts : is_utf8 (0xc3 ∷ 0xa9 ∷ 0xe2 ∷ 0x82 ∷ 0xac ∷ []) ≡ true
unfolding is_utf8
utf8_accepts = refl

utf8_refuses :
    is_utf8 (0x80 ∷ [])
      || is_utf8 (0xc0 ∷ 0x80 ∷ [])
      || is_utf8 (0xed ∷ 0xa0 ∷ 0x80 ∷ [])
      || is_utf8 (0xe2 ∷ 0x82 ∷ [])
    ≡ false
unfolding is_utf8
utf8_refuses = refl
