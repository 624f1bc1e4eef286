-- ===== src/Wire/Reader.antt =====
-- crates/server/src/ipc.rs, `PayloadReader`: the cursor over a payload. The reader's state is the
-- part of the payload that is still unread, `data[offset..]`; `remaining()` is its length.
pub mod Reads
pub mod Always
use iso.Base.{
  ℕ, zero, suc, Bool, true, false, Option, none, some, List, [], ◌∷◌, Result, ok, err, bind,
  ErrorKind, unexpected_eof, invalid_data, out_of_memory, length, take, drop, ltb, if◌then◌else◌,
}
use iso.Wire.Bytes.{Bytes, from_be32, is_utf8}

-- Whether the allocator serves `try_reserve_exact` for that many entries.
pub record Allocator : Type 0 where
  pub try_reserve : ℕ → Bool

abbrev pub Reader {ℓ} : Type ℓ → Type ℓ
Reader A = Bytes → Result ErrorKind (A × Bytes)

unfoldable pub pure {ℓ} : {A : Type ℓ} → A → Reader A
pure a bs = ok (a, bs)

unfoldable pub fail {ℓ} : {A : Type ℓ} → ErrorKind → Reader A
fail e bs = err e

infixl 1 ◌>>=◌ ◌>>◌
unfoldable pub ◌>>=◌ {ℓ κ} : {A : Type ℓ} {B : Type κ} → Reader A → (A → Reader B) → Reader B
p >>= f = λ bs. bind (p bs) λ (a, rest). f a rest

abbrev pub ◌>>◌ {ℓ κ} : {A : Type ℓ} {B : Type κ} → Reader A → Reader B → Reader B
p >> q = p >>= λ _. q

unfoldable pub read_u8 : Reader ℕ
read_u8 [] = err unexpected_eof
read_u8 (b ∷ rest) = ok (b, rest)

unfoldable pub read_u32 : Reader ℕ
read_u32 (a ∷ b ∷ c ∷ d ∷ rest) = ok (from_be32 a b c d, rest)
read_u32 _ = err unexpected_eof

-- The strict boolean: any byte but 0 and 1 is malformed.
unfoldable pub bool_of : ℕ → Reader Bool
bool_of zero = pure false
bool_of (suc zero) = pure true
bool_of (suc (suc b)) = fail invalid_data

unfoldable pub read_bool : Reader Bool
read_bool = read_u8 >>= bool_of

unfoldable pub read_bytes : ℕ → Reader Bytes
read_bytes len bs =
    if ltb (length bs) len then err unexpected_eof else ok (take len bs, drop len bs)

unfoldable pub utf8_of : Bytes → Reader Bytes
utf8_of s = if is_utf8 s then pure s else fail invalid_data

unfoldable pub read_string : Reader Bytes
read_string = do len ← read_u32; s ← read_bytes len; utf8_of s

unfoldable pub read_value_blob : Reader Bytes
read_value_blob = do len ← read_u32; read_bytes len

-- A strict presence byte, then the value.
unfoldable pub optional_of {ℓ} : {A : Type ℓ} → Reader A → ℕ → Reader (Option A)
optional_of p zero = pure none
optional_of p (suc zero) = do a ← p; pure (some a)
optional_of p (suc (suc b)) = fail invalid_data

unfoldable pub read_optional {ℓ} : {A : Type ℓ} → Reader A → Reader (Option A)
read_optional p = read_u8 >>= optional_of p

-- The loop `for _ in 0..count` that pushes what `p` reads.
unfoldable pub read_n {ℓ} : {A : Type ℓ} → ℕ → Reader A → Reader (List A)
read_n zero p = pure []
read_n (suc n) p = do x ← p; xs ← read_n n p; pure (x ∷ xs)

module _ ⦃alloc : Allocator⦄ where
  -- The checks of `read_list` on an entry count: it is backed by the bytes left, and the
  -- reservation is served.
  unfoldable pub check_count : ℕ → Reader ℕ
  check_count count bs =
      if ltb (length bs) count
      then err invalid_data
      else if alloc.try_reserve count
      then ok (count, bs)
      else err out_of_memory

  unfoldable pub read_count : Reader ℕ
  read_count = read_u32 >>= check_count

  -- `read_list` and the loop over its count.
  unfoldable pub read_list {ℓ} : {A : Type ℓ} → Reader A → Reader (List A)
  read_list p = do count ← read_count; read_n count p

unfoldable pub assert_done : Reader (Unit {0})
assert_done [] = ok (tt, [])
assert_done (b ∷ rest) = err invalid_data

-- A whole payload: `PayloadReader::new`, the fields, `assert_done`.
unfoldable pub parse_all {ℓ} : {A : Type ℓ} → Reader A → Bytes → Result ErrorKind A
unfolding assert_done ◌>>=◌ pure
parse_all p payload = bind ((do a ← p; assert_done; pure a) payload) λ (a, rest). ok a
