-- ===== src/Wire/Reader/Reads.antt =====
-- Which bytes the reader's operations accept, and what they return: `Reads p bs a` is the rule by
-- which the payload formats are checked field by field.
use iso.Base.{
  ℕ, ◌≤◌, ◌≡◌, refl, Bool, true, false, Option, none, some, List, [], ◌∷◌, ◌++◌, append_assoc,
  append-nil, ok, length, length-append, take-append_self, drop-append_self, le→ltb_false, All,
  arith, map,
}
use iso.Wire.Bytes.{Bytes, IsU32, be32, from_be32-be32, is_utf8}
use iso.Wire.Reader.{
  Reader, Allocator, pure, ◌>>=◌, read_u8, read_u32, bool_of, read_bool, read_bytes, utf8_of,
  read_string, read_value_blob, optional_of, read_optional, read_n, check_count, read_count,
  read_list, parse_all,
}

-- From any input that starts with `bs`, `p` reads `a` and leaves what follows.
pub record Reads {ℓ} {A : Type ℓ} (p : Reader A) (bs : Bytes) (a : A) : Type ℓ where
  pub run : (rest : Bytes) → p (bs ++ rest) ≡ ok (a, rest)

module _ {ℓ κ} {A : Type ℓ} {B : Type κ} where
  pub Reads-bind :
      (p : Reader A) (f : A → Reader B) {bs cs : Bytes} {a : A} {b : B}
      → Reads p bs a
      → Reads (f a) cs b
      → Reads (p >>= f) (bs ++ cs) b
  unfolding ◌>>=◌
  Reads-bind p f {bs} {cs} h k = record {
    run = λ rest. rw (append_assoc bs cs rest, h.run (cs ++ rest), k.run rest);
  }

  -- The last field: nothing is read after it.
  pub Reads-last :
      (p : Reader A) (f : A → Reader B) {bs : Bytes} {a : A} {b : B}
      → Reads p bs a
      → Reads (f a) [] b
      → Reads (p >>= f) bs b
  unfolding ◌>>=◌
  Reads-last p f h k = record { run = λ rest. rw (h.run rest, k.run rest) }

pub Reads-pure {ℓ} : {A : Type ℓ} (a : A) → Reads (pure a) [] a
unfolding pure
Reads-pure a = record { run = λ rest. refl }

pub Reads-u8 : (b : ℕ) → Reads read_u8 (b ∷ []) b
unfolding read_u8
Reads-u8 b = record { run = λ rest. refl }

pub Reads-u32 : (n : ℕ) → IsU32 n → Reads read_u32 (be32 n) n
unfolding read_u32
Reads-u32 n h = record { run = λ rest. rw (from_be32-be32 n h) }

unfoldable pub bool_byte : Bool → ℕ
bool_byte false = 0
bool_byte true = 1

pub Reads-bool : (b : Bool) → Reads read_bool (bool_byte b ∷ []) b
unfolding read_bool read_u8 bool_of bool_byte ◌>>=◌ pure
Reads-bool false = record { run = λ rest. refl }
Reads-bool true = record { run = λ rest. refl }

pub Reads-bytes : (bs : Bytes) → Reads (read_bytes (length bs)) bs bs
unfolding read_bytes
Reads-bytes bs = record {
  run = λ rest. rw (
    le→ltb_false (length (bs ++ rest)) (length bs) (omega (arith, length-append bs rest)),
    take-append_self bs rest,
    drop-append_self bs rest,
  );
}

-- The length-prefixed forms, as the peer writes them.
abbrev pub sized : Bytes → Bytes
sized bs = be32 (length bs) ++ bs

pub Reads-value_blob : (bs : Bytes) → IsU32 (length bs) → Reads read_value_blob (sized bs) bs
unfolding read_value_blob
Reads-value_blob bs h = Reads-bind _ _ (Reads-u32 (length bs) h) (Reads-bytes bs)

-- A byte string that a length-prefixed string can carry.
abbrev pub IsText : Bytes → Type 0
IsText s = IsU32 (length s) × (is_utf8 s ≡ true)

pub Reads-string : (s : Bytes) → IsText s → Reads read_string (sized s) s
unfolding read_string utf8_of pure
Reads-string s h =
    Reads-bind _ _ (Reads-u32 (length s) h.0)
      (Reads-last _ _ (Reads-bytes s) (record { run = λ rest. rw h.1 }))

abbrev pub optional {ℓ} : {A : Type ℓ} → (A → Bytes) → Option A → Bytes
optional enc none = 0 ∷ []
optional enc (some a) = 1 ∷ enc a

pub Reads-none {ℓ} : {A : Type ℓ} (p : Reader A) → Reads (read_optional p) (0 ∷ []) none
unfolding read_optional read_u8 optional_of ◌>>=◌ pure
Reads-none p = record { run = λ rest. refl }

pub Reads-some {ℓ} :
    {A : Type ℓ} {p : Reader A} {bs : Bytes} {a : A}
    → Reads p bs a
    → Reads (read_optional p) (1 ∷ bs) (some a)
unfolding read_optional read_u8 optional_of ◌>>=◌ pure
Reads-some h = record { run = λ rest. rw (h.run rest) }

abbrev pub WhenSome {ℓ κ} : {A : Type ℓ} → (A → Type κ) → Option A → Type κ
WhenSome P none = Unit
WhenSome P (some a) = P a

pub Reads-optional {ℓ κ} :
    {A : Type ℓ} (p : Reader A) (enc : A → Bytes) (P : A → Type κ)
    → ((a : A) → P a → Reads p (enc a) a)
    → (o : Option A) → WhenSome P o
    → Reads (read_optional p) (optional enc o) o
Reads-optional p enc P h none w = Reads-none p
Reads-optional p enc P h (some a) w = Reads-some (h a w)

-- Entries one after the other.
abbrev pub concat_map {ℓ} : {A : Type ℓ} → (A → Bytes) → List A → Bytes
concat_map enc [] = []
concat_map enc (x ∷ xs) = enc x ++ concat_map enc xs

abbrev pub listed {ℓ} : {A : Type ℓ} → (A → Bytes) → List A → Bytes
listed enc xs = be32 (length xs) ++ concat_map enc xs

-- The entries may be written in one type and read back in another, by way of `g`.
pub Reads-n {ℓ ε κ} :
    {A : Type ℓ} {B : Type ε} (p : Reader B) (enc : A → Bytes) (g : A → B) (P : A → Type κ)
    → ((a : A) → P a → Reads p (enc a) (g a))
    → (xs : List A) → All P xs
    → Reads (read_n (length xs) p) (concat_map enc xs) (map g xs)
unfolding read_n
Reads-n p enc g P h [] w = Reads-pure []
Reads-n p enc g P h (x ∷ xs) w =
    Reads-bind _ _ (h x w.0) (Reads-last _ _ (Reads-n p enc g P h xs w.1) (Reads-pure _))

length-concat_map-le {ℓ κ} :
    {A : Type ℓ} (enc : A → Bytes) (P : A → Type κ)
    → ((a : A) → P a → 1 ≤ length (enc a))
    → (xs : List A) → All P xs
    → length xs ≤ length (concat_map enc xs)
length-concat_map-le enc P h [] w = omega arith
length-concat_map-le enc P h (x ∷ xs) w =
    omega (
      arith,
      length-append (enc x) (concat_map enc xs),
      h x w.0,
      length-concat_map-le enc P h xs w.1,
    )

module _ ⦃alloc : Allocator⦄ where
  -- The allocator has room for any count that a payload can name.
  abbrev pub IsServing : Type 0
  IsServing = (n : ℕ) → IsU32 n → alloc.try_reserve n ≡ true

  -- A count is accepted when the bytes after it can back it.
  pub read_count-run :
      (n : ℕ) (rest : Bytes)
      → IsServing
      → IsU32 n
      → n ≤ length rest
      → read_count (be32 n ++ rest) ≡ ok (n, rest)
  unfolding read_count check_count ◌>>=◌
  read_count-run n rest serves u fits =
      rw ((Reads-u32 n u).run rest, le→ltb_false (length rest) n fits, serves n u)

  -- A list whose count is a u32 and whose entries take a byte at least.
  pub Reads-list {ℓ ε κ} :
      {A : Type ℓ} {B : Type ε} (p : Reader B) (enc : A → Bytes) (g : A → B) (P : A → Type κ)
      → ((a : A) → P a → Reads p (enc a) (g a))
      → ((a : A) → P a → 1 ≤ length (enc a))
      → IsServing
      → (xs : List A) → All P xs
      → IsU32 (length xs)
      → Reads (read_list p) (listed enc xs) (map g xs)
  unfolding read_list ◌>>=◌
  Reads-list p enc g P h pos serves xs w u = record {
    run = λ rest.
        let backed = length-append (concat_map enc xs) rest in
        let below = length-concat_map-le enc P pos xs w in
        rw (
          read_count-run (length xs) (concat_map enc xs ++ rest) serves u (omega arith),
          (Reads-n p enc g P h xs w).run rest,
        );
  }

-- The bytes may end there.
pub Reads-whole {ℓ} :
    {A : Type ℓ} {p : Reader A} {bs : Bytes} {a : A} → Reads p bs a → p bs ≡ ok (a, [])
Reads-whole {p} {bs} {a} h = rw append-nil at (h.run [])

pub parse_all-Reads {ℓ} :
    {A : Type ℓ} {p : Reader A} {bs : Bytes} {a : A} → Reads p bs a → parse_all p bs ≡ ok a
unfolding parse_all ◌>>=◌ pure
parse_all-Reads {p} {bs} {a} h = rw (Reads-whole h)
