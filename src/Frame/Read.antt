-- ===== src/Frame/Read.antt =====
-- Reading a frame from a stream does not depend on how the stream is cut into chunks.
use iso.Base.{
  ℕ, zero, suc, ◌-◌, ◌<◌, ◌≡◌, refl, List, [], ◌∷◌, ◌++◌, append_assoc, append-nil, ok, interrupted,
  length, take, drop, take-append_le, drop-append_le, take-append_ge, drop-append_ge, length-drop,
  inl, inr, leb, Bool-cases, leb→le, leb_false→lt, arith,
}
use iso.Wire.Bytes.{Bytes}
use iso.Frame.Stream.{Event, chunk, failed, read_until_eof}

-- All that the stream still delivers.
unfoldable pub delivered : List Event → Bytes
delivered [] = []
delivered (chunk bs ∷ es) = bs ++ delivered es
delivered (failed e ∷ es) = delivered es

-- The stream delivers chunks of a byte or more until it ends, and its calls fail by interruption only.
abbrev pub IsClean : List Event → Type 0
IsClean [] = Unit {0}
IsClean (chunk [] ∷ es) = ⊥
IsClean (chunk (b ∷ bs) ∷ es) = IsClean es
IsClean (failed interrupted ∷ es) = IsClean es
IsClean (failed _ ∷ es) = ⊥

-- The read fills the room if the stream has the bytes, takes all there is if not, loses nothing and
-- leaves a clean stream.
pub record Filled (room : ℕ) (got : Bytes) (es : List Event) : Type 0 where
  pub left : List Event
  pub runs : read_until_eof room got es ≡ (ok (got ++ take room (delivered es)), left)
  pub rest : delivered left ≡ drop room (delivered es)
  pub clean : IsClean left

IsClean-chunk :
    (bs : Bytes) (es : List Event) → 0 < length bs → IsClean es → IsClean (chunk bs ∷ es)
IsClean-chunk [] es h c = absurd (omega arith)
IsClean-chunk (b ∷ bs) es h c = c

-- One chunk, taken whole or in part.
Filled-chunk :
    (room : ℕ) (got : Bytes) (bs : Bytes) (es : List Event)
    → 0 < length bs
    → IsClean es
    → Filled (room - length bs) (got ++ bs) es
    → Filled room got (chunk bs ∷ es)
Filled-chunk zero got bs es h c f = record {
  left = chunk bs ∷ es;
  runs = unfold read_until_eof in rw append-nil;
  rest = refl;
  clean = IsClean-chunk bs es h c;
}
Filled-chunk (suc room) got [] es h c f = absurd (omega arith)
Filled-chunk (suc room) got (b ∷ bs) es h c f =
    elim (Bool-cases (leb (length (b ∷ bs)) (suc room))) [
      | inl whole ↦ record {
        left = f.left;
        runs =
            unfold read_until_eof delivered in
            rw (
              whole,
              f.runs,
              take-append_le (suc room) (b ∷ bs) (delivered es) (leb→le _ _ whole),
              append_assoc got (b ∷ bs) (take (suc room - length (b ∷ bs)) (delivered es)),
            );
        rest =
            unfold delivered in
            rw (drop-append_le (suc room) (b ∷ bs) (delivered es) (leb→le _ _ whole)) f.rest;
        clean = f.clean;
      }
      | inr part ↦
          let over = leb_false→lt _ _ part in
          record {
            left = chunk (drop (suc room) (b ∷ bs)) ∷ es;
            runs =
                unfold read_until_eof delivered in
                rw (part, take-append_ge (suc room) (b ∷ bs) (delivered es) (omega arith));
            rest =
                unfold delivered in
                rw (drop-append_ge (suc room) (b ∷ bs) (delivered es) (omega arith));
            clean = IsClean-chunk _ es (omega (arith, length-drop (suc room) (b ∷ bs), over)) c;
          }
    ]

pub read_until_eof-Filled :
    (room : ℕ) (got : Bytes) (es : List Event) → IsClean es → Filled room got es
unfolding read_until_eof delivered
read_until_eof-Filled zero got es c = record {
  left = es;
  runs = rw append-nil;
  rest = refl;
  clean = c;
}
read_until_eof-Filled (suc room) got [] c = record {
  left = [];
  runs = rw append-nil;
  rest = refl;
  clean = tt;
}
read_until_eof-Filled (suc room) got (chunk [] ∷ es) c = absurd c
read_until_eof-Filled (suc room) got (chunk (b ∷ bs) ∷ es) c =
    Filled-chunk (suc room) got (b ∷ bs) es (omega arith) c
      (read_until_eof-Filled (suc room - length (b ∷ bs)) (got ++ b ∷ bs) es c)
read_until_eof-Filled (suc room) got (failed interrupted ∷ es) c =
    let f = read_until_eof-Filled (suc room) got es c in
    record { left = f.left; runs = f.runs; rest = f.rest; clean = f.clean }
read_until_eof-Filled (suc room) got (failed _ ∷ es) c = absurd c
