-- ===== src/Frame/RoundTrip.antt =====
-- Frames written one after the other come back one by one, however the stream cuts them.
use iso.Base.{
  ℕ, suc, ◌+◌, ◌^◌, ◌≤◌, ◌<◌, ◌≡◌, sym, ap, ◌∙◌, true, false, List, [], ◌∷◌, ◌++◌, append_assoc, ok,
  err, unexpected_eof, invalid_data, length, length-append, take, drop, take-append_self,
  drop-append_self, ltb, ◌==◌, Bool-cases, le→ltb_false, lt→ltb, length-take, inl, inr, arith,
}
use iso.Wire.Bytes.{Bytes, be32, from_be32, from_be32-be32}
use iso.Frame.Stream.{Event, read_until_eof}
use iso.Frame.Read.{delivered, IsClean, Filled, read_until_eof-Filled}
use iso.Frame.{Frame, read_body, read_frame_with_limit, write_frame_with_limit}

-- The frame at the front of the bytes, and what follows it.
pub record FrameRead (max_frame_length : ℕ) (f : Frame) (rest : Bytes) (es : List Event)
    : Type 0 where
  pub left : List Event
  pub runs : read_frame_with_limit es max_frame_length ≡ (ok f, left)
  pub follows : delivered left ≡ rest
  pub clean : IsClean left

-- What a successful write says of the payload, and the bytes that it puts on the stream.
write_frame-ok :
    (t : ℕ) (p : Bytes) (m : ℕ) {bs : Bytes}
    → write_frame_with_limit t p m ≡ ok bs
    → (length p + 1 < 2 ^ 32) × (length p + 1 ≤ m) × (bs ≡ be32 (length p + 1) ++ (t ∷ p))
unfolding write_frame_with_limit
write_frame-ok t p m h = ground arith

-- A read of as many bytes as the stream is known to start with.
record Got (bs rest : Bytes) (es : List Event) : Type 0 where
  left : List Event
  runs : read_until_eof (length bs) [] es ≡ (ok bs, left)
  follows : delivered left ≡ rest
  clean : IsClean left

got : (bs rest : Bytes) (es : List Event) → IsClean es → delivered es ≡ bs ++ rest → Got bs rest es
got bs rest es c e =
    let f = read_until_eof-Filled (length bs) [] es c in
    record {
      left = f.left;
      runs = rw (f.runs, e, take-append_self bs rest);
      follows = rw (f.rest, e, drop-append_self bs rest);
      clean = f.clean;
    }

-- The body of a frame, once its length is known and within the limit.
read_body-got :
    (t : ℕ) (p : Bytes) (m : ℕ) (rest : Bytes) (es : List Event) (g : Got (t ∷ p) rest es)
    → length p + 1 ≤ m
    → read_body m (length p + 1) es ≡ (ok (record { message_type = t; payload = p }), g.left)
unfolding read_body
read_body-got t p m rest es g fits =
    let one : length p + 1 ≡ suc (length p) = omega arith in
    let pos : (length p + 1 == 0) ≡ false = ground arith in
    let small : ltb m (length p + 1) ≡ false = le→ltb_false m _ fits in
    let whole : ltb (suc (length p)) (suc (length p)) ≡ false = le→ltb_false _ _ (omega arith) in
    rw (pos, small, one, g.runs, whole)

pub read_frame-written :
    (t : ℕ) (p : Bytes) (m : ℕ) (bs rest : Bytes) (es : List Event)
    → write_frame_with_limit t p m ≡ ok bs
    → IsClean es
    → delivered es ≡ bs ++ rest
    → FrameRead m (record { message_type = t; payload = p }) rest es
unfolding read_frame_with_limit
read_frame-written t p m bs rest es w c e =
    let known = write_frame-ok t p m w in
    let small = known.0 in
    let g =
      got (be32 (length p + 1)) ((t ∷ p) ++ rest) es c
        (rw (e, known.2, append_assoc (be32 (length p + 1)) (t ∷ p) rest)) in
    let prefix_read : read_until_eof 4 [] es ≡ (ok (be32 (length p + 1)), g.left) = g.runs in
    let h = got (t ∷ p) rest g.left g.clean g.follows in
    record {
      left = h.left;
      runs =
          rw (prefix_read, from_be32-be32 (length p + 1) small)
            (read_body-got t p m rest g.left h known.1);
      follows = h.follows;
      clean = h.clean;
    }

-- `bs` is what the frames put on the stream, each under the limit.
abbrev pub Written : ℕ → List Frame → Bytes → Type 0
Written m [] bs = bs ≡ []
Written m (f ∷ fs) bs =
    (first : Bytes) × (others : Bytes) × (write_frame_with_limit f.message_type f.payload m
      ≡ ok first)
    × (bs ≡ first ++ others)
    × Written m fs others

-- Reading gives the frames in order, and then the orderly close.
abbrev pub ReadsFrames : ℕ → List Frame → List Event → Type 0
ReadsFrames m [] es = (read_frame_with_limit es m).0 ≡ err unexpected_eof
ReadsFrames m (f ∷ fs) es =
    (left : List Event) × (read_frame_with_limit es m ≡ (ok f, left)) × ReadsFrames m fs left

read_frame-close :
    (m : ℕ) (es : List Event)
    → IsClean es
    → delivered es ≡ []
    → (read_frame_with_limit es m).0 ≡ err unexpected_eof
unfolding read_frame_with_limit
read_frame-close m es c e = let f = read_until_eof-Filled 4 [] es c in rw (f.runs, e)

-- Frames that were written in a row under one limit are read back in order under it, and the end of the
-- stream after the last is an orderly close, if the stream delivers just those bytes in chunks of a
-- byte or more, cut anywhere, and its reads fail by interruption only.
pub read_frames-Written :
    (m : ℕ) (fs : List Frame) (bs : Bytes) (es : List Event)
    → Written m fs bs
    → IsClean es
    → delivered es ≡ bs
    → ReadsFrames m fs es
read_frames-Written m [] bs es w c e = read_frame-close m es c (e ∙ w)
read_frames-Written m (f ∷ fs) bs es (first, others, w, split, more) c e =
    let r = read_frame-written f.message_type f.payload m first others es w c (e ∙ split) in
    (r.left, r.runs, read_frames-Written m fs others r.left more r.clean r.follows)

-- A body that ends early.
read_body-short :
    (m n : ℕ) (es : List Event)
    → IsClean es
    → length (delivered es) < n
    → (read_body m n es).0 ≡ err invalid_data
unfolding read_body
read_body-short m n es c h =
    let f = read_until_eof-Filled n [] es c in
    let short : ltb (length (take n (delivered es))) n ≡ true =
      lt→ltb _ n (omega (arith, length-take n (delivered es))) in
    let pos : (n == 0) ≡ false = ground arith in
    elim (Bool-cases (ltb m n)) [
      | inl over ↦ rw (pos, over)
      | inr fits ↦ rw (pos, fits, f.runs, short)
    ]

abbrev named_length : Bytes → ℕ
named_length (a ∷ b ∷ c ∷ d ∷ rest) = from_be32 a b c d
named_length _ = 0

-- A stream that delivers a part of a written frame, some of it but not all, and then ends is reported as
-- malformed, not as closed, if its reads fail by interruption only.
pub read_frame-truncated :
    (t : ℕ) (p : Bytes) (m : ℕ) (bs short missing : Bytes) (es : List Event)
    → write_frame_with_limit t p m ≡ ok bs
    → bs ≡ short ++ missing
    → 0 < length short
    → 0 < length missing
    → IsClean es
    → delivered es ≡ short
    → (read_frame_with_limit es m).0 ≡ err invalid_data
unfolding read_frame_with_limit
read_frame-truncated t p m bs short missing es w split some_bytes not_all c e =
    go short (sym bytes ∙ split) some_bytes e
  where
    small : length p + 1 < 2 ^ 32
    small = (write_frame-ok t p m w).0

    bytes : bs ≡ be32 (length p + 1) ++ (t ∷ p)
    bytes = (write_frame-ok t p m w).2

    f : Filled 4 [] es
    f = read_until_eof-Filled 4 [] es c

    go :
        (s : Bytes)
        → be32 (length p + 1) ++ (t ∷ p) ≡ s ++ missing
        → 0 < length s
        → delivered es ≡ s
        → (read_frame_with_limit es m).0 ≡ err invalid_data
    go [] q h e = absurd (omega arith)
    go (a ∷ []) q h e = rw (f.runs, e)
    go (a ∷ b ∷ []) q h e = rw (f.runs, e)
    go (a ∷ b ∷ x ∷ []) q h e = rw (f.runs, e)
    go (a ∷ b ∷ x ∷ d ∷ s) q h e =
        let named : length p + 1 ≡ from_be32 a b x d =
          sym (from_be32-be32 (length p + 1) small) ∙ ap named_length q in
        let body : t ∷ p ≡ s ++ missing = ap (drop 4) q in
        let came : delivered f.left ≡ s = f.rest ∙ ap (drop 4) e in
        rw (f.runs, e)
          (read_body-short m _ f.left f.clean
            (omega (arith, named, ap length came, ap length body, length-append s missing)))
