-- ===== src/Outbox/Progress.antt =====
-- What a turn of `write_some` does to the unwritten bytes of a frame.
use iso.Base.{
  ℕ, zero, suc, ◌+◌, ◌-◌, ◌≤◌, ◌≡◌, refl, sym, ap, ◌∙◌, inl, inr, Bool, Option, none, some, List,
  [], ◌∷◌, ◌++◌, arith, length, length-append, drop, take-append-drop, drop-append_le, drop_nil,
  drop_all, drop-drop, drop-append_ge, ltb, leb, leb→le, leb_false→lt, ltb_false→le, Bool-cases,
}
use iso.Wire.Bytes.{Bytes}
use iso.Outbox.{
  FrameProgress, total_of, total, slices, concat, unwritten, Answer, wrote, interrupt, would_block,
  broken, Outcome, all_written, stopped, broke, after_write, write_turn,
}
use iso.Outbox.System.{accepted, IsPossible}

-- The slices are the bytes past the offset.
pub concat-slices : (n : ℕ) (parts : List Bytes) → concat (slices n parts) ≡ drop n (concat parts)
concat-slices n [] = sym (drop_nil n)
concat-slices n (p ∷ parts) = elim (Bool-cases (leb (length p) n)) [
  | inl h ↦ rw h (
      concat-slices (n - length p) parts
      ∙ sym (drop-append_le n p (concat parts) (leb→le (length p) n h)))
  | inr h ↦
      let before : n ≤ length p = omega (arith, leb_false→lt (length p) n h) in
      rw (h, drop-append_ge n p (concat parts) before)
        (ap (◌++◌ (drop n p)) (concat-slices 0 parts))
]

length-concat : (parts : List Bytes) → length (concat parts) ≡ total_of parts
length-concat [] = refl
length-concat (p ∷ parts) =
    length-append p (concat parts) ∙ ap (◌+◌ (length p)) (length-concat parts)

abbrev IsEnd : FrameProgress → Option Outcome → Type 0
IsEnd q none = Unit
IsEnd q (some all_written) = unwritten q ≡ []
IsEnd q (some stopped) = Unit
IsEnd q (some broke) = Unit

-- What the socket accepted goes before what is left, and a finished frame leaves nothing.
pub record IsTurn (p : FrameProgress) (r : FrameProgress × Option Outcome) : Type 0 where
  pub flow : accepted p r.0 ++ unwritten r.0 ≡ unwritten p
  pub end : IsEnd r.0 r.1

IsTurn-still : (p : FrameProgress) (o : Option Outcome) → IsEnd p o → IsTurn p (p, o)
IsTurn-still p o e =
    let z : p.written - p.written ≡ 0 = omega arith in record { flow = rw z refl; end = e }

after_write-IsTurn : (p : FrameProgress) (a : Answer) → IsPossible p a → IsTurn p (after_write p a)
unfolding after_write
after_write-IsTurn p (wrote zero) h = IsTurn-still p (some broke) tt
after_write-IsTurn p (wrote (suc n)) h =
    let z : (p.written + suc n) - p.written ≡ suc n = omega arith in
    let left : concat (slices (p.written + suc n) p.parts) ≡ drop (suc n) (unwritten p) =
      concat-slices (p.written + suc n) p.parts
      ∙ sym (drop-drop p.written (suc n) (concat p.parts))
      ∙ ap (drop (suc n)) (sym (concat-slices p.written p.parts)) in
    record { flow = rw (z, left) (take-append-drop (suc n) (unwritten p)); end = tt }
after_write-IsTurn p interrupt h = IsTurn-still p none tt
after_write-IsTurn p would_block h = IsTurn-still p (some stopped) tt
after_write-IsTurn p broken h = IsTurn-still p (some broke) tt

pub write_turn-IsTurn :
    (p : FrameProgress) (late : Bool) (a : Answer) → IsPossible p a → IsTurn p (write_turn p late a)
unfolding write_turn
write_turn-IsTurn p late a h = elim (Bool-cases (ltb p.written (total p))) [
  | inr q ↦
      let over = ltb_false→le p.written (total p) q in
      let fits : length (concat p.parts) ≤ p.written = rw (length-concat p.parts) over in
      rw (write_turn, q)
        (IsTurn-still p (some all_written)
          (concat-slices p.written p.parts ∙ drop_all p.written (concat p.parts) fits))
  | inl q ↦ elim (Bool-cases late) [
    | inl l ↦ rw (write_turn, q, l) (IsTurn-still p (some stopped) tt)
    | inr l ↦ rw (write_turn, q, l) (after_write-IsTurn p a h)
  ]
]
