-- ===== src/Inbound/Reads.antt =====
-- What the guest reads of an inbound body, and what the host may still send.
use iso.Base.{
  ℕ, ◌+◌, ◌%◌, ◌^◌, ◌≤◌, ◌<◌, ◌≡◌, refl, sym, ap, ◌∙◌, ◌⊎◌, Bool, true, false, none, List, [], ◌∷◌,
  ◌++◌, arith, append_assoc, append-nil, length, length-append, All,
}
use iso.Wire.Bytes.{Bytes}
use iso.Inbound.{
  StreamState, new_stream, Told, stream_pull, stream_cancel, Answer, got, lost, at_end, failed,
  refused, Outcome, buffer_cap, send_stream_credit, chunk_answer,
}

-- The body that the reads were answered with.
abbrev pub body_of : List Answer → Bytes
body_of [] = []
body_of (got chunk ∷ answers) = chunk ++ body_of answers
body_of (lost chunk ∷ answers) = chunk ++ body_of answers
body_of (at_end ∷ answers) = body_of answers
body_of (failed message ∷ answers) = body_of answers
body_of (refused ∷ answers) = body_of answers

-- The credit that the host was given back.
abbrev pub credit_of : List Told → ℕ
credit_of [] = 0
credit_of (stream_pull credit ∷ told) = credit + credit_of told
credit_of (stream_cancel reason ∷ told) = credit_of told

abbrev pub joined : List Bytes → Bytes
joined [] = []
joined (chunk ∷ chunks) = chunk ++ joined chunks

abbrev pub one_if : Bool → ℕ
one_if true = 1
one_if false = 0

abbrev pub IsSmall : Bytes → Type 0
IsSmall chunk = length chunk < 2 ^ 32

-- A stream, what the host has sent and been told, and the reads with their answers so far.
pub record Body : Type 0 where
  pub stream : StreamState
  pub arrived : Bytes
  pub told : List Told
  pub asked : ℕ
  pub answers : List Answer

abbrev pub new_body : Body
new_body = record { stream = new_stream; arrived = []; told = []; asked = 0; answers = [] }

abbrev pub after : Body → Outcome → Body
after b o = record b {
  stream = o.stream;
  told = b.told ++ o.told;
  answers = b.answers ++ o.answers;
}

-- The state keeps what has not been taken, within the cap; a read waits only where nothing is left.
pub record IsHeld (s : StreamState) (rest : Bytes) : Type 0 where
  pub kept :
      ((s.cancelled ≡ false) × (rest ≡ joined s.buffered))
      ⊎ ((s.cancelled ≡ true) × (s.buffered ≡ []))
  pub small : All IsSmall s.buffered
  pub counted : s.buffered_bytes ≡ length (joined s.buffered)
  pub capped : s.buffered_bytes ≤ buffer_cap
  pub waits : (s.pending ≡ false) ⊎ ((s.buffered ≡ []) × ((s.ended ≡ none) × (s.cancelled ≡ false)))

-- `rest` is what the host has sent and no read has taken.
pub record IsBody (b : Body) : Type 0 where
  pub rest : Bytes
  pub flow : body_of b.answers ++ rest ≡ b.arrived
  pub held : IsHeld b.stream rest
  pub credited : credit_of b.told ≡ length (body_of b.answers)
  pub answered : length b.answers + one_if b.stream.pending ≡ b.asked

pub body_of-append : (xs ys : List Answer) → body_of (xs ++ ys) ≡ body_of xs ++ body_of ys
body_of-append [] ys = refl
body_of-append (got c ∷ xs) ys =
    ap (◌++◌ c) (body_of-append xs ys) ∙ sym (append_assoc c (body_of xs) (body_of ys))
body_of-append (lost c ∷ xs) ys =
    ap (◌++◌ c) (body_of-append xs ys) ∙ sym (append_assoc c (body_of xs) (body_of ys))
body_of-append (at_end ∷ xs) ys = body_of-append xs ys
body_of-append (failed m ∷ xs) ys = body_of-append xs ys
body_of-append (refused ∷ xs) ys = body_of-append xs ys

credit_of-append : (xs ys : List Told) → credit_of (xs ++ ys) ≡ credit_of xs + credit_of ys
credit_of-append [] ys = omega arith
credit_of-append (stream_pull c ∷ xs) ys = omega (arith, credit_of-append xs ys)
credit_of-append (stream_cancel r ∷ xs) ys = credit_of-append xs ys

pub joined-append : (xs ys : List Bytes) → joined (xs ++ ys) ≡ joined xs ++ joined ys
joined-append [] ys = refl
joined-append (c ∷ xs) ys =
    ap (◌++◌ c) (joined-append xs ys) ∙ sym (append_assoc c (joined xs) (joined ys))

pub credit_of-sent : (n : ℕ) → n < 2 ^ 32 → credit_of (send_stream_credit true (n % 2 ^ 32)) ≡ n
credit_of-sent n h = ground arith

pub body_of-chunk : (held : Bool) (c : Bytes) → body_of (chunk_answer held c ∷ []) ≡ c
body_of-chunk true c = append-nil c
body_of-chunk false c = append-nil c

-- An operation whose answers carry `c`, for which it gives the credit.
pub after-IsBody :
    (b : Body) (arrived : Bytes) (asked : ℕ) (o : Outcome) (c rest : Bytes)
    → credit_of b.told ≡ length (body_of b.answers)
    → body_of o.answers ≡ c
    → credit_of o.told ≡ length c
    → body_of b.answers ++ (c ++ rest) ≡ arrived
    → length b.answers + length o.answers + one_if o.stream.pending ≡ asked
    → IsHeld o.stream rest
    → IsBody (after (record b { arrived = arrived; asked = asked }) o)
after-IsBody b arrived asked o c rest paid answers told flow count held =
    let whole : body_of (b.answers ++ o.answers) ≡ body_of b.answers ++ c =
      body_of-append b.answers o.answers ∙ ap (◌++◌ (body_of b.answers)) answers in
    record {
      rest = rest;
      flow = ap (λ x. x ++ rest) whole ∙ append_assoc (body_of b.answers) c rest ∙ flow;
      held = held;
      credited =
          credit_of-append b.told o.told
          ∙ omega (arith, paid, told, ap length whole, length-append (body_of b.answers) c);
      answered = omega (arith, count, length-append b.answers o.answers);
    }
