-- ===== src/Inbound/Honest.antt =====
-- A read gets the chunk that V8 can hold, and loses the one that it cannot.
use iso.Base.{
  ℕ, suc, ◌+◌, ◌≡◌, ap, subst, Bool, true, false, Option, none, some, List, [], ◌∷◌, ◌++◌, ◌&&◌,
  arith, length, ltb, if◌then◌else◌, Bool-cases, inl, inr,
}
use iso.Wire.Bytes.{Bytes}
use iso.Inbound.{
  StreamState, Answer, got, lost, at_end, failed, refused, Outcome, chunk_answer, end_answer,
  buffer_cap, buffer_chunk, deliver_chunk, no_chunks, deliver_end, read_empty, read_from,
  stream_read, cancel_stream,
}

-- From the answer of that number on: each chunk that was got could be held, each lost one could not.
abbrev pub IsHonest : (ℕ → Bool) → ℕ → List Answer → Type 0
IsHonest holds n [] = Unit
IsHonest holds n (got chunk ∷ answers) = (holds n ≡ true) × IsHonest holds (n + 1) answers
IsHonest holds n (lost chunk ∷ answers) = (holds n ≡ false) × IsHonest holds (n + 1) answers
IsHonest holds n (at_end ∷ answers) = IsHonest holds (n + 1) answers
IsHonest holds n (failed message ∷ answers) = IsHonest holds (n + 1) answers
IsHonest holds n (refused ∷ answers) = IsHonest holds (n + 1) answers

module _ (holds : ℕ → Bool) where
  shifted :
      (n m : ℕ) (ys : List Answer) → IsHonest holds (n + suc m) ys → IsHonest holds (n + 1 + m) ys
  shifted n m ys h =
      let e : n + suc m ≡ n + 1 + m = omega arith in subst (λ k. IsHonest holds k ys) e h

  append_from :
      (n : ℕ) (xs ys : List Answer)
      → IsHonest holds n xs
      → IsHonest holds (n + length xs) ys
      → IsHonest holds n (xs ++ ys)
  append_from n [] ys a b = subst (λ k. IsHonest holds k ys) (omega arith) b
  append_from n (got c ∷ xs) ys a b =
      (a.0, append_from (n + 1) xs ys a.1 (shifted n (length xs) ys b))
  append_from n (lost c ∷ xs) ys a b =
      (a.0, append_from (n + 1) xs ys a.1 (shifted n (length xs) ys b))
  append_from n (at_end ∷ xs) ys a b = append_from (n + 1) xs ys a (shifted n (length xs) ys b)
  append_from n (failed m ∷ xs) ys a b = append_from (n + 1) xs ys a (shifted n (length xs) ys b)
  append_from n (refused ∷ xs) ys a b = append_from (n + 1) xs ys a (shifted n (length xs) ys b)

  chunk_answer-IsHonest :
      (n : ℕ) (chunk : Bytes) → IsHonest holds n (chunk_answer (holds n) chunk ∷ [])
  chunk_answer-IsHonest n chunk = elim (Bool-cases (holds n)) [
    | inl h ↦ rw h (h, tt)
    | inr h ↦ rw h (h, tt)
  ]

  end_answer-IsHonest : (n : ℕ) (error : Option Bytes) → IsHonest holds n (end_answer error ∷ [])
  end_answer-IsHonest n none = tt
  end_answer-IsHonest n (some message) = tt

  abbrev answers_if : Option Outcome → List Answer
  answers_if none = []
  answers_if (some o) = o.answers

  buffer_chunk-IsHonest :
      (n : ℕ) (s : StreamState) (bytes : Bytes)
      → IsHonest holds n (answers_if (buffer_chunk s bytes))
  unfolding buffer_chunk
  buffer_chunk-IsHonest n s bytes =
      elim (Bool-cases (ltb buffer_cap (s.buffered_bytes + length bytes))) [
        | inl h ↦ rw h tt
        | inr h ↦ rw h tt
      ]

  either-IsHonest :
      (n : ℕ) (b : Bool) (x y : Option Outcome)
      → IsHonest holds n (answers_if x)
      → IsHonest holds n (answers_if y)
      → IsHonest holds n (answers_if (if b then x else y))
  either-IsHonest n true x y h k = h
  either-IsHonest n false x y h k = k

  either_answers :
      (n : ℕ) (b : Bool) (x y : Outcome)
      → IsHonest holds n x.answers
      → IsHonest holds n y.answers
      → IsHonest holds n (if b then x else y).answers
  either_answers n true x y h k = h
  either_answers n false x y h k = k

  taken-IsHonest :
      (n : ℕ) (link : Bool) (s : StreamState) (bytes : Bytes)
      → IsHonest holds n (answers_if (deliver_chunk link (holds n) s bytes))
  unfolding deliver_chunk
  taken-IsHonest n link s bytes = either-IsHonest n s.cancelled _ _ tt (
      either-IsHonest n s.pending _ _ (chunk_answer-IsHonest n bytes)
        (buffer_chunk-IsHonest n s bytes))

  pub deliver_chunk-IsHonest :
      (n : ℕ) (link : Bool) (s : StreamState) (bytes : Bytes) (o : Outcome)
      → deliver_chunk link (holds n) s bytes ≡ some o
      → IsHonest holds n o.answers
  deliver_chunk-IsHonest n link s bytes o h =
      subst (IsHonest holds n) (ap answers_if h) (taken-IsHonest n link s bytes)

  pub deliver_end-IsHonest :
      (n : ℕ) (s : StreamState) (error : Option Bytes)
      → IsHonest holds n (deliver_end s error).answers
  unfolding deliver_end
  deliver_end-IsHonest n s error = elim (Bool-cases (no_chunks s.buffered && s.pending)) [
    | inl h ↦ rw h (end_answer-IsHonest n error)
    | inr h ↦ rw h tt
  ]

  read_empty-IsHonest :
      (n : ℕ) (s : StreamState) (ended : Option (Option Bytes))
      → IsHonest holds n (read_empty s ended).answers
  unfolding read_empty
  read_empty-IsHonest n s (some error) = end_answer-IsHonest n error
  read_empty-IsHonest n s none = elim (Bool-cases s.pending) [ inl h ↦ rw h tt | inr h ↦ rw h tt ]

  read_from-IsHonest :
      (n : ℕ) (link : Bool) (s : StreamState) (chunks : List Bytes)
      → IsHonest holds n (read_from link (holds n) s chunks).answers
  unfolding read_from
  read_from-IsHonest n link s (chunk ∷ rest) = chunk_answer-IsHonest n chunk
  read_from-IsHonest n link s [] =
      either_answers n s.cancelled _ _ tt (read_empty-IsHonest n s s.ended)

  pub stream_read-IsHonest :
      (n : ℕ) (link : Bool) (s : StreamState)
      → IsHonest holds n (stream_read link (holds n) s).answers
  unfolding stream_read
  stream_read-IsHonest n link s = read_from-IsHonest n link s s.buffered

  pub cancel_stream-IsHonest :
      (n : ℕ) (link : Bool) (reason : Bytes) (s : StreamState)
      → IsHonest holds n (cancel_stream link reason s).answers
  unfolding cancel_stream
  cancel_stream-IsHonest n link reason s = elim (Bool-cases s.pending) [
    | inl h ↦ rw h tt
    | inr h ↦ rw h tt
  ]

-- The answers of an operation join those before it.
pub IsHonest-append :
    (holds : ℕ → Bool) (n : ℕ) (xs ys : List Answer)
    → IsHonest holds n xs
    → IsHonest holds (n + length xs) ys
    → IsHonest holds n (xs ++ ys)
IsHonest-append holds n xs ys a b = append_from holds n xs ys a b
