-- ===== src/Streams/Outgoing.antt =====
-- What goes out of a stream: the guest's bytes in order, within the credit, in chunks within the cap.
use iso.Base.{
  ℕ, zero, suc, ◌+◌, ◌-◌, ◌≤◌, ◌<◌, ◌≡◌, refl, sym, ap, ◌∙◌, ◌⊎◌, inl, inr, Bool, true, false, ◌&&◌,
  Option, none, some, List, [], ◌∷◌, ◌++◌, arith, append_assoc, append-nil, All, All-append, length,
  length-append, length-take, length-drop, drop, take-append-drop, drop-drop, ltb, ltb→lt,
  Bool-cases, &&-true,
}
use iso.Wire.Bytes.{Bytes}
use iso.Limits.{stream_chunk_max_bytes, stream_credit_window_bytes}
use iso.Streams.{OutStream, Outbound, stream_chunk, stream_end, Link, chunk_len, next_chunk, flush}

-- The body that the host has been sent.
abbrev pub body_of : List Outbound → Bytes
body_of [] = []
body_of (stream_chunk d ∷ log) = d ++ body_of log
body_of (stream_end e ∷ log) = body_of log

abbrev pub FitsChunk : Outbound → Type 0
FitsChunk (stream_chunk d) = (0 < length d) × (length d ≤ stream_chunk_max_bytes)
FitsChunk (stream_end e) = Unit

abbrev pub IsChunk : Outbound → Type 0
IsChunk (stream_chunk d) = Unit
IsChunk (stream_end e) = ⊥

-- Chunks, and then one end at most.
abbrev pub IsClosed : List Outbound → Type 0
IsClosed [] = Unit
IsClosed (stream_chunk d ∷ log) = IsClosed log
IsClosed (stream_end e ∷ log) = log ≡ []

abbrev pub ends_well : List Outbound → Bool
ends_well [] = false
ends_well (stream_chunk d ∷ log) = ends_well log
ends_well (stream_end none ∷ log) = true
ends_well (stream_end (some m) ∷ log) = ends_well log

-- `rest` is what the guest gave and the host has not been sent.
pub record IsOutgoing (s : OutStream) (log : List Outbound) (given : Bytes) (granted : ℕ)
    : Type 0 where
  pub rest : Bytes
  pub flow : body_of log ++ rest ≡ given
  pub alive : (rest ≡ drop s.backlog_sent s.backlog) ⊎ (s.done ≡ true)
  pub within : length (body_of log) + s.credit ≤ stream_credit_window_bytes + granted
  pub sizes : All FitsChunk log
  pub closed : (All IsChunk log × (s.done ≡ false)) ⊎ (IsClosed log × (s.done ≡ true))
  pub clean : (ends_well log ≡ false) ⊎ (rest ≡ [])

body_of-append :
    (log : List Outbound) (d : Bytes) → body_of (log ++ (stream_chunk d ∷ [])) ≡ body_of log ++ d
body_of-append [] d = append-nil d
body_of-append (stream_chunk e ∷ log) d =
    ap (◌++◌ e) (body_of-append log d) ∙ sym (append_assoc e (body_of log) d)
body_of-append (stream_end e ∷ log) d = body_of-append log d

pub body_of-end :
    (log : List Outbound) (e : Option Bytes) → body_of (log ++ (stream_end e ∷ [])) ≡ body_of log
body_of-end [] e = refl
body_of-end (stream_chunk d ∷ log) e = ap (◌++◌ d) (body_of-end log e)
body_of-end (stream_end f ∷ log) e = body_of-end log e

pub IsChunk-IsClosed : (log : List Outbound) → All IsChunk log → IsClosed log
IsChunk-IsClosed [] a = tt
IsChunk-IsClosed (stream_chunk d ∷ log) a = IsChunk-IsClosed log a.1
IsChunk-IsClosed (stream_end e ∷ log) a = absurd a.0

pub IsClosed-append :
    (log : List Outbound) (e : Option Bytes)
    → All IsChunk log
    → IsClosed (log ++ (stream_end e ∷ []))
IsClosed-append [] e a = refl
IsClosed-append (stream_chunk d ∷ log) e a = IsClosed-append log e a.1
IsClosed-append (stream_end f ∷ log) e a = absurd a.0

pub ends_well-chunks : (log : List Outbound) → All IsChunk log → ends_well log ≡ false
ends_well-chunks [] a = refl
ends_well-chunks (stream_chunk d ∷ log) a = ends_well-chunks log a.1
ends_well-chunks (stream_end e ∷ log) a = absurd a.0

pub ends_well-error :
    (log : List Outbound) (m : Bytes)
    → ends_well log ≡ false
    → ends_well (log ++ (stream_end (some m) ∷ [])) ≡ false
ends_well-error [] m h = refl
ends_well-error (stream_chunk d ∷ log) m h = ends_well-error log m h
ends_well-error (stream_end none ∷ log) m h = cc
ends_well-error (stream_end (some n) ∷ log) m h = ends_well-error log m h

-- A stream that goes on has sent chunks only.
pub open_chunks :
    (s : OutStream) (log : List Outbound) (given : Bytes) (granted : ℕ)
    → IsOutgoing s log given granted
    → s.done ≡ false
    → All IsChunk log
open_chunks s log given granted k h = elim k.closed [ inl q ↦ q.0 | inr q ↦ let x = q.1 in cc ]

pub open_rest :
    (s : OutStream) (log : List Outbound) (given : Bytes) (granted : ℕ)
    (k : IsOutgoing s log given granted)
    → s.done ≡ false
    → k.rest ≡ drop s.backlog_sent s.backlog
open_rest s log given granted k h = elim k.alive [ inl q ↦ q | inr q ↦ cc ]

-- The stream is over without a further frame.
pub over-IsOutgoing :
    (s : OutStream) (t : OutStream) (log : List Outbound) (given : Bytes) (granted : ℕ)
    → IsOutgoing s log given granted
    → s.done ≡ false
    → t.done ≡ true
    → t.credit ≡ s.credit
    → IsOutgoing t log given granted
over-IsOutgoing s t log given granted k h d c = record {
  rest = k.rest;
  flow = k.flow;
  alive = inr d;
  within = omega (arith, k.within, c);
  sizes = k.sizes;
  closed = inr (IsChunk-IsClosed log (open_chunks s log given granted k h), d);
  clean = k.clean;
}

-- One chunk of the backlog goes out.
chunk-IsOutgoing :
    (s : OutStream) (log : List Outbound) (given : Bytes) (granted : ℕ)
    → IsOutgoing s log given granted
    → s.done ≡ false
    → 0 < s.credit
    → s.backlog_sent < length s.backlog
    → IsOutgoing
        (record s { backlog_sent = s.backlog_sent + chunk_len s; credit = s.credit - chunk_len s })
        (log ++ (stream_chunk (next_chunk s) ∷ []))
        given
        granted
chunk-IsOutgoing s log given granted k h paid more =
    let chunks = open_chunks s log given granted k h in
    let left = open_rest s log given granted k h in
    let n : length (next_chunk s) ≡ chunk_len s = omega (
      arith,
      length-take (chunk_len s) (drop s.backlog_sent s.backlog),
      length-drop s.backlog_sent s.backlog,
    ) in
    let split : next_chunk s ++ drop (s.backlog_sent + chunk_len s) s.backlog ≡ k.rest =
      ap (◌++◌ (next_chunk s)) (sym (drop-drop s.backlog_sent (chunk_len s) s.backlog))
      ∙ take-append-drop (chunk_len s) (drop s.backlog_sent s.backlog)
      ∙ sym left in
    let still = All-append IsChunk log (stream_chunk (next_chunk s) ∷ []) chunks (tt, tt) in
    record {
      rest = drop (s.backlog_sent + chunk_len s) s.backlog;
      flow =
          ap (λ x. x ++ drop (s.backlog_sent + chunk_len s) s.backlog)
            (body_of-append log (next_chunk s))
          ∙ append_assoc (body_of log) (next_chunk s)
              (drop (s.backlog_sent + chunk_len s) s.backlog)
          ∙ ap (◌++◌ (body_of log)) split
          ∙ k.flow;
      alive = inl refl;
      within =
          rw (body_of-append log (next_chunk s))
            (omega (arith, k.within, n, length-append (body_of log) (next_chunk s)));
      sizes =
          All-append FitsChunk log (stream_chunk (next_chunk s) ∷ []) k.sizes
            ((omega (arith, n, paid, more), omega (arith, n)), tt);
      closed = inl (still, h);
      clean = inl (ends_well-chunks (log ++ (stream_chunk (next_chunk s) ∷ [])) still);
    }

pub flush-IsOutgoing :
    (n : ℕ) (link : Link) (s : OutStream) (log : List Outbound) (given : Bytes) (granted : ℕ)
    → IsOutgoing s log given granted
    → s.done ≡ false
    → IsOutgoing (flush n link s log).0 (flush n link s log).1 given granted
unfolding flush
flush-IsOutgoing zero link s log given granted k h = k
flush-IsOutgoing (suc n) link s log given granted k h =
    elim (Bool-cases (ltb 0 s.credit && ltb s.backlog_sent (length s.backlog))) [
      | inr q ↦ rw (flush, q) k
      | inl q ↦
          let (paid, more) = &&-true (ltb 0 s.credit) _ q in
          let sent = chunk-IsOutgoing s log given granted k h (ltb→lt _ _ paid) (ltb→lt _ _ more) in
          elim (Bool-cases link.present) [
            | inr p ↦ simp (flush, q, p) (over-IsOutgoing s _ log given granted k h refl refl)
            | inl p ↦ elim (Bool-cases (link.takes (length log))) [
              | inr a ↦ simp (flush, q, p, a) (over-IsOutgoing s _ log given granted k h refl refl)
              | inl a ↦ simp (flush, q, p, a) (flush-IsOutgoing n link _ _ given granted sent h)
            ]
          ]
    ]
