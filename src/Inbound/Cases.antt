-- ===== src/Inbound/Cases.antt =====
-- Each operation on an inbound body keeps what IsBody says, by the cases of the stream's fields.
use iso.Base.{
  ℕ, suc, ◌+◌, ◌^◌, ◌<◌, ◌≡◌, refl, sym, ap, ◌∙◌, inl, inr, subst, Bool, true, false, Option, none,
  some, List, [], ◌∷◌, ◌++◌, arith, append_assoc, append-nil, length, length-append, ltb,
  All-append, Bool-cases, if◌then◌else◌,
}
use iso.Wire.Bytes.{Bytes}
use iso.Inbound.{
  StreamState, at_end, Outcome, quiet, buffer_cap, buffer_chunk, deliver_chunk, deliver_end,
  read_empty, read_from, stream_read, cancel_stream, hand_over, end_answer,
}
use iso.Inbound.Reads.{
  body_of, joined, one_if, Body, after, IsSmall, IsHeld, IsBody, joined-append, credit_of-sent,
  body_of-chunk, after-IsBody,
}

abbrev state : List Bytes → ℕ → Option (Option Bytes) → Bool → Bool → StreamState
state buffered n ended cancelled pending = record {
  buffered = buffered;
  buffered_bytes = n;
  ended = ended;
  cancelled = cancelled;
  pending = pending;
}

abbrev in_state : Body → StreamState → Body
in_state b s = record b { stream = s }

body_of-end : (e : Option Bytes) → body_of (end_answer e ∷ []) ≡ []
body_of-end none = refl
body_of-end (some m) = refl

-- With chunks in the buffer, or after the end, no read waits.
none_waits :
    (c : Bytes) (cs : List Bytes) (n : ℕ) (e : Option (Option Bytes)) (x p : Bool) (rest : Bytes)
    → IsHeld (state (c ∷ cs) n e x p) rest
    → p ≡ false
none_waits c cs n e x p rest h = elim h.waits [ inl q ↦ q | inr q ↦ let z = q.0 in cc ]

first_kept :
    (c : Bytes) (cs : List Bytes) (n : ℕ) (e : Option (Option Bytes)) (x p : Bool) (rest : Bytes)
    → IsHeld (state (c ∷ cs) n e x p) rest
    → (x ≡ false) × (rest ≡ c ++ joined cs)
first_kept c cs n e x p rest h = elim h.kept [ inl q ↦ q | inr q ↦ let z = q.1 in cc ]

dropped : (s : StreamState) (rest : Bytes) → IsHeld s rest → s.cancelled ≡ true → s.buffered ≡ []
dropped s rest h d = elim h.kept [ inl q ↦ let z = q.0 in cc | inr q ↦ q.1 ]

live_rest :
    (s : StreamState) (rest : Bytes)
    → IsHeld s rest
    → s.cancelled ≡ false
    → rest ≡ joined s.buffered
live_rest s rest h d = elim h.kept [ inl q ↦ q.1 | inr q ↦ let z = q.0 in cc ]

pub reads-IsBody :
    (b : Body) (held : Bool) (buffered : List Bytes) (n : ℕ) (e : Option (Option Bytes))
    (x p : Bool)
    → IsBody (in_state b (state buffered n e x p))
    → IsBody (
        after
          (record b { stream = state buffered n e x p; asked = suc b.asked })
          (stream_read true held (state buffered n e x p)))
unfolding stream_read read_from read_empty
reads-IsBody b held (c ∷ cs) n e x true k = let z = none_waits c cs n e x true k.rest k.held in cc
reads-IsBody b held (c ∷ cs) n e x false k =
    let (live, whole) = first_kept c cs n e x false k.rest k.held in
    after-IsBody (in_state b (state (c ∷ cs) n e x false)) b.arrived (suc b.asked)
      (stream_read true held (state (c ∷ cs) n e x false)) c (joined cs) k.credited
      (body_of-chunk held c) (credit_of-sent (length c) k.held.small.0)
      (ap (◌++◌ (body_of b.answers)) (sym whole) ∙ k.flow) (omega (arith, k.answered))
      (record {
        kept = inl (live, refl);
        small = k.held.small.1;
        counted = omega (arith, k.held.counted, length-append c (joined cs));
        capped = omega (arith, k.held.capped);
        waits = inl refl;
      })
reads-IsBody b held [] n e true p k =
    after-IsBody (in_state b (state [] n e true p)) b.arrived (suc b.asked)
      (stream_read true held (state [] n e true p)) [] k.rest k.credited refl refl k.flow
      (omega (arith, k.answered)) k.held
reads-IsBody b held [] n (some er) false p k =
    after-IsBody (in_state b (state [] n (some er) false p)) b.arrived (suc b.asked)
      (stream_read true held (state [] n (some er) false p)) [] k.rest k.credited (body_of-end er)
      refl k.flow (omega (arith, k.answered)) k.held
reads-IsBody b held [] n none false true k =
    after-IsBody (in_state b (state [] n none false true)) b.arrived (suc b.asked)
      (stream_read true held (state [] n none false true)) [] k.rest k.credited refl refl k.flow
      (omega (arith, k.answered)) k.held
reads-IsBody b held [] n none false false k =
    after-IsBody (in_state b (state [] n none false false)) b.arrived (suc b.asked)
      (stream_read true held (state [] n none false false)) [] k.rest k.credited refl refl k.flow
      (omega (arith, k.answered))
      (record {
        kept = k.held.kept;
        small = tt;
        counted = k.held.counted;
        capped = k.held.capped;
        waits = inr (refl, (refl, refl));
      })

pub ends-IsBody :
    (b : Body) (er : Option Bytes) (buffered : List Bytes) (n : ℕ) (e : Option (Option Bytes))
    (x p : Bool)
    → IsBody (in_state b (state buffered n e x p))
    → IsBody (after (in_state b (state buffered n e x p)) (deliver_end (state buffered n e x p) er))
unfolding deliver_end
ends-IsBody b er (c ∷ cs) n e x true k = let z = none_waits c cs n e x true k.rest k.held in cc
ends-IsBody b er (c ∷ cs) n e x false k =
    after-IsBody (in_state b (state (c ∷ cs) n e x false)) b.arrived b.asked
      (deliver_end (state (c ∷ cs) n e x false) er) [] k.rest k.credited refl refl k.flow
      (omega (arith, k.answered))
      (record {
        kept = k.held.kept;
        small = k.held.small;
        counted = k.held.counted;
        capped = k.held.capped;
        waits = inl refl;
      })
ends-IsBody b er [] n e x true k =
    after-IsBody (in_state b (state [] n e x true)) b.arrived b.asked
      (deliver_end (state [] n e x true) er) [] k.rest k.credited (body_of-end er) refl k.flow
      (omega (arith, k.answered))
      (record {
        kept = k.held.kept;
        small = tt;
        counted = k.held.counted;
        capped = k.held.capped;
        waits = inl refl;
      })
ends-IsBody b er [] n e x false k =
    after-IsBody (in_state b (state [] n e x false)) b.arrived b.asked
      (deliver_end (state [] n e x false) er) [] k.rest k.credited refl refl k.flow
      (omega (arith, k.answered))
      (record {
        kept = k.held.kept;
        small = tt;
        counted = k.held.counted;
        capped = k.held.capped;
        waits = inl refl;
      })

body_of-closed : (p : Bool) → body_of (if p then at_end ∷ [] else []) ≡ []
body_of-closed true = refl
body_of-closed false = refl

length-closed : (p : Bool) → length (if p then at_end ∷ [] else []) ≡ one_if p
length-closed true = refl
length-closed false = refl

-- A cancellation of a stream that is over already only answers the read that waits.
over-IsBody :
    (b : Body) (reason : Bytes) (s : StreamState)
    → cancel_stream true reason s ≡ record {
      stream = record s { pending = false };
      told = [];
      answers = if s.pending then at_end ∷ [] else [];
    }
    → IsBody (in_state b s)
    → IsBody (after (in_state b s) (cancel_stream true reason s))
over-IsBody b reason s at k =
    let done =
      after-IsBody (in_state b s) b.arrived b.asked
        (record {
          stream = record s { pending = false };
          told = [];
          answers = if s.pending then at_end ∷ [] else [];
        })
        [] k.rest k.credited (body_of-closed s.pending) refl k.flow
        (omega (arith, k.answered, length-closed s.pending))
        (record {
          kept = k.held.kept;
          small = k.held.small;
          counted = k.held.counted;
          capped = k.held.capped;
          waits = inl refl;
        }) in
    subst (λ o. IsBody (after (in_state b s) o)) (sym at) done

pub cancels-IsBody :
    (b : Body) (reason : Bytes) (buffered : List Bytes) (n : ℕ) (e : Option (Option Bytes))
    (x p : Bool)
    → IsBody (in_state b (state buffered n e x p))
    → IsBody (
        after
          (in_state b (state buffered n e x p))
          (cancel_stream true reason (state buffered n e x p)))
unfolding cancel_stream
cancels-IsBody b reason buffered n e true p k =
    over-IsBody b reason (state buffered n e true p) refl k
cancels-IsBody b reason buffered n (some er) false p k =
    over-IsBody b reason (state buffered n (some er) false p) refl k
cancels-IsBody b reason buffered n none false p k =
    after-IsBody (in_state b (state buffered n none false p)) b.arrived b.asked
      (cancel_stream true reason (state buffered n none false p)) [] k.rest k.credited
      (body_of-closed p) refl k.flow (omega (arith, k.answered, length-closed p))
      (record {
        kept = inr (refl, refl);
        small = tt;
        counted = refl;
        capped = omega arith;
        waits = inl refl;
      })

-- What a delivery of `bytes` leads to, if it does not end the run.
abbrev pub Delivered : Body → Bytes → Option Outcome → Type 0
Delivered b bytes none = Unit
Delivered b bytes (some o) = IsBody (after (record b { arrived = b.arrived ++ bytes }) o)

buffered-Delivered :
    (b : Body) (buffered : List Bytes) (n : ℕ) (e : Option (Option Bytes)) (bytes : Bytes)
    → length bytes < 2 ^ 32
    → IsBody (in_state b (state buffered n e false false))
    → Delivered
        (in_state b (state buffered n e false false))
        bytes
        (buffer_chunk (state buffered n e false false) bytes)
unfolding buffer_chunk
buffered-Delivered b buffered n e bytes small k =
    elim (Bool-cases (ltb buffer_cap (n + length bytes))) [
      | inl q ↦ rw (buffer_chunk, q) tt
      | inr q ↦
          let s = state buffered n e false false in
          let more =
            joined-append buffered (bytes ∷ []) ∙ ap (◌++◌ (joined buffered)) (append-nil bytes) in
          rw (buffer_chunk, q)
            (after-IsBody (in_state b s) (b.arrived ++ bytes) b.asked
              (record {
                stream = state (buffered ++ (bytes ∷ [])) (n + length bytes) e false false;
                told = [];
                answers = [];
              })
              [] (k.rest ++ bytes) k.credited refl refl
              (sym (append_assoc (body_of b.answers) k.rest bytes) ∙ ap (λ z. z ++ bytes) k.flow)
              (omega (arith, k.answered))
              (record {
                kept = inl (refl, ap (λ z. z ++ bytes) (live_rest s k.rest k.held refl) ∙ sym more);
                small = All-append IsSmall buffered (bytes ∷ []) k.held.small (small, tt);
                counted =
                    omega (
                      arith,
                      k.held.counted,
                      ap length more,
                      length-append (joined buffered) bytes,
                    );
                capped = ground (arith, q);
                waits = inl refl;
              }))
    ]

waiting-IsBody :
    (b : Body) (held : Bool) (buffered : List Bytes) (n : ℕ) (e : Option (Option Bytes))
    (bytes : Bytes)
    → length bytes < 2 ^ 32
    → IsBody (in_state b (state buffered n e false true))
    → IsBody (
        after
          (record b { stream = state buffered n e false true; arrived = b.arrived ++ bytes })
          (hand_over true held (state buffered n e false false) bytes))
waiting-IsBody b held (c ∷ cs) n e bytes small k =
    let z = none_waits c cs n e false true k.rest k.held in cc
waiting-IsBody b held [] n e bytes small k =
    let nothing = live_rest (state [] n e false true) k.rest k.held refl in
    after-IsBody (in_state b (state [] n e false true)) (b.arrived ++ bytes) b.asked
      (hand_over true held (state [] n e false false) bytes) bytes [] k.credited
      (body_of-chunk held bytes) (credit_of-sent (length bytes) small)
      (ap (◌++◌ (body_of b.answers)) (append-nil bytes)
        ∙ ap (λ z. z ++ bytes)
            (sym (append-nil (body_of b.answers))
              ∙ ap (◌++◌ (body_of b.answers)) (sym nothing)
              ∙ k.flow))
      (omega (arith, k.answered))
      (record {
        kept = inl (refl, refl);
        small = tt;
        counted = k.held.counted;
        capped = k.held.capped;
        waits = inl refl;
      })

pub delivered :
    (b : Body) (held : Bool) (buffered : List Bytes) (n : ℕ) (e : Option (Option Bytes))
    (x p : Bool) (bytes : Bytes)
    → length bytes < 2 ^ 32
    → IsBody (in_state b (state buffered n e x p))
    → Delivered
        (in_state b (state buffered n e x p))
        bytes
        (deliver_chunk true held (state buffered n e x p) bytes)
unfolding deliver_chunk
delivered b held buffered n e true p bytes small k =
    after-IsBody (in_state b (state buffered n e true p)) (b.arrived ++ bytes) b.asked
      (quiet (state buffered n e true p)) [] (k.rest ++ bytes) k.credited refl refl
      (sym (append_assoc (body_of b.answers) k.rest bytes) ∙ ap (λ z. z ++ bytes) k.flow)
      (omega (arith, k.answered))
      (record {
        kept = inr (refl, dropped (state buffered n e true p) k.rest k.held refl);
        small = k.held.small;
        counted = k.held.counted;
        capped = k.held.capped;
        waits = k.held.waits;
      })
delivered b held buffered n e false true bytes small k =
    waiting-IsBody b held buffered n e bytes small k
delivered b held buffered n e false false bytes small k =
    buffered-Delivered b buffered n e bytes small k
