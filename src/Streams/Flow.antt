-- ===== src/Streams/Flow.antt =====
-- A stream with its guest, its host and its link as a state machine.
use iso.Base.{
  ℕ, ◌+◌, ◌≡◌, refl, sym, subst, inl, inr, Bool, true, false, some, List, [], ◌++◌, arith, min,
  Bool-cases, if◌then◌else◌,
}
use iso.Wire.Bytes.{Bytes}
use iso.Limits.{u32_max}
use iso.Streams.{
  OutStream, new_out_stream, Outbound, Link, classify, send_end, next_of, Guest, drive_turn,
  note_out_credit, cancel_out_stream,
}
use iso.Streams.Outgoing.{IsOutgoing, over-IsOutgoing}
use iso.Streams.Credit.{
  choose_open, end-IsOutgoing, classify-IsOutgoing, drive_next-IsOutgoing, next_of-open, gained,
}

-- A stream, what went out, and what has been given and granted so far.
pub record Flow : Type 0 where
  pub stream : OutStream
  pub log : List Outbound
  pub given : Bytes
  pub granted : ℕ

abbrev pub new_flow : Flow
new_flow = record { stream = new_out_stream; log = []; given = []; granted = 0 }

abbrev pub driven : Link → Guest → Flow → Flow
driven link guest f =
    let next = next_of (classify link f.stream f.log).0 in
    let (stream, log) = drive_turn link guest f.stream f.log in
    record f { stream = stream; log = log; given = f.given ++ gained guest next }

abbrev pub cancelled : Link → Bytes → Bool → Flow → Flow
cancelled link reason notify_host f =
    let (stream, log) = cancel_out_stream link reason notify_host f.stream f.log in
    record f { stream = stream; log = log }

pub data Step : Flow → Flow → Type 0 where
  drives : (f : Flow) (link : Link) (guest : Guest) → Step f (driven link guest f)
  grants :
      (f : Flow) (credit : ℕ)
      → Step f (record f { stream = note_out_credit f.stream credit; granted = f.granted + credit })
  cancels :
      (f : Flow) (link : Link) (reason : Bytes) (notify_host : Bool)
      → Step f (cancelled link reason notify_host f)

pub data Reach (s : Flow) : Flow → Type 0 where
  here : Reach s s
  next : {t u : Flow} → Reach s t → Step t u → Reach s u

abbrev pub IsFlow : Flow → Type 0
IsFlow f = IsOutgoing f.stream f.log f.given f.granted

new_flow-IsFlow : IsFlow new_flow
new_flow-IsFlow = record {
  rest = [];
  flow = refl;
  alive = inl refl;
  within = omega arith;
  sizes = tt;
  closed = inl (tt, refl);
  clean = inl refl;
}

choose_stream : (b : Bool) (x y : OutStream) → b ≡ false → (if b then x else y) ≡ y
choose_stream b x y h = rw h refl

granted_open :
    (s : OutStream) (credit : ℕ)
    → s.done ≡ false
    → note_out_credit s credit ≡ record s { credit = min (s.credit + credit) u32_max }
unfolding note_out_credit
granted_open s credit d = choose_stream s.done _ _ d

cancelled_open :
    (link : Link) (reason : Bytes) (notify_host : Bool) (s : OutStream) (log : List Outbound)
    → s.done ≡ false
    → cancel_out_stream link reason notify_host s log ≡ (
      record s { done = true; pending = false; backlog = [] },
      if notify_host then send_end link (some reason) log else log,
    )
unfolding cancel_out_stream
cancelled_open link reason notify_host s log d = choose_open s.done _ _ d

grants-IsFlow :
    (f : Flow) (credit : ℕ)
    → IsFlow f
    → IsFlow (record f { stream = note_out_credit f.stream credit; granted = f.granted + credit })
unfolding note_out_credit
grants-IsFlow f credit k =
    let s = f.stream in
    elim (Bool-cases s.done) [
      | inl d ↦
          let at : note_out_credit s credit ≡ s = rw (note_out_credit, d) refl in
          subst (λ x. IsOutgoing x f.log f.given (f.granted + credit)) (sym at)
            (record {
              rest = k.rest;
              flow = k.flow;
              alive = k.alive;
              within = omega (arith, k.within);
              sizes = k.sizes;
              closed = k.closed;
              clean = k.clean;
            })
      | inr d ↦
          let more : OutStream = record s { credit = min (s.credit + credit) u32_max } in
          let at : note_out_credit s credit ≡ more = granted_open s credit d in
          subst (λ x. IsOutgoing x f.log f.given (f.granted + credit)) (sym at)
            (record {
              rest = k.rest;
              flow = k.flow;
              alive = k.alive;
              within = omega (arith, k.within);
              sizes = k.sizes;
              closed = k.closed;
              clean = k.clean;
            })
    ]

cancelled-IsFlow :
    (f : Flow) (link : Link) (reason : Bytes) (notify_host : Bool)
    → IsFlow f
    → IsFlow (cancelled link reason notify_host f)
unfolding cancel_out_stream
cancelled-IsFlow f link reason notify_host k =
    let s = f.stream in
    let by =
      λ (r : OutStream × List Outbound) (at : cancel_out_stream link reason notify_host s f.log ≡ r)
          (o : IsOutgoing r.0 r.1 f.given f.granted).
        subst (λ (x : OutStream × List Outbound). IsOutgoing x.0 x.1 f.given f.granted) (sym at)
          o in
    let over : OutStream = record s { done = true; pending = false; backlog = [] } in
    elim (Bool-cases s.done) [
      | inl d ↦ by (s, f.log) (rw (cancel_out_stream, d) refl) k
      | inr d ↦
          by (over, if notify_host then send_end link (some reason) f.log else f.log)
            (cancelled_open link reason notify_host s f.log d)
            (elim (Bool-cases notify_host) [
              | inl n ↦ rw n (
                  end-IsOutgoing link (some reason) s over f.log f.given f.granted k d refl refl tt)
              | inr n ↦ rw n (over-IsOutgoing s over f.log f.given f.granted k d refl refl)
            ])
    ]

Step-IsFlow : {f g : Flow} → Step f g → IsFlow f → IsFlow g
unfolding drive_turn
Step-IsFlow (drives f link guest) k =
    let ready = classify link f.stream f.log in
    drive_next-IsOutgoing link guest ready.0 (next_of ready.0) ready.1 f.given f.granted
      (classify-IsOutgoing link f.stream f.log f.given f.granted k) (next_of-open ready.0)
Step-IsFlow (grants f credit) k = grants-IsFlow f credit k
Step-IsFlow (cancels f link reason notify_host) k = cancelled-IsFlow f link reason notify_host k

Reach-IsFlow : {f g : Flow} → IsFlow f → Reach f g → IsFlow g
Reach-IsFlow k here = k
Reach-IsFlow k (next r st) = Step-IsFlow st (Reach-IsFlow k r)

-- Whatever the guest gives, the host grants or cancels and the link refuses: the host has been sent a
-- prefix of the guest's bytes in chunks of 1 byte to the cap, never more than the credit window and the
-- grants, and with the remaining credit not either; after the end of the stream it is sent nothing,
-- and a clean end follows the last byte.
pub reachable-IsFlow : (f : Flow) → Reach new_flow f → IsFlow f
reachable-IsFlow f h = Reach-IsFlow new_flow-IsFlow h
