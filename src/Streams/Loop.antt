-- ===== src/Streams/Loop.antt =====
-- The loop of `drive_out_stream` ends: a pull is awaited once in it.
use iso.Base.{
  ℕ, zero, suc, ◌≡◌, refl, ◌∙◌, inl, inr, Bool, true, false, not, ◌&&◌, Option, some, List, length,
  ltb, leb, ◌==◌, Bool-cases, if◌then◌else◌,
}
use iso.Streams.{
  OutStream, Outbound, Link, is_empty, flush, clear_backlog, after_flush, Next, idle, await_pending,
  start_pull, next_of, classify, chunk, eof, failed, settle, Guest, waiting, killed, settled,
  drive_next, goes_on, drive_out_stream,
}

flush-pending :
    (n : ℕ) (link : Link) (s : OutStream) (log : List Outbound)
    → (flush n link s log).0.pending ≡ s.pending
unfolding flush
flush-pending zero link s log = refl
flush-pending (suc n) link s log =
    elim (Bool-cases (ltb 0 s.credit && ltb s.backlog_sent (length s.backlog))) [
      | inr q ↦ rw (flush, q) refl
      | inl q ↦ elim (Bool-cases link.present) [
        | inr p ↦ simp (flush, q, p) refl
        | inl p ↦ elim (Bool-cases (link.takes (length log))) [
          | inr a ↦ simp (flush, q, p, a) refl
          | inl a ↦ simp (flush, q, p, a) (flush-pending n link _ _)
        ]
      ]
    ]

after_flush-pending :
    (s : OutStream) (log : List Outbound) → (after_flush s log).0.pending ≡ s.pending
unfolding after_flush clear_backlog
after_flush-pending s log = elim (Bool-cases s.done) [
  | inl d ↦ rw (after_flush, d) refl
  | inr d ↦ elim (Bool-cases (leb (length s.backlog) s.backlog_sent && not (is_empty s.backlog))) [
    | inl q ↦ simp (after_flush, clear_backlog, d, q) refl
    | inr q ↦ simp (after_flush, clear_backlog, d, q) refl
  ]
]

classify-pending :
    (link : Link) (s : OutStream) (log : List Outbound)
    → (classify link s log).0.pending ≡ s.pending
unfolding classify
classify-pending link s log = elim (Bool-cases s.done) [
  | inl d ↦ rw (classify, d) refl
  | inr d ↦
      let flushed = flush (length s.backlog) link s log in
      simp (classify, d)
        (after_flush-pending flushed.0 flushed.1 ∙ flush-pending (length s.backlog) link s log)
]

idle_stops : (guest : Guest) → goes_on guest idle ≡ false
unfolding goes_on
idle_stops waiting = refl
idle_stops killed = refl
idle_stops (settled p) = refl

start_stops : (guest : Guest) → goes_on guest start_pull ≡ false
unfolding goes_on
start_stops waiting = refl
start_stops killed = refl
start_stops (settled p) = refl

-- A stream with no pull in flight awaits none.
next_of-stops :
    (guest : Guest) (s : OutStream) → s.pending ≡ false → goes_on guest (next_of s) ≡ false
unfolding next_of goes_on
next_of-stops guest s h = elim (Bool-cases s.done) [
  | inl d ↦ rw (next_of, d) (idle_stops guest)
  | inr d ↦ elim (Bool-cases (is_empty s.backlog)) [
    | inr q ↦ simp (next_of, d, q) (idle_stops guest)
    | inl q ↦ elim (Bool-cases (s.credit == 0)) [
      | inl z ↦ simp (next_of, d, q, z) (idle_stops guest)
      | inr z ↦ simp (next_of, d, q, z, h) (start_stops guest)
    ]
  ]
]

-- The pull that was awaited is no longer in flight.
drive_next-taken :
    (link : Link) (guest : Guest) (s : OutStream) (next : Next) (log : List Outbound)
    → goes_on guest next ≡ true
    → (drive_next link guest s next log).0.pending ≡ false
unfolding drive_next settle goes_on
drive_next-taken link (settled (chunk b)) s await_pending log h = refl
drive_next-taken link (settled eof) s await_pending log h = refl
drive_next-taken link (settled (failed m)) s await_pending log h = refl
drive_next-taken link (settled p) s idle log h = cc
drive_next-taken link (settled p) s start_pull log h = cc
drive_next-taken link waiting s next log h = cc
drive_next-taken link killed s next log h = cc

stop :
    {A : Type 0} (b : Bool) (more : Option A) (r : A)
    → b ≡ false
    → (x : A) × ((if b then more else some r) ≡ some x)
stop b more r h = (r, rw h refl)

go_on :
    {A : Type 0} (b : Bool) (more : Option A) (r : A)
    → b ≡ true
    → (x : A) × (more ≡ some x)
    → (x : A) × ((if b then more else some r) ≡ some x)
go_on b more r h k = (k.0, rw h (k.1))

-- A turn that finds no pull in flight is the last.
last_turn :
    (n : ℕ) (link : Link) (guest : ℕ → Guest) (s : OutStream) (log : List Outbound)
    → s.pending ≡ false
    → (r : OutStream × List Outbound) × (drive_out_stream (suc n) link guest s log ≡ some r)
unfolding drive_out_stream
last_turn n link guest s log h =
    let ready = (classify link s log).0 in
    stop (goes_on (guest n) (next_of ready)) _ _
      (next_of-stops (guest n) ready (classify-pending link s log ∙ h))

-- Whatever the guest does, two turns of the loop are enough: the second finds no pull in flight and
-- returns.
pub drive_out_stream-ends :
    (n : ℕ) (link : Link) (guest : ℕ → Guest) (s : OutStream) (log : List Outbound)
    → (r : OutStream × List Outbound) × (drive_out_stream (suc (suc n)) link guest s log ≡ some r)
unfolding drive_out_stream
drive_out_stream-ends n link guest s log =
    let ready = classify link s log in
    let next = next_of ready.0 in
    elim (Bool-cases (goes_on (guest (suc n)) next)) [
      | inr q ↦ stop (goes_on (guest (suc n)) next) _ _ q
      | inl q ↦
          let (driven, out) = drive_next link (guest (suc n)) ready.0 next ready.1 in
          go_on (goes_on (guest (suc n)) next) _ (driven, out) q
            (last_turn n link guest driven out
              (drive_next-taken link (guest (suc n)) ready.0 next ready.1 q))
    ]
