-- ===== src/Streams/Credit.antt =====
-- A pass over a stream: that the flush loop ends, and what a pass and a settled pull keep.
use iso.Base.{
  ℕ, zero, suc, ◌+◌, ◌≤◌, ◌<◌, ◌≡◌, refl, sym, ap, ◌∙◌, subst, ◌⊎◌, inl, inr, Bool, true, false,
  not, ◌&&◌, Option, none, some, List, [], ◌∷◌, ◌++◌, arith, append-nil, All, All-append, length,
  drop, drop_all, drop_nil, ltb, leb, leb→le, ltb→lt, Bool-cases, &&-true, if◌then◌else◌,
}
use iso.Wire.Bytes.{Bytes}
use iso.Streams.{
  OutStream, Outbound, stream_end, Link, is_empty, chunk_len, flush, clear_backlog, after_flush,
  classify, send_end, Next, idle, await_pending, start_pull, next_of, chunk, eof, failed, settle,
  Guest, waiting, killed, settled, drive_next,
}
use iso.Streams.Outgoing.{
  body_of, FitsChunk, IsChunk, ends_well, IsOutgoing, body_of-end, IsClosed-append,
  ends_well-chunks, ends_well-error, open_chunks, open_rest, over-IsOutgoing, flush-IsOutgoing,
}

-- With a turn for each byte of the backlog the loop ends by itself: the stream is over, the credit is
-- spent, or the backlog is sent.
pub flush-ends :
    (n : ℕ) (link : Link) (s : OutStream) (log : List Outbound)
    → length s.backlog ≤ s.backlog_sent + n
    → ((flush n link s log).0.done ≡ true)
      ⊎ (((flush n link s log).0.credit ≡ 0)
          ⊎ (length (flush n link s log).0.backlog ≤ (flush n link s log).0.backlog_sent))
unfolding flush
flush-ends zero link s log h = inr (inr (omega arith))
flush-ends (suc n) link s log h =
    elim (Bool-cases (ltb 0 s.credit && ltb s.backlog_sent (length s.backlog))) [
      | inr q ↦ rw (flush, q) (inr (ground arith))
      | inl q ↦
          let (paid, more) = &&-true (ltb 0 s.credit) _ q in
          let some_bytes : 0 < chunk_len s = omega (arith, ltb→lt _ _ paid, ltb→lt _ _ more) in
          elim (Bool-cases link.present) [
            | inr p ↦ simp (flush, q, p) (inl refl)
            | inl p ↦ elim (Bool-cases (link.takes (length log))) [
              | inr a ↦ simp (flush, q, p, a) (inl refl)
              | inl a ↦ simp (flush, q, p, a) (flush-ends n link _ _ (omega (arith, h, some_bytes)))
            ]
          ]
    ]

clear_backlog-IsOutgoing :
    (s : OutStream) (log : List Outbound) (given : Bytes) (granted : ℕ)
    → IsOutgoing s log given granted
    → s.done ≡ false
    → IsOutgoing (clear_backlog s) log given granted
unfolding clear_backlog
clear_backlog-IsOutgoing s log given granted k h =
    elim (Bool-cases (leb (length s.backlog) s.backlog_sent && not (is_empty s.backlog))) [
      | inr q ↦ rw (clear_backlog, q) k
      | inl q ↦
          let (spent, full) = &&-true (leb (length s.backlog) s.backlog_sent) _ q in
          let nothing : k.rest ≡ [] =
            open_rest s log given granted k h
            ∙ drop_all s.backlog_sent s.backlog (leb→le _ _ spent) in
          rw (clear_backlog, q)
            (record {
              rest = k.rest;
              flow = k.flow;
              alive = inl nothing;
              within = k.within;
              sizes = k.sizes;
              closed = k.closed;
              clean = k.clean;
            })
    ]

pub choose_open :
    (b : Bool) (x y : OutStream × List Outbound) → b ≡ false → (if b then x else y) ≡ y
choose_open b x y h = rw h refl

by_open :
    (s : OutStream) (log : List Outbound)
    → s.done ≡ false
    → after_flush s log ≡ (clear_backlog s, log)
unfolding after_flush
by_open s log d = choose_open s.done (s, log) (clear_backlog s, log) d

after_flush-IsOutgoing :
    (s : OutStream) (log : List Outbound) (given : Bytes) (granted : ℕ)
    → IsOutgoing s log given granted
    → IsOutgoing (after_flush s log).0 (after_flush s log).1 given granted
unfolding after_flush
after_flush-IsOutgoing s log given granted k = elim (Bool-cases s.done) [
  | inl d ↦
      let at : after_flush s log ≡ (s, log) = rw (after_flush, d) refl in
      subst (λ (x : OutStream × List Outbound). IsOutgoing x.0 x.1 given granted) (sym at) k
  | inr d ↦
      let at : after_flush s log ≡ (clear_backlog s, log) = by_open s log d in
      subst (λ (x : OutStream × List Outbound). IsOutgoing x.0 x.1 given granted) (sym at)
        (clear_backlog-IsOutgoing s log given granted k d)
]

pub classify-IsOutgoing :
    (link : Link) (s : OutStream) (log : List Outbound) (given : Bytes) (granted : ℕ)
    → IsOutgoing s log given granted
    → IsOutgoing (classify link s log).0 (classify link s log).1 given granted
unfolding classify
classify-IsOutgoing link s log given granted k = elim (Bool-cases s.done) [
  | inl h ↦ simp (classify, h) k
  | inr h ↦
      simp (classify, h)
        (after_flush-IsOutgoing _ _ given granted
          (flush-IsOutgoing (length s.backlog) link s log given granted k h))
]

-- A clean end is for a stream that has nothing left.
abbrev EndsAt : Option Bytes → Bytes → Type 0
EndsAt none rest = rest ≡ []
EndsAt (some m) rest = Unit

ends_well-end :
    (log : List Outbound) (e : Option Bytes) (rest : Bytes)
    → All IsChunk log
    → EndsAt e rest
    → (ends_well (log ++ (stream_end e ∷ [])) ≡ false) ⊎ (rest ≡ [])
ends_well-end log none rest a h = inr h
ends_well-end log (some m) rest a h = inl (ends_well-error log m (ends_well-chunks log a))

pub end-IsOutgoing :
    (link : Link) (e : Option Bytes) (s t : OutStream) (log : List Outbound) (given : Bytes)
    (granted : ℕ) (k : IsOutgoing s log given granted)
    → s.done ≡ false
    → t.done ≡ true
    → t.credit ≡ s.credit
    → EndsAt e k.rest
    → IsOutgoing t (send_end link e log) given granted
unfolding send_end
end-IsOutgoing link e s t log given granted k h d c q =
    elim (Bool-cases (link.present && link.takes (length log))) [
      | inr p ↦ rw (send_end, p) (over-IsOutgoing s t log given granted k h d c)
      | inl p ↦
          let chunks = open_chunks s log given granted k h in
          rw (send_end, p)
            (record {
              rest = k.rest;
              flow = ap (λ x. x ++ k.rest) (body_of-end log e) ∙ k.flow;
              alive = inr d;
              within = rw (body_of-end log e) (omega (arith, k.within, c));
              sizes = All-append FitsChunk log (stream_end e ∷ []) k.sizes (tt, tt);
              closed = inr (IsClosed-append log e chunks, d);
              clean = ends_well-end log e k.rest chunks q;
            })
    ]

-- The bytes that a turn takes from the guest.
abbrev pub gained : Guest → Next → Bytes
gained (settled (chunk b)) await_pending = b
gained guest next = []

empty_bytes : (bs : Bytes) → is_empty bs ≡ true → bs ≡ []
empty_bytes [] h = refl
empty_bytes (b ∷ bs) h = cc

-- A stream that waits for a pull, or for one to start, has nothing left to send.
pub next_of-open : (s : OutStream) → (next_of s ≡ idle) ⊎ ((s.done ≡ false) × (s.backlog ≡ []))
unfolding next_of
next_of-open s = elim (Bool-cases s.done) [
  | inl h ↦ inl (rw (next_of, h) refl)
  | inr h ↦ elim (Bool-cases (is_empty s.backlog)) [
    | inr q ↦ inl (rw (next_of, h, q) refl)
    | inl q ↦ inr (h, empty_bytes s.backlog q)
  ]
]

unchanged_pending :
    (s : OutStream) (p : Bool) (log : List Outbound) (given : Bytes) (granted : ℕ)
    → IsOutgoing s log given granted
    → IsOutgoing (record s { pending = p }) log (given ++ []) granted
unchanged_pending s p log given granted k = record {
  rest = k.rest;
  flow = k.flow ∙ sym (append-nil given);
  alive = k.alive;
  within = k.within;
  sizes = k.sizes;
  closed = k.closed;
  clean = k.clean;
}

same_given :
    (s : OutStream) (log : List Outbound) (given : Bytes) (granted : ℕ)
    → IsOutgoing s log given granted
    → IsOutgoing s log (given ++ []) granted
same_given s log given granted k =
    subst (λ g. IsOutgoing s log g granted) (sym (append-nil given)) k

pub drive_next-IsOutgoing :
    (link : Link) (guest : Guest) (s : OutStream) (next : Next) (log : List Outbound)
    (given : Bytes) (granted : ℕ)
    → IsOutgoing s log given granted
    → (next ≡ idle) ⊎ ((s.done ≡ false) × (s.backlog ≡ []))
    → IsOutgoing
        (drive_next link guest s next log).0
        (drive_next link guest s next log).1
        (given ++ gained guest next)
        granted
unfolding drive_next settle
drive_next-IsOutgoing link waiting s idle log given granted k o = same_given s log given granted k
drive_next-IsOutgoing link (settled (chunk b)) s idle log given granted k o =
    same_given s log given granted k
drive_next-IsOutgoing link (settled eof) s idle log given granted k o =
    same_given s log given granted k
drive_next-IsOutgoing link (settled (failed m)) s idle log given granted k o =
    same_given s log given granted k
drive_next-IsOutgoing link waiting s await_pending log given granted k o =
    same_given s log given granted k
drive_next-IsOutgoing link killed s idle log given granted k o = same_given s log given granted k
drive_next-IsOutgoing link killed s await_pending log given granted k o =
    same_given s log given granted k
drive_next-IsOutgoing link killed s start_pull log given granted k o =
    same_given s log given granted k
drive_next-IsOutgoing link waiting s start_pull log given granted k o =
    unchanged_pending s true log given granted k
drive_next-IsOutgoing link (settled p) s await_pending log given granted k (inl e) = cc
drive_next-IsOutgoing link (settled p) s start_pull log given granted k (inl e) = cc
drive_next-IsOutgoing link (settled (chunk b)) s await_pending log given granted k (inr (h, e)) =
    let nothing : k.rest ≡ [] =
      open_rest s log given granted k h ∙ ap (drop s.backlog_sent) e ∙ drop_nil s.backlog_sent in
    record {
      rest = b;
      flow =
          ap (λ x. x ++ b)
            (sym (append-nil (body_of log)) ∙ ap (◌++◌ (body_of log)) (sym nothing) ∙ k.flow);
      alive = inl refl;
      within = k.within;
      sizes = k.sizes;
      closed = k.closed;
      clean = inl (ends_well-chunks log (open_chunks s log given granted k h));
    }
drive_next-IsOutgoing link (settled eof) s await_pending log given granted k (inr (h, e)) =
    let nothing : k.rest ≡ [] =
      open_rest s log given granted k h ∙ ap (drop s.backlog_sent) e ∙ drop_nil s.backlog_sent in
    same_given _ _ given granted
      (end-IsOutgoing link none s _ log given granted k h refl refl nothing)
drive_next-IsOutgoing link (settled (failed m)) s await_pending log given granted k (inr (h, e)) =
    same_given _ _ given granted
      (end-IsOutgoing link (some m) s _ log given granted k h refl refl tt)
drive_next-IsOutgoing link (settled (failed m)) s start_pull log given granted k (inr (h, e)) =
    same_given _ _ given granted
      (end-IsOutgoing link (some m) s _ log given granted k h refl refl tt)
drive_next-IsOutgoing link (settled (chunk b)) s start_pull log given granted k (inr o) =
    unchanged_pending s true log given granted k
drive_next-IsOutgoing link (settled eof) s start_pull log given granted k (inr o) =
    unchanged_pending s true log given granted k
