-- ===== src/Outbox/Order.antt =====
-- Every step of the outbox keeps the order of the admitted frames and their bytes together.
use iso.Base.{
  ℕ, ◌+◌, ◌-◌, ◌≡◌, refl, sym, ap, ◌∙◌, subst, inl, inr, true, false, not, ◌&&◌, ◌||◌, Option, none,
  some, List, [], ◌∷◌, ◌++◌, arith, append-nil, ok, length, ltb, leb, ◌==◌, Bool-cases, &&-true,
}
use iso.Wire.Bytes.{Bytes}
use iso.Frame.Kinds.{RustToTsMessageType}
use iso.Outbox.{
  outbox_cap_bytes, outbox_stall_timeout, OutFrame, frame, frame_len, OutboxState, DeadReason,
  write_failed, socket_stalled, is_dead, kill, FrameProgress, concat, slices, unwritten, envelope,
  Outcome, all_written, stopped, broke, write_turn, payload_len, Offer, broken_pipe, queued, waits,
  inline, is_empty, offer, after_inline, Next, exits, parks, parts_of, pop_front, writer_next,
  writer_done,
}
use iso.Outbox.System.{
  nobody, producer, writer, System, new_system, sent_frame, offered, accepted, inline_turn,
  writer_ends, writer_turn, popped, Step, sends, gives_up, writes_inline, writes, pops, clones,
  drops, Reach, here, next,
}
use iso.Outbox.Progress.{concat-slices, IsTurn, write_turn-IsTurn}
use iso.Outbox.Invariant.{
  remaining, queue_bytes, queue_len, stream_of, IsOrdered, new_system-IsOrdered, queue_bytes-append,
  queue_len-append, payload_len-ok, accept_front, give_up-IsOrdered, admit_end,
}

pub empty_queue : (q : List OutFrame) → is_empty q ≡ true → q ≡ []
empty_queue [] h = refl
empty_queue (f ∷ q) h = cc

-- Nobody holds the token while no writing is marked.
free_token : (s : System) → IsOrdered s → (s.shared).writing ≡ false → s.holder ≡ nobody
free_token s k h = elim k.token [ inl e ↦ e | inr e ↦ cc ]

pub alive_rest :
    (s : System) (k : IsOrdered s)
    → is_dead s.shared ≡ false
    → k.rest ≡ queue_bytes (s.shared).queue
alive_rest s k h = elim k.alive [ inl e ↦ e | inr e ↦ cc ]

queued-IsOrdered :
    (s : System) (t : RustToTsMessageType) (head tail : Bytes) (len : ℕ)
    → IsOrdered s
    → payload_len head tail ≡ ok len
    → IsOrdered (record s {
      shared = record s.shared {
        queue = (s.shared).queue ++ (frame t head tail ∷ []);
        bytes = (s.shared).bytes + (length head + length tail);
      };
      admitted = s.admitted ++ (sent_frame t head tail ∷ []);
    })
queued-IsOrdered s t head tail len k h =
    let (fits, behind) = admit_end s t head tail len k h in
    record {
      rest = k.rest ++ concat (parts_of (frame t head tail));
      flow = behind (remaining s.holder) k.rest k.flow;
      alive = elim k.alive [
        | inl e ↦ inl (
            ap (λ x. x ++ concat (parts_of (frame t head tail))) e
            ∙ sym (queue_bytes-append (s.shared).queue (frame t head tail)))
        | inr e ↦ inr e
      ];
      token = k.token;
      bytes_eq = omega (arith, k.bytes_eq, queue_len-append (s.shared).queue (frame t head tail));
      fits = fits;
    }

inline-IsOrdered :
    (s : System) (t : RustToTsMessageType) (head tail : Bytes) (len : ℕ)
    → IsOrdered s
    → payload_len head tail ≡ ok len
    → is_dead s.shared ≡ false
    → (s.shared).queue ≡ []
    → (s.shared).writing ≡ false
    → IsOrdered (record s {
      shared = record s.shared { writing = true };
      holder = producer (record { parts = envelope len t ∷ head ∷ tail ∷ []; written = 0 });
      admitted = s.admitted ++ (sent_frame t head tail ∷ []);
    })
inline-IsOrdered s t head tail len k h live none_queued free =
    let (eq, small, wraps) = payload_len-ok head tail len h in
    let (fits, behind) = admit_end s t head tail len k h in
    let nothing : k.rest ≡ [] = alive_rest s k live ∙ ap queue_bytes none_queued in
    let so_far : s.sent ++ ([] ++ []) ≡ stream_of s.admitted =
      subst (λ x. s.sent ++ (x ++ []) ≡ stream_of s.admitted) (ap remaining (free_token s k free))
        (subst (λ x. s.sent ++ (remaining s.holder ++ x) ≡ stream_of s.admitted) nothing k.flow) in
    let whole : concat (slices 0 (envelope len t ∷ head ∷ tail ∷ [])) ++ []
        ≡ concat (parts_of (frame t head tail)) =
      append-nil _
      ∙ concat-slices 0 (envelope len t ∷ head ∷ tail ∷ [])
      ∙ ap (λ n. concat (envelope n t ∷ head ∷ tail ∷ [])) (eq ∙ sym wraps) in
    record {
      rest = [];
      flow = ap (◌++◌ s.sent) whole ∙ behind [] [] so_far;
      alive = inl (sym (ap queue_bytes none_queued));
      token = inr refl;
      bytes_eq = k.bytes_eq;
      fits = fits;
    }

sends-IsOrdered :
    (s : System) (t : RustToTsMessageType) (head tail : Bytes) (len : ℕ)
    → IsOrdered s
    → payload_len head tail ≡ ok len
    → IsOrdered (offered s t head tail (offer s.shared t head tail len))
unfolding offered offer
sends-IsOrdered s t head tail len k h =
    let q = (s.shared).queue in
    let by =
      λ (x : OutboxState × Offer) (e : offer s.shared t head tail len ≡ x)
          (o : IsOrdered (offered s t head tail x)).
        subst (λ y. IsOrdered (offered s t head tail y)) (sym e) o in
    elim (Bool-cases (is_dead s.shared)) [
      | inl d ↦ by (s.shared, broken_pipe) (rw (offer, d) refl) k
      | inr d ↦ elim (Bool-cases (is_empty q && not (s.shared).writing)) [
        | inl e ↦
            let (a, b) = &&-true (is_empty q) (not (s.shared).writing) e in
            by
              (
                record s.shared { writing = true },
                inline (record { parts = envelope len t ∷ head ∷ tail ∷ []; written = 0 }),
              )
              (rw (offer, d, e) refl)
              (inline-IsOrdered s t head tail len k h d (empty_queue q a) (ground arith))
        | inr e ↦
            elim (Bool-cases (
              is_empty q
              || leb ((s.shared).bytes + (length head + length tail)) outbox_cap_bytes)) [
                | inl r ↦
                    by
                      (
                        record s.shared {
                          queue = q ++ (frame t head tail ∷ []);
                          bytes = (s.shared).bytes + (length head + length tail);
                        },
                        queued,
                      )
                      (rw (offer, d, e, r) refl) (queued-IsOrdered s t head tail len k h)
                | inr r ↦ by (s.shared, waits) (rw (offer, d, e, r) refl) k
              ]
      ]
    ]

-- The token comes back, and the bytes that were left stay behind what was sent.
inline_turn-IsOrdered :
    (s : System) (p : FrameProgress) (r : FrameProgress × Option Outcome)
    → IsOrdered s
    → s.holder ≡ producer p
    → IsTurn p r
    → IsOrdered (inline_turn s p r)
unfolding inline_turn after_inline kill
inline_turn-IsOrdered s p (q, none) k h t =
    let held = subst (λ x. s.sent ++ (remaining x ++ k.rest) ≡ stream_of s.admitted) h k.flow in
    record {
      rest = k.rest;
      flow = accept_front s.sent _ (unwritten q) (unwritten p) k.rest _ t.flow held;
      alive = k.alive;
      token = elim k.token [ inl e ↦ cc | inr e ↦ inr e ];
      bytes_eq = k.bytes_eq;
      fits = k.fits;
    }
inline_turn-IsOrdered s p (q, some all_written) k h t =
    let held = subst (λ x. s.sent ++ (remaining x ++ k.rest) ≡ stream_of s.admitted) h k.flow in
    let moved =
      accept_front s.sent (accepted p q) (unwritten q) (unwritten p) k.rest _ t.flow held in
    record {
      rest = k.rest;
      flow =
          subst (λ x. (s.sent ++ accepted p q) ++ (x ++ k.rest) ≡ stream_of s.admitted) t.end moved;
      alive = k.alive;
      token = inl refl;
      bytes_eq = k.bytes_eq;
      fits = k.fits;
    }
inline_turn-IsOrdered s p (q, some stopped) k h t =
    let held = subst (λ x. s.sent ++ (remaining x ++ k.rest) ≡ stream_of s.admitted) h k.flow in
    record {
      rest = unwritten q ++ k.rest;
      flow = accept_front s.sent (accepted p q) (unwritten q) (unwritten p) k.rest _ t.flow held;
      alive = elim k.alive [
        | inl e ↦ inl (
            ap (◌++◌ (unwritten q)) e
            ∙ ap (λ x. x ++ queue_bytes (s.shared).queue) (sym (append-nil (unwritten q))))
        | inr e ↦ inr e
      ];
      token = inl refl;
      bytes_eq = omega (arith, k.bytes_eq);
      fits = k.fits;
    }
inline_turn-IsOrdered s p (q, some broke) k h t =
    let held = subst (λ x. s.sent ++ (remaining x ++ k.rest) ≡ stream_of s.admitted) h k.flow in
    record {
      rest = unwritten q ++ k.rest;
      flow = accept_front s.sent (accepted p q) (unwritten q) (unwritten p) k.rest _ t.flow held;
      alive = inr refl;
      token = inl refl;
      bytes_eq = k.bytes_eq;
      fits = k.fits;
    }

-- The writer goes on, with the frame where the turn left it.
writer_goes_on :
    (s : System) (p q : FrameProgress) (before last before_ last_ : ℕ) (o : Option Outcome)
    → IsOrdered s
    → s.holder ≡ writer p before last
    → IsTurn p (q, o)
    → IsOrdered (record s { holder = writer q before_ last_; sent = s.sent ++ accepted p q })
writer_goes_on s p q before last before_ last_ o k h t =
    let held = subst (λ x. s.sent ++ (remaining x ++ k.rest) ≡ stream_of s.admitted) h k.flow in
    record {
      rest = k.rest;
      flow = accept_front s.sent (accepted p q) (unwritten q) (unwritten p) k.rest _ t.flow held;
      alive = k.alive;
      token = elim k.token [ inl e ↦ cc | inr e ↦ inr e ];
      bytes_eq = k.bytes_eq;
      fits = k.fits;
    }

-- The writer gives up, and the connection is dead.
writer_gives_up :
    (s : System) (p q : FrameProgress) (before last : ℕ) (o : Option Outcome) (reason : DeadReason)
    → IsOrdered s
    → s.holder ≡ writer p before last
    → IsTurn p (q, o)
    → IsOrdered (writer_ends s p q (some reason))
unfolding writer_done kill
writer_gives_up s p q before last o reason k h t =
    let held = subst (λ x. s.sent ++ (remaining x ++ k.rest) ≡ stream_of s.admitted) h k.flow in
    record {
      rest = unwritten q ++ k.rest;
      flow = accept_front s.sent (accepted p q) (unwritten q) (unwritten p) k.rest _ t.flow held;
      alive = inr refl;
      token = inl refl;
      bytes_eq = k.bytes_eq;
      fits = k.fits;
    }

writer_turn-IsOrdered :
    (s : System) (p : FrameProgress) (before last now : ℕ) (r : FrameProgress × Option Outcome)
    → IsOrdered s
    → s.holder ≡ writer p before last
    → IsTurn p r
    → IsOrdered (writer_turn s p before last now r)
unfolding writer_turn writer_done
writer_turn-IsOrdered s p before last now (q, none) k h t =
    writer_goes_on s p q before last before last none k h t
writer_turn-IsOrdered s p before last now (q, some all_written) k h t =
    let held = subst (λ x. s.sent ++ (remaining x ++ k.rest) ≡ stream_of s.admitted) h k.flow in
    let moved =
      accept_front s.sent (accepted p q) (unwritten q) (unwritten p) k.rest _ t.flow held in
    record {
      rest = k.rest;
      flow =
          subst (λ x. (s.sent ++ accepted p q) ++ (x ++ k.rest) ≡ stream_of s.admitted) t.end moved;
      alive = k.alive;
      token = inl refl;
      bytes_eq = k.bytes_eq;
      fits = k.fits;
    }
writer_turn-IsOrdered s p before last now (q, some stopped) k h t =
    elim (Bool-cases (ltb before q.written)) [
      | inl e ↦
          rw (writer_turn, e) (writer_goes_on s p q before last q.written now (some stopped) k h t)
      | inr e ↦ elim (Bool-cases (leb outbox_stall_timeout (now - last))) [
        | inl d ↦
            rw (writer_turn, e, d)
              (writer_gives_up s p q before last (some stopped) socket_stalled k h t)
        | inr d ↦
            rw (writer_turn, e, d)
              (writer_goes_on s p q before last q.written last (some stopped) k h t)
      ]
    ]
writer_turn-IsOrdered s p before last now (q, some broke) k h t =
    writer_gives_up s p q before last (some broke) write_failed k h t

-- The writer takes the front of the queue.
pop_front-IsOrdered :
    (s : System) (now : ℕ) (q : List OutFrame)
    → IsOrdered s
    → is_dead s.shared ≡ false
    → (s.shared).writing ≡ false
    → (s.shared).queue ≡ q
    → IsOrdered (popped s now (pop_front s.shared q))
unfolding pop_front popped
pop_front-IsOrdered s now [] k live free e = elim (Bool-cases ((s.shared).producers == 0)) [
  | inl z ↦
      let at : pop_front s.shared [] ≡ (s.shared, exits) = rw (pop_front, z) refl in
      subst (λ x. IsOrdered (popped s now x)) (sym at) k
  | inr z ↦
      let at : pop_front s.shared [] ≡ (s.shared, parks) = rw (pop_front, z) refl in
      subst (λ x. IsOrdered (popped s now x)) (sym at) k
]
pop_front-IsOrdered s now (f ∷ rest) k live free e =
    let held =
      subst (λ x. s.sent ++ (remaining x ++ k.rest) ≡ stream_of s.admitted) (free_token s k free)
        k.flow in
    let split : k.rest ≡ concat (parts_of f) ++ queue_bytes rest =
      alive_rest s k live ∙ ap queue_bytes e in
    let lens : (s.shared).bytes ≡ frame_len f + queue_len rest = k.bytes_eq ∙ ap queue_len e in
    record {
      rest = queue_bytes rest;
      flow =
          ap (λ x. s.sent ++ (x ++ queue_bytes rest)) (concat-slices 0 (parts_of f))
          ∙ ap (◌++◌ s.sent) (sym split)
          ∙ held;
      alive = inl refl;
      token = inr refl;
      bytes_eq = omega (arith, lens);
      fits = k.fits;
    }

pops-IsOrdered :
    (s : System) (now : ℕ) → IsOrdered s → IsOrdered (popped s now (writer_next s.shared))
unfolding popped writer_next
pops-IsOrdered s now k =
    let by =
      λ (x : OutboxState × Next) (e : writer_next s.shared ≡ x) (o : IsOrdered (popped s now x)).
        subst (λ y. IsOrdered (popped s now y)) (sym e) o in
    elim (Bool-cases (is_dead s.shared)) [
      | inl d ↦ by (s.shared, exits) (rw (writer_next, d) refl) k
      | inr d ↦ elim (Bool-cases (s.shared).writing) [
        | inl w ↦ by (s.shared, parks) (rw (writer_next, d, w) refl) k
        | inr w ↦
            by (pop_front s.shared (s.shared).queue) (rw (writer_next, d, w) refl)
              (pop_front-IsOrdered s now (s.shared).queue k d w refl)
      ]
    ]

pub Step-IsOrdered : {s t : System} → Step s t → IsOrdered s → IsOrdered t
Step-IsOrdered (sends s t head tail len h) k = sends-IsOrdered s t head tail len k h
Step-IsOrdered (gives_up s len) k = give_up-IsOrdered s len k
Step-IsOrdered (writes_inline s p late a h q) k =
    inline_turn-IsOrdered s p (write_turn p late a) k h (write_turn-IsTurn p late a q)
Step-IsOrdered (writes s p before last now a h q) k =
    writer_turn-IsOrdered s p before last now (write_turn p false a) k h
      (write_turn-IsTurn p false a q)
Step-IsOrdered (pops s now) k = pops-IsOrdered s now k
Step-IsOrdered (clones s) k = record {
  rest = k.rest;
  flow = k.flow;
  alive = k.alive;
  token = k.token;
  bytes_eq = k.bytes_eq;
  fits = k.fits;
}
Step-IsOrdered (drops s) k = record {
  rest = k.rest;
  flow = k.flow;
  alive = k.alive;
  token = k.token;
  bytes_eq = k.bytes_eq;
  fits = k.fits;
}

Reach-IsOrdered : {s t : System} → IsOrdered s → Reach s t → IsOrdered t
Reach-IsOrdered k here = k
Reach-IsOrdered k (next r st) = Step-IsOrdered st (Reach-IsOrdered k r)

-- Whatever producers, the writer and the socket do, in whatever order: the socket has accepted a
-- prefix of the admitted frames, written one after the other in the order in which they were admitted,
-- so that no frame's bytes stand within another's. The bytes behind it are those of the frame that is
-- being written and, while the connection lives, of the queue, whose length the byte count is.
pub reachable-IsOrdered : (s : System) → Reach new_system s → IsOrdered s
reachable-IsOrdered s h = Reach-IsOrdered new_system-IsOrdered h
