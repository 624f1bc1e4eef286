-- ===== src/Outbox/Room.antt =====
-- How many bytes the queue of a connection holds at most.
use iso.Base.{
  ℕ, ◌+◌, ◌-◌, ◌*◌, ◌≤◌, ◌≡◌, refl, sym, ap, ◌∙◌, subst, inl, inr, true, false, not, ◌&&◌, Option,
  none, some, List, [], ◌∷◌, ◌++◌, arith, ok, length, length-append, ltb, leb, leb→le, ◌==◌,
  Bool-cases, &&-true,
}
use iso.Wire.Bytes.{Bytes}
use iso.Frame.{default_max_frame_length}
use iso.Frame.Kinds.{RustToTsMessageType}
use iso.Outbox.{
  outbox_cap_bytes, outbox_stall_timeout, OutFrame, frame, OutboxState, is_dead, kill,
  FrameProgress, unwritten, envelope, Outcome, all_written, stopped, broke, write_turn, payload_len,
  Offer, broken_pipe, queued, waits, inline, is_empty, offer, after_inline, give_up, Next, exits,
  parks, pop_front, writer_next, writer_done,
}
use iso.Outbox.System.{
  Holder, nobody, producer, writer, System, new_system, offered, accepted, inline_turn, writer_turn,
  popped, Step, sends, gives_up, writes_inline, writes, pops, clones, drops, Reach, here, next,
}
use iso.Outbox.Progress.{concat-slices, IsTurn, write_turn-IsTurn}
use iso.Outbox.Invariant.{queue_len, IsOrdered, new_system-IsOrdered, payload_len-ok}
use iso.Outbox.Order.{empty_queue, Step-IsOrdered}

-- Room for the remainder of the frame that a producer is writing; a frame's envelope is 5 bytes.
abbrev pub RoomAt : Holder → ℕ → Type 0
RoomAt nobody n = n ≤ 2 * default_max_frame_length + 4
RoomAt (producer p) n =
    (n ≤ default_max_frame_length) × (length (unwritten p) ≤ default_max_frame_length + 4)
RoomAt (writer p before last) n = n ≤ 2 * default_max_frame_length + 4

abbrev pub HasRoom : System → Type 0
HasRoom s = RoomAt s.holder (s.shared).bytes

RoomAt-le : (h : Holder) (m n : ℕ) → m ≤ n → RoomAt h n → RoomAt h m
RoomAt-le nobody m n q r = omega arith
RoomAt-le (producer p) m n q r = (omega (arith, r.0), r.1)
RoomAt-le (writer p before last) m n q r = omega arith

RoomAt-small : (h : Holder) (m n : ℕ) → m ≤ default_max_frame_length → RoomAt h n → RoomAt h m
RoomAt-small nobody m n q r = omega arith
RoomAt-small (producer p) m n q r = (q, r.1)
RoomAt-small (writer p before last) m n q r = omega arith

RoomAt-any : (h : Holder) (n : ℕ) → RoomAt h n → n ≤ 2 * default_max_frame_length + 4
RoomAt-any nobody n r = r
RoomAt-any (producer p) n r = omega (arith, r.0)
RoomAt-any (writer p before last) n r = r

abbrev queued_state : System → RustToTsMessageType → Bytes → Bytes → OutboxState
queued_state s t head tail = record s.shared {
  queue = (s.shared).queue ++ (frame t head tail ∷ []);
  bytes = (s.shared).bytes + (length head + length tail);
}

offered-HasRoom :
    (s : System) (t : RustToTsMessageType) (head tail : Bytes) (len : ℕ)
    → IsOrdered s
    → HasRoom s
    → payload_len head tail ≡ ok len
    → HasRoom (offered s t head tail (offer s.shared t head tail len))
unfolding offered offer
offered-HasRoom s t head tail len k r h =
    let q = (s.shared).queue in
    let (eq, small, wraps) = payload_len-ok head tail len h in
    let by =
      λ (x : OutboxState × Offer) (e : offer s.shared t head tail len ≡ x)
          (o : HasRoom (offered s t head tail x)).
        subst (λ y. HasRoom (offered s t head tail y)) (sym e) o in
    elim (Bool-cases (is_dead s.shared)) [
      | inl d ↦ by (s.shared, broken_pipe) (rw (offer, d) refl) r
      | inr d ↦ elim (Bool-cases (is_empty q && not (s.shared).writing)) [
        | inl e ↦
            let (a, b) = &&-true (is_empty q) (not (s.shared).writing) e in
            let p : FrameProgress = record {
              parts = envelope len t ∷ head ∷ tail ∷ [];
              written = 0;
            } in
            let empty : (s.shared).bytes ≡ 0 = k.bytes_eq ∙ ap queue_len (empty_queue q a) in
            let whole : length (unwritten p) ≡ 5 + (length head + (length tail + 0)) = omega (
              arith,
              ap length (concat-slices 0 p.parts),
              length-append head (tail ++ []),
              length-append tail [],
            ) in
            by (record s.shared { writing = true }, inline p) (rw (offer, d, e) refl)
              (omega (arith, empty), omega (arith, whole, small))
        | inr e ↦
            let grown =
              λ (n : (s.shared).bytes + (length head + length tail) ≤ default_max_frame_length).
                RoomAt-small s.holder ((s.shared).bytes + (length head + length tail))
                  (s.shared).bytes n r in
            elim (Bool-cases (is_empty q)) [
              | inl a ↦
                  let empty : (s.shared).bytes ≡ 0 = k.bytes_eq ∙ ap queue_len (empty_queue q a) in
                  by (queued_state s t head tail, queued) (rw (offer, d, e, a) refl)
                    (grown (omega (arith, empty, small)))
              | inr a ↦
                  elim (Bool-cases
                    (leb ((s.shared).bytes + (length head + length tail)) outbox_cap_bytes)) [
                      | inl f ↦
                          by (queued_state s t head tail, queued) (rw (offer, d, e, a, f) refl)
                            (grown (omega (arith, leb→le _ _ f)))
                      | inr f ↦ by (s.shared, waits) (rw (offer, d, e, a, f) refl) r
                    ]
            ]
      ]
    ]

give_up-HasRoom :
    (s : System) (len : ℕ) → HasRoom s → HasRoom (record s { shared = give_up s.shared len })
unfolding give_up kill
give_up-HasRoom s len r =
    elim (Bool-cases (
      not (is_dead s.shared)
      && (not (is_empty (s.shared).queue) && ltb outbox_cap_bytes ((s.shared).bytes + len)))) [
        | inl h ↦ rw (give_up, h) r
        | inr h ↦ rw (give_up, h) r
      ]

left_le :
    (p : FrameProgress) (r : FrameProgress × Option Outcome)
    → IsTurn p r
    → length (unwritten r.0) ≤ length (unwritten p)
left_le p r t =
    let n = ap length t.flow in omega (arith, n, length-append (accepted p r.0) (unwritten r.0))

inline_turn-HasRoom :
    (s : System) (p : FrameProgress) (r : FrameProgress × Option Outcome)
    → RoomAt (producer p) (s.shared).bytes
    → IsTurn p r
    → HasRoom (inline_turn s p r)
unfolding inline_turn after_inline kill
inline_turn-HasRoom s p (q, none) m t = (m.0, omega (arith, left_le p (q, none) t, m.1))
inline_turn-HasRoom s p (q, some all_written) m t = omega (arith, m.0)
inline_turn-HasRoom s p (q, some stopped) m t =
    omega (arith, left_le p (q, some stopped) t, m.0, m.1)
inline_turn-HasRoom s p (q, some broke) m t = omega (arith, m.0)

writer_turn-HasRoom :
    (s : System) (p : FrameProgress) (before last now : ℕ) (r : FrameProgress × Option Outcome)
    → (s.shared).bytes ≤ 2 * default_max_frame_length + 4
    → HasRoom (writer_turn s p before last now r)
unfolding writer_turn writer_done kill
writer_turn-HasRoom s p before last now (q, none) m = m
writer_turn-HasRoom s p before last now (q, some all_written) m = m
writer_turn-HasRoom s p before last now (q, some stopped) m =
    elim (Bool-cases (ltb before q.written)) [
      | inl e ↦ rw (writer_turn, e) m
      | inr e ↦ elim (Bool-cases (leb outbox_stall_timeout (now - last))) [
        | inl d ↦ rw (writer_turn, e, d) m
        | inr d ↦ rw (writer_turn, e, d) m
      ]
    ]
writer_turn-HasRoom s p before last now (q, some broke) m = m

pop_front-HasRoom :
    (s : System) (now : ℕ) (q : List OutFrame)
    → HasRoom s
    → HasRoom (popped s now (pop_front s.shared q))
unfolding pop_front popped
pop_front-HasRoom s now [] r = elim (Bool-cases ((s.shared).producers == 0)) [
  | inl z ↦
      let at : pop_front s.shared [] ≡ (s.shared, exits) = rw (pop_front, z) refl in
      subst (λ x. HasRoom (popped s now x)) (sym at) r
  | inr z ↦
      let at : pop_front s.shared [] ≡ (s.shared, parks) = rw (pop_front, z) refl in
      subst (λ x. HasRoom (popped s now x)) (sym at) r
]
pop_front-HasRoom s now (f ∷ rest) r = omega (arith, RoomAt-any s.holder (s.shared).bytes r)

pops-HasRoom : (s : System) (now : ℕ) → HasRoom s → HasRoom (popped s now (writer_next s.shared))
unfolding popped writer_next
pops-HasRoom s now r =
    let by =
      λ (x : OutboxState × Next) (e : writer_next s.shared ≡ x) (o : HasRoom (popped s now x)).
        subst (λ y. HasRoom (popped s now y)) (sym e) o in
    elim (Bool-cases (is_dead s.shared)) [
      | inl d ↦ by (s.shared, exits) (rw (writer_next, d) refl) r
      | inr d ↦ elim (Bool-cases (s.shared).writing) [
        | inl w ↦ by (s.shared, parks) (rw (writer_next, d, w) refl) r
        | inr w ↦
            by (pop_front s.shared (s.shared).queue) (rw (writer_next, d, w) refl)
              (pop_front-HasRoom s now (s.shared).queue r)
      ]
    ]

Step-HasRoom : {s t : System} → Step s t → IsOrdered s → HasRoom s → HasRoom t
Step-HasRoom (sends s t head tail len h) k r = offered-HasRoom s t head tail len k r h
Step-HasRoom (gives_up s len) k r = give_up-HasRoom s len r
Step-HasRoom (writes_inline s p late a h q) k r =
    inline_turn-HasRoom s p (write_turn p late a) (subst (λ x. RoomAt x (s.shared).bytes) h r)
      (write_turn-IsTurn p late a q)
Step-HasRoom (writes s p before last now a h q) k r =
    writer_turn-HasRoom s p before last now (write_turn p false a)
      (RoomAt-any s.holder (s.shared).bytes r)
Step-HasRoom (pops s now) k r = pops-HasRoom s now r
Step-HasRoom (clones s) k r = r
Step-HasRoom (drops s) k r = r

Reach-HasRoom : {s t : System} → IsOrdered s → HasRoom s → Reach s t → IsOrdered t × HasRoom t
Reach-HasRoom k r here = (k, r)
Reach-HasRoom k r (next h st) =
    let (a, b) = Reach-HasRoom k r h in (Step-IsOrdered st a, Step-HasRoom st a b)

-- The queue of a connection never holds more than twice the protocol's largest frame and the length
-- prefix: one frame that an empty queue admitted, or what the byte budget allows, and the remainder of
-- another that a producer could not finish.
pub reachable_room :
    (s : System)
    → Reach new_system s
    → queue_len (s.shared).queue ≤ 2 * default_max_frame_length + 4
reachable_room s h =
    let (k, r) = Reach-HasRoom new_system-IsOrdered (omega arith) h in
    omega (arith, k.bytes_eq, RoomAt-any s.holder (s.shared).bytes r)
