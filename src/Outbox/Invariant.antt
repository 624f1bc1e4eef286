-- ===== src/Outbox/Invariant.antt =====
-- What every step keeps: the bytes on the socket, what the holder of the token has left and what
-- follows are the admitted frames in their order.
use iso.Base.{
  ℕ, ◌+◌, ◌^◌, ◌%◌, ◌≤◌, ◌≡◌, refl, sym, ap, ◌∙◌, ◌⊎◌, inl, inr, true, not, ◌&&◌, List, [], ◌∷◌,
  ◌++◌, arith, append_assoc, append-nil, ok, All, All-append, length, length-append, ltb,
  Bool-cases,
}
use iso.Wire.Bytes.{Bytes, be32}
use iso.Frame.{Frame, default_max_frame_length}
use iso.Frame.Kinds.{RustToTsMessageType, rust_to_ts_byte}
use iso.Outbox.{
  outbox_cap_bytes, OutFrame, frame, frame_len, DeadReason, is_dead, kill, concat, unwritten,
  payload_len, is_empty, give_up, parts_of,
}
use iso.Outbox.System.{Holder, nobody, producer, writer, System, new_system, sent_frame}

abbrev pub remaining : Holder → Bytes
remaining nobody = []
remaining (producer p) = unwritten p
remaining (writer p before last) = unwritten p

-- What the queue is to put on the socket.
abbrev pub queue_bytes : List OutFrame → Bytes
queue_bytes [] = []
queue_bytes (f ∷ rest) = concat (parts_of f) ++ queue_bytes rest

abbrev pub queue_len : List OutFrame → ℕ
queue_len [] = 0
queue_len (f ∷ rest) = frame_len f + queue_len rest

-- Frames on the wire, one after the other.
abbrev pub frame_bytes : Frame → Bytes
frame_bytes f = be32 (length f.payload + 1) ++ (f.message_type ∷ f.payload)

abbrev pub stream_of : List Frame → Bytes
stream_of [] = []
stream_of (f ∷ rest) = frame_bytes f ++ stream_of rest

abbrev pub FitsFrame : Frame → Type 0
FitsFrame f = length f.payload + 1 ≤ default_max_frame_length

-- `rest` is what follows the holder's bytes; it is the queue's, unless the connection is dead.
pub record IsOrdered (s : System) : Type 0 where
  pub rest : Bytes
  pub flow : s.sent ++ (remaining s.holder ++ rest) ≡ stream_of s.admitted
  pub alive : (rest ≡ queue_bytes (s.shared).queue) ⊎ (is_dead s.shared ≡ true)
  pub token : (s.holder ≡ nobody) ⊎ ((s.shared).writing ≡ true)
  pub bytes_eq : (s.shared).bytes ≡ queue_len (s.shared).queue
  pub fits : All FitsFrame s.admitted

pub new_system-IsOrdered : IsOrdered new_system
new_system-IsOrdered = record {
  rest = [];
  flow = refl;
  alive = inl refl;
  token = inl refl;
  bytes_eq = refl;
  fits = tt;
}

pub queue_bytes-append :
    (q : List OutFrame) (f : OutFrame)
    → queue_bytes (q ++ (f ∷ [])) ≡ queue_bytes q ++ concat (parts_of f)
queue_bytes-append [] f = append-nil (concat (parts_of f))
queue_bytes-append (g ∷ q) f =
    ap (◌++◌ (concat (parts_of g))) (queue_bytes-append q f)
    ∙ sym (append_assoc (concat (parts_of g)) (queue_bytes q) (concat (parts_of f)))

pub queue_len-append :
    (q : List OutFrame) (f : OutFrame) → queue_len (q ++ (f ∷ [])) ≡ queue_len q + frame_len f
queue_len-append [] f = omega arith
queue_len-append (g ∷ q) f = omega (arith, queue_len-append q f)

stream_of-append :
    (fs : List Frame) (f : Frame) → stream_of (fs ++ (f ∷ [])) ≡ stream_of fs ++ frame_bytes f
stream_of-append [] f = append-nil (frame_bytes f)
stream_of-append (g ∷ fs) f =
    ap (◌++◌ (frame_bytes g)) (stream_of-append fs f)
    ∙ sym (append_assoc (frame_bytes g) (stream_of fs) (frame_bytes f))

-- A frame that was measured is on the wire as one that is written whole.
pub payload_len-ok :
    (head tail : Bytes) (len : ℕ)
    → payload_len head tail ≡ ok len
    → (len ≡ length head + length tail + 1)
      × (length head + length tail + 1 ≤ default_max_frame_length)
      × ((length head + length tail + 1) % 2 ^ 32 ≡ length head + length tail + 1)
unfolding payload_len
payload_len-ok head tail len h = ground arith

parts_of-frame :
    (t : RustToTsMessageType) (head tail : Bytes)
    → (length head + length tail + 1) % 2 ^ 32 ≡ length head + length tail + 1
    → concat (parts_of (frame t head tail)) ≡ frame_bytes (sent_frame t head tail)
parts_of-frame t head tail h =
    let n : length (head ++ tail) + 1 ≡ length head + length tail + 1 =
      omega (arith, length-append head tail) in
    rw (h, n, append-nil tail)
      (append_assoc (be32 (length head + length tail + 1)) (rust_to_ts_byte t ∷ []) (head ++ tail))

-- Bytes go to the end of the stream, after whatever is still to be written.
append_end :
    (sent left rest st b : Bytes)
    → sent ++ (left ++ rest) ≡ st
    → sent ++ (left ++ (rest ++ b)) ≡ st ++ b
append_end sent left rest st b h =
    ap (◌++◌ sent) (sym (append_assoc left rest b))
    ∙ sym (append_assoc sent (left ++ rest) b)
    ∙ ap (λ x. x ++ b) h

-- The socket accepts the front of what is left.
pub accept_front :
    (sent acc left all rest st : Bytes)
    → acc ++ left ≡ all
    → sent ++ (all ++ rest) ≡ st
    → (sent ++ acc) ++ (left ++ rest) ≡ st
accept_front sent acc left all rest st h k =
    append_assoc sent acc (left ++ rest)
    ∙ ap (◌++◌ sent) (sym (append_assoc acc left rest))
    ∙ ap (λ x. sent ++ (x ++ rest)) h
    ∙ k

dead_or : (s : System) → IsOrdered s → (reason : DeadReason) → is_dead (kill s.shared reason) ≡ true
unfolding kill
dead_or s k reason = refl

pub give_up-IsOrdered :
    (s : System) (len : ℕ) → IsOrdered s → IsOrdered (record s { shared = give_up s.shared len })
unfolding give_up kill
give_up-IsOrdered s len k =
    elim (Bool-cases (
      not (is_dead s.shared)
      && (not (is_empty (s.shared).queue) && ltb outbox_cap_bytes ((s.shared).bytes + len)))) [
        | inl h ↦
            rw (give_up, h)
              (record {
                rest = k.rest;
                flow = k.flow;
                alive = inr refl;
                token = k.token;
                bytes_eq = k.bytes_eq;
                fits = k.fits;
              })
        | inr h ↦
            rw (give_up, h)
              (record {
                rest = k.rest;
                flow = k.flow;
                alive = k.alive;
                token = k.token;
                bytes_eq = k.bytes_eq;
                fits = k.fits;
              })
      ]

-- A frame is admitted behind the queue.
pub admit_end :
    (s : System) (t : RustToTsMessageType) (head tail : Bytes) (len : ℕ)
    → IsOrdered s
    → payload_len head tail ≡ ok len
    → (All FitsFrame (s.admitted ++ (sent_frame t head tail ∷ [])))
      × ((left rest : Bytes)
          → s.sent ++ (left ++ rest) ≡ stream_of s.admitted
          → s.sent ++ (left ++ (rest ++ concat (parts_of (frame t head tail))))
            ≡ stream_of (s.admitted ++ (sent_frame t head tail ∷ [])))
admit_end s t head tail len k h =
    let (eq, small, wraps) = payload_len-ok head tail len h in
    (
      All-append FitsFrame s.admitted (sent_frame t head tail ∷ []) k.fits
          (omega (arith, length-append head tail, small), tt),
      λ left rest q.
          append_end s.sent left rest (stream_of s.admitted) _ q
          ∙ ap (◌++◌ (stream_of s.admitted)) (parts_of-frame t head tail wraps)
          ∙ sym (stream_of-append s.admitted (sent_frame t head tail)),
    )
