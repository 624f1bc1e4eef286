-- ===== src/Outbox.antt =====
-- crates/server/src/ipc.rs, one connection's outbound path: `OutboxState`, `FrameProgress`, and what
-- `send_frame` and `writer_loop` do each time they hold the lock or write once. Instants and the stall
-- bound are in milliseconds, and the reasons of a death are named without their texts.
pub mod System
pub mod Progress
pub mod Invariant
pub mod Order
pub mod Delivery
pub mod Room
use iso.Base.{
  ℕ, zero, suc, ◌+◌, ◌-◌, ◌*◌, ◌^◌, ◌%◌, Bool, true, false, not, ◌&&◌, ◌||◌, Option, none, some,
  List, [], ◌∷◌, ◌++◌, Result, ok, err, ErrorKind, invalid_input, length, drop, ltb, leb, ◌==◌,
  if◌then◌else◌,
}
use iso.Wire.Bytes.{Bytes, be32}
use iso.Frame.{default_max_frame_length}
use iso.Frame.Kinds.{RustToTsMessageType, rust_to_ts_byte}

abbrev pub outbox_cap_bytes : ℕ
outbox_cap_bytes = 16 * 1024 * 1024

abbrev pub outbox_stall_timeout : ℕ
outbox_stall_timeout = 5_000

pub data OutFrame : Type 0 where
  frame : RustToTsMessageType → Bytes → Bytes → OutFrame
  remainder : Bytes → OutFrame

abbrev pub frame_len : OutFrame → ℕ
frame_len (frame t head tail) = length head + length tail
frame_len (remainder bytes) = length bytes

pub data DeadReason : Type 0 where
  write_failed queue_stalled socket_stalled : DeadReason

pub record OutboxState : Type 0 where
  pub queue : List OutFrame
  pub bytes : ℕ
  pub dead : Option DeadReason
  pub producers : ℕ
  pub writing : Bool

abbrev pub new_outbox : OutboxState
new_outbox = record { queue = []; bytes = 0; dead = none; producers = 1; writing = false }

abbrev pub is_dead : OutboxState → Bool
is_dead s = elim s.dead [ none ↦ false | some r ↦ true ]

-- The first reason wins.
abbrev pub first_reason : Option DeadReason → DeadReason → DeadReason
first_reason none reason = reason
first_reason (some r) reason = r

unfoldable pub kill : OutboxState → DeadReason → OutboxState
kill s reason = record s { dead = some (first_reason s.dead reason) }

-- `FrameProgress`.
pub record FrameProgress : Type 0 where
  pub parts : List Bytes
  pub written : ℕ

abbrev pub total_of : List Bytes → ℕ
total_of [] = 0
total_of (p ∷ parts) = length p + total_of parts

abbrev pub total : FrameProgress → ℕ
total p = total_of p.parts

-- The slices past an offset: a part that lies before it is passed by, and the next starts there.
abbrev pub slices : ℕ → List Bytes → List Bytes
slices offset [] = []
slices offset (p ∷ parts) =
    if leb (length p) offset
    then slices (offset - length p) parts
    else drop offset p ∷ slices 0 parts

abbrev pub concat : List Bytes → Bytes
concat [] = []
concat (p ∷ parts) = p ++ concat parts

-- `remainder`: the same slices in one buffer.
abbrev pub unwritten : FrameProgress → Bytes
unwritten p = concat (slices p.written p.parts)

abbrev pub envelope : ℕ → RustToTsMessageType → Bytes
envelope len t = be32 len ++ (rust_to_ts_byte t ∷ [])

-- What one `write_vectored` answers.
pub data Answer : Type 0 where
  wrote : ℕ → Answer
  interrupt would_block broken : Answer

-- `Ok(true)`, `Ok(false)` and `Err` of `write_some`.
pub data Outcome : Type 0 where
  all_written stopped broke : Outcome

-- What a write answers, before the loop goes around.
unfoldable pub after_write : FrameProgress → Answer → FrameProgress × Option Outcome
after_write p (wrote zero) = (p, some broke)
after_write p (wrote (suc n)) = (record p { written = p.written + suc n }, none)
after_write p interrupt = (p, none)
after_write p would_block = (p, some stopped)
after_write p broken = (p, some broke)

-- One turn of the loop of `write_some`; `late` says that its deadline has passed, which the source
-- asks from the second turn on.
unfoldable pub write_turn : FrameProgress → Bool → Answer → FrameProgress × Option Outcome
unfolding after_write
write_turn p late a =
    if not (ltb p.written (total p))
    then (p, some all_written)
    else if late
    then (p, some stopped)
    else after_write p a

-- The length that goes into the envelope, if the frame is not too large.
unfoldable pub payload_len : Bytes → Bytes → Result ErrorKind ℕ
payload_len head tail =
    if leb (2 ^ 32) (length head + length tail)
    then err invalid_input
    else if leb (2 ^ 32) (length head + length tail + 1)
    then err invalid_input
    else if ltb default_max_frame_length (length head + length tail + 1)
    then err invalid_input
    else ok (length head + length tail + 1)

-- `send_frame` under the lock: refused for the connection is dead, taken to be written inline, queued,
-- or left to wait for space.
pub data Offer : Type 0 where
  broken_pipe queued waits : Offer
  inline : FrameProgress → Offer

abbrev pub is_empty : List OutFrame → Bool
is_empty [] = true
is_empty (f ∷ rest) = false

unfoldable pub offer : OutboxState → RustToTsMessageType → Bytes → Bytes → ℕ → OutboxState × Offer
offer s t head tail len =
    if is_dead s
    then (s, broken_pipe)
    else if is_empty s.queue && not s.writing
    then (
      record s { writing = true },
      inline (record { parts = envelope len t ∷ head ∷ tail ∷ []; written = 0 }),
    )
    else if is_empty s.queue || leb (s.bytes + (length head + length tail)) outbox_cap_bytes
    then (
      record s {
        queue = s.queue ++ (frame t head tail ∷ []);
        bytes = s.bytes + (length head + length tail);
      },
      queued,
    )
    else (s, waits)

-- After the inline attempt: done, the remainder to the front, or dead.
unfoldable pub after_inline : OutboxState → FrameProgress → Outcome → OutboxState
unfolding kill
after_inline s p all_written = record s { writing = false }
after_inline s p stopped = record s {
  writing = false;
  queue = remainder (unwritten p) ∷ s.queue;
  bytes = s.bytes + length (unwritten p);
}
after_inline s p broke = kill (record s { writing = false }) write_failed

-- A producer whose wait for space timed out.
unfoldable pub give_up : OutboxState → ℕ → OutboxState
unfolding kill
give_up s len =
    if not (is_dead s) && (not (is_empty s.queue) && ltb outbox_cap_bytes (s.bytes + len))
    then kill s queue_stalled
    else s

-- The writer thread under the lock.
pub data Next : Type 0 where
  exits parks : Next
  takes : FrameProgress → Next

-- What the writer puts on the socket for a frame; a remainder has its envelope out already.
abbrev pub parts_of : OutFrame → List Bytes
parts_of (frame t head tail) =
    envelope ((length head + length tail + 1) % 2 ^ 32) t ∷ head ∷ tail ∷ []
parts_of (remainder bytes) = [] ∷ bytes ∷ [] ∷ []

unfoldable pub pop_front : OutboxState → List OutFrame → OutboxState × Next
pop_front s [] = (s, if s.producers == 0 then exits else parks)
pop_front s (f ∷ rest) = (
  record s { queue = rest; bytes = s.bytes - frame_len f; writing = true },
  takes (record { parts = parts_of f; written = 0 }),
)

unfoldable pub writer_next : OutboxState → OutboxState × Next
unfolding pop_front
writer_next s =
    if is_dead s then (s, exits) else if s.writing then (s, parks) else pop_front s s.queue

-- The writer gives the socket back, dead if the write failed.
unfoldable pub writer_done : OutboxState → Option DeadReason → OutboxState
unfolding kill
writer_done s none = record s { writing = false }
writer_done s (some reason) = kill (record s { writing = false }) reason

abbrev pub clone_outbox : OutboxState → OutboxState
clone_outbox s = record s { producers = s.producers + 1 }

abbrev pub drop_outbox : OutboxState → OutboxState
drop_outbox s = record s { producers = s.producers - 1 }
