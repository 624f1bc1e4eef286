-- ===== src/Outbox/System.antt =====
-- The producers, the writer thread and the socket of one connection. The socket token has one holder,
-- which writes in turns that other steps may come between. `admitted` and `sent` are what the steps
-- have taken in and what the socket has accepted so far.
use iso.Base.{
  ℕ, ◌-◌, ◌≤◌, ◌≡◌, Bool, false, Option, none, some, List, [], ◌∷◌, ◌++◌, ok, length, take, ltb,
  leb, if◌then◌else◌,
}
use iso.Wire.Bytes.{Bytes}
use iso.Frame.{Frame}
use iso.Frame.Kinds.{RustToTsMessageType, rust_to_ts_byte}
use iso.Outbox.{
  outbox_stall_timeout, OutboxState, new_outbox, DeadReason, write_failed, socket_stalled,
  FrameProgress, unwritten, Answer, wrote, interrupt, would_block, broken, Outcome, all_written,
  stopped, broke, write_turn, payload_len, Offer, broken_pipe, queued, waits, inline, offer,
  after_inline, give_up, Next, exits, parks, takes, writer_next, writer_done, clone_outbox,
  drop_outbox,
}

-- Who holds the socket token. The writer knows what was written when it last called `write_some`, and
-- when it last got anything through.
pub data Holder : Type 0 where
  nobody : Holder
  producer : FrameProgress → Holder
  writer : FrameProgress → ℕ → ℕ → Holder

pub record System : Type 0 where
  pub shared : OutboxState
  pub holder : Holder
  pub sent : Bytes
  pub admitted : List Frame

abbrev pub new_system : System
new_system = record { shared = new_outbox; holder = nobody; sent = []; admitted = [] }

abbrev pub sent_frame : RustToTsMessageType → Bytes → Bytes → Frame
sent_frame t head tail = record { message_type = rust_to_ts_byte t; payload = head ++ tail }

-- The answer to an offer, at the state it leaves.
unfoldable pub offered : System → RustToTsMessageType → Bytes → Bytes → OutboxState × Offer → System
offered s t head tail (o, broken_pipe) = record s { shared = o }
offered s t head tail (o, waits) = record s { shared = o }
offered s t head tail (o, queued) = record s {
  shared = o;
  admitted = s.admitted ++ (sent_frame t head tail ∷ []);
}
offered s t head tail (o, inline p) = record s {
  shared = o;
  holder = producer p;
  admitted = s.admitted ++ (sent_frame t head tail ∷ []);
}

-- The bytes that the socket took between two states of a frame.
abbrev pub accepted : FrameProgress → FrameProgress → Bytes
accepted p q = take (q.written - p.written) (unwritten p)

unfoldable pub inline_turn : System → FrameProgress → FrameProgress × Option Outcome → System
unfolding after_inline
inline_turn s p (q, none) = record s { holder = producer q; sent = s.sent ++ accepted p q }
inline_turn s p (q, some o) = record s {
  shared = after_inline s.shared q o;
  holder = nobody;
  sent = s.sent ++ accepted p q;
}

-- The writer is done with its frame, or gives up on the socket.
abbrev pub writer_ends : System → FrameProgress → FrameProgress → Option DeadReason → System
writer_ends s p q reason = record s {
  shared = writer_done s.shared reason;
  holder = nobody;
  sent = s.sent ++ accepted p q;
}

-- The writer's loop around `write_some`: progress resets its clock, and too long without any is the end.
unfoldable pub writer_turn :
    System → FrameProgress → ℕ → ℕ → ℕ → FrameProgress × Option Outcome → System
unfolding writer_done
writer_turn s p before last now (q, none) = record s {
  holder = writer q before last;
  sent = s.sent ++ accepted p q;
}
writer_turn s p before last now (q, some all_written) = writer_ends s p q none
writer_turn s p before last now (q, some stopped) =
    if ltb before q.written
    then record s { holder = writer q q.written now; sent = s.sent ++ accepted p q }
    else if leb outbox_stall_timeout (now - last)
    then writer_ends s p q (some socket_stalled)
    else record s { holder = writer q q.written last; sent = s.sent ++ accepted p q }
writer_turn s p before last now (q, some broke) = writer_ends s p q (some write_failed)

unfoldable pub popped : System → ℕ → OutboxState × Next → System
popped s now (o, exits) = record s { shared = o }
popped s now (o, parks) = record s { shared = o }
popped s now (o, takes p) = record s { shared = o; holder = writer p 0 now }

-- A vectored write takes no more than it was given.
abbrev pub IsPossible : FrameProgress → Answer → Type 0
IsPossible p (wrote n) = n ≤ length (unwritten p)
IsPossible p interrupt = Unit
IsPossible p would_block = Unit
IsPossible p broken = Unit

pub data Step : System → System → Type 0 where
  sends :
      (s : System) (t : RustToTsMessageType) (head tail : Bytes) (len : ℕ)
      → payload_len head tail ≡ ok len
      → Step s (offered s t head tail (offer s.shared t head tail len))
  gives_up : (s : System) (len : ℕ) → Step s (record s { shared = give_up s.shared len })
  writes_inline :
      (s : System) (p : FrameProgress) (late : Bool) (a : Answer)
      → s.holder ≡ producer p
      → IsPossible p a
      → Step s (inline_turn s p (write_turn p late a))
  writes :
      (s : System) (p : FrameProgress) (before last now : ℕ) (a : Answer)
      → s.holder ≡ writer p before last
      → IsPossible p a
      → Step s (writer_turn s p before last now (write_turn p false a))
  pops : (s : System) (now : ℕ) → Step s (popped s now (writer_next s.shared))
  clones : (s : System) → Step s (record s { shared = clone_outbox s.shared })
  drops : (s : System) → Step s (record s { shared = drop_outbox s.shared })

pub data Reach (s : System) : System → Type 0 where
  here : Reach s s
  next : {t u : System} → Reach s t → Step t u → Reach s u
