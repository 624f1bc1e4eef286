-- ===== src/Inbound.antt =====
-- crates/core/src/v8/streams.rs: one inbound body stream, from the host to the guest's reads. A waiting
-- read is a flag; whether V8 can hold a chunk is an argument.
pub mod Reads
pub mod Honest
pub mod Cases
pub mod Flow
use iso.Base.{
  ℕ, ◌+◌, ◌-◌, ◌%◌, ◌^◌, Bool, true, false, not, ◌&&◌, Option, none, some, List, [], ◌∷◌, ◌++◌,
  length, ltb, ◌==◌, if◌then◌else◌,
}
use iso.Wire.Bytes.{Bytes}
use iso.Limits.{stream_chunk_max_bytes, stream_credit_window_bytes}

-- `ended` holds the error of a failed source.
pub record StreamState : Type 0 where
  pub buffered : List Bytes
  pub buffered_bytes : ℕ
  pub ended : Option (Option Bytes)
  pub cancelled : Bool
  pub pending : Bool

abbrev pub new_stream : StreamState
new_stream = record {
  buffered = [];
  buffered_bytes = 0;
  ended = none;
  cancelled = false;
  pending = false;
}

-- What the host is told.
pub data Told : Type 0 where
  stream_pull : ℕ → Told
  stream_cancel : Bytes → Told

-- How a read is answered: `lost` is a chunk that V8 could not hold, `refused` a second read at once.
pub data Answer : Type 0 where
  got : Bytes → Answer
  lost : Bytes → Answer
  at_end : Answer
  failed : Bytes → Answer
  refused : Answer

-- The stream after an operation, and what the operation did.
pub record Outcome : Type 0 where
  pub stream : StreamState
  pub told : List Told
  pub answers : List Answer

abbrev pub quiet : StreamState → Outcome
quiet s = record { stream = s; told = []; answers = [] }

abbrev pub send_stream_credit : Bool → ℕ → List Told
send_stream_credit link credit =
    if link then if credit == 0 then [] else stream_pull credit ∷ [] else []

abbrev pub send_stream_cancel : Bool → Bytes → List Told
send_stream_cancel link reason = if link then stream_cancel reason ∷ [] else []

abbrev pub chunk_answer : Bool → Bytes → Answer
chunk_answer held chunk = if held then got chunk else lost chunk

abbrev pub end_answer : Option Bytes → Answer
end_answer none = at_end
end_answer (some message) = failed message

-- The chunk a read takes, and the credit for it.
abbrev pub hand_over : Bool → Bool → StreamState → Bytes → Outcome
hand_over link held s chunk = record {
  stream = s;
  told = send_stream_credit link (length chunk % 2 ^ 32);
  answers = chunk_answer held chunk ∷ [];
}

abbrev pub buffer_cap : ℕ
buffer_cap = stream_credit_window_bytes + stream_chunk_max_bytes

-- A chunk that no read waits for; none is the end of the run, for a host beyond its credit.
unfoldable pub buffer_chunk : StreamState → Bytes → Option Outcome
buffer_chunk s chunk =
    if ltb buffer_cap (s.buffered_bytes + length chunk)
    then none
    else some (
        quiet (record s {
          buffered_bytes = s.buffered_bytes + length chunk;
          buffered = s.buffered ++ (chunk ∷ []);
        }))

unfoldable pub deliver_chunk : Bool → Bool → StreamState → Bytes → Option Outcome
unfolding buffer_chunk
deliver_chunk link held s chunk =
    if s.cancelled
    then some (quiet s)
    else if s.pending
    then some (hand_over link held (record s { pending = false }) chunk)
    else buffer_chunk s chunk

abbrev pub no_chunks : List Bytes → Bool
no_chunks [] = true
no_chunks (c ∷ cs) = false

unfoldable pub deliver_end : StreamState → Option Bytes → Outcome
deliver_end s error =
    let over = record s { ended = some error } in
    if no_chunks s.buffered && s.pending
    then record {
      stream = record over { pending = false };
      told = [];
      answers = end_answer error ∷ [];
    }
    else quiet over

-- A read of an empty buffer.
unfoldable pub read_empty : StreamState → Option (Option Bytes) → Outcome
read_empty s (some error) = record { stream = s; told = []; answers = end_answer error ∷ [] }
read_empty s none =
    if s.pending
    then record { stream = s; told = []; answers = refused ∷ [] }
    else quiet (record s { pending = true })

unfoldable pub read_from : Bool → Bool → StreamState → List Bytes → Outcome
unfolding read_empty
read_from link held s (chunk ∷ rest) =
    hand_over link held
      (record s { buffered = rest; buffered_bytes = s.buffered_bytes - length chunk }) chunk
read_from link held s [] =
    if s.cancelled
    then record { stream = s; told = []; answers = at_end ∷ [] }
    else read_empty s s.ended

unfoldable pub stream_read : Bool → Bool → StreamState → Outcome
unfolding read_from
stream_read link held s = read_from link held s s.buffered

abbrev pub is_open : Option (Option Bytes) → Bool
is_open none = true
is_open (some error) = false

-- The guest is done with the body.
unfoldable pub cancel_stream : Bool → Bytes → StreamState → Outcome
cancel_stream link reason s =
    let notify = not s.cancelled && is_open s.ended in
    record {
      stream =
          if notify
          then record s { cancelled = true; buffered = []; buffered_bytes = 0; pending = false }
          else record s { pending = false };
      told = if notify then send_stream_cancel link reason else [];
      answers = if s.pending then at_end ∷ [] else [];
    }
