-- ===== src/Streams.antt =====
-- crates/core/src/v8/streams.rs: one outbound body stream, from the guest to the host under the host's
-- credit. The guest's stream and its promises are opaque: what a pull gives is an argument. The link
-- says of each frame, by the number of those before it, whether it can be sent.
pub mod Outgoing
pub mod Credit
pub mod Flow
pub mod Loop
use iso.Base.{
  ℕ, zero, suc, ◌+◌, ◌-◌, ◌*◌, ◌^◌, min, Bool, true, false, not, ◌&&◌, Option, none, some, List, [],
  ◌∷◌, ◌++◌, length, take, drop, ltb, leb, ◌==◌, if◌then◌else◌,
}
use iso.Wire.Bytes.{Bytes}
use iso.Limits.{u32_max, stream_chunk_max_bytes, stream_credit_window_bytes}

pub record OutStream : Type 0 where
  pub credit : ℕ
  pub pending : Bool
  pub backlog : Bytes
  pub backlog_sent : ℕ
  pub done : Bool

abbrev pub new_out_stream : OutStream
new_out_stream = record {
  credit = stream_credit_window_bytes;
  pending = false;
  backlog = [];
  backlog_sent = 0;
  done = false;
}

-- The frames of the stream that went to the link.
pub data Outbound : Type 0 where
  stream_chunk : Bytes → Outbound
  stream_end : Option Bytes → Outbound

-- Whether the run has a link, and whether the link takes the next frame.
pub record Link : Type 0 where
  pub present : Bool
  pub takes : ℕ → Bool

abbrev pub is_empty : Bytes → Bool
is_empty [] = true
is_empty (b ∷ bs) = false

abbrev pub chunk_len : OutStream → ℕ
chunk_len s = min (min (length s.backlog - s.backlog_sent) s.credit) stream_chunk_max_bytes

abbrev pub next_chunk : OutStream → Bytes
next_chunk s = take (chunk_len s) (drop s.backlog_sent s.backlog)

-- The loop that flushes the backlog under the credit.
unfoldable pub flush : ℕ → Link → OutStream → List Outbound → OutStream × List Outbound
flush zero link s log = (s, log)
flush (suc n) link s log =
    let sent = record s {
      backlog_sent = s.backlog_sent + chunk_len s;
      credit = s.credit - chunk_len s;
    } in
    let more = flush n link sent (log ++ (stream_chunk (next_chunk s) ∷ [])) in
    if not (ltb 0 s.credit && ltb s.backlog_sent (length s.backlog))
    then (s, log)
    else if not link.present
    then (record s { done = true }, log)
    else if not (link.takes (length log))
    then (record s { done = true }, log)
    else more

-- A spent backlog is forgotten.
unfoldable pub clear_backlog : OutStream → OutStream
clear_backlog s =
    if leb (length s.backlog) s.backlog_sent && not (is_empty s.backlog)
    then record s { backlog = []; backlog_sent = 0 }
    else s

pub data Next : Type 0 where
  idle await_pending start_pull : Next

unfoldable pub next_of : OutStream → Next
next_of s =
    if s.done
    then idle
    else if not (is_empty s.backlog)
    then idle
    else if s.credit == 0
    then idle
    else if s.pending
    then await_pending
    else start_pull

unfoldable pub after_flush : OutStream → List Outbound → OutStream × List Outbound
unfolding clear_backlog
after_flush s log = if s.done then (s, log) else (clear_backlog s, log)

-- One pass of `classify`, with enough turns for the whole backlog.
unfoldable pub classify : Link → OutStream → List Outbound → OutStream × List Outbound
unfolding flush after_flush
classify link s log =
    if s.done
    then (s, log)
    else let (flushed, sent) = flush (length s.backlog) link s log in after_flush flushed sent

-- The end of a stream goes out, if there is a link that takes it.
unfoldable pub send_end : Link → Option Bytes → List Outbound → List Outbound
send_end link error log =
    if link.present && link.takes (length log) then log ++ (stream_end error ∷ []) else log

-- What a settled pull gives: a chunk, the end, or an error.
pub data Pulled : Type 0 where
  chunk : Bytes → Pulled
  eof : Pulled
  failed : Bytes → Pulled

unfoldable pub settle : Link → OutStream → Pulled → List Outbound → OutStream × List Outbound
unfolding send_end
settle link s (chunk bytes) log =
    (record s { pending = false; backlog = bytes; backlog_sent = 0 }, log)
settle link s eof log = (record s { pending = false; done = true }, send_end link none log)
settle link s (failed message) log =
    (record s { pending = false; done = true }, send_end link (some message) log)

-- Where the guest is: the state of the promise that is awaited, or how the call of `_pull` went, which
-- the end of the run may have cut off.
pub data Guest : Type 0 where
  waiting : Guest
  killed : Guest
  settled : Pulled → Guest

-- What follows the classification: a settled pull is taken in, a started one is awaited.
unfoldable pub drive_next :
    Link → Guest → OutStream → Next → List Outbound → OutStream × List Outbound
unfolding settle
drive_next link guest s idle log = (s, log)
drive_next link waiting s await_pending log = (s, log)
drive_next link killed s await_pending log = (s, log)
drive_next link (settled p) s await_pending log = settle link s p log
drive_next link waiting s start_pull log = (record s { pending = true }, log)
drive_next link killed s start_pull log = (s, log)
drive_next link (settled (failed m)) s start_pull log = settle link s (failed m) log
drive_next link (settled (chunk b)) s start_pull log = (record s { pending = true }, log)
drive_next link (settled eof) s start_pull log = (record s { pending = true }, log)

-- One turn of the loop of `drive_out_stream`.
unfoldable pub drive_turn : Link → Guest → OutStream → List Outbound → OutStream × List Outbound
unfolding classify next_of drive_next
drive_turn link guest s log =
    let (ready, sent) = classify link s log in drive_next link guest ready (next_of ready) sent

-- A pull that was awaited and has settled is followed by another turn.
unfoldable pub goes_on : Guest → Next → Bool
goes_on (settled p) await_pending = true
goes_on guest next = false

-- The loop of `drive_out_stream`; the guest may be elsewhere at each turn.
unfoldable pub drive_out_stream :
    ℕ → Link → (ℕ → Guest) → OutStream → List Outbound → Option (OutStream × List Outbound)
unfolding classify next_of drive_next goes_on
drive_out_stream zero link guest s log = none
drive_out_stream (suc n) link guest s log =
    let (ready, sent) = classify link s log in
    let (driven, out) = drive_next link (guest n) ready (next_of ready) sent in
    let more = drive_out_stream n link guest driven out in
    if goes_on (guest n) (next_of ready) then more else some (driven, out)

unfoldable pub note_out_credit : OutStream → ℕ → OutStream
note_out_credit s credit =
    if s.done then s else record s { credit = min (s.credit + credit) u32_max }

-- A cancellation, which tells the host unless the host asked for it.
unfoldable pub cancel_out_stream :
    Link → Bytes → Bool → OutStream → List Outbound → OutStream × List Outbound
unfolding send_end
cancel_out_stream link reason notify_host s log = if s.done then (s, log) else (
  record s { done = true; pending = false; backlog = [] },
  if notify_host then send_end link (some reason) log else log,
)
