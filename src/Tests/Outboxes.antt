-- ===== src/Tests/Outboxes.antt =====
-- A producer's frame jams after four bytes, a second frame queues up, and the writer thread sends both.
use iso.Base.{◌≡◌, ◌≤◌, ◌*◌, ◌+◌, refl, false, List, [], ◌∷◌, arith}
use iso.Wire.Bytes.{Bytes}
use iso.Frame.{default_max_frame_length}
use iso.Frame.Stream.{Event, chunk}
use iso.Frame.Read.{delivered}
use iso.Frame.RoundTrip.{ReadsFrames}
use iso.Frame.Kinds.{log, rust_to_ts_byte}
use iso.Outbox.{
  FrameProgress, envelope, remainder, frame, parts_of, wrote, would_block, interrupt, after_write,
  write_turn, payload_len, offer, after_inline, writer_next, pop_front, writer_done, is_dead,
}
use iso.Outbox.System.{
  nobody, System, new_system, offered, inline_turn, writer_turn, popped, sends, writes_inline,
  writes, pops, Reach, here, next,
}
use iso.Outbox.Invariant.{queue_len, IsOrdered}
use iso.Outbox.Order.{reachable-IsOrdered}
use iso.Outbox.Delivery.{drained-ReadsFrames}
use iso.Outbox.Room.{reachable_room}

abbrev head : Bytes
head = 1 ∷ []

abbrev tail : Bytes
tail = 2 ∷ 3 ∷ []

abbrev first : FrameProgress
first = record { parts = envelope 4 log ∷ head ∷ tail ∷ []; written = 0 }

abbrev sending : System
sending = offered new_system log head tail (offer new_system.shared log head tail 4)

abbrev halfway : System
halfway = inline_turn sending first (write_turn first false (wrote 4))

abbrev jammed : System
jammed =
    inline_turn halfway (record first { written = 4 })
      (write_turn (record first { written = 4 }) false would_block)

abbrev two_queued : System
two_queued = offered jammed log [] (9 ∷ []) (offer jammed.shared log [] (9 ∷ []) 2)

abbrev second : FrameProgress
second = record { parts = parts_of (remainder (4 ∷ 1 ∷ 2 ∷ 3 ∷ [])); written = 0 }

abbrev taken : System
taken = popped two_queued 7 (writer_next two_queued.shared)

abbrev rewritten : System
rewritten = writer_turn taken second 0 7 8 (write_turn second false (wrote 4))

abbrev one_left : System
one_left =
    writer_turn rewritten (record second { written = 4 }) 0 7 8
      (write_turn (record second { written = 4 }) false interrupt)

abbrev third : FrameProgress
third = record { parts = parts_of (frame log [] (9 ∷ [])); written = 0 }

abbrev last_taken : System
last_taken = popped one_left 9 (writer_next one_left.shared)

abbrev last_written : System
last_written = writer_turn last_taken third 0 9 9 (write_turn third false (wrote 6))

abbrev drained : System
drained =
    writer_turn last_written (record third { written = 6 }) 0 9 9
      (write_turn (record third { written = 6 }) false interrupt)

drained-Reach : Reach new_system drained
unfolding offered offer inline_turn write_turn after_write after_inline popped writer_next pop_front
    writer_turn writer_done payload_len rust_to_ts_byte
drained-Reach =
    next
      (next
        (next
          (next
            (next
              (next
                (next
                  (next
                    (next (next here (sends new_system log head tail 4 refl))
                      (writes_inline sending first false (wrote 4) refl (omega arith)))
                    (writes_inline halfway (record first { written = 4 }) false would_block refl
                      tt))
                  (sends jammed log [] (9 ∷ []) 2 refl))
                (pops two_queued 7))
              (writes taken second 0 7 8 (wrote 4) refl (omega arith)))
            (writes rewritten (record second { written = 4 }) 0 7 8 interrupt refl tt))
          (pops one_left 9))
        (writes last_taken third 0 9 9 (wrote 6) refl (omega arith)))
      (writes last_written (record third { written = 6 }) 0 9 9 interrupt refl tt)

reachable-IsOrdered_example : IsOrdered drained
reachable-IsOrdered_example = reachable-IsOrdered drained drained-Reach

reachable_room_example : queue_len (drained.shared).queue ≤ 2 * default_max_frame_length + 4
reachable_room_example = reachable_room drained drained-Reach

-- The socket's bytes in two chunks.
abbrev heard : List Event
heard = chunk (0 ∷ 0 ∷ 0 ∷ 4 ∷ 4 ∷ 1 ∷ []) ∷ chunk (2 ∷ 3 ∷ 0 ∷ 0 ∷ 0 ∷ 2 ∷ 4 ∷ 9 ∷ []) ∷ []

alive_drained : is_dead drained.shared ≡ false
unfolding offered offer inline_turn write_turn after_write after_inline popped writer_next pop_front
    writer_turn writer_done rust_to_ts_byte
alive_drained = refl

idle_drained : drained.holder ≡ nobody
unfolding offered offer inline_turn write_turn after_write after_inline popped writer_next pop_front
    writer_turn writer_done rust_to_ts_byte
idle_drained = refl

empty_drained : (drained.shared).queue ≡ []
unfolding offered offer inline_turn write_turn after_write after_inline popped writer_next pop_front
    writer_turn writer_done rust_to_ts_byte
empty_drained = refl

heard_drained : delivered heard ≡ drained.sent
unfolding offered offer inline_turn write_turn after_write after_inline popped writer_next pop_front
    writer_turn writer_done rust_to_ts_byte delivered
heard_drained = refl

drained-ReadsFrames_example : ReadsFrames default_max_frame_length drained.admitted heard
drained-ReadsFrames_example =
    drained-ReadsFrames drained heard drained-Reach alive_drained idle_drained empty_drained tt
      heard_drained
