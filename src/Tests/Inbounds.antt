-- ===== src/Tests/Inbounds.antt =====
-- An inbound body that is read before and after a chunk arrives, ends, and is cancelled.
use iso.Base.{true, false, none, [], ◌∷◌, refl, arith}
use iso.Wire.Bytes.{Bytes}
use iso.Inbound.{
  hand_over, deliver_end, stream_read, cancel_stream, deliver_chunk, buffer_chunk, read_from,
  read_empty,
}
use iso.Inbound.Reads.{Body, new_body, after, IsBody}
use iso.Inbound.Honest.{IsHonest}
use iso.Inbound.Flow.{chunk, ends, reads, cancels, here, next, reachable-IsBody}

abbrev two_bytes : Bytes
two_bytes = 104 ∷ 105 ∷ []

-- The first read waits.
abbrev asked : Body
asked = record new_body { stream = record new_body.stream { pending = true }; asked = 1 }

-- The chunk answers it.
abbrev answered : Body
answered =
    after (record asked { arrived = two_bytes })
      (hand_over true true (record asked.stream { pending = false }) two_bytes)

-- The next chunk is buffered.
abbrev buffered : Body
buffered = record answered {
  stream = record answered.stream { buffered = two_bytes ∷ []; buffered_bytes = 2 };
  arrived = 104 ∷ 105 ∷ 104 ∷ 105 ∷ [];
}

abbrev over : Body
over = after buffered (deliver_end buffered.stream none)

abbrev cancelled : Body
cancelled = after over (cancel_stream true (98 ∷ []) over.stream)

reachable-IsBody_example : IsBody cancelled × IsHonest (λ n. true) 0 cancelled.answers
unfolding deliver_chunk buffer_chunk stream_read read_from read_empty
reachable-IsBody_example =
    reachable-IsBody (λ n. true) cancelled
      (next
        (next
          (next (next (next here (reads new_body)) (chunk asked two_bytes _ (omega arith) refl))
            (chunk answered two_bytes _ (omega arith) refl))
          (ends buffered none))
        (cancels over (98 ∷ [])))
