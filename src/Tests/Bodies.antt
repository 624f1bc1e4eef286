-- ===== src/Tests/Bodies.antt =====
-- A stream whose first chunk is larger than its credit, and which ends cleanly.
use iso.Base.{ℕ, List, some, ◌≡◌, true, false, [], ◌∷◌}
use iso.Streams.{OutStream, Outbound, Link, Guest, drive_out_stream, chunk, eof, waiting, settled}
use iso.Streams.Loop.{drive_out_stream-ends}
use iso.Streams.Flow.{
  Flow, new_flow, driven, cancelled, drives, cancels, here, next, IsFlow, reachable-IsFlow,
}

abbrev a_link : Link
a_link = record { present = true; takes = λ n. true }

abbrev started : Flow
started = driven a_link waiting new_flow

abbrev pulled : Flow
pulled = driven a_link (settled (chunk (104 ∷ 105 ∷ []))) started

abbrev sent : Flow
sent = driven a_link waiting pulled

abbrev ended : Flow
ended = driven a_link (settled eof) sent

reachable-IsFlow_example : IsFlow (cancelled a_link (98 ∷ []) true ended)
reachable-IsFlow_example = reachable-IsFlow (cancelled a_link (98 ∷ []) true ended) (
    next
      (next
        (next
          (next (next here (drives new_flow a_link waiting))
            (drives started a_link (settled (chunk (104 ∷ 105 ∷ [])))))
          (drives pulled a_link waiting))
        (drives sent a_link (settled eof)))
      (cancels ended a_link (98 ∷ []) true))

abbrev awaiting : OutStream
awaiting = record { credit = 2; pending = true; backlog = []; backlog_sent = 0; done = false }

-- The awaited pull gives three bytes, of which two go out.
abbrev gives_three : ℕ → Guest
gives_three n = settled (chunk (1 ∷ 2 ∷ 3 ∷ []))

drive_out_stream-ends_example :
    (r : OutStream × List Outbound) × (drive_out_stream 2 a_link gives_three awaiting [] ≡ some r)
drive_out_stream-ends_example = drive_out_stream-ends 0 a_link gives_three awaiting []
