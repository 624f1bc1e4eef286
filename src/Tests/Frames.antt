-- ===== src/Tests/Frames.antt =====
-- Two frames written, cut into chunks and read back.
use iso.Base.{◌≡◌, refl, List, [], ◌∷◌, ◌++◌, ok, err, invalid_data, interrupted, arith}
use iso.Wire.Bytes.{Bytes}
use iso.Frame.{Frame, read_frame_with_limit, write_frame_with_limit}
use iso.Frame.Stream.{Event, chunk, failed}
use iso.Frame.Read.{delivered}
use iso.Frame.RoundTrip.{Written, ReadsFrames, read_frames-Written, read_frame-truncated}

abbrev two_frames : List Frame
two_frames =
    record { message_type = 2; payload = 10 ∷ 11 ∷ [] }
    ∷ record { message_type = 8; payload = [] }
    ∷ []

abbrev their_bytes : Bytes
their_bytes = (0 ∷ 0 ∷ 0 ∷ 3 ∷ 2 ∷ 10 ∷ 11 ∷ []) ++ (0 ∷ 0 ∷ 0 ∷ 1 ∷ 8 ∷ [])

-- The first chunk ends inside a length prefix, and a call is interrupted there.
abbrev in_chunks : List Event
in_chunks =
    chunk (0 ∷ 0 ∷ [])
    ∷ failed interrupted
    ∷ chunk (0 ∷ 3 ∷ 2 ∷ 10 ∷ [])
    ∷ chunk (11 ∷ 0 ∷ 0 ∷ 0 ∷ 1 ∷ 8 ∷ [])
    ∷ []

two_frames-Written : Written 64 two_frames their_bytes
unfolding write_frame_with_limit
two_frames-Written = (_, _, refl, refl, (_, _, refl, refl, refl))

in_chunks-delivered : delivered in_chunks ≡ their_bytes
unfolding delivered
in_chunks-delivered = refl

read_frames-Written_example : ReadsFrames 64 two_frames in_chunks
read_frames-Written_example =
    read_frames-Written 64 two_frames their_bytes in_chunks two_frames-Written tt
      in_chunks-delivered

a_frame-written : write_frame_with_limit 8 (5 ∷ []) 64 ≡ ok (0 ∷ 0 ∷ 0 ∷ 2 ∷ 8 ∷ 5 ∷ [])
unfolding write_frame_with_limit
a_frame-written = refl

cut-delivered : delivered (chunk (0 ∷ 0 ∷ 0 ∷ 2 ∷ 8 ∷ []) ∷ []) ≡ 0 ∷ 0 ∷ 0 ∷ 2 ∷ 8 ∷ []
unfolding delivered
cut-delivered = refl

read_frame-truncated_example :
    (read_frame_with_limit (chunk (0 ∷ 0 ∷ 0 ∷ 2 ∷ 8 ∷ []) ∷ []) 64).0 ≡ err invalid_data
read_frame-truncated_example =
    read_frame-truncated 8 (5 ∷ []) 64 (0 ∷ 0 ∷ 0 ∷ 2 ∷ 8 ∷ 5 ∷ []) (0 ∷ 0 ∷ 0 ∷ 2 ∷ 8 ∷ [])
      (5 ∷ []) (chunk (0 ∷ 0 ∷ 0 ∷ 2 ∷ 8 ∷ []) ∷ []) a_frame-written refl (omega arith)
      (omega arith) tt cut-delivered
