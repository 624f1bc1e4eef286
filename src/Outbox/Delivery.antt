-- ===== src/Outbox/Delivery.antt =====
-- The outbox against the frame reader at the other end of the socket.
use iso.Base.{
  ◌≡◌, refl, sym, ap, ◌∙◌, subst, false, List, [], ◌∷◌, ◌++◌, arith, append-nil, ok, All,
}
use iso.Frame.{Frame, default_max_frame_length, write_frame_with_limit}
use iso.Frame.Stream.{Event}
use iso.Frame.Read.{delivered, IsClean}
use iso.Frame.RoundTrip.{Written, ReadsFrames, read_frames-Written}
use iso.Outbox.{is_dead}
use iso.Outbox.System.{nobody, System, new_system, Reach}
use iso.Outbox.Invariant.{remaining, queue_bytes, frame_bytes, stream_of, FitsFrame}
use iso.Outbox.Order.{alive_rest, reachable-IsOrdered}

write_frame-fits :
    (f : Frame)
    → FitsFrame f
    → write_frame_with_limit f.message_type f.payload default_max_frame_length ≡ ok (frame_bytes f)
unfolding write_frame_with_limit
write_frame-fits f h = ground arith

stream_of-Written :
    (fs : List Frame) → All FitsFrame fs → Written default_max_frame_length fs (stream_of fs)
stream_of-Written [] h = refl
stream_of-Written (f ∷ fs) h =
    (frame_bytes f, stream_of fs, write_frame-fits f h.0, refl, stream_of-Written fs h.1)

-- Of a connection that is alive, with an empty queue and nobody writing, the socket has accepted
-- every admitted frame whole: a reader at the other end, which is handed just those bytes, cut anywhere
-- and with interruptions, reads the admitted frames in their order and then an orderly close.
pub drained-ReadsFrames :
    (s : System) (es : List Event)
    → Reach new_system s
    → is_dead s.shared ≡ false
    → s.holder ≡ nobody
    → (s.shared).queue ≡ []
    → IsClean es
    → delivered es ≡ s.sent
    → ReadsFrames default_max_frame_length s.admitted es
drained-ReadsFrames s es r live idle empty c e =
    let k = reachable-IsOrdered s r in
    let nothing : k.rest ≡ [] = alive_rest s k live ∙ ap queue_bytes empty in
    let whole : s.sent ++ ([] ++ []) ≡ stream_of s.admitted =
      subst (λ x. s.sent ++ (x ++ []) ≡ stream_of s.admitted) (ap remaining idle)
        (subst (λ x. s.sent ++ (remaining s.holder ++ x) ≡ stream_of s.admitted) nothing k.flow) in
    read_frames-Written default_max_frame_length s.admitted (stream_of s.admitted) es
      (stream_of-Written s.admitted k.fits) c (e ∙ sym (append-nil s.sent) ∙ whole)
