-- ===== src/Inbound/Flow.antt =====
-- An inbound body with its host and its guest as a state machine.
use iso.Base.{
  ℕ, suc, ◌+◌, ◌^◌, ◌<◌, ◌≡◌, refl, subst, Bool, true, some, Option, List, [], ◌++◌, arith, length,
  inl,
}
use iso.Wire.Bytes.{Bytes}
use iso.Inbound.{Answer, Outcome, deliver_chunk, deliver_end, stream_read, cancel_stream}
use iso.Inbound.Reads.{Body, new_body, after, IsBody}
use iso.Inbound.Honest.{
  IsHonest, IsHonest-append, deliver_chunk-IsHonest, deliver_end-IsHonest, stream_read-IsHonest,
  cancel_stream-IsHonest,
}
use iso.Inbound.Cases.{Delivered, delivered, reads-IsBody, ends-IsBody, cancels-IsBody}

-- A chunk that the run takes, the end, a read and a cancellation, in a run that has a link. Whether V8
-- can hold the chunk that an answer carries is given by the number of answers before it.
pub data Step (holds : ℕ → Bool) : Body → Body → Type 0 where
  chunk :
      (b : Body) (bytes : Bytes) (o : Outcome)
      → length bytes < 2 ^ 32
      → deliver_chunk true (holds (length b.answers)) b.stream bytes ≡ some o
      → Step holds b (after (record b { arrived = b.arrived ++ bytes }) o)
  ends : (b : Body) (error : Option Bytes) → Step holds b (after b (deliver_end b.stream error))
  reads :
      (b : Body)
      → Step holds b (
          after
            (record b { asked = suc b.asked })
            (stream_read true (holds (length b.answers)) b.stream))
  cancels :
      (b : Body) (reason : Bytes) → Step holds b (after b (cancel_stream true reason b.stream))

pub data Reach (holds : ℕ → Bool) (s : Body) : Body → Type 0 where
  here : Reach holds s s
  next : {t u : Body} → Reach holds s t → Step holds t u → Reach holds s u

new_body-IsBody : IsBody new_body
new_body-IsBody = record {
  rest = [];
  flow = refl;
  held = record {
    kept = inl (refl, refl);
    small = tt;
    counted = refl;
    capped = omega arith;
    waits = inl refl;
  };
  credited = refl;
  answered = refl;
}

Step-IsBody : {holds : ℕ → Bool} {a b : Body} → Step holds a b → IsBody a → IsBody b
Step-IsBody {holds} (chunk b bytes o small at) k =
    let s = b.stream in
    subst (Delivered b bytes) at (
      delivered b (holds (length b.answers)) s.buffered s.buffered_bytes s.ended s.cancelled
        s.pending bytes small k)
Step-IsBody (ends b error) k =
    let s = b.stream in
    ends-IsBody b error s.buffered s.buffered_bytes s.ended s.cancelled s.pending k
Step-IsBody {holds} (reads b) k =
    let s = b.stream in
    reads-IsBody b (holds (length b.answers)) s.buffered s.buffered_bytes s.ended s.cancelled
      s.pending k
Step-IsBody (cancels b reason) k =
    let s = b.stream in
    cancels-IsBody b reason s.buffered s.buffered_bytes s.ended s.cancelled s.pending k

joined_on :
    (holds : ℕ → Bool) (xs ys : List Answer)
    → IsHonest holds 0 xs
    → IsHonest holds (length xs) ys
    → IsHonest holds 0 (xs ++ ys)
joined_on holds xs ys a b =
    let e : length xs ≡ 0 + length xs = omega arith in
    IsHonest-append holds 0 xs ys a (subst (λ n. IsHonest holds n ys) e b)

Step-IsHonest :
    {holds : ℕ → Bool} {a b : Body}
    → Step holds a b
    → IsHonest holds 0 a.answers
    → IsHonest holds 0 b.answers
Step-IsHonest {holds} (chunk b bytes o small at) k =
    joined_on holds b.answers o.answers k
      (deliver_chunk-IsHonest holds (length b.answers) true b.stream bytes o at)
Step-IsHonest {holds} (ends b error) k =
    joined_on holds b.answers _ k (deliver_end-IsHonest holds _ b.stream error)
Step-IsHonest {holds} (reads b) k =
    joined_on holds b.answers _ k (stream_read-IsHonest holds (length b.answers) true b.stream)
Step-IsHonest {holds} (cancels b reason) k =
    joined_on holds b.answers _ k (cancel_stream-IsHonest holds _ true reason b.stream)

Reach-both :
    {holds : ℕ → Bool} {a b : Body}
    → IsBody a × IsHonest holds 0 a.answers
    → Reach holds a b
    → IsBody b × IsHonest holds 0 b.answers
Reach-both k here = k
Reach-both k (next r st) =
    let (body, honest) = Reach-both k r in (Step-IsBody st body, Step-IsHonest st honest)

-- In a run with a link, whatever the host sends in chunks below 4 GiB and the guest reads and cancels:
-- the chunks that reads are answered with are in order a prefix of the host's bytes, and a read gets its
-- chunk where V8 can hold it, and only where it cannot is the chunk lost and the read rejected. The rest
-- is what the buffer holds, within the cap, unless the stream was cancelled, which empties it; the host
-- has been credited exactly the bytes of those chunks; every read has had one answer, but the one that
-- waits, which waits only on an empty buffer of a stream that has neither ended nor been cancelled.
pub reachable-IsBody :
    (holds : ℕ → Bool) (b : Body) → Reach holds new_body b → IsBody b × IsHonest holds 0 b.answers
reachable-IsBody holds b h = Reach-both (new_body-IsBody, tt) h
