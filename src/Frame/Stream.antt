-- ===== src/Frame/Stream.antt =====
-- crates/server/src/ipc.rs, `read_until_eof`, over any `std::io::Read`. The reader is the script of
-- what its calls answer: a chunk (a call takes at most the room it has and leaves the rest) or a
-- failure. An empty chunk, and the end of the script, is `Ok(0)`.
use iso.Base.{
  ℕ, zero, suc, ◌-◌, List, [], ◌∷◌, ◌++◌, Result, ok, err, ErrorKind, interrupted, length, take,
  drop, leb, if◌then◌else◌,
}
use iso.Wire.Bytes.{Bytes}

pub data Event : Type 0 where
  chunk : Bytes → Event
  failed : ErrorKind → Event

-- `room` is `buf.len() - got`, `got` the bytes filled in so far.
unfoldable pub read_until_eof : ℕ → Bytes → List Event → Result ErrorKind Bytes × List Event
read_until_eof zero got es = (ok got, es)
read_until_eof (suc room) got [] = (ok got, [])
read_until_eof (suc room) got (chunk [] ∷ es) = (ok got, es)
read_until_eof (suc room) got (chunk (b ∷ bs) ∷ es) =
    let more = read_until_eof (suc room - length (b ∷ bs)) (got ++ b ∷ bs) es in
    if leb (length (b ∷ bs)) (suc room)
    then more
    else (ok (got ++ take (suc room) (b ∷ bs)), chunk (drop (suc room) (b ∷ bs)) ∷ es)
read_until_eof (suc room) got (failed interrupted ∷ es) = read_until_eof (suc room) got es
read_until_eof (suc room) got (failed e ∷ es) = (err e, es)
