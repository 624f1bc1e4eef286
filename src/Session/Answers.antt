-- ===== src/Session/Answers.antt =====
-- Every completion goes out: what the link substitutes for a message that is too large always fits.
use iso.Base.{
  ℕ, ◌+◌, ◌≤◌, ◌<◌, ◌≡◌, sym, true, false, ◌⊎◌, refl, none, some, [], ◌∷◌, ◌++◌, ok, err, arith,
  length, length-append, ascii, Option-cases, ap, ◌∙◌, inl, inr,
}
use iso.Wire.Bytes.{Bytes, be32}
use iso.Frame.{default_max_frame_length}
use iso.Reply.Types.{run_error, no_cause, RunCompletion, GraceStatus}
use iso.Reply.{encode_run_completion_payload, encode_run_error_payload, encode_run_complete_payload}
use iso.Reply.{encode_string_list, encode_bridge_call_records, kept_fields, encode_cause, be64}
use iso.Wire.Reader.Reads.{bool_byte}
use iso.Reply.Clamp.{clamp_error_text, length-clamp_error_text}
use iso.Errors.{internal_error, to_payload}
use iso.Errors.{stack_and_fields, reset_of, code, name, message}
use iso.Completion.{bare, substitute, minimal_report, too_large_text, send_completion, after_send}
use iso.Link.{Outbound, too_large}
use iso.Frame.Kinds.{RustToTsMessageType, run_result, run_complete}
use iso.Session.ConnLink.{
  Sent, Conn, Outlet, oversize, frame_for, send_frame, checked_frame, admit_frame, send, conn_link,
}

fits : (n : ℕ) → n + 1 ≤ default_max_frame_length → oversize n ≡ none
unfolding oversize
fits n h = ground arith

length-internal :
    (slots run_id : ℕ) (m : Bytes)
    → length (
        encode_run_completion_payload slots run_id
          (RunCompletion.failed (bare (to_payload (internal_error m)))))
      ≤ 200 + length (clamp_error_text m)
unfolding encode_run_completion_payload bare to_payload stack_and_fields reset_of code name message
    ascii encode_run_error_payload encode_string_list encode_bridge_call_records kept_fields
    encode_cause bool_byte
length-internal slots run_id m =
    let text = clamp_error_text m in
    let more : Bytes = 0 ∷ 0 ∷ 0 ∷ 0 ∷ 0 ∷ [] in
    let last =
      encode_string_list []
      ++ (encode_string_list []
          ++ (be64 0 ++ (be64 0 ++ (be64 0 ++ (encode_bridge_call_records [] ++ (0 ∷ [])))))) in
    omega (arith, length-append text more, length-append (text ++ more) last)

length-minimal :
    (run_id : ℕ) (status : GraceStatus)
    → length (encode_run_complete_payload run_id (minimal_report status)) ≤ 200
unfolding encode_run_complete_payload minimal_report ascii encode_string_list
    encode_bridge_call_records
length-minimal run_id status = omega arith

-- A frame of a completion: a `Result` or a `RunComplete` that starts with the run's id.
pub record AnswerFrame (slots run_id : ℕ) (msg : Outbound) : Type 0 where
  pub kind : RustToTsMessageType
  pub rest : Bytes
  pub framed : frame_for slots run_id msg ≡ (kind, be32 run_id ++ rest, [])
  pub is_answer : (kind ≡ run_result) ⊎ (kind ≡ run_complete)

abbrev pub IsCompletion : Outbound → Type 0
IsCompletion (Outbound.result completion) = Unit
IsCompletion (Outbound.run_complete report) = Unit
IsCompletion _ = ⊥

framed_completion :
    (slots run_id : ℕ) (msg : Outbound) → IsCompletion msg → AnswerFrame slots run_id msg
unfolding frame_for encode_run_completion_payload encode_run_complete_payload
framed_completion slots run_id (Outbound.result (RunCompletion.success s)) c = record {
  kind = run_result;
  rest = _;
  framed = refl;
  is_answer = inl refl;
}
framed_completion slots run_id (Outbound.result (RunCompletion.failed f)) c = record {
  kind = run_result;
  rest = _;
  framed = refl;
  is_answer = inl refl;
}
framed_completion slots run_id (Outbound.run_complete report) c = record {
  kind = run_complete;
  rest = _;
  framed = refl;
  is_answer = inr refl;
}
framed_completion slots run_id (Outbound.bridge_call i t a) c = absurd c
framed_completion slots run_id (Outbound.stream_pull a b) c = absurd c
framed_completion slots run_id (Outbound.stream_cancel a b) c = absurd c
framed_completion slots run_id (Outbound.stream_chunk a b) c = absurd c
framed_completion slots run_id (Outbound.stream_end a b) c = absurd c

-- The message that goes in place of a completion that is too large is one, and fits a frame.
substitute-IsCompletion :
    (msg : Outbound) (detail : Bytes) → IsCompletion msg → IsCompletion (substitute msg detail)
unfolding substitute
substitute-IsCompletion (Outbound.result completion) detail c = tt
substitute-IsCompletion (Outbound.run_complete report) detail c = tt
substitute-IsCompletion (Outbound.bridge_call i t a) detail c = absurd c
substitute-IsCompletion (Outbound.stream_pull a b) detail c = absurd c
substitute-IsCompletion (Outbound.stream_cancel a b) detail c = absurd c
substitute-IsCompletion (Outbound.stream_chunk a b) detail c = absurd c
substitute-IsCompletion (Outbound.stream_end a b) detail c = absurd c

abbrev pub head_of : RustToTsMessageType × Bytes × Bytes → Bytes
head_of f = f.1

substitute-fits :
    (slots run_id : ℕ) (msg : Outbound) (detail : Bytes)
    → IsCompletion msg
    → length (head_of (frame_for slots run_id (substitute msg detail))) + 1
      ≤ default_max_frame_length
unfolding frame_for substitute
substitute-fits slots run_id (Outbound.result completion) detail c =
    let m = too_large_text detail in
    omega (arith, length-internal slots run_id m, length-clamp_error_text m)
substitute-fits slots run_id (Outbound.run_complete report) detail c =
    omega (arith, length-minimal run_id report.status)
substitute-fits slots run_id (Outbound.bridge_call i t a) detail c = absurd c
substitute-fits slots run_id (Outbound.stream_pull a b) detail c = absurd c
substitute-fits slots run_id (Outbound.stream_cancel a b) detail c = absurd c
substitute-fits slots run_id (Outbound.stream_chunk a b) detail c = absurd c
substitute-fits slots run_id (Outbound.stream_end a b) detail c = absurd c

abbrev pub with_frame : Conn → Sent → Conn
with_frame conn sent = record conn { frames = conn.frames ++ (sent ∷ []) }

-- How the send of a completion goes while the outbox takes frames.
module _ (out : Outlet) (conn : Conn) (run_id : ℕ)
    (free : out.refuses (length conn.frames) ≡ none) where
  abbrev slots_now : ℕ
  slots_now = out.slot_allowance (length conn.frames)

  sent_frame :
      (msg : Outbound) (a : AnswerFrame slots_now run_id msg)
      → oversize (length (be32 run_id ++ a.rest) + 0) ≡ none
      → send out conn run_id msg ≡ (with_frame conn (a.kind, (be32 run_id ++ a.rest) ++ []), ok tt)
  unfolding send send_frame checked_frame admit_frame
  sent_frame msg a h = rw (a.framed, h, free) refl

  refused_frame :
      (msg : Outbound) (a : AnswerFrame slots_now run_id msg) (detail : Bytes)
      → oversize (length (be32 run_id ++ a.rest) + 0) ≡ some detail
      → send out conn run_id msg ≡ (conn, err (too_large detail))
  unfolding send send_frame checked_frame
  refused_frame msg a detail h = rw (a.framed, h) refl

completed :
    (out : Outlet) (conn : Conn) (run_id : ℕ) (msg : Outbound) {after : Conn}
    → send out conn run_id msg ≡ (after, ok tt)
    → send_completion (conn_link out) conn run_id msg ≡ after
unfolding send_completion after_send conn_link
completed out conn run_id msg h = ap (λ r. (after_send (conn_link out) run_id msg r).0) h

completed_small :
    (out : Outlet) (conn : Conn) (run_id : ℕ) (msg : Outbound) (detail : Bytes) {after : Conn}
    → send out conn run_id msg ≡ (conn, err (too_large detail))
    → send out conn run_id (substitute msg detail) ≡ (after, ok tt)
    → send_completion (conn_link out) conn run_id msg ≡ after
unfolding send_completion after_send conn_link
completed_small out conn run_id msg detail h g =
    ap (λ r. (after_send (conn_link out) run_id msg r).0) h ∙ ap (λ r. r.0) g

-- What stands in for a completion that is too large: of a `Result`, the failure `ERR_INTERNAL` with
-- nothing else; of a `RunComplete`, a report of the same status with nothing else.
abbrev pub IsMinimal : Outbound → Outbound → Type 0
IsMinimal (Outbound.result c) (Outbound.result (RunCompletion.failed f)) =
    (text : Bytes) × (f.failure
      ≡ run_error (ascii "ERR_INTERNAL") (ascii "Error") text none none none false no_cause)
    × (f.stdout ≡ [])
    × (f.stderr ≡ [])
    × (f.bridge_calls ≡ [])
IsMinimal (Outbound.run_complete r) (Outbound.run_complete small) =
    (small.status ≡ r.status)
    × (small.early_result_sent ≡ true)
    × (small.stdout ≡ [])
    × (small.stderr ≡ [])
    × (small.bridge_calls ≡ [])
IsMinimal _ _ = ⊥

substitute-IsMinimal :
    (msg : Outbound) (detail : Bytes) → IsCompletion msg → IsMinimal msg (substitute msg detail)
unfolding substitute minimal_report bare to_payload stack_and_fields reset_of code name message
substitute-IsMinimal (Outbound.result completion) detail c =
    (too_large_text detail, refl, refl, refl, refl)
substitute-IsMinimal (Outbound.run_complete report) detail c = (refl, refl, refl, refl, refl)
substitute-IsMinimal (Outbound.bridge_call i t a) detail c = absurd c
substitute-IsMinimal (Outbound.stream_pull a b) detail c = absurd c
substitute-IsMinimal (Outbound.stream_cancel a b) detail c = absurd c
substitute-IsMinimal (Outbound.stream_chunk a b) detail c = absurd c
substitute-IsMinimal (Outbound.stream_end a b) detail c = absurd c

-- The length of a frame with its type byte, and the frame as the outbox takes it.
abbrev pub frame_size : RustToTsMessageType × Bytes × Bytes → ℕ
frame_size f = length f.1 + length f.2 + 1

abbrev pub whole_frame : RustToTsMessageType × Bytes × Bytes → Sent
whole_frame f = (f.0, f.1 ++ f.2)

-- What goes out for a completion: itself, if its frame is within the ceiling, or else a minimal one.
pub data IsSaid (slots run_id : ℕ) (msg : Outbound) : Outbound → Type 0 where
  itself :
      frame_size (frame_for slots run_id msg) ≤ default_max_frame_length
      → IsSaid slots run_id msg msg
  minimal :
      (small : Outbound)
      → default_max_frame_length < frame_size (frame_for slots run_id msg)
      → IsMinimal msg small
      → IsSaid slots run_id msg small

-- What an answered run leaves: the frame of what is said and nothing else, a `Result` or a
-- `RunComplete` with the run's id in front.
pub record IsAnswered (out : Outlet) (conn : Conn) (run_id : ℕ) (msg : Outbound) (after : Conn)
    : Type 0 where
  pub said : Outbound
  pub right : IsSaid (out.slot_allowance (length conn.frames)) run_id msg said
  pub addressed : AnswerFrame (out.slot_allowance (length conn.frames)) run_id said
  pub framed :
      after
      ≡ with_frame conn
          (whole_frame (frame_for (out.slot_allowance (length conn.frames)) run_id said))

within : (n : ℕ) → oversize n ≡ none → n + 1 ≤ default_max_frame_length
unfolding oversize
within n h = ground arith

beyond : (n : ℕ) {detail : Bytes} → oversize n ≡ some detail → default_max_frame_length < n + 1
unfolding oversize
beyond n h = ground arith

-- While the outbox takes frames, a completion is answered by one frame, and nothing but the frames
-- changes: it is the completion's own if that is within the frame's ceiling. Else it is that of a minimal
-- one, for a `Result` the failure `ERR_INTERNAL` and for a `RunComplete` a report of the same status.
pub send_completion-IsAnswered :
    (out : Outlet) (conn : Conn) (run_id : ℕ) (msg : Outbound)
    → out.refuses (length conn.frames) ≡ none
    → IsCompletion msg
    → IsAnswered out conn run_id msg (send_completion (conn_link out) conn run_id msg)
send_completion-IsAnswered out conn run_id msg free c =
    let slots = out.slot_allowance (length conn.frames) in
    let a = framed_completion slots run_id msg c in
    let sized = ap (λ f. frame_size f) a.framed in
    elim (Option-cases (oversize (length (be32 run_id ++ a.rest) + 0))) [
      | inl q ↦ record {
        said = msg;
        right = itself (omega (arith, sized, within _ q));
        addressed = a;
        framed =
            completed out conn run_id msg (sent_frame out conn run_id free msg a q)
            ∙ ap (λ f. with_frame conn (whole_frame f)) (sym a.framed);
      }
      | inr (detail, q) ↦
          let small = substitute msg detail in
          let b = framed_completion slots run_id small (substitute-IsCompletion msg detail c) in
          let room = substitute-fits slots run_id msg detail c in
          let fitting : oversize (length (be32 run_id ++ b.rest) + 0) ≡ none =
            fits _ (omega (arith, room, ap length (ap head_of b.framed))) in
          record {
            said = small;
            right =
                minimal small (omega (arith, sized, beyond _ q))
                  (substitute-IsMinimal msg detail c);
            addressed = b;
            framed =
                completed_small out conn run_id msg detail
                  (refused_frame out conn run_id free msg a detail q)
                  (sent_frame out conn run_id free small b fitting)
                ∙ ap (λ f. with_frame conn (whole_frame f)) (sym b.framed);
          }
    ]
