-- ===== src/Session/Start.antt =====
-- crates/server/src/session.rs: the start of a run, and its refusal.
use iso.Base.{ℕ, Bool, true, false, Option, none, some, ◌∷◌, ◌++◌, if◌then◌else◌, ascii}
use iso.Wire.Bytes.{Bytes}
use iso.Reply.Types.{RunErrorPayload, RunCompletion}
use iso.Reply.Clamp.{digits}
use iso.Link.{Outbound}
use iso.Errors.{internal_error, to_payload}
use iso.Completion.{bare, send_completion}
use iso.Session.ConnLink.{
  RunHandle, RunRoute, Conn, Outlet, route_of, unrouted, finished, conn_link,
}

-- Answer a run that was refused before it started.
unfoldable pub refuse : Outlet → Conn → ℕ → RunErrorPayload → Conn
unfolding conn_link send_completion bare
refuse out conn run_id error =
    send_completion (conn_link out) conn run_id
      (Outbound.result (RunCompletion.failed (bare error)))

-- "run id {} is already in flight on this connection; every concurrent run needs a distinct id".
unfoldable pub duplicate_text : ℕ → Bytes
unfolding ascii
duplicate_text run_id =
    ascii "run id "
    ++ (digits 20 run_id
        ++ (ascii " is already in flight on this connection; every "
            ++ ascii "concurrent run needs a distinct id"))

-- How the engine answers a start: the handle that it registered, if any, and the refusal, if any.
pub record Start : Type 0 where
  pub registered : Option RunHandle
  pub refusal : Option RunErrorPayload

unfoldable pub register : Conn → ℕ → ℕ → Option RunHandle → Conn
register conn run_id frame_cap none = conn
register conn run_id frame_cap (some handle) = record conn {
  runs = (run_id, record { handle = handle; frame_cap = frame_cap }) ∷ unrouted run_id conn.runs;
}

unfoldable pub concluded : Outlet → Conn → ℕ → Option RunErrorPayload → Conn
unfolding finished refuse
concluded out conn run_id none = conn
concluded out conn run_id (some error) = refuse out (finished conn run_id) run_id error

abbrev pub in_flight : Option RunRoute → Bool
in_flight none = false
in_flight (some route) = true

-- `start_run` over an engine's state: a duplicate id is refused before the engine is asked.
unfoldable pub start_run : {E : Type 0} → Outlet → E → Conn → ℕ → ℕ → (E → E × Start) → E × Conn
unfolding refuse duplicate_text to_payload register concluded
start_run out engine conn run_id frame_cap start =
    let (started, answer) = start engine in
    if in_flight (route_of run_id conn.runs)
    then (engine, refuse out conn run_id (to_payload (internal_error (duplicate_text run_id))))
    else (
      started,
      concluded out (register conn run_id frame_cap answer.registered) run_id answer.refusal,
    )
