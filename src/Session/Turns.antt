-- ===== src/Session/Turns.antt =====
-- Each turn of the loop keeps the routes in step with the live runs, or tells every one of them that the
-- connection is gone.
use iso.Base.{
  ℕ, ◌≡◌, refl, subst, true, false, Option, none, some, List, [], ◌∷◌, ◌++◌, Result, ok, err,
  ErrorKind, map, Bool-cases, inl, inr, All,
}
use iso.Wire.Bytes.{Bytes}
use iso.Wire.Reader.{Allocator}
use iso.Types.{RunRequest, PrefixRunRequest, TerminateMode}
use iso.Frame.{TsToRustMessageType, TypedFrame}
use iso.Frame.Kinds.{precompile_result, stats_result}
use iso.Payload.{
  PrecompilePayload, parse_run_payload, parse_precompile_payload, parse_prefix_run_payload,
  parse_dispose_prefix_payload, parse_terminate_payload,
}
use iso.Reply.{encode_stats_payload}
use iso.Link.{Inbound, connection_lost}
use iso.Session.ConnLink.{RunHandle, RunRoute, Conn, Outlet, send_frame}
use iso.Session.Route.{
  frame_cap_for, deliver_to, route_by, route_run_frame, peek_run_id, terminate_by, route_terminate,
}
use iso.Session.Demux.{
  EngineOps, Session, ended, started, rerouted, teardown, is_sent, on_run, on_prefix_run,
  on_precompile, on_dispose_prefix, on_stats, on_frame, on_read,
}
use iso.Session.Tracing.{Live, traced, Lawful, pair_of, Agrees, same-Agrees, send_frame-runs}
use iso.Session.Routing.{Told, start_run-Agrees}

abbrev a_frame : TsToRustMessageType → Bytes → TypedFrame
a_frame t payload = record { message_type = t; payload = payload }

pub Told-later :
    (x : RunHandle × Inbound) (xs : List (RunHandle × Inbound)) (live : Live)
    → All (Told xs) live
    → All (Told (x ∷ xs)) live
Told-later x xs [] a = tt
Told-later x xs (run ∷ live) a = (inr a.0, Told-later x xs live a.1)

-- A teardown tells every routed run.
told_all :
    (runs : List (ℕ × RunRoute)) (delivered : List (RunHandle × Inbound))
    → All
        (Told (map (λ (r : ℕ × RunRoute). ((r.1).handle, connection_lost none)) runs ++ delivered))
        (map pair_of runs)
told_all [] delivered = tt
told_all (r ∷ runs) delivered = (
  inl refl,
  Told-later ((r.1).handle, connection_lost none) _ (map pair_of runs) (told_all runs delivered),
)

deliver_to-runs :
    (conn : Conn) (route : Option RunRoute) (msg : RunRoute → Inbound)
    → (deliver_to conn route msg).runs ≡ conn.runs
unfolding deliver_to
deliver_to-runs conn none msg = refl
deliver_to-runs conn (some route) msg = refl

module _ ⦃alloc : Allocator⦄ {E A : Type 0} (ops : EngineOps E A) where
  -- At work, the routes are those of the live runs. Once the loop is over there are none, and each run
  -- that is still live has been told.
  pub data IsRouted (s : Session (traced ops)) : Type 0 where
    at_work : s.is_open ≡ true → Agrees (s.engine).1 s.conn → IsRouted s
    over :
        s.is_open ≡ false
        → (s.conn).runs ≡ []
        → All (Told (s.conn).delivered) (s.engine).1
        → IsRouted s

  ended-IsRouted :
      (s : Session (traced ops)) → Agrees (s.engine).1 s.conn → IsRouted (ended (traced ops) s)
  unfolding ended teardown
  ended-IsRouted s a = over refl refl (
      subst (λ live. All (Told (ended (traced ops) s).conn.delivered) live) a.same_runs
        (told_all (s.conn).runs (s.conn).delivered))

  module _ (s : Session (traced ops)) (open_now : s.is_open ≡ true)
      (a : Agrees (s.engine).1 s.conn) where
    rerouted-IsRouted :
        (frame : TypedFrame) (o : Option ℕ)
        → IsRouted (rerouted (traced ops) s (route_by s.conn frame o))
    unfolding rerouted route_by
    rerouted-IsRouted frame none = ended-IsRouted s a
    rerouted-IsRouted frame (some run_id) =
        at_work open_now (same-Agrees (deliver_to-runs s.conn _ _) a)

    terminated-IsRouted :
        (r : Result ErrorKind (ℕ × TerminateMode))
        → IsRouted (rerouted (traced ops) s (terminate_by s.conn r))
    unfolding rerouted terminate_by
    terminated-IsRouted (err e) = ended-IsRouted s a
    terminated-IsRouted (ok (run_id, mode)) =
        at_work open_now (same-Agrees (deliver_to-runs s.conn _ _) a)

    on_run-IsRouted :
        (law : Lawful ops) (out : Outlet) (answers : A) (r : Result ErrorKind RunRequest)
        → IsRouted (on_run (traced ops) out answers s r)
    unfolding on_run started
    on_run-IsRouted law out answers (err e) = ended-IsRouted s a
    on_run-IsRouted law out answers (ok req) = at_work open_now (
        start_run-Agrees out req.run_id (frame_cap_for req.limits) (λ e. ops.run answers e req)
          s.engine s.conn (law.run_registers answers (s.engine).0 req) a)

    on_prefix_run-IsRouted :
        (law : Lawful ops) (out : Outlet) (answers : A) (r : Result ErrorKind PrefixRunRequest)
        → IsRouted (on_prefix_run (traced ops) out answers s r)
    unfolding on_prefix_run started
    on_prefix_run-IsRouted law out answers (err e) = ended-IsRouted s a
    on_prefix_run-IsRouted law out answers (ok req) = at_work open_now (
        start_run-Agrees out req.run_id (frame_cap_for req.limits)
          (λ e. ops.prefix_run answers e req) s.engine s.conn
          (law.prefix_run_registers answers (s.engine).0 req) a)

    on_precompile-IsRouted :
        (out : Outlet) (r : Result ErrorKind PrecompilePayload)
        → IsRouted (on_precompile (traced ops) out s r)
    unfolding on_precompile
    on_precompile-IsRouted out (err e) = ended-IsRouted s a
    on_precompile-IsRouted out (ok p) =
        at_work open_now (same-Agrees (send_frame-runs out s.conn precompile_result _ []) a)

    on_dispose_prefix-IsRouted :
        (r : Result ErrorKind Bytes) → IsRouted (on_dispose_prefix (traced ops) s r)
    unfolding on_dispose_prefix
    on_dispose_prefix-IsRouted (err e) = ended-IsRouted s a
    on_dispose_prefix-IsRouted (ok prefix_id) = at_work open_now a

    on_stats-IsRouted :
        (out : Outlet) (answers : A) → IsRouted (on_stats (traced ops) out answers s)
    unfolding on_stats
    on_stats-IsRouted out answers =
        let r =
          send_frame out s.conn stats_result (encode_stats_payload (ops.stats answers (s.engine).0))
            [] in
        let same = send_frame-runs out s.conn stats_result _ [] in
        elim (Bool-cases (is_sent r.1)) [
          | inl h ↦ rw (on_stats, h) (at_work open_now (same-Agrees same a))
          | inr h ↦ rw (on_stats, h) (ended-IsRouted (record s { conn = r.0 }) (same-Agrees same a))
        ]

    on_frame-IsRouted :
        (law : Lawful ops) (out : Outlet) (answers : A) (t : TsToRustMessageType) (payload : Bytes)
        → IsRouted
            (on_frame (traced ops) out answers s (record { message_type = t; payload = payload }))
    unfolding on_frame route_run_frame route_terminate
    on_frame-IsRouted law out answers TsToRustMessageType.close payload = ended-IsRouted s a
    on_frame-IsRouted law out answers TsToRustMessageType.authenticate payload = ended-IsRouted s a
    on_frame-IsRouted law out answers TsToRustMessageType.run payload =
        on_run-IsRouted law out answers (parse_run_payload payload)
    on_frame-IsRouted law out answers TsToRustMessageType.precompile payload =
        on_precompile-IsRouted out (parse_precompile_payload payload)
    on_frame-IsRouted law out answers TsToRustMessageType.prefix_run payload =
        on_prefix_run-IsRouted law out answers (parse_prefix_run_payload payload)
    on_frame-IsRouted law out answers TsToRustMessageType.dispose_prefix payload =
        on_dispose_prefix-IsRouted (parse_dispose_prefix_payload payload)
    on_frame-IsRouted law out answers TsToRustMessageType.stats payload =
        on_stats-IsRouted out answers
    on_frame-IsRouted law out answers TsToRustMessageType.bridge_response payload =
        rerouted-IsRouted (a_frame TsToRustMessageType.bridge_response payload)
          (peek_run_id payload)
    on_frame-IsRouted law out answers TsToRustMessageType.stream_chunk payload =
        rerouted-IsRouted (a_frame TsToRustMessageType.stream_chunk payload) (peek_run_id payload)
    on_frame-IsRouted law out answers TsToRustMessageType.stream_end payload =
        rerouted-IsRouted (a_frame TsToRustMessageType.stream_end payload) (peek_run_id payload)
    on_frame-IsRouted law out answers TsToRustMessageType.stream_pull payload =
        rerouted-IsRouted (a_frame TsToRustMessageType.stream_pull payload) (peek_run_id payload)
    on_frame-IsRouted law out answers TsToRustMessageType.stream_cancel payload =
        rerouted-IsRouted (a_frame TsToRustMessageType.stream_cancel payload) (peek_run_id payload)
    on_frame-IsRouted law out answers TsToRustMessageType.terminate payload =
        terminated-IsRouted (parse_terminate_payload payload)

    pub on_read-IsRouted :
        (law : Lawful ops) (out : Outlet) (answers : A) (read : Result ErrorKind TypedFrame)
        → IsRouted (on_read (traced ops) out answers s read)
    unfolding on_read
    on_read-IsRouted law out answers (err e) = ended-IsRouted s a
    on_read-IsRouted law out answers (ok frame) =
        on_frame-IsRouted law out answers frame.message_type frame.payload
