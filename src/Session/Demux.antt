-- ===== src/Session/Demux.antt =====
-- crates/server/src/session.rs, the loop of `handle_client`. The engine is a parameter: its state, what
-- its surroundings answer during one operation, and its operations.
use iso.Base.{
  ℕ, Bool, true, false, Option, none, some, List, [], ◌++◌, Result, ok, err, ErrorKind,
  if◌then◌else◌, map,
}
use iso.Wire.Bytes.{Bytes}
use iso.Wire.Reader.{Allocator}
use iso.Types.{RunRequest, PrefixRunRequest, HostGlobalDef, ImportBinding}
use iso.Frame.{TsToRustMessageType, TypedFrame}
use iso.Frame.Kinds.{precompile_result, stats_result}
use iso.Payload.{
  PrecompilePayload, parse_run_payload, parse_precompile_payload, parse_prefix_run_payload,
  parse_dispose_prefix_payload,
}
use iso.Reply.Types.{RegistryStats}
use iso.Reply.{encode_precompile_result_payload, encode_stats_payload}
use iso.Link.{connection_lost, LinkError}
use iso.Session.ConnLink.{RunRoute, Conn, Outlet, send_frame}
use iso.Session.Route.{frame_cap_for, route_run_frame, route_terminate}
use iso.Session.Start.{Start, start_run}

-- The engine as a frontend sees it: `E` its state, `A` what one operation is answered from outside.
pub record EngineOps (E A : Type 0) : Type 0 where
  pub run : A → E → RunRequest → E × Start
  pub prefix_run : A → E → PrefixRunRequest → E × Start
  pub prepare : E → Bytes → Option Bytes → List HostGlobalDef → List ImportBinding → E × Bytes
  pub dispose_prefix : E → Bytes → E
  pub stats : A → E → RegistryStats

-- `FailRunsOnDrop`.
unfoldable pub teardown : Conn → Conn
teardown conn = record conn {
  runs = [];
  delivered =
      map (λ (r : ℕ × RunRoute). ((r.1).handle, connection_lost none)) conn.runs ++ conn.delivered;
}

abbrev pub is_sent : Result LinkError (Unit {0}) → Bool
is_sent (ok sent) = true
is_sent (err e) = false

abbrev pub or_empty : Option Bytes → Bytes
or_empty none = []
or_empty (some bs) = bs

module _ ⦃alloc : Allocator⦄ {E A : Type 0} (ops : EngineOps E A) where
  open ops use {run, prefix_run, prepare, dispose_prefix, stats}

  -- A connection at work, until the loop ends.
  pub record Session : Type 0 where
    pub engine : E
    pub conn : Conn
    pub is_open : Bool

  -- The loop ends here, and the runs in flight fail.
  unfoldable pub ended : Session → Session
  unfolding teardown
  ended s = record s { conn = teardown s.conn; is_open = false }

  unfoldable pub started : Session → E × Conn → Session
  started s (engine, conn) = record s { engine = engine; conn = conn }

  unfoldable pub rerouted : Session → Option Conn → Session
  unfolding ended
  rerouted s none = ended s
  rerouted s (some conn) = record s { conn = conn }

  unfoldable pub on_run : Outlet → A → Session → Result ErrorKind RunRequest → Session
  unfolding ended started start_run frame_cap_for
  on_run out answers s (err e) = ended s
  on_run out answers s (ok req) = started s (
      start_run out s.engine s.conn req.run_id (frame_cap_for req.limits)
        (λ engine. run answers engine req))

  unfoldable pub on_prefix_run : Outlet → A → Session → Result ErrorKind PrefixRunRequest → Session
  unfolding ended started start_run frame_cap_for
  on_prefix_run out answers s (err e) = ended s
  on_prefix_run out answers s (ok req) = started s (
      start_run out s.engine s.conn req.run_id (frame_cap_for req.limits)
        (λ engine. prefix_run answers engine req))

  -- A reply that does not go out is only logged.
  unfoldable pub on_precompile : Outlet → Session → Result ErrorKind PrecompilePayload → Session
  unfolding ended
  on_precompile out s (err e) = ended s
  on_precompile out s (ok p) =
      let (engine, prefix_id) = prepare s.engine p.code p.filename p.globals p.imports in
      let reply = or_empty (encode_precompile_result_payload p.request_id (some prefix_id) none) in
      record s { engine = engine; conn = (send_frame out s.conn precompile_result reply []).0 }

  unfoldable pub on_dispose_prefix : Session → Result ErrorKind Bytes → Session
  unfolding ended
  on_dispose_prefix s (err e) = ended s
  on_dispose_prefix s (ok prefix_id) = record s { engine = dispose_prefix s.engine prefix_id }

  unfoldable pub on_stats : Outlet → A → Session → Session
  unfolding ended
  on_stats out answers s =
      let (conn, sent) =
        send_frame out s.conn stats_result (encode_stats_payload (stats answers s.engine)) [] in
      if is_sent sent then record s { conn = conn } else ended (record s { conn = conn })

  unfoldable pub on_frame : Outlet → A → Session → TypedFrame → Session
  unfolding ended rerouted on_run on_prefix_run on_precompile on_dispose_prefix on_stats
  on_frame out answers s frame = elim frame.message_type [
    | TsToRustMessageType.close ↦ ended s
    | TsToRustMessageType.authenticate ↦ ended s
    | TsToRustMessageType.run ↦ on_run out answers s (parse_run_payload frame.payload)
    | TsToRustMessageType.precompile ↦ on_precompile out s (parse_precompile_payload frame.payload)
    | TsToRustMessageType.prefix_run ↦
        on_prefix_run out answers s (parse_prefix_run_payload frame.payload)
    | TsToRustMessageType.dispose_prefix ↦
        on_dispose_prefix s (parse_dispose_prefix_payload frame.payload)
    | TsToRustMessageType.stats ↦ on_stats out answers s
    | TsToRustMessageType.bridge_response ↦ rerouted s (route_run_frame s.conn frame)
    | TsToRustMessageType.stream_chunk ↦ rerouted s (route_run_frame s.conn frame)
    | TsToRustMessageType.stream_end ↦ rerouted s (route_run_frame s.conn frame)
    | TsToRustMessageType.stream_pull ↦ rerouted s (route_run_frame s.conn frame)
    | TsToRustMessageType.stream_cancel ↦ rerouted s (route_run_frame s.conn frame)
    | TsToRustMessageType.terminate ↦ rerouted s (route_terminate s.conn frame)
  ]

  unfoldable pub on_read : Outlet → A → Session → Result ErrorKind TypedFrame → Session
  unfolding ended on_frame
  on_read out answers s (err e) = ended s
  on_read out answers s (ok frame) = on_frame out answers s frame

  -- One turn of the loop.
  unfoldable pub demux_turn : Outlet → A → Session → Result ErrorKind TypedFrame → Session
  unfolding on_read
  demux_turn out answers s read = if s.is_open then on_read out answers s read else s
