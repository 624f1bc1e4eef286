-- ===== src/Tests/Sessions.antt =====
-- A connection at work: a handshake, runs that start, are answered and hear the host, over an engine
-- that counts its runs and refuses some.
use iso.Base.{
  ℕ, ◌+◌, ◌≤◌, ◌≡◌, length, refl, ap, Bool, true, false, none, some, List, [], ◌∷◌, ok, err,
  invalid_data, arith, map,
}
use iso.Reply.Types.{settled}
use iso.Frame.Stream.{Event, chunk}
use iso.Frame.Read.{delivered, IsClean}
use iso.Frame.{TsToRustMessageType, TypedFrame, write_frame_with_limit, auth_max_frame_length}
use iso.Handshake.{accepted, encode_hello_payload}
use iso.Host.{encode_run_payload}
use iso.Host.Streams.{encode_stream_pull_payload}
use iso.Errors.{aborted, to_payload}
use iso.Link.{Outbound, Inbound}
use iso.Completion.{minimal_report, send_completion}
use iso.Session.ConnLink.{RunHandle, Conn, new_conn, Outlet, conn_link}
use iso.Session.Route.{deliver, route_run_frame}
use iso.Session.Start.{Start, start_run}
use iso.Session.Greeting.{Runtime, Socket, handshake_read, probe_format_version, is_readable, greet}
use iso.Session.Demux.{EngineOps, Session, demux_turn}
use iso.Session.Tracing.{Lawful, traced}
use iso.Session.Answers.{IsAnswered, send_completion-IsAnswered}
use iso.Session.Starting.{IsStarted, start_run-IsStarted}
use iso.Session.Hosted.{granted, host_frame, route_run_frame-host}
use iso.Session.Vetting.{IsVetted, greet-IsVetted, greet-welcomes}
use iso.Session.Turns.{IsRouted}
use iso.Session.Reach.{reads, Reach, here, next, new_session, reachable-IsRouted}
use iso.Tests.Payloads.{generous, a_run}
use iso.Tests.Floats.{a_handshake, their_handshake, a_handshake-encoded}

-- An outbox that takes everything.
abbrev free_outlet : Outlet
free_outlet = record { refuses = λ n. none; slot_allowance = λ n. 4 }

abbrev grace_answer : Outbound
grace_answer = Outbound.run_complete (minimal_report settled)

send_completion-IsAnswered_example :
    IsAnswered free_outlet new_conn 7 grace_answer
      (send_completion (conn_link free_outlet) new_conn 7 grace_answer)
send_completion-IsAnswered_example =
    send_completion-IsAnswered free_outlet new_conn 7 grace_answer refl tt

-- One run in flight, which may be sent 64 bytes at once.
abbrev one_run : Conn
one_run = record new_conn { runs = (7, record { handle = 3; frame_cap = 64 }) ∷ [] }

abbrev counts : Bool → ℕ → ℕ × Start
counts true e = (e, record { registered = some e; refusal = some (to_payload aborted) })
counts false e = (e + 1, record { registered = some e; refusal = none })

counts-registers :
    (refusing : Bool) (e : ℕ)
    → (counts refusing e).1.refusal ≡ none
    → (h : RunHandle) × ((counts refusing e).1.registered ≡ some h)
counts-registers true e impossible = cc
counts-registers false e h = (e, refl)

start_run-IsStarted_example :
    IsStarted free_outlet 3 one_run 8 64
      (counts true)
      (start_run free_outlet 3 one_run 8 64 (counts true))
start_run-IsStarted_example =
    start_run-IsStarted free_outlet 3 one_run 8 64 (counts true) refl (counts-registers true 3)

granted_room : length (host_frame 7 (granted 1 9)).payload + 1 ≤ 64
unfolding host_frame encode_stream_pull_payload
granted_room = omega arith

route_run_frame-host_example :
    route_run_frame one_run (host_frame 7 (granted 1 9))
    ≡ some (deliver one_run 3 (Inbound.stream_pull 1 9))
route_run_frame-host_example =
    route_run_frame-host one_run 7 (granted 1 9) (record { handle = 3; frame_cap = 64 })
      (omega arith) (omega arith, omega arith) refl granted_room

abbrev a_runtime : Runtime
a_runtime = record { probe = 255 ∷ 15 ∷ 48 ∷ []; read_version = 15 }

abbrev a_socket : Socket
a_socket = record { clears_deadline = true; takes_hello = true; starts_writer = true }

-- The frame in two parts.
abbrev handshake_reads : List (ℕ × Event)
handshake_reads = (2, chunk (0 ∷ 0 ∷ 0 ∷ [])) ∷ (4, chunk (30 ∷ 1 ∷ their_handshake)) ∷ []

handshake_written :
    write_frame_with_limit 1 their_handshake auth_max_frame_length
    ≡ ok (0 ∷ 0 ∷ 0 ∷ 30 ∷ 1 ∷ their_handshake)
unfolding write_frame_with_limit
handshake_written = refl

handshake_delivered :
    delivered (map (handshake_read 5) handshake_reads) ≡ 0 ∷ 0 ∷ 0 ∷ 30 ∷ 1 ∷ their_handshake
unfolding delivered handshake_read
handshake_delivered = refl

handshake-IsClean : IsClean (map (handshake_read 5) handshake_reads)
unfolding handshake_read
handshake-IsClean = tt

handshake_readable : is_readable 15 (probe_format_version (255 ∷ 15 ∷ 48 ∷ [])) ≡ true
unfolding is_readable probe_format_version
handshake_readable = refl

greet-welcomes_example : greet a_runtime a_socket 5 handshake_reads ≡ record {
  hellos = encode_hello_payload accepted a_runtime.probe [] ∷ [];
  session = some a_handshake;
}
greet-welcomes_example =
    greet-welcomes a_runtime a_socket 5 handshake_reads a_handshake their_handshake
      (0 ∷ 0 ∷ 0 ∷ 30 ∷ 1 ∷ their_handshake) []
      (record { clears = refl; takes = refl; starts = refl }) refl handshake_readable (omega arith)
      a_handshake-encoded handshake_written handshake-IsClean handshake_delivered

greeted_session : (greet a_runtime a_socket 5 handshake_reads).session ≡ some a_handshake
unfolding greet
greeted_session =
    ap (λ g. g.session)
      (greet-welcomes a_runtime a_socket 5 handshake_reads a_handshake their_handshake
        (0 ∷ 0 ∷ 0 ∷ 30 ∷ 1 ∷ their_handshake) []
        (record { clears = refl; takes = refl; starts = refl }) refl handshake_readable
        (omega arith) a_handshake-encoded handshake_written handshake-IsClean handshake_delivered)

greet-IsVetted_example : IsVetted a_runtime a_handshake (greet a_runtime a_socket 5 handshake_reads)
greet-IsVetted_example =
    greet-IsVetted a_runtime a_socket 5 handshake_reads a_handshake greeted_session

-- An engine that counts the runs it starts, and refuses when the answer from outside says so.
abbrev counting : EngineOps ℕ Bool
counting = record {
  run = λ refusing e req. counts refusing e;
  prefix_run = λ refusing e req. counts refusing e;
  prepare = λ e code filename globals imports. (e, []);
  dispose_prefix = λ e prefix_id. e;
  stats = λ refusing e. record {
    oneoff_running = e;
    warm_busy = 0;
    warm_runs = 0;
    warm_idle = 0;
    idle_heap_bytes = 0;
    per_prefix = [];
    warm_budget_bytes = 0;
    rss_bytes = 0;
    usage_bytes = 0;
    hard_line_bytes = 0;
    under_pressure = false;
  };
}

counting-Lawful : Lawful counting
counting-Lawful = record {
  run_registers = λ refusing e req h. counts-registers refusing e h;
  prefix_run_registers = λ refusing e req h. counts-registers refusing e h;
}

-- A run starts, is sent a message, and the connection breaks.
abbrev run_frame : TypedFrame
run_frame = record { message_type = TsToRustMessageType.run; payload = encode_run_payload a_run }

abbrev begun : Session ⦃alloc = generous⦄ (traced counting)
begun =
    demux_turn ⦃alloc = generous⦄ (traced counting) free_outlet false
      (new_session ⦃alloc = generous⦄ counting 0) (ok run_frame)

abbrev broken : Session ⦃alloc = generous⦄ (traced counting)
broken = demux_turn ⦃alloc = generous⦄ (traced counting) free_outlet false begun (err invalid_data)

broken-Reach : Reach ⦃alloc = generous⦄ counting (new_session ⦃alloc = generous⦄ counting 0) broken
broken-Reach =
    next
      (next here
        (reads (new_session ⦃alloc = generous⦄ counting 0) free_outlet false (ok run_frame)))
      (reads begun free_outlet false (err invalid_data))

reachable-IsRouted_example : IsRouted ⦃alloc = generous⦄ counting broken
reachable-IsRouted_example =
    reachable-IsRouted ⦃alloc = generous⦄ counting counting-Lawful 0 broken broken-Reach
