-- ===== src/Lib.antt =====
-- iso4 runs untrusted JavaScript in V8 isolates for a TypeScript host. The host writes requests as
-- frames on a socket (packages/iso4-sandbox/src/ipc.ts), the server parses them
-- (crates/server/src/ipc.rs), and the core (crates/core/src) decides which warm instance serves a run
-- and which instances go under memory pressure.
--
-- The files and what they model:
--   Base      what the others share: tests on numbers, lists, `Result`, and `max_by`/`min_by`
--   Limits    crates/types/src/lib.rs, resource limits and the two heap lines
--   Types     crates/types/src/lib.rs, the shapes of prefixes and requests
--   Wire      crates/server/src/ipc.rs, `PayloadReader`: a reader takes the unread bytes
--   Payload   crates/server/src/ipc.rs, the `parse_*_payload` functions and the stream encoders
--   Host      packages/iso4-sandbox/src/ipc.ts, the encoders of the payloads that the server parses
--   Frame     crates/server/src/ipc.rs, the frame envelope; a stream is the list of what each call of
--             `read` gives, so every chunking and every interruption is an input
--   Outbox    crates/server/src/ipc.rs, the outbox of a connection: Outbox has what each holder of the
--             lock or of the socket does at a time, Outbox.System the steps that interleave
--   Reply     crates/server/src/wire.rs, what the server sends and the parser of bridge responses,
--             the host's decoder of bridge calls, and the clamp of crates/core/src/errors.rs
--   Errors    crates/core/src/errors.rs, the ways a run fails and their payloads
--   Link      crates/core/src/link.rs, what a run tells the host and hears from it
--   Completion  crates/core/src/v8/instance.rs, how a run is concluded: `completion_message`,
--             `send_completion` and `finish_run`, over any link
--   Session   crates/server/src/session.rs, a connection: Session.Greeting has the handshake,
--             Session.Demux the loop, Session.Route the frames of its runs, Session.Start their start,
--             Session.ConnLink the routes and the link, and Session.Reach the steps that interleave.
--             The engine is a parameter (EngineOps), which registers what it does not refuse (Lawful)
--   Engine    crates/core/src/engine.rs, the stored prefixes and the starts of runs; Engine.Ending has
--             their ends by token (`conclude`, the release hooks) and the prefixes that break, and
--             Engine.Reach the steps. Engine.Serving fills Session's interface with it
--   Prefix    crates/core/src/prefix.rs, the checks of a prefix run's rebinds
--   Policy    crates/core/src/policy.rs, eviction, admission and routing, functions of their facts
--   Warm      crates/core/src/warm.rs, the registry of warm instances: its operations take the
--             registry and return it, the clocks, readings and spawns of one operation are arguments
--             (Warm.Acquire.World, Warm.Release.Finish), and Warm.Reach has the steps
--   Timers    crates/core/src/v8/timers.rs, a run's timer table; callbacks are opaque
--   Streams   crates/core/src/v8/streams.rs, an outbound body stream: what the guest's stream gives,
--             the host's grants and cancellations, and the link's refusals are inputs
--   Inbound   crates/core/src/v8/streams.rs, an inbound body stream with the reads of the guest
--   Handshake crates/server/src/ipc.rs, `Authenticate` and `Hello`
--   Float     the operations of `f64` as an interface, with whole numbers as an example
--   Tests     the theorems at concrete inputs
--
-- A byte is a number below 256, a `String` the list of its UTF-8 bytes, a `u32` a number whose bound
-- the theorems state. Sums that saturate or are checked are written out. An io error is its kind and
-- a rebind error its variant; their texts are left out. What the outbox refuses and the process's slot
-- allowance are inputs of a session (Session.ConnLink.Outlet). The allocator's answer to
-- `try_reserve_exact` is a parameter (Wire.Reader.Allocator), and the theorems that need it state
-- that it serves a reservation. V8 values are opaque blobs, an `f64` on the wire is the number of its
-- bits, and JavaScript's conversion from UTF-8 is a parameter that keeps valid text. What the argument bytes of a
-- bridge call decode to is a parameter, a graph of objects (Reply.Args).
--
-- The integer square root runs for 19 pairs of bits, exact below 2 ^ 38, and its argument is 32 times
-- a u32, below 2 ^ 37. The reader of shape trees recurses on the levels that the depth cap leaves, and
-- refuses at none left, as the source does past the cap. `read_until_eof` recurses on the stream, and
-- the loop of a pressure pass on what the verdict lets it drop. The flush of a body stream has one turn
-- for each byte of the backlog, which is enough (Streams.Credit), and two turns are enough for the loop
-- that drives it (Streams.Loop). A map of prefixes is an association list without a key twice, in one
-- of the orders that the library may iterate in.
--
-- The digits of a length run for 20 places, and a length is below 2 ^ 64, which has 20 digits.
--
-- Not modelled: the threads, the sockets and V8 itself, with the isolates, modules, guards, bridge calls
-- and value codecs that drive it; the owner threads of the warm instances and the run loop on them; the
-- capture of console lines; the tables of body streams with their idle deadline. The readings of
-- memory, of the container's limits and of the clocks are inputs. Threads that wait in the outbox take
-- their next step at any time, which covers every wakeup and every delay of one. The rest of a prefix
-- run's time on an instance is its outcome, which ends the run at any time.
pub mod Base
pub mod Limits
pub mod Wire
pub mod Types
pub mod Payload
pub mod Host
pub mod Frame
pub mod Errors
pub mod Link
pub mod Completion
pub mod Session
pub mod Engine
pub mod Float
pub mod Policy
pub mod Handshake
pub mod Prefix
pub mod Reply
pub mod Warm
pub mod Outbox
pub mod Inbound
pub mod Timers
pub mod Streams
pub mod Tests
