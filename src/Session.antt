-- ===== src/Session.antt =====
-- crates/server/src/session.rs: one connection, from the handshake to the loop that reads its frames.
pub mod ConnLink
pub mod Route
pub mod Start
pub mod Greeting
pub mod Demux
pub mod Answers
pub mod Starting
pub mod Hosted
pub mod Vetting
pub mod Tracing
pub mod Routing
pub mod Turns
pub mod Reach
