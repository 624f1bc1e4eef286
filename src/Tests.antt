-- ===== src/Tests.antt =====
-- The theorems at concrete inputs.
mod Payloads
mod Frames
mod Policies
mod Rebinds
mod Replies
mod Floats
mod Shapes
mod Registry
mod Outboxes
mod Alarms
mod Bodies
mod Inbounds
mod Sessions
mod Engines
