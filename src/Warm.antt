-- ===== src/Warm.antt =====
-- crates/core/src/warm.rs: the registry of warm instances.
pub mod Map
pub mod Demand
pub mod State
pub mod Pressure
pub mod Acquire
pub mod Release
pub mod Counts
pub mod Leaving
pub mod Invariant
pub mod Evicting
pub mod Shedding
pub mod Positions
pub mod Attaching
pub mod Acquiring
pub mod Releasing
pub mod Stats
pub mod Tally
pub mod Disposal
pub mod Reach
