-- ===== src/Thrash.antt =====
-- crates/pirs-agent/src/thrash.rs: the detectors that stop a thrashing agent. Definitions in
-- `Detectors`, theorems in the other children.
pub mod Detectors
pub mod Trips
pub mod Oscillation
pub mod Guard
mod Samples
