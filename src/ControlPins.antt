-- ===== src/ControlPins.antt =====
-- crates/pirs-agent/src/control_pins.rs: reminder messages that a context rewrite must not lose,
-- and the order of tool results after a tool call. Definitions in `Pins`, theorems in the other
-- children.
pub mod Pins
pub mod Preserve
pub mod Adjacency
mod Samples
