-- ===== src/Policy.antt =====
-- The rules that decide whether a tool call may run: crates/pirs-tools/src/safety_profile.rs,
-- permission_mode.rs, tool_preset.rs and autonomy.rs, one child module for each file. The other
-- children hold the theorems.
pub mod Profile
pub mod Permission
pub mod Preset
pub mod Autonomy
pub mod Ladder
pub mod Names
pub mod Levels
mod Samples
