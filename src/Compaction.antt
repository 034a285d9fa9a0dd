-- ===== src/Compaction.antt =====
-- crates/pirs-agent/src/compaction.rs: where a long conversation is cut, and how the dropped part
-- is replaced by a summary. Definitions in `Cut` and `Compact`, theorems in the other children.
pub mod Cut
pub mod Boundary
pub mod Range
pub mod Compact
pub mod Account
pub mod Shrink
pub mod Shrunk
mod Samples
