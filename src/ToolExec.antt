-- ===== src/ToolExec.antt =====
-- crates/pirs-agent/src/agent_loop/tool_exec.rs, with tool.rs, events.rs and freeform.rs: how the
-- tool calls of one assistant message are prepared, run and answered. `Host` holds the types and the
-- parameters, `Caps`, `Suggest`, `Prepare`, `Execute` and `Batch` the code, the other children the
-- theorems.
pub mod Host
pub mod Caps
pub mod Suggest
pub mod Prepare
pub mod Execute
pub mod Batch
pub mod Bounded
pub mod Dispatch
pub mod Retry
pub mod Fits
pub mod Named
pub mod Answered
pub mod Skips
pub mod Awaited
pub mod Filled
mod Samples
