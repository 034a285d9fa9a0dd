-- ===== src/AgentLoop.antt =====
-- crates/pirs-agent/src/agent_loop: the loop of an agent, from the stream of an assistant message to
-- its tool results, the checks after a turn, and the next turn. `State` holds the configuration and
-- the state, `Freeform`, `Stream`, `Steer`, `Results`, `Close` and `Turn` the code, the other children
-- the theorems.
pub mod State
pub mod Freeform
pub mod Stream
pub mod Steer
pub mod Results
pub mod Close
pub mod Turn
pub mod Pairs
pub mod Streamed
pub mod Paired
pub mod Intact
pub mod Checks
pub mod Kept
pub mod Counts
pub mod Spending
pub mod Rounds
pub mod Ends
pub mod Whole
mod Samples
