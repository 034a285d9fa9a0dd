-- ===== src/Lib.antt =====
-- The core logic of pirs, a coding agent written in Rust: the loop that streams an answer, runs the
-- tools that it calls and feeds the results back, what the agent may do, how a long conversation is
-- kept within the model's window, how messages reach a running agent, when the agent is stopped,
-- and how its background work is tracked.
--
-- The parts. The agent loop (crates/pirs-agent) asks a hook for every tool call whether it is
-- denied, which is where the policy stands, reports the start and the end of the call to the thrash
-- guard, polls the steering queue between turns, and compacts the conversation when it outgrows the
-- context window; context rewrites pass through the control pins. The model of the loop calls the
-- models of the guard, the compaction, the pins and the advisor; the policy and the steering queue
-- stand behind hooks, which are parameters. Tools (crates/pirs-tools, crates/pirs-graph) run the
-- calls; the job registry tracks those that run in the background; a gate reruns a whole attempt
-- until a check passes; a strong model advises a weak one that thrashes.
--
-- The files.
--   Message: the conversation, from crates/pirs-ai/src/lib.rs.
--   Json: `serde_json::Value`, a third-party type, as a record of what the code calls of it;
--     SampleJson is an instance that shows that its laws can hold.
--   Policy: crates/pirs-tools/src/safety_profile.rs (Profile), permission_mode.rs (Permission),
--     tool_preset.rs (Preset) and autonomy.rs (Autonomy). The theorems are in Ladder, Names and
--     Levels.
--   ToolExec: crates/pirs-agent/src/agent_loop/tool_exec.rs with tool.rs, events.rs and
--     `extract_tool_calls`. Host holds the types, Caps the caps (`apply_model_result_cap`,
--     `error_result_kind`, the end of `finalize_result`), Suggest `did_you_mean`, Prepare
--     `prepare_call` and `tool_defs`, Execute `run_tool` and `finalize_result`, Batch
--     `execute_tool_calls`. A batch reads and changes the world, the thrash guard and the events.
--   AgentLoop: crates/pirs-agent/src/agent_loop/mod.rs (State, Steer, Results, Close, Turn),
--     stream.rs (Stream) and freeform.rs (Freeform). `LoopState` has the variables of
--     `run_agent_loop` and what it changes; `turn` is one round of the inner loop, and `run_loop`
--     the two loops, which it joins: a round is taken while the inner test holds or follow-up
--     messages come.
--   Compaction: crates/pirs-agent/src/compaction.rs. Cut holds the cut point
--     (`find_cut_point_ex`, `snap_cut_to_tool_pair_boundary`, `emergency_token_cut`) and the
--     check of tool pairs, Compact the transcript, the summary and `compact_messages`, whose
--     state has the messages, the usage outside them, the memory and the events emitted. Shrink
--     holds `shrink_oversized_tool_results`.
--   ControlPins: crates/pirs-agent/src/control_pins.rs.
--   Steering: crates/pirs-agent/src/steering.rs, with one store shared by all handles.
--   Thrash: crates/pirs-agent/src/thrash.rs.
--   Hybrid: crates/pirs-agent/src/hybrid.rs, `HybridConfig` and what it calls.
--   Jobs: crates/pirs-agent/src/jobs.rs; `wait` is in Wait, as the steps of one waiter between
--     which other threads call the registry.
--   Gate: `run_gated` of crates/pirs-agent/src/gate.rs.
--   Budget: crates/pirs-graph/src/budget.rs.
--   ShellSafety: crates/pirs-tools/src/shell_safety.rs.
--   Truncate: crates/pirs-tools/src/truncate.rs.
--   Usage: crates/pirs-agent/src/usage.rs.
--   Prelude: shared helpers. Tests has Boolean tests, Lists lists over the native numbers, Text
--     `str` as a list of code points, Table hash maps under numbers, Result fallible values.
--
-- How code is modelled. Strings are lists of Unicode scalar values; byte lengths are those of
-- UTF-8. The token counts of usages, the advisor's counters, the ids of jobs and the streak of
-- failures wrap at 2 ^ 64, as in a release build. Indices into a conversation, the token estimates
-- made from its length, and the agent loop's counters of turns and of tool calls, which grow by
-- what one run does, are plain numbers. Hash maps are association lists. An operation of a shared
-- object is one step, also where it takes several locks in turn. Loops over a list are recursions
-- on it; the loops on fuel are the bisection (the number of lines, an upper bound of `hi - lo`,
-- which every round lowers) and the adjacency repair (the number of messages, of which every round
-- consumes one), the tools that run at the same time (their number) and the rounds of the agent
-- loop, for which a bound on the turns, one more, and the advisor's remaining calls are enough. The
-- gate recurses on the attempts left, and the decimal digits on a number above their count.
--
-- Parameters. The world outside the agent loop, a type of which nothing is assumed: the tools, the
-- hooks and the provider are functions that change it, and the clock, the cancellation token, the
-- loaded names and the test for pending steering read it. What other threads do to the world stands
-- as a step before each poll for steering at the launch of a tool; between other polls only the
-- calls of the loop change it. The JSON library, and what serde reads of a value as a usage; the
-- events that a provider streams for a model and a prompt; the coercion and the check of a tool's
-- arguments (crates/pirs-agent/src/validate.rs, which stands on a third-party library); the hash
-- function of the standard library; the attempt and the check of a gated run; the clock, which
-- stands as an argument.
--
-- Not modelled: how tools that run at the same time interleave. They are executed one after the
-- other, in the order in which they end, which a parameter chooses, so the lock on each path does
-- nothing. The tool `ask_advisor` spends the advisor's budget outside the loop's model. The handle
-- of an agent (agent.rs), strategies, the edit tools, routing and prices, and all code whose work
-- is I/O: providers, processes, files, language servers, MCP, chat channels, the user interface and
-- the benchmarks.
pub mod AgentLoop
pub mod Budget
pub mod Compaction
pub mod ControlPins
pub mod Gate
pub mod Hybrid
pub mod Jobs
pub mod Json
pub mod Message
pub mod Policy
pub mod Prelude
pub mod SampleJson
pub mod ShellSafety
pub mod Steering
pub mod Thrash
pub mod ToolExec
pub mod Truncate
pub mod Usage
