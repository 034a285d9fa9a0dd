-- ===== src/ToolExec/Execute.antt =====
-- crates/pirs-agent/src/agent_loop/tool_exec.rs, lines 274 to 350 and 647 to 734: the run of a call
-- with its one retry, what becomes of its outcome, and the thrash guard before and after it.
use pirs.Prelude.{
  Bool, false, not, ◌&&◌, ◌||◌, Option, none, some, List, [], ◌∷◌, ◌++◌, map, if◌then◌else◌,
}
use pirs.Prelude.Lists.{any}
use pirs.Prelude.Text.{Text, lit, one_of, starts_with, contains, to_ascii_lowercase}
use pirs.Prelude.Result.{Result, ok, err}
use pirs.Json.{JsonLib}
use pirs.Message.{ToolResultMessage}
use pirs.Thrash.Detectors.{Stop, observe_tool_start, observe_tool_end}
use pirs.ToolExec.Host.{
  AgentTool, ToolCallData, ToolOutput, ToolResultPatch, AgentEvent, tool_execution_start,
  tool_execution_update, tool_execution_end, Hooks, Host, Run,
}
use pirs.ToolExec.Caps.{error_result_kind, result_of, patched, recapped}
use pirs.ToolExec.Prepare.{ReadyCall}

abbrev pub idempotent_tools : List Text
idempotent_tools =
    lit "read"
    ∷ lit "grep"
    ∷ lit "find"
    ∷ lit "ls"
    ∷ lit "web_fetch"
    ∷ lit "web_search"
    ∷ lit "doctor"
    ∷ lit "recall"
    ∷ lit "code_map"
    ∷ lit "code_search"
    ∷ lit "session_search"
    ∷ lit "mcp_search"
    ∷ lit "mcp_describe"
    ∷ lit "mcp_status"
    ∷ lit "vision_describe"
    ∷ lit "project"
    ∷ []

unfoldable pub is_idempotent_tool : Text → Bool
is_idempotent_tool name = one_of name idempotent_tools || starts_with name (lit "lsp")

abbrev pub transient_words : List Text
transient_words =
    lit "timeout"
    ∷ lit "timed out"
    ∷ lit "connection reset"
    ∷ lit "connection refused"
    ∷ lit "broken pipe"
    ∷ lit "temporarily unavailable"
    ∷ lit "econnreset"
    ∷ lit "dns error"
    ∷ lit "network unreachable"
    ∷ lit "error sending request"
    ∷ lit "error decoding response"
    ∷ []

unfoldable pub is_transient_tool_error : Text → Bool
is_transient_tool_error e = any (contains (to_ascii_lowercase e)) transient_words

module _ (J : JsonLib) (W : Type 0) (h : Host J.Value W) (hooks : Hooks J.Value W) where
  open J use {Value}

  unfoldable pub emit : List (AgentEvent Value) → Run Value W → Run Value W
  emit es s = record s { events = s.events ++ es }

  abbrev pub started : ToolCallData Value → AgentEvent Value
  started call = tool_execution_start call.id call.name call.arguments

  abbrev pub ended : ToolResultMessage Value → AgentEvent Value
  ended r = tool_execution_end r.tool_call_id r.tool_name r

  unfoldable pub execute_once :
      AgentTool Value W
      → Text
      → Text
      → Value
      → Run Value W
      → Run Value W × Result (ToolOutput Value)
  execute_once tool id name args s =
      let e = tool.execute id args s.world in
      (
        record s {
          world = e.world;
          events = s.events ++ map (tool_execution_update id name) e.updates;
        },
        e.outcome,
      )

  unfoldable pub retry :
      AgentTool Value W
      → Text
      → Text
      → Value
      → Run Value W × Result (ToolOutput Value)
      → Run Value W × Result (ToolOutput Value)
  retry tool id name args (s, ok out) = (s, ok out)
  retry tool id name args (s, err e) =
      if is_idempotent_tool name && is_transient_tool_error e && not (h.is_cancelled s.world)
      then execute_once tool id name args s
      else (s, err e)

  unfoldable pub run_tool :
      AgentTool Value W
      → Text
      → Text
      → Value
      → Run Value W
      → Run Value W × Result (ToolOutput Value)
  run_tool tool id name args s = retry tool id name args (execute_once tool id name args s)

  abbrev after_hook : Text → Text → ToolResultMessage Value → W → W × Option (ToolResultPatch Value)
  after_hook id name r w = elim hooks.after_tool_call [ none ↦ (w, none) | some f ↦ f id name r w ]

  unfoldable pub patch_with :
      ToolResultMessage Value → W × Option (ToolResultPatch Value) → W × ToolResultMessage Value
  patch_with r (w, p) = (w, recapped J (patched J p r))

  unfoldable pub finalize_result :
      Text → Text → Result (ToolOutput Value) → W → W × ToolResultMessage Value
  finalize_result id name outcome w =
      let r = result_of J (h.now w) id name outcome in patch_with r (after_hook id name r w)

  -- `skip_remaining_if`.
  unfoldable pub skip_pending : W → Bool
  skip_pending w = elim h.skip_remaining_if [ none ↦ false | some pred ↦ pred w ]

  unfoldable pub guard_start : ToolCallData Value → Run Value W → Run Value W × Option Stop
  guard_start call s = elim s.thrash [
    | none ↦ (s, none)
    | some g ↦
        let r = observe_tool_start J h.content_hash call.name call.arguments g in
        (record s { thrash = some r.0 }, r.1)
  ]

  unfoldable pub guard_end : Bool → Run Value W → Run Value W
  guard_end is_error s = elim s.thrash [
    | none ↦ s
    | some g ↦ record s { thrash = some (observe_tool_end is_error g).0 }
  ]

  unfoldable pub finish :
      Text → Text → Run Value W × Result (ToolOutput Value) → Run Value W × ToolResultMessage Value
  finish id name (s, outcome) =
      let p = finalize_result id name outcome s.world in (record s { world = p.0 }, p.1)

  unfoldable pub run_job : ReadyCall J W → Run Value W → Run Value W × ToolResultMessage Value
  run_job job s = finish job.id job.name (run_tool job.tool job.id job.name job.args s)

  -- A result written for a call that is not run.
  unfoldable pub not_run : Text → Text → ToolCallData Value → W → ToolResultMessage Value
  not_run message kind call w = error_result_kind J (h.now w) call.id call.name message kind
