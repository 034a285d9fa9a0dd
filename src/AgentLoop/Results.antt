-- ===== src/AgentLoop/Results.antt =====
-- crates/pirs-agent/src/agent_loop/mod.rs, lines 148 to 298: how a turn that failed ends, and how the
-- calls of a turn are answered.
use pirs.Prelude.{
  ℕ, ◌+◌, Bool, true, false, ◌||◌, Option, none, some, List, [], ◌∷◌, ◌++◌, map, leb, if◌then◌else◌,
}
use pirs.Prelude.Lists.{any}
use pirs.Prelude.Text.{Text, lit, text_eq}
use pirs.Json.{JsonLib}
use pirs.Message.{
  StopReason, AssistantMessage, ToolResultMessage, Message, tool_result, user_message,
}
use pirs.Compaction.Shrink.{model_text}
use pirs.ToolExec.Host.{
  ExecutionMode, parallel, sequential, ToolCallData, agent_end, turn_end, steering, Run,
}
use pirs.ToolExec.Caps.{error_result_kind}
use pirs.ToolExec.Prepare.{first_named, extract_tool_calls}
use pirs.ToolExec.Batch.{execute_tool_calls}
use pirs.AgentLoop.State.{BudgetHit, turns, LoopConfig, LoopState, emit_all, at_world, say}
use pirs.AgentLoop.Steer.{Steered, apply_soft_steer}

-- How a round ends: with the return of the function, or with the next test of the inner loop.
pub data Next : Type 0 where
  over : Option BudgetHit → Next
  again : Next

abbrev pub is_failure : StopReason → Bool
is_failure StopReason.stop = false
is_failure StopReason.length = false
is_failure StopReason.tool_use = false
is_failure StopReason.error = true
is_failure StopReason.aborted = true

abbrev pub is_length : StopReason → Bool
is_length StopReason.stop = false
is_length StopReason.length = true
is_length StopReason.tool_use = false
is_length StopReason.error = false
is_length StopReason.aborted = false

abbrev pub is_sequential_mode : ExecutionMode → Bool
is_sequential_mode parallel = false
is_sequential_mode sequential = true

abbrev pub nonempty {ℓ} : {A : Type ℓ} → List A → Bool
nonempty [] = false
nonempty (x ∷ xs) = true

-- A bound is reached; without a bound it never is.
abbrev pub reached : Option ℕ → ℕ → Bool
reached none n = false
reached (some m) n = leb m n

module _ (J : JsonLib) (W : Type 0) (cfg : LoopConfig J.Value W) where
  open J use {Value}

  abbrev pub St : Type 0
  St = LoopState Value W

  abbrev pub now : St → ℕ
  now s = cfg.host.now s.run.world

  -- `AgentEnd` and the return.
  unfoldable pub finish_run : Option BudgetHit → St → St × Next
  finish_run hit s = (emit_all (agent_end s.new_messages ∷ []) s, over hit)

  unfoldable pub unexecuted :
      Text → Text → ℕ → List (ToolCallData Value) → List (ToolResultMessage Value)
  unexecuted message kind t [] = []
  unexecuted message kind t (call ∷ calls) =
      error_result_kind J t call.id call.name message kind ∷ unexecuted message kind t calls

  unfoldable pub aborted_results : AssistantMessage Value → St → List (ToolResultMessage Value)
  aborted_results a s =
      unexecuted (lit "Tool call was not executed: the turn ended with an error or was aborted.")
        (lit "aborted") (now s) (extract_tool_calls a)

  -- The turn of an assistant message that failed.
  unfoldable pub abort_turn : AssistantMessage Value → St → St × Next
  abort_turn a s =
      let results = aborted_results a s in
      finish_run none (
        emit_all (turn_end a results ∷ []) (record s {
          messages = s.messages ++ map tool_result results;
          new_messages = s.new_messages ++ map tool_result results;
        }))

  -- The request to repeat a call in the native protocol.
  unfoldable pub nudge_turn : Text → St → St × Next
  nudge_turn nudge s =
      let said = say (user_message (now s) nudge) (record s { nudge_sent = true }) in
      let s' = record said { turn_count = said.turn_count + 1 } in
      if reached cfg.budgets.max_turns s'.turn_count
      then finish_run (some turns) s'
      else (s', again)

  unfoldable pub forced_sequential : List (ToolCallData Value) → Bool
  forced_sequential calls =
      is_sequential_mode cfg.tool_execution
      || any
          (λ c. elim (first_named c.name cfg.tools) [
            | none ↦ false
            | some t ↦ is_sequential_mode t.execution_mode
          ])
          calls

  unfoldable pub with_run :
      St → Run Value W × List (ToolResultMessage Value) → St × List (ToolResultMessage Value)
  with_run s (run, results) = (record s { run = run }, results)

  -- The results of the calls: truncated calls are not run.
  unfoldable pub answer_each :
      AssistantMessage Value → List (ToolCallData Value) → St → St × List (ToolResultMessage Value)
  answer_each a [] s = (s, [])
  answer_each a (c ∷ cs) s =
      if is_length a.stop_reason
      then (
        s,
        unexecuted
            (lit "Tool call arguments were truncated due to token limit. Re-issue the tool call.")
            (lit "truncated") (now s) (c ∷ cs),
      )
      else with_run s (
          execute_tool_calls J W cfg.host cfg.hooks (forced_sequential (c ∷ cs)) cfg.tools (c ∷ cs)
            s.run)

  unfoldable pub answer_calls : AssistantMessage Value → St → St × List (ToolResultMessage Value)
  answer_calls a s = answer_each a (extract_tool_calls a) s

  -- `mem.add`, but not of the results of `recall`.
  unfoldable pub spill : (ToolResultMessage Value) → St → St
  spill r s = elim s.memory [
    | none ↦ s
    | some stored ↦
        if text_eq r.tool_name (lit "recall")
        then s
        else record s { spilled = s.spilled ++ (r.tool_name, model_text r) ∷ [] }
  ]

  unfoldable pub attach : List (ToolResultMessage Value) → St → St
  attach [] s = s
  attach (r ∷ rs) s = attach rs (say (tool_result r) (spill r s))

  unfoldable pub with_steer :
      St → List (Message Value) → Bool × Steered Value → St × List (ToolResultMessage Value)
  with_steer s steers (applied, t) = (
    record s {
      messages = t.context_messages;
      new_messages = t.new_messages;
      pending = if applied then s.pending else s.pending ++ steers;
    },
    t.batch_results,
  )

  unfoldable pub steer_by :
      List (ToolResultMessage Value)
      → St
      → W × List (Message Value)
      → St × List (ToolResultMessage Value)
  steer_by results s (w, []) = (at_world w s, results)
  steer_by results s (w, m ∷ ms) = with_steer (at_world w s) (m ∷ ms) (
      apply_soft_steer
        (record {
          context_messages = s.messages;
          new_messages = s.new_messages;
          batch_results = results;
        })
        (m ∷ ms))

  -- The results enter the conversation, and steering is written to the last of them.
  unfoldable pub attach_results :
      Bool → St × List (ToolResultMessage Value) → St × List (ToolResultMessage Value)
  attach_results false (s, results) = (s, results)
  attach_results true (s, results) =
      let s' = attach results s in steer_by results s' (steering cfg.hooks s'.run.world)
