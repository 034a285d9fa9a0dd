-- ===== src/AgentLoop/Intact.antt =====
-- The tool calls and results of a conversation are paired again after every batch.
use pirs.Prelude.{
  ℕ, ◌≡◌, refl, sym, ap, ◌∙◌, inl, inr, true, List, [], ◌∷◌, ◌++◌, map, arith, Bool-cases,
  append_assoc, append-nil,
}
use pirs.Prelude.Lists.{all}
use pirs.Prelude.Text.{Text}
use pirs.Json.{JsonLib}
use pirs.Message.{AssistantMessage, ToolResultMessage, Message, assistant, tool_result, is_user}
use pirs.Compaction.Cut.{tool_pairs_intact}
use pirs.ToolExec.Host.{ToolCallData, Run, steering, follow_up}
use pirs.ToolExec.Caps.{error_result_kind}
use pirs.ToolExec.Prepare.{extract_tool_calls}
use pirs.ToolExec.Fits.{result_key, call_key}
use pirs.ToolExec.Answered.{execute_tool_calls-keys}
use pirs.AgentLoop.State.{LoopConfig, LoopState, emit_all, say}
use pirs.AgentLoop.Results.{
  is_length, nonempty, finish_run, unexecuted, aborted_results, abort_turn, answer_each, with_run,
  answer_calls, spill, attach, attach_results,
}
use pirs.AgentLoop.Pairs.{distinct_ids, ids_of, intact-append, answered-intact}
use pirs.AgentLoop.Paired.{IsPaired, steer_by-IsPaired}

module _ (J : JsonLib) (W : Type 0) (cfg : LoopConfig J.Value W) where
  open J use {Value}

  unexecuted-keys :
      (message kind : Text) (t : ℕ) (calls : List (ToolCallData Value))
      → map result_key (unexecuted J W cfg message kind t calls) ≡ map call_key calls
  unfolding unexecuted error_result_kind
  unexecuted-keys message kind t [] = refl
  unexecuted-keys message kind t (call ∷ calls) =
      ap (◌∷◌ (call_key call)) (unexecuted-keys message kind t calls)

  -- Before the results are attached: the conversation before the assistant message is paired.
  abbrev pub IsAsked : AssistantMessage Value → LoopState Value W → Type 0
  IsAsked a s =
      (ms : List (Message Value)) × (s.messages ≡ ms ++ assistant a ∷ [])
      × (tool_pairs_intact ms ≡ true)
      × (all is_user s.pending ≡ true)
      × (distinct_ids (ids_of (extract_tool_calls a)) ≡ true)

  -- The results answer the calls.
  abbrev IsAnswered :
      AssistantMessage Value → LoopState Value W × List (ToolResultMessage Value) → Type 0
  IsAnswered a p = IsAsked a p.0 × (map result_key p.1 ≡ map call_key (extract_tool_calls a))

  answered-IsPaired :
      (a : AssistantMessage Value) (ms : List (Message Value)) (rs : List (ToolResultMessage Value))
      → tool_pairs_intact ms ≡ true
      → distinct_ids (ids_of (extract_tool_calls a)) ≡ true
      → map result_key rs ≡ map call_key (extract_tool_calls a)
      → tool_pairs_intact ((ms ++ assistant a ∷ []) ++ map tool_result rs) ≡ true
  answered-IsPaired a ms rs h d k =
      ap tool_pairs_intact (append_assoc ms (assistant a ∷ []) (map tool_result rs))
      ∙ intact-append ms (assistant a ∷ map tool_result rs) h (answered-intact a rs k d)

  pub abort_turn-IsPaired :
      (a : AssistantMessage Value) (s : LoopState Value W)
      → IsAsked a s
      → IsPaired (abort_turn J W cfg a s).0
  unfolding abort_turn finish_run emit_all
  abort_turn-IsPaired a s (ms, e, h, p, d) = (
    ap (λ xs. tool_pairs_intact (xs ++ map tool_result (aborted_results J W cfg a s))) e
        ∙ answered-IsPaired a ms (aborted_results J W cfg a s) h d
            (unfold aborted_results in unexecuted-keys _ _ _ (extract_tool_calls a)),
    p,
  )

  -- The calls do not touch the conversation, and every call gets its result.
  abbrev IsAnswering :
      List (ToolCallData Value)
      → LoopState Value W
      → LoopState Value W × List (ToolResultMessage Value)
      → Type 0
  IsAnswering calls s p =
      (p.0.messages ≡ s.messages)
      × (p.0.pending ≡ s.pending)
      × (map result_key p.1 ≡ map call_key calls)

  with_run-IsAnswering :
      (calls : List (ToolCallData Value)) (s : LoopState Value W)
      (p : Run Value W × List (ToolResultMessage Value))
      → map result_key p.1 ≡ map call_key calls
      → IsAnswering calls s (with_run J W cfg s p)
  unfolding with_run
  with_run-IsAnswering calls s (run, rs) k = (refl, refl, k)

  answer_each-IsAnswering :
      (a : AssistantMessage Value) (calls : List (ToolCallData Value)) (s : LoopState Value W)
      → IsAnswering calls s (answer_each J W cfg a calls s)
  unfolding answer_each
  answer_each-IsAnswering a [] s = (refl, refl, refl)
  answer_each-IsAnswering a (c ∷ cs) s = elim (Bool-cases (is_length a.stop_reason)) [
    | inl e ↦ rw (answer_each, e) (refl, refl, unexecuted-keys _ _ _ (c ∷ cs))
    | inr e ↦
        rw (answer_each, e)
          (with_run-IsAnswering (c ∷ cs) s _
            (execute_tool_calls-keys J W cfg.host cfg.hooks _ cfg.tools (c ∷ cs) s.run))
  ]

  answer_calls-IsAnswered :
      (a : AssistantMessage Value) (s : LoopState Value W)
      → IsAsked a s
      → IsAnswered a (answer_calls J W cfg a s)
  unfolding answer_calls
  answer_calls-IsAnswered a s (ms, e, h, p, d) =
      let (f, q, k) = answer_each-IsAnswering a (extract_tool_calls a) s in
      ((ms, f ∙ e, h, ap (all is_user) q ∙ p, d), k)

  spill-messages :
      (r : ToolResultMessage Value) (s : LoopState Value W)
      → ((spill J W cfg r s).messages ≡ s.messages) × ((spill J W cfg r s).pending ≡ s.pending)
  unfolding spill
  spill-messages r s = ground arith

  attach-messages :
      (rs : List (ToolResultMessage Value)) (s : LoopState Value W)
      → ((attach J W cfg rs s).messages ≡ s.messages ++ map tool_result rs)
        × ((attach J W cfg rs s).pending ≡ s.pending)
  unfolding attach say emit_all
  attach-messages [] s = (sym (append-nil s.messages), refl)
  attach-messages (r ∷ rs) s =
      let t = say (tool_result r) (spill J W cfg r s) in
      let (e, p) = attach-messages rs t in
      let (f, q) = spill-messages r s in
      (
        e
            ∙ ap (λ ms. (ms ++ tool_result r ∷ []) ++ map tool_result rs) f
            ∙ append_assoc s.messages (tool_result r ∷ []) (map tool_result rs),
        p ∙ q,
      )

  -- The sources of messages give messages of the user only.
  abbrev pub HooksGiveUsers : Type 0
  HooksGiveUsers =
      ((w : W) → all is_user (steering cfg.hooks w).1 ≡ true)
      × ((w : W) → all is_user (follow_up cfg.hooks w).1 ≡ true)

  attached-IsPaired :
      (a : AssistantMessage Value) (p : LoopState Value W × List (ToolResultMessage Value))
      → IsAnswered a p
      → IsPaired (attach J W cfg p.1 p.0)
  attached-IsPaired a (s, rs) ((ms, e, h, q, d), k) =
      let (f, r) = attach-messages rs s in
      (
        ap tool_pairs_intact (f ∙ ap (λ xs. xs ++ map tool_result rs) e)
            ∙ answered-IsPaired a ms rs h d k,
        ap (all is_user) r ∙ q,
      )

  -- Without calls in its last message, an asked conversation is paired.
  pub uncalled-IsPaired :
      (a : AssistantMessage Value) (s : LoopState Value W)
      → extract_tool_calls a ≡ []
      → IsAsked a s
      → IsPaired s
  uncalled-IsPaired a s e (ms, f, h, q, d) = (
    ap tool_pairs_intact (f ∙ sym (append-nil (ms ++ assistant a ∷ [])))
        ∙ answered-IsPaired a ms [] h d (sym (ap (map call_key) e)),
    q,
  )

  attach_if-IsPaired :
      HooksGiveUsers
      → (a : AssistantMessage Value) (calls : List (ToolCallData Value))
        (p : LoopState Value W × List (ToolResultMessage Value))
      → extract_tool_calls a ≡ calls
      → IsAnswered a p
      → IsPaired (attach_results J W cfg (nonempty calls) p).0
  unfolding attach_results
  attach_if-IsPaired g a [] (s, rs) e (h, k) = uncalled-IsPaired a s e h
  attach_if-IsPaired g a (c ∷ cs) (s, rs) e h =
      steer_by-IsPaired J W cfg rs (attach J W cfg rs s) _ (g.0 _) (attached-IsPaired a (s, rs) h)

  -- After the results are attached and steering is applied, the conversation is paired again.
  pub attach_results-IsPaired :
      HooksGiveUsers
      → (a : AssistantMessage Value) (s : LoopState Value W) → IsAsked a s
      → IsPaired
          (attach_results J W cfg (nonempty (extract_tool_calls a)) (answer_calls J W cfg a s)).0
  attach_results-IsPaired g a s h =
      attach_if-IsPaired g a (extract_tool_calls a) (answer_calls J W cfg a s) refl
        (answer_calls-IsAnswered a s h)
