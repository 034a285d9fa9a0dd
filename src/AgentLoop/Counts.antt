-- ===== src/AgentLoop/Counts.antt =====
-- What a turn leaves of the turn counter and of the advisor before its last checks.
use pirs.Prelude.{
  ◌≡◌, refl, ◌∙◌, inl, inr, Bool, true, false, Option, none, some, List, [], ◌∷◌, arith, Bool-cases,
}
use pirs.Json.{JsonLib}
use pirs.Message.{StreamEvent, AssistantMessage, ToolResultMessage, Message}
use pirs.ToolExec.Host.{ToolCallData, Run}
use pirs.ToolExec.Prepare.{extract_tool_calls}
use pirs.AgentLoop.State.{CascadeConfig, LoopConfig, LoopState, emit_all, at_world, say, say_all}
use pirs.AgentLoop.Stream.{stream_into, stream_once, after_judge, stream_with, stream_assistant}
use pirs.AgentLoop.Steer.{Steered}
use pirs.AgentLoop.Results.{
  is_length, with_run, answer_each, answer_calls, spill, attach, with_steer, steer_by,
  attach_results,
}
use pirs.AgentLoop.Turn.{drain_pending}

module _ {V W : Type 0} where
  -- The turn counter and the advisor are those of before.
  abbrev pub IsSame : LoopState V W → LoopState V W → Type 0
  IsSame s t = (t.turn_count ≡ s.turn_count) × (t.hybrid ≡ s.hybrid)

  pub say_all-IsSame : (ms : List (Message V)) (s : LoopState V W) → IsSame s (say_all ms s)
  unfolding say_all say emit_all
  say_all-IsSame [] s = (refl, refl)
  say_all-IsSame (m ∷ ms) s = say_all-IsSame ms (say m s)

module _ {V W : Type 0} (cfg : LoopConfig V W) where
  stream_into-IsSame :
      (model : _) (s : LoopState V W) (p : W × List (StreamEvent V))
      → IsSame s (stream_into cfg model s p).0
  unfolding stream_into emit_all
  stream_into-IsSame model s (w, es) = (refl, refl)

  after_judge-IsSame :
      (s : LoopState V W) (draft : AssistantMessage V) (p : W × Bool)
      → IsSame s (after_judge cfg s draft p).0
  unfolding after_judge stream_once emit_all
  after_judge-IsSame s draft (w, true) = (refl, refl)
  after_judge-IsSame s draft (w, false) = stream_into-IsSame cfg.model _ _

  stream_with-IsSame :
      (c : Option (CascadeConfig V W)) (s : LoopState V W) → IsSame s (stream_with cfg c s).0
  unfolding stream_with stream_once
  stream_with-IsSame none s = stream_into-IsSame cfg.model s _
  stream_with-IsSame (some c) s =
      let p = stream_once cfg c.draft_model s in
      let (a, b) = stream_into-IsSame c.draft_model s _ in
      let (d, e) = after_judge-IsSame p.0 p.1 (c.judge p.1 p.0.run.world) in (d ∙ a, e ∙ b)

  pub stream_assistant-IsSame : (s : LoopState V W) → IsSame s (stream_assistant cfg s).0
  unfolding stream_assistant
  stream_assistant-IsSame s = stream_with-IsSame cfg.cascade s

module _ (J : JsonLib) (W : Type 0) (cfg : LoopConfig J.Value W) where
  open J use {Value}

  pub drain_pending-IsSame : (s : LoopState Value W) → IsSame s (drain_pending J W cfg s)
  unfolding drain_pending
  drain_pending-IsSame s = say_all-IsSame s.pending _

  with_run-IsSame :
      (s : LoopState Value W) (p : Run Value W × List (ToolResultMessage Value))
      → IsSame s (with_run J W cfg s p).0
  unfolding with_run
  with_run-IsSame s (run, rs) = (refl, refl)

  answer_each-IsSame :
      (a : AssistantMessage Value) (calls : List (ToolCallData Value)) (s : LoopState Value W)
      → IsSame s (answer_each J W cfg a calls s).0
  unfolding answer_each
  answer_each-IsSame a [] s = (refl, refl)
  answer_each-IsSame a (c ∷ cs) s = elim (Bool-cases (is_length a.stop_reason)) [
    | inl e ↦ rw (answer_each, e) (refl, refl)
    | inr e ↦ rw (answer_each, e) (with_run-IsSame s _)
  ]

  spill-IsSame :
      (r : ToolResultMessage Value) (s : LoopState Value W) → IsSame s (spill J W cfg r s)
  unfolding spill
  spill-IsSame r s = ground arith

  attach-IsSame :
      (rs : List (ToolResultMessage Value)) (s : LoopState Value W) → IsSame s (attach J W cfg rs s)
  unfolding attach say emit_all
  attach-IsSame [] s = (refl, refl)
  attach-IsSame (r ∷ rs) s =
      let (a, b) = spill-IsSame r s in let (c, d) = attach-IsSame rs _ in (c ∙ a, d ∙ b)

  with_steer-IsSame :
      (s : LoopState Value W) (steers : List (Message Value)) (p : Bool × Steered Value)
      → IsSame s (with_steer J W cfg s steers p).0
  unfolding with_steer
  with_steer-IsSame s steers (applied, t) = (refl, refl)

  steer_by-IsSame :
      (results : List (ToolResultMessage Value)) (s : LoopState Value W)
      (p : W × List (Message Value))
      → IsSame s (steer_by J W cfg results s p).0
  unfolding steer_by
  steer_by-IsSame results s (w, []) = (refl, refl)
  steer_by-IsSame results s (w, m ∷ ms) = with_steer-IsSame (at_world w s) (m ∷ ms) _

  attach_results-IsSame :
      (had_calls : Bool) (p : LoopState Value W × List (ToolResultMessage Value))
      → IsSame p.0 (attach_results J W cfg had_calls p).0
  unfolding attach_results
  attach_results-IsSame false (s, rs) = (refl, refl)
  attach_results-IsSame true (s, rs) =
      let (a, b) = attach-IsSame rs s in
      let (c, d) = steer_by-IsSame rs (attach J W cfg rs s) _ in (c ∙ a, d ∙ b)

  -- The answers to the calls, attached.
  pub attached-IsSame :
      (had_calls : Bool) (a : AssistantMessage Value) (s : LoopState Value W)
      → IsSame s (attach_results J W cfg had_calls (answer_calls J W cfg a s)).0
  unfolding answer_calls
  attached-IsSame had_calls a s =
      let (c, d) = answer_each-IsSame a (extract_tool_calls a) s in
      let (e, f) = attach_results-IsSame had_calls (answer_calls J W cfg a s) in (e ∙ c, f ∙ d)
