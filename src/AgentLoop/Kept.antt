-- ===== src/AgentLoop/Kept.antt =====
-- A turn and the whole run keep the tool calls and results paired.
use pirs.Prelude.{
  ℕ, zero, suc, ◌+◌, ◌≡◌, refl, ap, subst, ◌∙◌, inl, inr, Bool, true, false, Option, none, some,
  List, [], ◌∷◌, ◌++◌, arith, Bool-cases,
}
use pirs.Prelude.Lists.{all}
use pirs.Prelude.Text.{Text}
use pirs.Json.{JsonLib}
use pirs.Message.{AssistantMessage, ToolResultMessage, Message, assistant, is_user, user_message}
use pirs.Compaction.Cut.{tool_pairs_intact}
use pirs.ToolExec.Host.{message_end, follow_up}
use pirs.ToolExec.Prepare.{extract_tool_calls}
use pirs.AgentLoop.State.{BudgetHit, LoopConfig, LoopState, emit_all, say}
use pirs.AgentLoop.Results.{
  Next, over, again, is_failure, nonempty, reached, finish_run, nudge_turn,
}
use pirs.AgentLoop.Streamed.{ProviderIsDistinct, IsStreamed, stream_assistant-IsStreamed}
use pirs.AgentLoop.Turn.{
  end_turn, tool_turn, wants_nudge, answer_or_nudge, after_stream, drain_pending, turn, inner_test,
  after_follow_up, next_round, run_loop, after_turn, run_step, begin_with, fresh, begin,
  run_agent_loop,
}
use pirs.AgentLoop.Paired.{IsPaired, say-IsPaired, say_all-IsPaired}
use pirs.AgentLoop.Intact.{
  HooksGiveUsers, IsAsked, abort_turn-IsPaired, attach_results-IsPaired, uncalled-IsPaired,
}
use pirs.AgentLoop.Checks.{check_thrash-IsPaired}

empty_of : {A : Type 0} (xs : List A) → nonempty xs ≡ false → xs ≡ []
empty_of [] e = refl
empty_of (x ∷ xs) e = absurd (ground arith)

module _ (J : JsonLib) (W : Type 0) (cfg : LoopConfig J.Value W) where
  open J use {Value}

  end_turn-IsPaired :
      HooksGiveUsers J W cfg
      → (had_calls : Bool) (a : AssistantMessage Value)
        (p : LoopState Value W × List (ToolResultMessage Value))
      → IsPaired p.0
      → IsPaired (end_turn J W cfg had_calls a p).0
  unfolding end_turn emit_all
  end_turn-IsPaired g had_calls a (s, results) h =
      check_thrash-IsPaired J W cfg g had_calls results _ h

  nudge_turn-IsPaired :
      (nudge : Text) (s : LoopState Value W) → IsPaired s → IsPaired (nudge_turn J W cfg nudge s).0
  unfolding nudge_turn finish_run emit_all user_message
  nudge_turn-IsPaired nudge s h =
      let said =
        say (user_message (cfg.host.now s.run.world) nudge) (record s { nudge_sent = true }) in
      let k : IsPaired said =
        say-IsPaired (user_message _ nudge) (record s { nudge_sent = true }) refl h in
      elim (Bool-cases (reached cfg.budgets.max_turns (said.turn_count + 1))) [
        | inl e ↦ rw (nudge_turn, e) k
        | inr e ↦ rw (nudge_turn, e) k
      ]

  wants_nudge-calls :
      (a : AssistantMessage Value) (s : LoopState Value W) (nudge : Text)
      → wants_nudge J W cfg a s ≡ some nudge
      → nonempty (extract_tool_calls a) ≡ false
  unfolding wants_nudge
  wants_nudge-calls a s nudge e = ground arith

  answer_or_nudge-IsPaired :
      HooksGiveUsers J W cfg
      → (a : AssistantMessage Value) (s : LoopState Value W) (o : Option Text)
      → wants_nudge J W cfg a s ≡ o
      → IsAsked J W cfg a s
      → IsPaired (answer_or_nudge J W cfg a s o).0
  unfolding answer_or_nudge tool_turn
  answer_or_nudge-IsPaired g a s none e h =
      end_turn-IsPaired g _ a _ (attach_results-IsPaired J W cfg g a s h)
  answer_or_nudge-IsPaired g a s (some nudge) e h =
      nudge_turn-IsPaired nudge s
        (uncalled-IsPaired J W cfg a s (empty_of _ (wants_nudge-calls a s nudge e)) h)

  after_stream-IsPaired :
      HooksGiveUsers J W cfg
      → (s : LoopState Value W) (p : LoopState Value W × AssistantMessage Value) → IsPaired s
      → IsStreamed cfg s p
      → IsPaired (after_stream J W cfg p).0
  unfolding after_stream emit_all
  after_stream-IsPaired g s (t, a) (h, q) (e, f, d) =
      let t' =
        emit_all (message_end (assistant a) ∷ [])
          (record t { new_messages = t.new_messages ++ assistant a ∷ [] }) in
      let asked : IsAsked J W cfg a t' = (s.messages, e, h, ap (all is_user) f ∙ q, d) in
      elim (Bool-cases (is_failure a.stop_reason)) [
        | inl b ↦ rw (after_stream, b) (abort_turn-IsPaired J W cfg a t' asked)
        | inr b ↦ rw (after_stream, b) (answer_or_nudge-IsPaired g a t' _ refl asked)
      ]

  turn-IsPaired :
      HooksGiveUsers J W cfg
      → ProviderIsDistinct cfg
      → (s : LoopState Value W) → IsPaired s
      → IsPaired (turn J W cfg s).0
  unfolding turn drain_pending
  turn-IsPaired g d s (h, p) =
      let s' = drain_pending J W cfg s in
      let k : IsPaired s' = say_all-IsPaired s.pending _ p (h, refl) in
      after_stream-IsPaired g s' _ k (stream_assistant-IsStreamed cfg d s')

  after_follow_up-IsPaired :
      (s : LoopState Value W) (p : W × List (Message Value))
      → all is_user p.1 ≡ true
      → IsPaired s
      → IsPaired (after_follow_up J W cfg s p).0
  unfolding after_follow_up emit_all
  after_follow_up-IsPaired s (w, []) u h = h
  after_follow_up-IsPaired s (w, m ∷ ms) u (h, p) = (h, u)

  next_round-IsPaired :
      HooksGiveUsers J W cfg
      → (s : LoopState Value W) → IsPaired s
      → IsPaired (next_round J W cfg s).0
  unfolding next_round
  next_round-IsPaired g s h = elim (Bool-cases (inner_test J W cfg s)) [
    | inl e ↦ rw (next_round, e) h
    | inr e ↦
        rw (next_round, e)
          (after_follow_up-IsPaired s (follow_up cfg.hooks s.run.world) (g.1 s.run.world) h)
  ]

  -- The state that a run ends in.
  abbrev pub state_or :
      LoopState Value W → Option (LoopState Value W × Option BudgetHit) → LoopState Value W
  state_or d none = d
  state_or d (some p) = p.0

  -- Whoever runs the rest keeps a conversation paired.
  abbrev KeepsPaired : (LoopState Value W → Option (LoopState Value W × Option BudgetHit)) → Type 0
  KeepsPaired rest =
      (s t : LoopState Value W) (hit : Option BudgetHit)
      → IsPaired s
      → rest s ≡ some (t, hit)
      → IsPaired t

  after_turn-IsPaired :
      (p : LoopState Value W × Next)
      (rest : LoopState Value W → Option (LoopState Value W × Option BudgetHit))
      (t : LoopState Value W) (hit : Option BudgetHit)
      → KeepsPaired rest
      → IsPaired p.0
      → after_turn J W cfg p rest ≡ some (t, hit)
      → IsPaired t
  unfolding after_turn
  after_turn-IsPaired (s, over b) rest t hit k h e = subst IsPaired (ap (state_or s) e) h
  after_turn-IsPaired (s, again) rest t hit k h e = k s t hit h e

  run_step-IsPaired :
      HooksGiveUsers J W cfg
      → ProviderIsDistinct cfg
      → (p : LoopState Value W × Bool)
        (rest : LoopState Value W → Option (LoopState Value W × Option BudgetHit))
        (t : LoopState Value W) (hit : Option BudgetHit)
      → KeepsPaired rest
      → IsPaired p.0
      → run_step J W cfg p rest ≡ some (t, hit)
      → IsPaired t
  unfolding run_step
  run_step-IsPaired g d (s, true) rest t hit k h e =
      after_turn-IsPaired (turn J W cfg s) rest t hit k (turn-IsPaired g d s h) e
  run_step-IsPaired g d (s, false) rest t hit k h e = subst IsPaired (ap (state_or s) e) h

  run_loop-IsPaired :
      HooksGiveUsers J W cfg
      → ProviderIsDistinct cfg
      → (fuel : ℕ) (s t : LoopState Value W) (hit : Option BudgetHit) → IsPaired s
      → run_loop J W cfg fuel s ≡ some (t, hit)
      → IsPaired t
  unfolding run_loop
  run_loop-IsPaired g d zero s t hit h e = absurd (ground arith)
  run_loop-IsPaired g d (suc fuel) s t hit h e =
      run_step-IsPaired g d (next_round J W cfg s) (run_loop J W cfg fuel) t hit
        (run_loop-IsPaired g d fuel) (next_round-IsPaired g s h) e

  begin-IsPaired :
      HooksGiveUsers J W cfg
      → (prompts : List (Message Value)) (s : LoopState Value W) → all is_user prompts ≡ true
      → tool_pairs_intact s.messages ≡ true
      → IsPaired (begin J W cfg prompts s)
  unfolding begin begin_with fresh emit_all
  begin-IsPaired g prompts s u h = let (k, q) = say_all-IsPaired prompts _ u (h, refl) in (k, g.0 _)

  -- A run that starts from a conversation whose tool calls and results are paired, with user messages
  -- as prompts, ends with one, on every path: failed streams, truncated calls, refusals, retries,
  -- steers, thrash stops, advice, compaction and spent budgets. The message sources must give user
  -- messages only, and the provider must not repeat a call id within one message.
  pub run_agent_loop-kept :
      HooksGiveUsers J W cfg
      → ProviderIsDistinct cfg
      → (fuel : ℕ) (prompts : List (Message Value)) (s t : LoopState Value W)
        (hit : Option BudgetHit)
      → all is_user prompts ≡ true
      → tool_pairs_intact s.messages ≡ true
      → run_agent_loop J W cfg fuel prompts s ≡ some (t, hit)
      → tool_pairs_intact t.messages ≡ true
  unfolding run_agent_loop
  run_agent_loop-kept g d fuel prompts s t hit u h e =
      (run_loop-IsPaired g d fuel (begin J W cfg prompts s) t hit (begin-IsPaired g prompts s u h)
        e).0
