-- ===== src/AgentLoop/Checks.antt =====
-- The checks after a turn keep the tool calls and results paired.
use pirs.Prelude.{
  ◌≡◌, refl, sym, ap, ◌∙◌, inl, inr, Bool, true, false, Option, none, some, List, Bool-cases,
  Option-cases,
}
use pirs.Prelude.Text.{Text}
use pirs.Json.{JsonLib}
use pirs.Message.{ToolResultMessage, user_message}
use pirs.Compaction.Cut.{CompactionConfig, tool_pairs_intact}
use pirs.Compaction.Compact.{State, compact_messages}
use pirs.Compaction.Account.{compact_messages-true, compact_messages-false}
use pirs.Compaction.Shrunk.{shrink-tool_pairs_intact}
use pirs.Hybrid.{HybridInner}
use pirs.Thrash.Detectors.{Stop}
use pirs.ToolExec.Host.{steering}
use pirs.ToolExec.Caps.{model_max_tool_result_chars}
use pirs.AgentLoop.State.{BudgetHit, LoopConfig, LoopState, emit_all}
use pirs.AgentLoop.Results.{finish_run}
use pirs.AgentLoop.Close.{
  hard_stop, with_compacted, is_over, compact_with, compact_if_over, queue_steers, after_stop_hook,
  close_turn, close_with, after_advisor, on_stop, check_thrash, advise_stop,
}
use pirs.AgentLoop.Paired.{IsPaired, say-IsPaired, all_users-append}
use pirs.AgentLoop.Intact.{HooksGiveUsers}

module _ (J : JsonLib) (W : Type 0) (cfg : LoopConfig J.Value W) where
  open J use {Value}

  hard_stop-IsPaired :
      (msg : Text) (s : LoopState Value W) → IsPaired s → IsPaired (hard_stop J W cfg msg s).0
  unfolding hard_stop finish_run emit_all user_message
  hard_stop-IsPaired msg s p = say-IsPaired (user_message _ _) s refl p

  compacted-intact :
      (c : CompactionConfig) (s : LoopState Value W) (t : State Value) (p : State Value × Bool)
      → compact_messages J (cfg.summarizer s.run.world) (cfg.host.now s.run.world) cfg.model c t ≡ p
      → tool_pairs_intact t.messages ≡ true
      → tool_pairs_intact p.0.messages ≡ true
  compacted-intact c s t (t', true) e h =
      let (cut, summary, inside, same, intact) =
        compact_messages-true J (cfg.summarizer s.run.world) (cfg.host.now s.run.world) cfg.model c
          t t' e in
      intact
  compacted-intact c s t (t', false) e h =
      let (same, u) =
        compact_messages-false J (cfg.summarizer s.run.world) (cfg.host.now s.run.world) cfg.model c
          t (ap (λ q. q.1) e) in
      ap tool_pairs_intact (ap (λ q. q.0.messages) (sym e) ∙ same) ∙ h

  compact_with-IsPaired :
      (c : CompactionConfig) (s : LoopState Value W)
      → IsPaired s
      → IsPaired (compact_with J W cfg c s)
  unfolding compact_with with_compacted emit_all
  compact_with-IsPaired c s (h, p) = (
    compacted-intact c s _ _ refl
        (shrink-tool_pairs_intact J model_max_tool_result_chars s.messages ∙ h),
    p,
  )

  compact_if_over-IsPaired :
      (o : Option CompactionConfig) (s : LoopState Value W)
      → IsPaired s
      → IsPaired (compact_if_over J W cfg o s)
  unfolding compact_if_over
  compact_if_over-IsPaired none s h = h
  compact_if_over-IsPaired (some c) s h = elim (Bool-cases (is_over J W cfg c s.messages)) [
    | inl e ↦ rw (compact_if_over, e) (compact_with-IsPaired c s h)
    | inr e ↦ rw (compact_if_over, e) h
  ]

  after_stop_hook-IsPaired :
      HooksGiveUsers J W cfg
      → (s : LoopState Value W) (p : W × Bool) → IsPaired s
      → IsPaired (after_stop_hook J W cfg s p).0
  unfolding after_stop_hook finish_run emit_all queue_steers
  after_stop_hook-IsPaired g s (w, true) h = h
  after_stop_hook-IsPaired g s (w, false) (h, p) =
      (h, all_users-append s.pending (steering cfg.hooks w).1 p (g.0 w))

  close_with-IsPaired :
      HooksGiveUsers J W cfg
      → (had_calls : Bool) (results : List (ToolResultMessage Value)) (s : LoopState Value W)
        (hit : Option BudgetHit)
      → IsPaired s
      → IsPaired (close_with J W cfg had_calls results s hit).0
  unfolding close_with finish_run emit_all
  close_with-IsPaired g had_calls results s (some hit) h = h
  close_with-IsPaired g had_calls results s none h =
      after_stop_hook-IsPaired g _ _ (compact_if_over-IsPaired cfg.compaction s h)

  close_turn-IsPaired :
      HooksGiveUsers J W cfg
      → (had_calls : Bool) (results : List (ToolResultMessage Value)) (s : LoopState Value W)
      → IsPaired s
      → IsPaired (close_turn J W cfg had_calls results s).0
  unfolding close_turn
  close_turn-IsPaired g had_calls results s h = close_with-IsPaired g had_calls results _ _ h

  after_advisor-IsPaired :
      (msg : Text) (results : List (ToolResultMessage Value)) (s : LoopState Value W)
      (p : HybridInner × Option Text)
      → IsPaired s
      → IsPaired (after_advisor J W cfg msg results s p).0
  unfolding after_advisor user_message
  after_advisor-IsPaired msg results s (hy, none) h = hard_stop-IsPaired msg _ h
  after_advisor-IsPaired msg results s (hy, some guidance) h =
      say-IsPaired (user_message _ guidance) (record s { hybrid = some hy }) refl h

  advise_stop-IsPaired :
      (msg : Text) (results : List (ToolResultMessage Value)) (s : LoopState Value W)
      (o : Option HybridInner)
      → IsPaired s
      → IsPaired (advise_stop J W cfg msg results s o).0
  unfolding advise_stop
  advise_stop-IsPaired msg results s none h = hard_stop-IsPaired msg s h
  advise_stop-IsPaired msg results s (some hy) h = after_advisor-IsPaired msg results s _ h

  on_stop-IsPaired :
      HooksGiveUsers J W cfg
      → (results : List (ToolResultMessage Value)) (s : LoopState Value W) (o : Option Stop)
      → IsPaired s
      → IsPaired (on_stop J W cfg results s o).0
  unfolding on_stop
  on_stop-IsPaired g results s none h = close_turn-IsPaired g true results s h
  on_stop-IsPaired g results s (some stop) h = advise_stop-IsPaired _ results s s.hybrid h

  pub check_thrash-IsPaired :
      HooksGiveUsers J W cfg
      → (had_calls : Bool) (results : List (ToolResultMessage Value)) (s : LoopState Value W)
      → IsPaired s
      → IsPaired (check_thrash J W cfg had_calls results s).0
  unfolding check_thrash
  check_thrash-IsPaired g false results s h = close_turn-IsPaired g false results s h
  check_thrash-IsPaired g true results s h = elim (Option-cases s.run.thrash) [
    | inl e ↦ rw (check_thrash, e) (close_turn-IsPaired g true results s h)
    | inr (q, e) ↦ rw (check_thrash, e) (on_stop-IsPaired g results _ _ h)
  ]
