-- ===== src/AgentLoop/Rounds.antt =====
-- A round of the loop ends the run, or leaves fewer rounds, under a bound on the turns.
use pirs.Prelude.{
  ℕ, suc, ◌+◌, ◌-◌, ◌≤◌, ◌<◌, ◌≡◌, ◌≢◌, refl, sym, ◌∙◌, inl, inr, Bool, true, false, Option, none,
  some, List, [], ◌∷◌, ◌++◌, arith, Bool-cases, Option-cases,
}
use pirs.Prelude.Text.{Text}
use pirs.Json.{JsonLib}
use pirs.Message.{AssistantMessage, ToolResultMessage}
use pirs.Compaction.Cut.{CompactionConfig}
use pirs.Hybrid.{HybridInner}
use pirs.Thrash.Detectors.{Stop}
use pirs.ToolExec.Host.{AgentEvent, agent_end}
use pirs.ToolExec.Prepare.{extract_tool_calls}
use pirs.AgentLoop.State.{BudgetHit, turns, LoopConfig, LoopState, emit_all, say}
use pirs.AgentLoop.Results.{
  Next, over, again, is_failure, nonempty, reached, finish_run, abort_turn, nudge_turn,
}
use pirs.AgentLoop.Close.{
  hard_stop, budget_hit, with_compacted, is_over, compact_with, compact_if_over, queue_steers,
  after_stop_hook, close_turn, close_with, after_advisor, on_stop, check_thrash, advise_stop,
}
use pirs.AgentLoop.Turn.{end_turn, tool_turn, answer_or_nudge, after_stream, drain_pending, turn}
use pirs.AgentLoop.Counts.{IsSame, stream_assistant-IsSame, drain_pending-IsSame, attached-IsSame}
use pirs.AgentLoop.Spending.{advice_left, IsMachine, on_thrash-left}

module _ (J : JsonLib) (W : Type 0) (cfg : LoopConfig J.Value W) (m : ℕ) where
  open J use {Value}

  -- The rounds that a state has left.
  abbrev pub rounds_left : LoopState Value W → ℕ
  rounds_left s = (m - s.turn_count) + advice_left s.hybrid

  -- The last event is the end, with the messages of the run.
  abbrev pub HasEnded : LoopState Value W → Type 0
  HasEnded t = (es : List (AgentEvent Value)) × (t.run.events ≡ es ++ agent_end t.new_messages ∷ [])

  -- A round either ends the run with the last event or leaves fewer rounds.
  abbrev pub Proceeds : LoopState Value W → LoopState Value W × Next → Type 0
  Proceeds s p =
      (p.1 ≡ again → (suc (rounds_left p.0) ≤ rounds_left s) × IsMachine p.0.hybrid)
      × ((hit : Option BudgetHit) → p.1 ≡ over hit → HasEnded p.0)

  again-over : (hit : Option BudgetHit) → again ≢ over hit
  again-over hit e = ground arith

  over-Proceeds :
      (s t : LoopState Value W) (hit : Option BudgetHit) → Proceeds s (finish_run J W cfg hit t)
  unfolding finish_run emit_all
  over-Proceeds s t hit = (λ e. absurd (again-over hit (sym e)), λ b e. (t.run.events, refl))

  compact_if_over-IsSame :
      (o : Option CompactionConfig) (s : LoopState Value W) → IsSame s (compact_if_over J W cfg o s)
  unfolding compact_if_over compact_with with_compacted emit_all
  compact_if_over-IsSame none s = (refl, refl)
  compact_if_over-IsSame (some c) s = elim (Bool-cases (is_over J W cfg c s.messages)) [
    | inl e ↦ rw (compact_if_over, e) (refl, refl)
    | inr e ↦ rw (compact_if_over, e) (refl, refl)
  ]

  after_stop_hook-Proceeds :
      (s t : LoopState Value W) (p : W × Bool)
      → suc (rounds_left t) ≤ rounds_left s
      → IsMachine t.hybrid
      → Proceeds s (after_stop_hook J W cfg t p)
  unfolding after_stop_hook queue_steers
  after_stop_hook-Proceeds s t (w, true) l h = over-Proceeds s _ none
  after_stop_hook-Proceeds s t (w, false) l h = (λ e. (l, h), λ hit e. absurd (again-over hit e))

  close_with-Proceeds :
      (s t : LoopState Value W) (had_calls : Bool) (results : List (ToolResultMessage Value))
      (hit : Option BudgetHit)
      → (hit ≡ none → suc (rounds_left t) ≤ rounds_left s)
      → IsMachine t.hybrid
      → Proceeds s (close_with J W cfg had_calls results t hit)
  unfolding close_with
  close_with-Proceeds s t had_calls results (some b) l h = over-Proceeds s t (some b)
  close_with-Proceeds s t had_calls results none l h =
      let (a, b) = compact_if_over-IsSame cfg.compaction t in
      after_stop_hook-Proceeds s _ _ (rw (a, b) (l refl)) (rw b h)

  module _ (bound : cfg.budgets.max_turns ≡ some m) where
    budget_hit-none : (t : LoopState Value W) → budget_hit J W cfg t ≡ none → t.turn_count < m
    unfolding budget_hit
    budget_hit-none t e = ground (arith, bound)

    close_turn-Proceeds :
        (s t : LoopState Value W) (had_calls : Bool) (results : List (ToolResultMessage Value))
        → IsSame s t
        → IsMachine s.hybrid
        → Proceeds s (close_turn J W cfg had_calls results t)
    unfolding close_turn
    close_turn-Proceeds s t had_calls results (a, b) h =
        close_with-Proceeds s _ had_calls results _
          (λ e. let l = budget_hit-none _ e in rw b (omega arith)) (rw b h)

    after_advisor-Proceeds :
        (msg : Text) (results : List (ToolResultMessage Value)) (s t : LoopState Value W)
        (hy : HybridInner) (p : HybridInner × Option Text)
        → IsSame s t
        → s.hybrid ≡ some hy
        → ((guidance : Text)
            → p.1 ≡ some guidance
            → (suc (advice_left (some p.0)) ≤ advice_left (some hy)) × IsMachine (some p.0))
        → Proceeds s (after_advisor J W cfg msg results t p)
    unfolding after_advisor hard_stop say emit_all
    after_advisor-Proceeds msg results s t hy (hy', none) same e l = over-Proceeds s _ none
    after_advisor-Proceeds msg results s t hy (hy', some guidance) (a, b) e l =
        let (n, i) = l guidance refl in
        (λ k. (rw (a, e) (omega arith), i), λ hit k. absurd (again-over hit k))

    advise_stop-Proceeds :
        (msg : Text) (results : List (ToolResultMessage Value)) (s t : LoopState Value W)
        (o : Option HybridInner)
        → IsSame s t
        → s.hybrid ≡ o
        → IsMachine o
        → Proceeds s (advise_stop J W cfg msg results t o)
    unfolding advise_stop hard_stop
    advise_stop-Proceeds msg results s t none same e h = over-Proceeds s _ none
    advise_stop-Proceeds msg results s t (some hy) same e h =
        after_advisor-Proceeds msg results s t hy _ same e (λ guidance k.
          on_thrash-left (cfg.strong_model t.run.world) msg guidance t.messages hy h k)

    on_stop-Proceeds :
        (results : List (ToolResultMessage Value)) (s t : LoopState Value W) (o : Option Stop)
        → IsSame s t
        → IsMachine s.hybrid
        → Proceeds s (on_stop J W cfg results t o)
    unfolding on_stop
    on_stop-Proceeds results s t none same h = close_turn-Proceeds s t true results same h
    on_stop-Proceeds results s t (some stop) (a, b) h =
        advise_stop-Proceeds _ results s t t.hybrid (a, b) (sym b) (rw b h)

    check_thrash-Proceeds :
        (had_calls : Bool) (results : List (ToolResultMessage Value)) (s t : LoopState Value W)
        → IsSame s t
        → IsMachine s.hybrid
        → Proceeds s (check_thrash J W cfg had_calls results t)
    unfolding check_thrash
    check_thrash-Proceeds false results s t same h = close_turn-Proceeds s t false results same h
    check_thrash-Proceeds true results s t same h = elim (Option-cases t.run.thrash) [
      | inl e ↦ rw (check_thrash, e) (close_turn-Proceeds s t true results same h)
      | inr (q, e) ↦ rw (check_thrash, e) (on_stop-Proceeds results s _ _ same h)
    ]

    end_turn-Proceeds :
        (had_calls : Bool) (a : AssistantMessage Value) (s : LoopState Value W)
        (p : LoopState Value W × List (ToolResultMessage Value))
        → IsSame s p.0
        → IsMachine s.hybrid
        → Proceeds s (end_turn J W cfg had_calls a p)
    unfolding end_turn emit_all
    end_turn-Proceeds had_calls a s (t, results) same h =
        check_thrash-Proceeds had_calls results s _ same h

    nudge_turn-Proceeds :
        (nudge : Text) (s t : LoopState Value W)
        → IsSame s t
        → IsMachine s.hybrid
        → Proceeds s (nudge_turn J W cfg nudge t)
    unfolding nudge_turn say emit_all
    nudge_turn-Proceeds nudge s t (a, b) h =
        elim (Bool-cases (reached cfg.budgets.max_turns (t.turn_count + 1))) [
          | inl e ↦ rw (nudge_turn, e) (over-Proceeds s _ (some turns))
          | inr e ↦
              let l : t.turn_count + 1 < m = ground (arith, bound) in
              rw (nudge_turn, e)
                (λ k. (rw b (omega arith), rw b h), λ hit k. absurd (again-over hit k))
        ]

    answer_or_nudge-Proceeds :
        (a : AssistantMessage Value) (s t : LoopState Value W) (o : Option Text)
        → IsSame s t
        → IsMachine s.hybrid
        → Proceeds s (answer_or_nudge J W cfg a t o)
    unfolding answer_or_nudge tool_turn
    answer_or_nudge-Proceeds a s t none (b, c) h =
        let (d, e) = attached-IsSame J W cfg (nonempty (extract_tool_calls a)) a t in
        end_turn-Proceeds _ a s _ (d ∙ b, e ∙ c) h
    answer_or_nudge-Proceeds a s t (some nudge) same h = nudge_turn-Proceeds nudge s t same h

    after_stream-Proceeds :
        (s : LoopState Value W) (p : LoopState Value W × AssistantMessage Value)
        → IsSame s p.0
        → IsMachine s.hybrid
        → Proceeds s (after_stream J W cfg p)
    unfolding after_stream emit_all abort_turn
    after_stream-Proceeds s (t, a) same h = elim (Bool-cases (is_failure a.stop_reason)) [
      | inl e ↦ rw (after_stream, e) (over-Proceeds s _ none)
      | inr e ↦ rw (after_stream, e) (answer_or_nudge-Proceeds a s _ _ same h)
    ]

    pub turn-Proceeds : (s : LoopState Value W) → IsMachine s.hybrid → Proceeds s (turn J W cfg s)
    unfolding turn
    turn-Proceeds s h =
        let (a, b) = drain_pending-IsSame J W cfg s in
        let (c, d) = stream_assistant-IsSame cfg (drain_pending J W cfg s) in
        after_stream-Proceeds s _ (c ∙ a, d ∙ b) h
