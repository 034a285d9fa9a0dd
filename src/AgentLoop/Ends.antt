-- ===== src/AgentLoop/Ends.antt =====
-- A bound on the turns ends every run.
use pirs.Prelude.{
  ℕ, zero, suc, ◌+◌, ◌<◌, ◌≡◌, refl, inl, inr, Bool, true, false, Option, none, some, List, [], ◌∷◌,
  arith, Bool-cases,
}
use pirs.Json.{JsonLib}
use pirs.Message.{Message}
use pirs.ToolExec.Host.{follow_up}
use pirs.AgentLoop.State.{BudgetHit, LoopConfig, LoopState, emit_all}
use pirs.AgentLoop.Results.{Next, over, again}
use pirs.AgentLoop.Turn.{
  turn, inner_test, after_follow_up, next_round, run_loop, after_turn, run_step, begin_with, fresh,
  begin, run_agent_loop,
}
use pirs.AgentLoop.Counts.{IsSame, say_all-IsSame}
use pirs.AgentLoop.Spending.{advice_left, IsMachine}
use pirs.AgentLoop.Rounds.{rounds_left, HasEnded, turn-Proceeds}

module _ (J : JsonLib) (W : Type 0) (cfg : LoopConfig J.Value W) (m : ℕ) where
  open J use {Value}

  module _ (bound : cfg.budgets.max_turns ≡ some m) where
    -- The run has a result, and the end is its last event.
    abbrev pub Ends : Option (LoopState Value W × Option BudgetHit) → Type 0
    Ends o =
        (t : LoopState Value W) × (hit : Option BudgetHit) × (o ≡ some (t, hit))
        × HasEnded J W cfg m t

    after_turn-Ends :
        (p : LoopState Value W × Next)
        (rest : LoopState Value W → Option (LoopState Value W × Option BudgetHit))
        → (p.1 ≡ again → Ends (rest p.0))
        → ((hit : Option BudgetHit) → p.1 ≡ over hit → HasEnded J W cfg m p.0)
        → Ends (after_turn J W cfg p rest)
    unfolding after_turn
    after_turn-Ends (t, over hit) rest h k = (t, hit, refl, k hit refl)
    after_turn-Ends (t, again) rest h k = h refl

    run_step-Ends :
        (p : LoopState Value W × Bool)
        (rest : LoopState Value W → Option (LoopState Value W × Option BudgetHit))
        → ((turn J W cfg p.0).1 ≡ again → Ends (rest (turn J W cfg p.0).0))
        → IsMachine p.0.hybrid
        → (p.1 ≡ false → HasEnded J W cfg m p.0)
        → Ends (run_step J W cfg p rest)
    unfolding run_step
    run_step-Ends (s, true) rest h i k =
        after_turn-Ends (turn J W cfg s) rest h ((turn-Proceeds J W cfg m bound s i).1)
    run_step-Ends (s, false) rest h i k = (s, none, refl, k refl)

    after_follow_up-HasEnded :
        (s : LoopState Value W) (p : W × List (Message Value))
        → (after_follow_up J W cfg s p).1 ≡ false
        → HasEnded J W cfg m (after_follow_up J W cfg s p).0
    unfolding after_follow_up emit_all
    after_follow_up-HasEnded s (w, []) e = (s.run.events, refl)
    after_follow_up-HasEnded s (w, x ∷ ms) e = absurd (ground arith)

    next_round-HasEnded :
        (s : LoopState Value W)
        → (next_round J W cfg s).1 ≡ false
        → HasEnded J W cfg m (next_round J W cfg s).0
    unfolding next_round
    next_round-HasEnded s k = elim (Bool-cases (inner_test J W cfg s)) [
      | inl e ↦ absurd (ground arith)
      | inr e ↦
          let p = follow_up cfg.hooks s.run.world in
          let k' : (after_follow_up J W cfg s p).1 ≡ false = rw (next_round, e) at k in
          rw (next_round, e) (after_follow_up-HasEnded s p k')
    ]

    after_follow_up-IsSame :
        (s : LoopState Value W) (p : W × List (Message Value))
        → IsSame s (after_follow_up J W cfg s p).0
    unfolding after_follow_up emit_all
    after_follow_up-IsSame s (w, []) = (refl, refl)
    after_follow_up-IsSame s (w, x ∷ ms) = (refl, refl)

    next_round-IsSame : (s : LoopState Value W) → IsSame s (next_round J W cfg s).0
    unfolding next_round
    next_round-IsSame s = elim (Bool-cases (inner_test J W cfg s)) [
      | inl e ↦ rw (next_round, e) (refl, refl)
      | inr e ↦ rw (next_round, e) (after_follow_up-IsSame s _)
    ]

    run_loop-Ends :
        (fuel : ℕ) (s : LoopState Value W)
        → IsMachine s.hybrid
        → rounds_left J W cfg m s < fuel
        → Ends (run_loop J W cfg fuel s)
    unfolding run_loop
    run_loop-Ends zero s h l = absurd (omega arith)
    run_loop-Ends (suc fuel) s h l =
        let s' = (next_round J W cfg s).0 in
        let (a, b) = next_round-IsSame s in
        let same : rounds_left J W cfg m s' ≡ rounds_left J W cfg m s = rw (a, b) refl in
        run_step-Ends (next_round J W cfg s) (run_loop J W cfg fuel)
          (λ e.
            let (n, i) = (turn-Proceeds J W cfg m bound s' (rw b h)).0 e in
            run_loop-Ends fuel (turn J W cfg s').0 i (omega arith))
          (rw b h) (next_round-HasEnded s)

    begin-IsSame :
        (prompts : List (Message Value)) (s : LoopState Value W)
        → ((begin J W cfg prompts s).turn_count ≡ 0) × ((begin J W cfg prompts s).hybrid ≡ s.hybrid)
    unfolding begin begin_with fresh emit_all
    begin-IsSame prompts s = let (a, b) = say_all-IsSame prompts _ in (a, b)

    -- With a bound of `m` turns every run ends, within `m + 1` rounds and one for every advisor call that
    -- is left, and the last event is the end with the new messages. This holds whatever the provider,
    -- the tools and the hooks do, also when messages never cease to come. The advisor's budget must be a
    -- 64-bit number.
    pub run_agent_loop-Ends :
        (fuel : ℕ) (prompts : List (Message Value)) (s : LoopState Value W)
        → IsMachine s.hybrid
        → m + advice_left s.hybrid < fuel
        → Ends (run_agent_loop J W cfg fuel prompts s)
    unfolding run_agent_loop
    run_agent_loop-Ends fuel prompts s h l =
        let (a, b) = begin-IsSame prompts s in
        let same : rounds_left J W cfg m (begin J W cfg prompts s) ≡ m + advice_left s.hybrid =
          rw (a, b) (omega arith) in
        run_loop-Ends fuel (begin J W cfg prompts s) (rw b h) (omega arith)
