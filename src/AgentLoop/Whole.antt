-- ===== src/AgentLoop/Whole.antt =====
-- A whole run with a bound on its turns.
use pirs.Prelude.{ℕ, ◌+◌, ◌<◌, ◌≡◌, true, Option, some, List}
use pirs.Prelude.Lists.{all}
use pirs.Json.{JsonLib}
use pirs.Message.{Message, is_user}
use pirs.Compaction.Cut.{tool_pairs_intact}
use pirs.AgentLoop.State.{BudgetHit, LoopConfig, LoopState}
use pirs.AgentLoop.Turn.{run_agent_loop}
use pirs.AgentLoop.Streamed.{ProviderIsDistinct}
use pirs.AgentLoop.Intact.{HooksGiveUsers}
use pirs.AgentLoop.Kept.{run_agent_loop-kept}
use pirs.AgentLoop.Spending.{IsMachine, advice_left}
use pirs.AgentLoop.Ends.{run_agent_loop-Ends}

-- A run with a bound of `m` turns ends, and if it starts from a conversation whose tool calls and
-- results are paired, with user messages as prompts, it leaves one, on every path: failed streams,
-- truncated calls, refusals, retries, steers, thrash stops, advice, compaction and spent budgets.
-- The message sources must give user messages only, the provider must not repeat a call id within
-- one message, and the advisor's budget must be a 64-bit number.
pub run_agent_loop-intact :
    (J : JsonLib) (W : Type 0) (cfg : LoopConfig J.Value W) (m : ℕ)
    → cfg.budgets.max_turns ≡ some m
    → HooksGiveUsers J W cfg
    → ProviderIsDistinct cfg
    → (fuel : ℕ) (prompts : List (Message J.Value)) (s : LoopState J.Value W) → IsMachine s.hybrid
    → m + advice_left s.hybrid < fuel
    → all is_user prompts ≡ true
    → tool_pairs_intact s.messages ≡ true
    → (t : LoopState J.Value W) × (hit : Option BudgetHit) × (run_agent_loop J W cfg fuel prompts s
        ≡ some (t, hit))
      × (tool_pairs_intact t.messages ≡ true)
run_agent_loop-intact J W cfg m bound g d fuel prompts s h l u i =
    let (t, hit, e, ended) = run_agent_loop-Ends J W cfg m bound fuel prompts s h l in
    (t, hit, e, run_agent_loop-kept J W cfg g d fuel prompts s t hit u i e)
