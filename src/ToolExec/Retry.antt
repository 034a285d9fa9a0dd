-- ===== src/ToolExec/Retry.antt =====
-- How often one call executes its tool. The world counts the executions in `ticks`.
use pirs.Prelude.{ℕ, suc, ◌+◌, ◌≤◌, ◌≡◌, arith, if◌then◌else◌}
use pirs.Prelude.Text.{Text}
use pirs.Prelude.Result.{Result, ok, err}
use pirs.Json.{JsonLib}
use pirs.ToolExec.Host.{AgentTool, ToolOutput, Hooks, Host, Run}
use pirs.ToolExec.Execute.{is_idempotent_tool, execute_once, retry, run_tool}

-- The executions that a call of a name is allowed.
abbrev pub allowance : Text → ℕ
allowance name = if is_idempotent_tool name then 2 else 1

module _ (J : JsonLib) (W : Type 0) (h : Host J.Value W) (hooks : Hooks J.Value W)
    (ticks : W → ℕ) where
  open J use {Value}

  -- An execution of the tool counts once.
  abbrev pub Counts : AgentTool Value W → Type 0
  Counts t = (id : Text) (args : Value) (w : W) → ticks (t.execute id args w).world ≡ suc (ticks w)

  execute_once-ticks :
      (tool : AgentTool Value W) (id name : Text) (args : Value) (s : Run Value W)
      → Counts tool
      → ticks (execute_once J W h hooks tool id name args s).0.world ≡ suc (ticks s.world)
  unfolding execute_once
  execute_once-ticks tool id name args s c = c id args s.world

  retry-ticks :
      (tool : AgentTool Value W) (id name : Text) (args : Value)
      (p : Run Value W × Result (ToolOutput Value))
      → Counts tool
      → (suc (ticks (retry J W h hooks tool id name args p).0.world)
          ≤ allowance name + ticks p.0.world)
        × (ticks p.0.world ≤ ticks (retry J W h hooks tool id name args p).0.world)
  unfolding retry
  retry-ticks tool id name args (s, ok out) c = ground arith
  retry-ticks tool id name args (s, err e) c =
      ground (arith, execute_once-ticks tool id name args s c)

  -- A call executes its tool at least once, at most twice, and once only if the tool is not among the
  -- idempotent ones, given that every execution counts once in `ticks`.
  pub run_tool-ticks :
      (tool : AgentTool Value W) (id name : Text) (args : Value) (s : Run Value W)
      → Counts tool
      → (ticks (run_tool J W h hooks tool id name args s).0.world ≤ allowance name + ticks s.world)
        × (suc (ticks s.world) ≤ ticks (run_tool J W h hooks tool id name args s).0.world)
  unfolding run_tool
  run_tool-ticks tool id name args s c =
      let p = execute_once J W h hooks tool id name args s in
      let (a, b) = retry-ticks tool id name args p c in
      let e = execute_once-ticks tool id name args s c in (omega arith, omega arith)
