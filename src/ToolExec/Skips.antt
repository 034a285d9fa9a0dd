-- ===== src/ToolExec/Skips.antt =====
-- A batch that is stopped executes nothing more.
use pirs.Prelude.{ℕ, suc, ◌≡◌, refl, ◌∙◌, true, false, Option, none, some, List, [], ◌∷◌, arith}
use pirs.Json.{JsonLib}
use pirs.Thrash.Detectors.{Stop}
use pirs.ToolExec.Host.{AgentTool, ToolCallData, Hooks, Host, Run}
use pirs.ToolExec.Execute.{emit, guard_start}
use pirs.ToolExec.Batch.{Slots, answer_unrun, after_guard, round, run_sequential}

module _ (J : JsonLib) (W : Type 0) (h : Host J.Value W) (hooks : Hooks J.Value W)
    (tools : List (AgentTool J.Value W)) where
  open J use {Value}

  -- The world and the guard are those of before.
  abbrev pub IsUntouched : Run Value W → Run Value W → Type 0
  IsUntouched s t = (t.world ≡ s.world) × (t.thrash ≡ s.thrash)

  -- When the rest of a batch is skipped, no tool is executed and no call reaches the guard.
  skipped_rest :
      (index : ℕ) (calls : List (ToolCallData Value)) (s : Run Value W) (slots : Slots J W h hooks)
      → IsUntouched s (run_sequential J W h hooks tools true index calls s slots).0
  unfolding run_sequential round answer_unrun emit
  skipped_rest index [] s slots = (refl, refl)
  skipped_rest index (call ∷ calls) s slots = skipped_rest (suc index) calls _ _

  guard_start-world :
      (call : ToolCallData Value) (s : Run Value W)
      → (guard_start J W h hooks call s).0.world ≡ s.world
  unfolding guard_start
  guard_start-world call s = ground arith

  run_blocked :
      (index : ℕ) (call : ToolCallData Value) (calls : List (ToolCallData Value)) (s : Run Value W)
      (slots : Slots J W h hooks) (p : Run Value W × Option Stop) (stop : Stop)
      → guard_start J W h hooks call s ≡ p
      → p.1 ≡ some stop
      → IsUntouched p.0 (run_sequential J W h hooks tools false index (call ∷ calls) s slots).0
  unfolding run_sequential round after_guard answer_unrun emit
  run_blocked index call calls s slots (t, some stop') stop e k =
      rw (run_sequential, e) (skipped_rest (suc index) calls _ _)
  run_blocked index call calls s slots (t, none) stop e k = absurd (ground arith)

  -- When the thrash guard stops a call of a sequential batch, neither that call nor any call after it
  -- is executed: the world is the one of before.
  pub blocked-world :
      (index : ℕ) (call : ToolCallData Value) (calls : List (ToolCallData Value)) (s : Run Value W)
      (slots : Slots J W h hooks) (stop : Stop)
      → (guard_start J W h hooks call s).1 ≡ some stop
      → (run_sequential J W h hooks tools false index (call ∷ calls) s slots).0.world ≡ s.world
  blocked-world index call calls s slots stop e =
      let (w, t) =
        run_blocked index call calls s slots (guard_start J W h hooks call s) stop refl e in
      w ∙ guard_start-world call s
