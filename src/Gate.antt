-- ===== src/Gate.antt =====
-- crates/pirs-agent/src/gate.rs, lines 64 to 127: an attempt, then a gate, again until it passes.
-- The two closures are parameters that act on the state `W` of the world. Theorems in `Rounds`.
pub mod Rounds
mod Samples
use pirs.Prelude.{ℕ, zero, suc, ◌+◌, max, Bool, true, false, Option, none, some, [], if◌then◌else◌}
use pirs.Prelude.Text.{Text}
use pirs.Prelude.Result.{Result, ok, err}

pub data GateOutcome : Type 0 where
  passed_on : ℕ → GateOutcome
  exhausted : Text → GateOutcome

unfoldable pub passed : GateOutcome → Bool
passed (passed_on i) = true
passed (exhausted f) = false

abbrev pub text_or_default : Option Text → Text
text_or_default none = []
text_or_default (some t) = t

module _ {W : Type 0} (attempt : Option Text → W → W × Result Unit)
    (verify : W → W × Option Text) where
  -- The rounds from the one numbered `i`, with the number of rounds left.
  unfoldable pub gate_loop : ℕ → ℕ → Option Text → W → W × Result GateOutcome
  gate_loop zero i verdict w = (w, ok (exhausted (text_or_default verdict)))
  gate_loop (suc left) i verdict w =
      let (w', tried) = attempt verdict w in
      elim tried [
        | err e ↦ (w', err e)
        | ok _ ↦
            let (w'', checked) = verify w' in
            elim checked [
              | none ↦ (w'', ok (passed_on i))
              | some failure ↦ gate_loop left (i + 1) (some failure) w''
            ]
      ]

  unfoldable pub run_gated : ℕ → W → W × Result GateOutcome
  unfolding gate_loop
  run_gated max_attempts w = gate_loop (max max_attempts 1) 1 none w
