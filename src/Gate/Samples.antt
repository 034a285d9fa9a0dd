-- ===== src/Gate/Samples.antt =====
-- A gate that passes at the third attempt.
use pirs.Prelude.{ℕ, suc, max, Option, none, some, leb, if◌then◌else◌}
use pirs.Prelude.Text.{Text, lit}
use pirs.Prelude.Result.{Result, ok}
use pirs.Gate.{run_gated}
use pirs.Gate.Rounds.{IsOutcome, run_gated-IsOutcome}

-- The world counts the attempts.
abbrev count_attempt : Option Text → ℕ → ℕ × Result Unit
count_attempt verdict n = (suc n, ok tt)

abbrev third_passes : ℕ → ℕ × Option Text
third_passes n = (n, if leb 3 n then none else some (lit "tests fail"))

run_gated-IsOutcome_example :
    IsOutcome count_attempt third_passes
      (max 5 1)
      1
      (none, 0)
      (run_gated count_attempt third_passes 5 0)
run_gated-IsOutcome_example = run_gated-IsOutcome count_attempt third_passes 5 0
