-- ===== src/Budget/Samples.antt =====
-- Three lines under a budget of two tokens.
use pirs.Prelude.{ℕ, ◌≤◌, ◌<◌, ◌≡◌, ◌⊎◌, List, [], ◌∷◌, ltb, if◌then◌else◌}
use pirs.Prelude.Lists.{length}
use pirs.Prelude.Text.{Text, lit}
use pirs.Budget.{estimate_tokens, render, noted, join_within_budget}
use pirs.Budget.Fit.{Fits, IsMaximal, join_within_budget-IsMaximal}

abbrev found : List Text
found = lit "first" ∷ lit "second" ∷ lit "third" ∷ []

join_within_budget-IsMaximal_example :
    (k : ℕ) × (0 < k)
    × (k ≤ length found)
    × (join_within_budget found 2 ≡ (
        if ltb 2 (estimate_tokens (render found 1))
        then lit "first"
        else noted found (k, render found k)))
    × ((k ≡ 1) ⊎ Fits found 2 k)
    × IsMaximal found 2 k
join_within_budget-IsMaximal_example =
    join_within_budget-IsMaximal (lit "first") (lit "second" ∷ lit "third" ∷ []) 2
