-- ===== src/Budget.antt =====
-- crates/pirs-graph/src/budget.rs: how many ranked lines fit a token budget, by bisection.
-- Theorems in `Fit`.
pub mod Fit
mod Samples
use pirs.Prelude.{
  ℕ, zero, suc, ◌+◌, ◌-◌, ◌/◌, ◌%◌, List, [], ◌∷◌, ◌++◌, ltb, leb, ◌==◌, if◌then◌else◌,
}
use pirs.Prelude.Lists.{length, take}
use pirs.Prelude.Text.{Text, lit, decimal}
use pirs.Message.{join}

unfoldable pub estimate_tokens : Text → ℕ
estimate_tokens t = length t / 4

abbrev pub default_token_budget : ℕ
default_token_budget = 2000

-- `lines[..k].join("\n")`.
unfoldable pub render : List Text → ℕ → Text
render lines k = join (lit "\n") (take k lines)

-- `lo + (hi - lo).div_ceil(2)`.
abbrev pub middle : ℕ → ℕ → ℕ
middle lo hi = lo + (hi - lo + 1) / 2

-- The loop; each round lowers `hi - lo`, which the fuel bounds. It ends with `lo` and `best`.
unfoldable pub bisect : List Text → ℕ → ℕ → ℕ → ℕ → Text → ℕ × Text
bisect lines max_tokens zero lo hi best = (lo, best)
bisect lines max_tokens (suc fuel) lo hi best =
    let mid = middle lo hi in
    let candidate = render lines mid in
    let above = bisect lines max_tokens fuel mid hi candidate in
    let below = bisect lines max_tokens fuel lo (mid - 1) best in
    if ltb lo hi
    then (if leb (estimate_tokens candidate) max_tokens then above else below)
    else (lo, best)

-- What is returned for the first `lo` lines.
unfoldable pub noted : List Text → ℕ × Text → Text
noted lines (lo, best) =
    if ltb lo (length lines)
    then best
      ++ (lit "\n… "
          ++ (decimal (length lines - lo)
              ++ lit " more result(s) omitted to stay within the token budget"))
    else best

unfoldable pub join_within_budget : List Text → ℕ → Text
join_within_budget [] max_tokens = []
join_within_budget (l ∷ ls) max_tokens =
    let lines = l ∷ ls in
    let best = render lines 1 in
    if ltb max_tokens (estimate_tokens best)
    then best
    else noted lines (bisect lines max_tokens (length lines) 1 (length lines) best)
