-- ===== src/Budget/Fit.antt =====
-- The lines kept are the most that fit.
use pirs.Prelude.{
  ℕ, zero, suc, ◌+◌, ◌-◌, ◌≤◌, ◌<◌, ◌≡◌, refl, ◌⊎◌, inl, inr, false, List, [], ◌∷◌, ◌++◌, arith,
  ltb, leb, if◌then◌else◌, Bool-cases, ltb→lt, leb→le,
}
use pirs.Prelude.Lists.{length, length-append}
use pirs.Prelude.Text.{Text, lit}
use pirs.Message.{join}
use pirs.Budget.{estimate_tokens, render, middle, bisect, noted, join_within_budget}

abbrev pub Fits : List Text → ℕ → ℕ → Type 0
Fits lines max_tokens k = estimate_tokens (render lines k) ≤ max_tokens

-- No further line fits.
abbrev pub IsMaximal : List Text → ℕ → ℕ → Type 0
IsMaximal lines max_tokens k =
    (k ≡ length lines) ⊎ (max_tokens < estimate_tokens (render lines (suc k)))

below_middle :
    (lines : List Text) (n lo hi : ℕ)
    → lo < hi
    → leb (estimate_tokens (render lines (middle lo hi))) n ≡ false
    → n < estimate_tokens (render lines (suc (middle lo hi - 1)))
below_middle lines n lo hi below g =
    let same : suc (middle lo hi - 1) ≡ middle lo hi = omega arith in rw same (ground arith)

-- What the loop ends with, from a state where `lo` lines fit and no more than `hi` do.
bisect-IsMaximal :
    (lines : List Text) (max_tokens fuel lo hi : ℕ)
    → hi ≤ lo + fuel
    → lo ≤ hi
    → hi ≤ length lines
    → Fits lines max_tokens lo
    → IsMaximal lines max_tokens hi
    → (k : ℕ) × (bisect lines max_tokens fuel lo hi (render lines lo) ≡ (k, render lines k))
      × (lo ≤ k)
      × (k ≤ length lines)
      × Fits lines max_tokens k
      × IsMaximal lines max_tokens k
unfolding bisect
bisect-IsMaximal lines n zero lo hi f o l fits most =
    let same : lo ≡ hi = omega arith in (lo, refl, omega arith, omega arith, fits, rw same most)
bisect-IsMaximal lines n (suc fuel) lo hi f o l fits most = elim (Bool-cases (ltb lo hi)) [
  | inr e ↦
      let same : lo ≡ hi = ground arith in
      (lo, rw e refl, omega arith, omega arith, fits, rw same most)
  | inl e ↦
      let below : lo < hi = ltb→lt lo hi e in
      elim (Bool-cases (leb (estimate_tokens (render lines (middle lo hi))) n)) [
        | inl g ↦
            let (k, found, a, b, c, d) =
              bisect-IsMaximal lines n fuel (middle lo hi) hi (omega arith) (omega arith) l
                (leb→le _ _ g) most in
            (k, rw (e, g) found, omega arith, b, c, d)
        | inr g ↦
            let (k, found, a, b, c, d) =
              bisect-IsMaximal lines n fuel lo (middle lo hi - 1) (omega arith) (omega arith)
                (omega arith) fits (inr (below_middle lines n lo hi below g)) in
            (k, rw (e, g) found, a, b, c, d)
      ]
]

-- One line is no longer than two.
first_le_second :
    (l : Text) (ls : List Text)
    → estimate_tokens (render (l ∷ ls) 1) ≤ estimate_tokens (render (l ∷ ls) 2)
unfolding estimate_tokens render join
first_le_second l [] = omega arith
first_le_second l (m ∷ ls) = omega (arith, length-append l (lit "\n" ++ m))

-- Of a non-empty list a first part of `k` lines is returned, with the note on the others if there
-- are any, but without a note if the first line alone is over the budget. The part is the first line alone or
-- within the budget, and it is the whole list or one line more is over the budget.
pub join_within_budget-IsMaximal :
    (l : Text) (ls : List Text) (max_tokens : ℕ)
    → let lines = l ∷ ls in
      (k : ℕ) × (0 < k)
      × (k ≤ length lines)
      × (join_within_budget lines max_tokens ≡ (
          if ltb max_tokens (estimate_tokens (render lines 1))
          then l
          else noted lines (k, render lines k)))
      × ((k ≡ 1) ⊎ Fits lines max_tokens k)
      × IsMaximal lines max_tokens k
unfolding join_within_budget
join_within_budget-IsMaximal l ls n =
    elim (Bool-cases (ltb n (estimate_tokens (render (l ∷ ls) 1)))) [
      | inl e ↦
          let over = ltb→lt n (estimate_tokens (render (l ∷ ls) 1)) e in
          let more : n < estimate_tokens (render (l ∷ ls) 2) =
            omega (arith, first_le_second l ls) in
          (1, omega arith, omega arith, rw e (unfold render join in refl), inl refl, inr more)
      | inr e ↦
          let lines = l ∷ ls in
          let (k, found, a, b, c, d) =
            bisect-IsMaximal lines n (length lines) 1 (length lines) (omega arith) (omega arith)
              (omega arith) (ground arith) (inl refl) in
          (k, a, b, rw (e, found) refl, inr c, d)
    ]
