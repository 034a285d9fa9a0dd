-- ===== src/AgentLoop/Spending.antt =====
-- What an advice costs of the advisor's budget.
use pirs.Prelude.{
  ℕ, suc, ◌+◌, ◌-◌, ◌%◌, ◌^◌, ◌≤◌, ◌<◌, ◌≡◌, refl, inl, inr, true, false, Option, none, some, List,
  arith, Bool-cases, leb,
}
use pirs.Prelude.Text.{Text}
use pirs.Prelude.Result.{Result, ok, err}
use pirs.Message.{Message, StreamEvent}
use pirs.Hybrid.{HybridInner, on_thrash, after_advice, advise}

-- The advisor calls that are left.
abbrev pub advice_left : Option HybridInner → ℕ
advice_left none = 0
advice_left (some hy) = hy.max_advisor_calls - hy.advisor_calls

-- The budget of advice is a machine number.
abbrev pub IsMachine : Option HybridInner → Type 0
IsMachine none = Unit {0}
IsMachine (some hy) = hy.max_advisor_calls < 2 ^ 64

advise-calls :
    {V : Type 0} (strong : Text → List (StreamEvent V)) (question context : Text) (h : HybridInner)
    → let h' = (advise strong question context h).0 in
      (h'.advisor_calls ≡ (h.advisor_calls + 1) % 2 ^ 64)
      × (h'.max_advisor_calls ≡ h.max_advisor_calls)
unfolding advise
advise-calls strong question context h = ground arith

after_advice-calls : (msg : Text) (p : HybridInner × Result Text) → (after_advice msg p).0 ≡ p.0
unfolding after_advice
after_advice-calls msg (h, ok g) = refl
after_advice-calls msg (h, err e) = refl

module _ {V : Type 0} (strong : Text → List (StreamEvent V)) where
  on_thrash-calls :
      (msg : Text) (messages : List (Message V)) (h : HybridInner)
      → leb h.max_advisor_calls h.advisor_calls ≡ false
      → let h' = (on_thrash strong msg messages h).0 in
        (h'.advisor_calls ≡ (h.advisor_calls + 1) % 2 ^ 64)
        × (h'.max_advisor_calls ≡ h.max_advisor_calls)
  unfolding on_thrash
  on_thrash-calls msg messages h e =
      rw (on_thrash, e, after_advice-calls) (advise-calls strong _ _ _)

  on_thrash-spent :
      (msg : Text) (messages : List (Message V)) (h : HybridInner)
      → leb h.max_advisor_calls h.advisor_calls ≡ true
      → (on_thrash strong msg messages h).1 ≡ none
  unfolding on_thrash
  on_thrash-spent msg messages h e = rw (on_thrash, e) refl

  -- An advice costs one call.
  pub on_thrash-left :
      (msg guidance : Text) (messages : List (Message V)) (h : HybridInner)
      → h.max_advisor_calls < 2 ^ 64
      → (on_thrash strong msg messages h).1 ≡ some guidance
      → let h' = some (on_thrash strong msg messages h).0 in
        (suc (advice_left h') ≤ advice_left (some h)) × IsMachine h'
  on_thrash-left msg guidance messages h l e =
      elim (Bool-cases (leb h.max_advisor_calls h.advisor_calls)) [
        | inl b ↦ let n = on_thrash-spent msg messages h b in absurd (cc)
        | inr b ↦ let (c, m) = on_thrash-calls msg messages h b in ground arith
      ]
