-- ===== src/Hybrid/Advice.antt =====
-- The budget of advice, and when a thrash stops the agent.
use pirs.Prelude.{
  ℕ, suc, ◌+◌, ◌%◌, ◌^◌, ◌≤◌, ◌<◌, min, max, ◌≡◌, refl, ◌⊎◌, inl, inr, false, none, List, [], ◌∷◌,
  ◌++◌, arith, ltb, leb, leb→le, Bool-cases,
}
use pirs.Prelude.Lists.{length, take, length-append}
use pirs.Prelude.Text.{Text, lit}
use pirs.Prelude.Result.{Result, ok, err}
use pirs.Message.{StreamEvent, Message}
use pirs.Hybrid.{
  HybridInner, new, complete_text, advise, thrash_context, thrash_question, after_advice, on_thrash,
}

-- A call: by the thrash guard, or by the tool.
pub data Call (V : Type 0) : Type 0 where
  thrash : Text → List (Message V) → Call V
  ask : Text → Text → Call V

-- Every prompt was paid for, and within the budget.
abbrev IsPaid : HybridInner → Type 0
IsPaid h = length h.prompts ≡ min h.advisor_calls h.max_advisor_calls

after_advice-state : (msg : Text) (r : HybridInner × Result Text) → (after_advice msg r).0 ≡ r.0
unfolding after_advice
after_advice-state msg (h, ok g) = refl
after_advice-state msg (h, err e) = refl

after_advice-none :
    (msg : Text) (r : HybridInner × Result Text)
    → (after_advice msg r).1 ≡ none
    → (e : Text) × (r.1 ≡ err e)
unfolding after_advice
after_advice-none msg (h, ok g) n = absurd (ground arith)
after_advice-none msg (h, err e) n = (e, refl)

module _ {V : Type 0} (strong_model : Text → List (StreamEvent V)) where
  abbrev pub called : Call V → HybridInner → HybridInner
  called (thrash msg messages) h = (on_thrash strong_model msg messages h).0
  called (ask question context) h = (advise strong_model question context h).0

  abbrev pub run : List (Call V) → HybridInner → HybridInner
  run [] h = h
  run (c ∷ cs) h = run cs (called c h)

  advise-IsPaid :
      (question context : Text) (h : HybridInner)
      → h.advisor_calls + 1 < 2 ^ 64
      → IsPaid h
      → let h' = (advise strong_model question context h).0 in
        IsPaid h'
        × (h'.max_advisor_calls ≡ h.max_advisor_calls)
        × (h'.advisor_calls ≤ suc h.advisor_calls)
  unfolding advise
  advise-IsPaid question context h l p =
      let prompt = lit "Question:\n" ++ (question ++ (lit "\n\nContext:\n" ++ context)) in
      ground (arith, length-append h.prompts (prompt ∷ []))

  on_thrash-IsPaid :
      (msg : Text) (messages : List (Message V)) (h : HybridInner)
      → h.advisor_calls + 1 < 2 ^ 64
      → IsPaid h
      → let h' = (on_thrash strong_model msg messages h).0 in
        IsPaid h'
        × (h'.max_advisor_calls ≡ h.max_advisor_calls)
        × (h'.advisor_calls ≤ suc h.advisor_calls)
  unfolding on_thrash
  on_thrash-IsPaid msg messages h l p =
      let stage = (h.stage + 1) % 2 ^ 64 in
      let h' = record h { stage = stage; last_reasons = h.last_reasons ++ take 200 msg ∷ [] } in
      let context = thrash_context stage msg h.plan messages in
      let paid = advise-IsPaid (thrash_question h.task) context h' l p in
      elim (Bool-cases (leb h.max_advisor_calls h.advisor_calls)) [
        | inl e ↦ rw (on_thrash, e) (p, refl, omega arith)
        | inr e ↦ rw (on_thrash, e, after_advice-state) paid
      ]

  run-IsPaid :
      (cs : List (Call V)) (h : HybridInner)
      → h.advisor_calls + length cs < 2 ^ 64
      → IsPaid h
      → IsPaid (run cs h) × ((run cs h).max_advisor_calls ≡ h.max_advisor_calls)
  run-IsPaid [] h l p = (p, refl)
  run-IsPaid (thrash msg messages ∷ cs) h l p =
      let (p', m, n) = on_thrash-IsPaid msg messages h (omega arith) p in
      let (q, k) = run-IsPaid cs (on_thrash strong_model msg messages h).0 (omega arith) p' in
      (q, omega arith)
  run-IsPaid (ask question context ∷ cs) h l p =
      let (p', m, n) = advise-IsPaid question context h (omega arith) p in
      let (q, k) = run-IsPaid cs (advise strong_model question context h).0 (omega arith) p' in
      (q, omega arith)

  -- However the thrash guard and the tool call the advisor, fewer than 2 ^ 64 times, the strong model
  -- gets no more prompts in one run than the budget, which counts as at least one.
  pub prompts-budget :
      (task : Text) (budget : ℕ) (cs : List (Call V))
      → length cs < 2 ^ 64
      → length (run cs (new task budget)).prompts ≤ max budget 1
  unfolding new
  prompts-budget task budget cs l =
      let (p, m) = run-IsPaid cs (new task budget) (omega arith) (omega arith) in omega arith

  advise-sends :
      (question context : Text) (h : HybridInner)
      → h.advisor_calls < h.max_advisor_calls
      → h.advisor_calls + 1 < 2 ^ 64
      → (prompt : Text) × ((advise strong_model question context h).0.prompts
          ≡ h.prompts ++ prompt ∷ [])
        × ((advise strong_model question context h).1 ≡ complete_text (strong_model prompt))
  unfolding advise
  advise-sends question context h b l =
      let fits : ltb h.max_advisor_calls ((h.advisor_calls + 1) % 2 ^ 64) ≡ false = ground arith in
      (
        lit "Question:\n" ++ (question ++ (lit "\n\nContext:\n" ++ context)),
        rw (advise, fits) refl,
        rw (advise, fits) refl,
      )

  -- While the counter of advisor calls does not wrap, a thrash stops the agent only if the budget was
  -- spent before, and then nothing changes, or if the strong model's answer to one prompt failed.
  pub on_thrash-none :
      (msg : Text) (messages : List (Message V)) (h : HybridInner)
      → h.advisor_calls + 1 < 2 ^ 64
      → (on_thrash strong_model msg messages h).1 ≡ none
      → ((h.max_advisor_calls ≤ h.advisor_calls) × ((on_thrash strong_model msg messages h).0 ≡ h))
        ⊎ ((prompt : Text) × (e : Text) × ((on_thrash strong_model msg messages h).0.prompts
              ≡ h.prompts ++ prompt ∷ [])
            × (complete_text (strong_model prompt) ≡ err e))
  unfolding on_thrash
  on_thrash-none msg messages h l n =
      let stage = (h.stage + 1) % 2 ^ 64 in
      let h' = record h { stage = stage; last_reasons = h.last_reasons ++ take 200 msg ∷ [] } in
      let context = thrash_context stage msg h.plan messages in
      let question = thrash_question h.task in
      elim (Bool-cases (leb h.max_advisor_calls h.advisor_calls)) [
        | inl e ↦ inl (leb→le _ _ e, rw (on_thrash, e) refl)
        | inr e ↦
            let (prompt, sent, said) = advise-sends question context h' (ground arith) l in
            let stops : (after_advice msg (advise strong_model question context h')).1 ≡ none =
              rw (on_thrash, e) at n in
            let (f, failed) =
              after_advice-none msg (advise strong_model question context h') stops in
            inr (prompt, f, rw (on_thrash, e, after_advice-state) sent, cc)
      ]
