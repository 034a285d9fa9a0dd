-- ===== src/Hybrid/Samples.antt =====
-- An advisor that answers, and one whose stream fails.
use pirs.Prelude.{◌≤◌, ◌≡◌, refl, ◌⊎◌, max, List, [], ◌∷◌, ◌++◌, arith}
use pirs.Prelude.Lists.{length}
use pirs.Prelude.Text.{Text, lit}
use pirs.Prelude.Result.{err}
use pirs.SampleJson.{SampleValue}
use pirs.Message.{StreamEvent, text_delta, stream_error}
use pirs.Hybrid.{new, advise, after_advice, on_thrash, complete_text, complete_loop}
use pirs.Hybrid.Advice.{Call, thrash, ask, run, prompts-budget, on_thrash-none}

abbrev answers : Text → List (StreamEvent SampleValue)
answers prompt = text_delta (lit "Read the test first.") ∷ []

abbrev fails : Text → List (StreamEvent SampleValue)
fails prompt = stream_error (lit "overloaded") ∷ []

abbrev calls : List (Call SampleValue)
calls = thrash (lit "loop") [] ∷ ask (lit "how?") (lit "") ∷ thrash (lit "loop") [] ∷ []

prompts-budget_example : length (run answers calls (new (lit "fix it") 2)).prompts ≤ max 2 1
prompts-budget_example = prompts-budget answers (lit "fix it") 2 calls (omega arith)

on_thrash-none_example :
    (((new (lit "fix it") 2).max_advisor_calls ≤ (new (lit "fix it") 2).advisor_calls)
      × ((on_thrash fails (lit "loop") [] (new (lit "fix it") 2)).0 ≡ new (lit "fix it") 2))
    ⊎ ((prompt : Text) × (e : Text) × ((on_thrash fails
            (lit "loop")
            []
            (new (lit "fix it") 2)).0.prompts
          ≡ (new (lit "fix it") 2).prompts ++ prompt ∷ [])
        × (complete_text (fails prompt) ≡ err e))
on_thrash-none_example =
    on_thrash-none fails (lit "loop") [] (new (lit "fix it") 2) (unfold new in omega arith)
      (unfold new on_thrash after_advice advise complete_text complete_loop in refl)
