-- ===== src/Thrash/Samples.antt =====
-- Detectors on concrete calls.
use pirs.Prelude.{
  ◌≡◌, refl, ◌≢◌, true, false, ◌&&◌, none, some, [], ◌∷◌, arith, leb, max, if◌then◌else◌,
}
use pirs.Prelude.Text.{lit, text_eq}
use pirs.Thrash.Detectors.{
  ToolSignature, new_loops, observe, keep_last, mistake_limit, edit_oscillation, new_mistakes,
  observe_error, Hashes, returns, history, set_history, observe_write,
}
use pirs.Thrash.Trips.{
  trailing, itself, observe_times, repeats_trip, observe_errors, mistakes_exact,
}
use pirs.Thrash.Oscillation.{oscillation_trips}

-- Evaluates the detectors.
thrash : Unit {0}
unfolding new_loops observe keep_last observe_write returns history set_history text_eq lit
thrash = tt

abbrev read_call : ToolSignature
read_call = record { name = lit "read"; args_key = lit "{}" }

repeats_trip_example : (observe read_call (observe_times 2 read_call (new_loops 12 3))).1 ≢ none
repeats_trip_example =
    repeats_trip 2 read_call (new_loops 12 3) (unfold thrash in omega arith)
      (unfold thrash in omega arith)

mistakes_exact_example :
    (observe_error true (observe_errors (true ∷ false ∷ true ∷ []) (new_mistakes 2))).1 ≡ (
      if true && leb (max 2 2) (trailing itself (true ∷ false ∷ true ∷ true ∷ []))
      then some (mistake_limit (trailing itself (true ∷ false ∷ true ∷ true ∷ [])))
      else none)
mistakes_exact_example = mistakes_exact 2 (true ∷ false ∷ true ∷ []) true (omega arith)

abbrev no_writes : Hashes
no_writes = []

oscillation_trips_example :
    (observe_write
      (lit "a.rs")
      1
      (observe_write (lit "a.rs") 2 (observe_write (lit "a.rs") 1 no_writes).0).0).1
    ≡ some (edit_oscillation (lit "a.rs"))
oscillation_trips_example =
    oscillation_trips (lit "a.rs") 1 2 no_writes (λ e. omega arith) (unfold thrash in refl)
      (unfold thrash in refl)
