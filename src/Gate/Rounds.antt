-- ===== src/Gate/Rounds.antt =====
-- What each outcome of a gated run means.
use pirs.Prelude.{ℕ, zero, suc, ◌+◌, ◌<◌, max, ◌≡◌, refl, Option, none, some, arith, ◌>>=◌}
use pirs.Prelude.Text.{Text}
use pirs.Prelude.Result.{Result, ok, err}
use pirs.Gate.{GateOutcome, passed_on, exhausted, text_or_default, gate_loop, run_gated}

module _ {W : Type 0} (attempt : Option Text → W → W × Result Unit)
    (verify : W → W × Option Text) where
  -- One round whose gate fails: the world after it, and the failure that the next attempt gets.
  abbrev pub failed_round : Option Text × W → Option (Option Text × W)
  failed_round (verdict, w) =
      let (w', tried) = attempt verdict w in
      let (w'', checked) = verify w' in
      elim tried [
        | err e ↦ none
        | ok _ ↦ elim checked [ none ↦ none | some failure ↦ some (some failure, w'') ]
      ]

  -- `n` rounds, all of which fail.
  abbrev pub failed_rounds : ℕ → Option Text × W → Option (Option Text × W)
  failed_rounds zero s = some s
  failed_rounds (suc n) s = failed_round s >>= failed_rounds n

  -- What an outcome says of the rounds that were run.
  abbrev pub IsOutcome : ℕ → ℕ → Option Text × W → W × Result GateOutcome → Type 0
  IsOutcome left i s (w, ok (passed_on j)) =
      (n : ℕ) × (verdict : Option Text) × (v : W) × (w' : W) × (j ≡ i + n)
      × (n < left)
      × (failed_rounds n s ≡ some (verdict, v))
      × (attempt verdict v ≡ (w', ok tt))
      × (verify w' ≡ (w, none))
  IsOutcome left i s (w, ok (exhausted failure)) =
      (verdict : Option Text) × (failed_rounds left s ≡ some (verdict, w))
      × (failure ≡ text_or_default verdict)
  IsOutcome left i s (w, err e) =
      (n : ℕ) × (verdict : Option Text) × (v : W) × (n < left)
      × (failed_rounds n s ≡ some (verdict, v))
      × (attempt verdict v ≡ (w, err e))

  -- A failed round in front of the others.
  IsOutcome-suc :
      (left i : ℕ) (s s' : Option Text × W) (r : W × Result GateOutcome)
      → failed_round s ≡ some s'
      → IsOutcome left (i + 1) s' r
      → IsOutcome (suc left) i s r
  IsOutcome-suc left i s s' (w, ok (passed_on j)) h
        (n, verdict, v, w', num, bound, before, tried, gate) =
      (suc n, verdict, v, w', omega arith, omega arith, rw h before, tried, gate)
  IsOutcome-suc left i s s' (w, ok (exhausted f)) h (verdict, before, same) =
      (verdict, rw h before, same)
  IsOutcome-suc left i s s' (w, err e) h (n, verdict, v, bound, before, tried) =
      (suc n, verdict, v, omega arith, rw h before, tried)

  failed_round-some :
      (verdict : Option Text) (w : W) {w' w'' : W} {failure : Text}
      → attempt verdict w ≡ (w', ok tt)
      → verify w' ≡ (w'', some failure)
      → failed_round (verdict, w) ≡ some (some failure, w'')
  failed_round-some verdict w t c = ground arith

  erring_round :
      (left i : ℕ) (verdict : Option Text) (w : W) {w' : W} {e : Text}
      → attempt verdict w ≡ (w', err e)
      → gate_loop attempt verify (suc left) i verdict w ≡ (w', err e)
  unfolding gate_loop
  erring_round left i verdict w t = ground arith

  passing_round :
      (left i : ℕ) (verdict : Option Text) (w : W) {w' w'' : W}
      → attempt verdict w ≡ (w', ok tt)
      → verify w' ≡ (w'', none)
      → gate_loop attempt verify (suc left) i verdict w ≡ (w'', ok (passed_on i))
  unfolding gate_loop
  passing_round left i verdict w t c = ground arith

  failing_round :
      (left i : ℕ) (verdict : Option Text) (w : W) {w' w'' : W} {failure : Text}
      → attempt verdict w ≡ (w', ok tt)
      → verify w' ≡ (w'', some failure)
      → gate_loop attempt verify (suc left) i verdict w
        ≡ gate_loop attempt verify left (i + 1) (some failure) w''
  unfolding gate_loop
  failing_round left i verdict w t c = ground arith

  gate_loop-IsOutcome :
      (left i : ℕ) (verdict : Option Text) (w : W)
      → IsOutcome left i (verdict, w) (gate_loop attempt verify left i verdict w)
  unfolding gate_loop
  gate_loop-IsOutcome zero i verdict w = (verdict, refl, refl)
  gate_loop-IsOutcome (suc left) i verdict w =
      tried (attempt verdict w) refl
        (λ failure w''. gate_loop-IsOutcome left (i + 1) (some failure) w'')
    where
      Later : Type 0
      Later =
          (failure : Text) (w'' : W)
          → IsOutcome left (i + 1) (some failure, w'')
              (gate_loop attempt verify left (i + 1) (some failure) w'')

      checked :
          (w' : W) (r : W × Option Text)
          → attempt verdict w ≡ (w', ok tt)
          → verify w' ≡ r
          → Later
          → IsOutcome (suc left) i (verdict, w) (gate_loop attempt verify (suc left) i verdict w)
      checked w' (w'', none) t c later =
          let ended : gate_loop attempt verify (suc left) i verdict w ≡ (w'', ok (passed_on i)) =
            passing_round left i verdict w t c in
          rw ended (0, verdict, w, w', omega arith, omega arith, refl, t, c)
      checked w' (w'', some failure) t c later =
          let again : gate_loop attempt verify (suc left) i verdict w
              ≡ gate_loop attempt verify left (i + 1) (some failure) w'' =
            failing_round left i verdict w t c in
          let one : failed_round (verdict, w) ≡ some (some failure, w'') =
            failed_round-some verdict w t c in
          IsOutcome-suc left i (verdict, w) (some failure, w'')
            (gate_loop attempt verify (suc left) i verdict w) one (rw again (later failure w''))

      tried :
          (r : W × Result Unit)
          → attempt verdict w ≡ r
          → Later
          → IsOutcome (suc left) i (verdict, w) (gate_loop attempt verify (suc left) i verdict w)
      tried (w', err e) t later =
          let ended : gate_loop attempt verify (suc left) i verdict w ≡ (w', err e) =
            erring_round left i verdict w t in
          rw ended (0, verdict, w, omega arith, refl, t)
      tried (w', ok done) t later = checked w' (verify w') t refl later

  -- A gated run passes at an attempt in range whose gate passed after all earlier gates had failed,
  -- each attempt having got the failure before; or it is exhausted with the last failure after
  -- all attempts (at least one) failed their gate; or it stops at the first attempt that errs.
  pub run_gated-IsOutcome :
      (max_attempts : ℕ) (w : W)
      → IsOutcome (max max_attempts 1) 1 (none, w) (run_gated attempt verify max_attempts w)
  unfolding run_gated
  run_gated-IsOutcome max_attempts w = gate_loop-IsOutcome (max max_attempts 1) 1 none w
