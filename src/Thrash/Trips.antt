-- ===== src/Thrash/Trips.antt =====
-- When the detectors of repeated calls and of failures stop an agent, and when they do not.
use pirs.Prelude.{
  ◌<◌, ◌%◌, ◌^◌, ℕ, zero, suc, ◌+◌, ◌-◌, ◌≤◌, ◌<◌, min, max, ◌≡◌, refl, ◌≢◌, Bool, true, false,
  ◌&&◌, none, some, List, [], ◌∷◌, ◌++◌, arith, leb, ◌==◌, if◌then◌else◌,
}
use pirs.Prelude.Lists.{length, count, drop, length-append, length-drop, count-le-length}
use pirs.Prelude.Text.{text_eq_refl}
use pirs.Thrash.Detectors.{
  ToolSignature, same_signature, LoopDetectionTracker, keep_last, mistake_limit, observe,
  MistakeTracker, new_mistakes, observe_error,
}

-- How many elements at the end of a list pass a test.
abbrev pub trailing {ℓ} : {A : Type ℓ} → (A → Bool) → List A → ℕ
trailing p [] = 0
trailing p (x ∷ xs) =
    if p x && (trailing p xs == length xs) then suc (trailing p xs) else trailing p xs

module _ {ℓ} {A : Type ℓ} (p : A → Bool) where
  trailing-le-length : (xs : List A) → trailing p xs ≤ length xs
  trailing-le-length [] = omega arith
  trailing-le-length (x ∷ xs) = ground (arith, trailing-le-length xs)

  trailing-le-count : (xs : List A) → trailing p xs ≤ count p xs
  trailing-le-count [] = omega arith
  trailing-le-count (x ∷ xs) = ground (arith, trailing-le-count xs)

  trailing-concat :
      (xs : List A) (x : A) → trailing p (xs ++ x ∷ []) ≡ (if p x then suc (trailing p xs) else 0)
  trailing-concat [] x = ground arith
  trailing-concat (y ∷ xs) x =
      ground (arith, trailing-concat xs x, length-append xs (x ∷ []), trailing-le-length xs)

  trailing-drop :
      (n : ℕ) (xs : List A) → trailing p (drop n xs) ≡ min (trailing p xs) (length xs - n)
  trailing-drop zero xs = omega (arith, trailing-le-length xs)
  trailing-drop (suc n) [] = omega arith
  trailing-drop (suc n) (x ∷ xs) = ground (arith, trailing-drop n xs, trailing-le-length xs)

length-keep_last {ℓ} : {A : Type ℓ} (n : ℕ) (xs : List A) → length (keep_last n xs) ≤ n
unfolding keep_last
length-keep_last n xs = omega (arith, length-drop (length xs - n) xs)

trailing-keep_last {ℓ} :
    {A : Type ℓ} (p : A → Bool) (n : ℕ) (xs : List A)
    → trailing p (keep_last n xs) ≡ min (trailing p xs) n
unfolding keep_last
trailing-keep_last p n xs =
    omega (arith, trailing-drop p (length xs - n) xs, trailing-le-length p xs)

same_signature_refl : (s : ToolSignature) → same_signature s s ≡ true
same_signature_refl s = rw (text_eq_refl s.name, text_eq_refl s.args_key)

-- The same call, observed again and again.
unfoldable pub observe_times : ℕ → ToolSignature → LoopDetectionTracker → LoopDetectionTracker
observe_times zero sig t = t
observe_times (suc n) sig t = (observe sig (observe_times n sig t)).0

observe_times-state :
    (n : ℕ) (sig : ToolSignature) (t : LoopDetectionTracker)
    → let t' = observe_times n sig t in
      (t'.window ≡ t.window)
      × (t'.max_repeats ≡ t.max_repeats)
      × (min n t.window ≤ trailing (λ s. same_signature s sig) t'.recent)
unfolding observe_times observe
observe_times-state zero sig t = (refl, refl, omega arith)
observe_times-state (suc n) sig t =
    let t' = observe_times n sig t in
    let (w, m, ih) = observe_times-state n sig t in
    (
      w,
      m,
      ground (
        arith,
        ih,
        w,
        same_signature_refl sig,
        trailing-concat (λ s. same_signature s sig) t'.recent sig,
        trailing-keep_last (λ s. same_signature s sig) t'.window (t'.recent ++ sig ∷ []),
      ),
    )

-- Whatever was called before, the same call made as often in a row as the limit says stops the
-- agent, if the window can hold that many calls.
pub repeats_trip :
    (n : ℕ) (sig : ToolSignature) (t : LoopDetectionTracker)
    → t.max_repeats ≤ suc n
    → t.max_repeats ≤ t.window
    → (observe sig (observe_times n sig t)).1 ≢ none
unfolding observe_times observe
repeats_trip n sig t h k e =
    let t' = observe_times n sig t in
    let recent = keep_last t'.window (t'.recent ++ sig ∷ []) in
    ground (
      arith,
      observe_times-state n sig t,
      observe_times-state (suc n) sig t,
      trailing-le-count (λ s. same_signature s sig) recent,
    )

-- A limit above the window never stops anything.
limit_above_window :
    (sig : ToolSignature) (t : LoopDetectionTracker)
    → t.window < t.max_repeats
    → (observe sig t).1 ≡ none
unfolding observe
limit_above_window sig t h = ground (
  arith,
  count-le-length (λ s. same_signature s sig) (keep_last t.window (t.recent ++ sig ∷ [])),
  length-keep_last t.window (t.recent ++ sig ∷ []),
)

-- A run of tool results, `true` for an error.
unfoldable pub observe_errors : List Bool → MistakeTracker → MistakeTracker
observe_errors [] m = m
observe_errors (e ∷ es) m = observe_errors es (observe_error e m).0

abbrev pub itself : Bool → Bool
itself b = b

observe_errors-state :
    (es : List Bool) (m : MistakeTracker)
    → m.streak + length es < 2 ^ 64
    → ((observe_errors es m).max_consecutive ≡ m.max_consecutive)
      × ((observe_errors es m).streak
          ≡ (if trailing itself es == length es then m.streak + length es else trailing itself es))
unfolding observe_errors observe_error
observe_errors-state [] m h = (refl, omega arith)
observe_errors-state (true ∷ es) m h =
    let next : (m.streak + 1) % 2 ^ 64 ≡ m.streak + 1 = omega arith in
    ground (
      arith,
      next,
      trailing-le-length itself es,
      observe_errors-state es (record m { streak = (m.streak + 1) % 2 ^ 64 }) (omega (arith, next)),
    )
observe_errors-state (false ∷ es) m h = ground (
  arith,
  trailing-le-length itself es,
  observe_errors-state es (record m { streak = 0 }) (omega arith),
)

-- Over fewer than 2 ^ 64 tool results, a new tracker stops the agent exactly at an error that ends a
-- run of at least the limit (and at least two) consecutive errors, and names the length of that run.
pub mistakes_exact :
    (limit : ℕ) (es : List Bool) (e : Bool)
    → length es + 1 < 2 ^ 64
    → (observe_error e (observe_errors es (new_mistakes limit))).1 ≡ (
        if e && leb (max limit 2) (trailing itself (es ++ e ∷ []))
        then some (mistake_limit (trailing itself (es ++ e ∷ [])))
        else none)
unfolding observe_error new_mistakes
mistakes_exact limit es e h = ground (
  arith,
  trailing-concat itself es e,
  trailing-le-length itself es,
  observe_errors-state es (record { max_consecutive = max limit 2; streak = 0 }) (omega arith),
)
