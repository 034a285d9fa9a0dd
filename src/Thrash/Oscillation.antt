-- ===== src/Thrash/Oscillation.antt =====
-- When a file whose content returns stops an agent.
use pirs.Prelude.{
  ℕ, zero, suc, ◌-◌, ◌≤◌, ◌≡◌, refl, ◌≢◌, true, none, some, List, [], ◌∷◌, ◌++◌, arith, ◌==◌,
  if◌then◌else◌,
}
use pirs.Prelude.Lists.{length, any, any-append, drop, length-append}
use pirs.Prelude.Text.{Text, text_eq, text_eq_iff, text_eq_refl}
use pirs.Thrash.Detectors.{
  keep_last, edit_oscillation, Hashes, history, set_history, last_of, returns, observe_write,
}

-- The history of a path after it is set.
history-set_history :
    (p q : Text) (hs : List ℕ) (m : Hashes)
    → history q (set_history p hs m) ≡ (if text_eq p q then hs else history q m)
unfolding history set_history
history-set_history p q hs [] = refl
history-set_history p q hs ((r, old) ∷ m) =
    ground (arith, text_eq_iff r p, text_eq_iff r q, text_eq_iff p q, history-set_history p q hs m)

last_of-concat : (hs : List ℕ) (h : ℕ) → last_of (hs ++ h ∷ []) ≡ some h
last_of-concat [] h = refl
last_of-concat (x ∷ []) h = refl
last_of-concat (x ∷ y ∷ hs) h = last_of-concat (y ∷ hs) h

-- What a write that does not trip leaves in the history of its path.
write_history :
    (path : Text) (h : ℕ) (m : Hashes)
    → (observe_write path h m).1 ≡ none
    → history path (observe_write path h m).0 ≡ keep_last 6 (history path m ++ h ∷ [])
unfolding observe_write
write_history path h m e = ground (
  arith,
  text_eq_refl path,
  history-set_history path path (keep_last 6 (history path m ++ h ∷ [])) m,
)

drop-append_left {ℓ} :
    {A : Type ℓ} (n : ℕ) (xs ys : List A) → n ≤ length xs → drop n (xs ++ ys) ≡ drop n xs ++ ys
drop-append_left zero xs ys h = refl
drop-append_left (suc n) [] ys h = absurd (omega arith)
drop-append_left (suc n) (x ∷ xs) ys h = drop-append_left n xs ys (omega arith)

keep_last-concat {ℓ} :
    {A : Type ℓ} (n : ℕ) (xs : List A) (x : A)
    → keep_last (suc n) (xs ++ x ∷ []) ≡ keep_last n xs ++ x ∷ []
unfolding keep_last
keep_last-concat n xs x =
    let same : length (xs ++ x ∷ []) - suc n ≡ length xs - n =
      omega (arith, length-append xs (x ∷ [])) in
    rw same (drop-append_left (length xs - n) xs (x ∷ []) (omega arith))

-- The window of six holds the last write and the one before.
last_two :
    (hs : List ℕ) (a b : ℕ)
    → (last_of (keep_last 6 (keep_last 6 (hs ++ a ∷ []) ++ b ∷ [])) ≡ some b)
      × (any (λ x. x == a) (keep_last 6 (keep_last 6 (hs ++ a ∷ []) ++ b ∷ [])) ≡ true)
last_two hs a b =
    let front = keep_last 4 (keep_last 5 hs) in
    let same : keep_last 6 (keep_last 6 (hs ++ a ∷ []) ++ b ∷ []) ≡ (front ++ a ∷ []) ++ b ∷ [] =
      rw (
        keep_last-concat 5 hs a,
        keep_last-concat 5 (keep_last 5 hs ++ a ∷ []) b,
        keep_last-concat 4 (keep_last 5 hs) a,
      ) in
    rw same (
      last_of-concat (front ++ a ∷ []) b,
      ground (
        arith,
        any-append (λ x. x == a) (front ++ a ∷ []) (b ∷ []),
        any-append (λ x. x == a) front (a ∷ []),
      ),
    )

-- A write trips exactly by the test on the history of its path.
write_trips :
    (path : Text) (h : ℕ) (m : Hashes)
    → (observe_write path h m).1
      ≡ (if returns h (history path m) then some (edit_oscillation path) else none)
unfolding observe_write
write_trips path h m = ground arith

-- Content that goes from A to B, with another hash, and back to A trips the detector at the third
-- write, whatever was written to the path before, if the first two writes did not trip it.
pub oscillation_trips :
    (path : Text) (a b : ℕ) (m : Hashes)
    → a ≢ b
    → (observe_write path a m).1 ≡ none
    → (observe_write path b (observe_write path a m).0).1 ≡ none
    → (observe_write path a (observe_write path b (observe_write path a m).0).0).1
      ≡ some (edit_oscillation path)
unfolding returns
oscillation_trips path a b m ne h k =
    let m' = (observe_write path a m).0 in
    let m'' = (observe_write path b m').0 in
    let (last, before) = last_two (history path m) a b in
    ground (
      arith,
      write_trips path a m'',
      write_history path a m h,
      write_history path b m' k,
      last,
      before,
    )

-- Writing the same content a second time in a row does not trip the detector if the first write did
-- not.
retry_passes :
    (path : Text) (a : ℕ) (m : Hashes)
    → (observe_write path a m).1 ≡ none
    → (observe_write path a (observe_write path a m).0).1 ≡ none
unfolding returns
retry_passes path a m h =
    let m' = (observe_write path a m).0 in
    ground (
      arith,
      write_trips path a m',
      write_history path a m h,
      keep_last-concat 5 (history path m) a,
      last_of-concat (keep_last 5 (history path m)) a,
    )
