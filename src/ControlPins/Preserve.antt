-- ===== src/ControlPins/Preserve.antt =====
-- What `preserve_control_pins` restores and keeps.
use pirs.Prelude.{
  ℕ, suc, ◌≡◌, refl, ap, inl, inr, Bool, true, false, ◌&&◌, ltb, Option, none, some, List, [], ◌∷◌,
  arith, if◌then◌else◌, Bool-cases, Option-cases,
}
use pirs.Prelude.Lists.{any, count}
use pirs.Prelude.Text.{Text, text_eq, one_of, eq_of_text_eq, text_eq_iff, text_eq_refl}
use pirs.Message.{Message}
use pirs.ControlPins.Pins.{
  is_reminder_kind, same_kind, message_reminder_kind, find_last, insert_before_last, preserve_kind,
  preserve_kinds, protected_kinds, preserve_control_pins,
}

-- A text has one kind.
same_kind_unique :
    (k k' : Text) (o : Option Text) → same_kind o k' ≡ true → same_kind o k ≡ text_eq k' k
same_kind_unique k k' none h = absurd (cc)
same_kind_unique k k' (some x) h = ap (λ t. text_eq t k) (eq_of_text_eq x k' h)

module _ {V : Type 0} where
  count-insert :
      (p : Message V → Bool) (m : Message V) (ms : List (Message V))
      → count p (insert_before_last m ms) ≡ (if p m then suc (count p ms) else count p ms)
  unfolding insert_before_last
  count-insert p m [] = refl
  count-insert p m (x ∷ []) = ground arith
  count-insert p m (x ∷ y ∷ ms) = ground (arith, count-insert p m (y ∷ ms))

  any-count : (p : Message V → Bool) (ms : List (Message V)) → any p ms ≡ ltb 0 (count p ms)
  any-count p [] = refl
  any-count p (m ∷ ms) = ground (arith, any-count p ms)

  -- The search from the end finds a message exactly if there is one.
  abbrev FindSpec : (Message V → Bool) → List (Message V) → Option (Message V) → Type 0
  FindSpec p ms none = any p ms ≡ false
  FindSpec p ms (some m) = (any p ms ≡ true) × (p m ≡ true)

  find_last-FindSpec :
      (p : Message V → Bool) (ms : List (Message V)) → FindSpec p ms (find_last p ms)
  unfolding find_last
  find_last-FindSpec p [] = refl
  find_last-FindSpec p (m ∷ ms) = elim (Option-cases (find_last p ms)) [
    | inl e ↦ elim (Bool-cases (p m)) [
      | inl f ↦ rw (e, f) (ground arith, f)
      | inr f ↦
          let rest : FindSpec p ms none = rw e at (find_last-FindSpec p ms) in
          rw (e, f) (ground arith)
    ]
    | inr (x, e) ↦
        let found : FindSpec p ms (some x) = rw e at (find_last-FindSpec p ms) in
        rw e (ground arith, found.1)
  ]

  kind_unique :
      (k k' : Text) (m : Message V)
      → is_reminder_kind k' m ≡ true
      → is_reminder_kind k m ≡ text_eq k' k
  unfolding is_reminder_kind
  kind_unique k k' m h = same_kind_unique k k' (message_reminder_kind m) h

  -- How many messages of a kind a round leaves.
  abbrev round_total : List (Message V) → List (Message V) → Text → Text → ℕ
  round_total before after k k' =
      if any (is_reminder_kind k') after
      then count (is_reminder_kind k) after
      else if any (is_reminder_kind k') before && text_eq k' k
      then suc (count (is_reminder_kind k) after)
      else count (is_reminder_kind k) after

  preserve_kind-count :
      (before after : List (Message V)) (k k' : Text)
      → count (is_reminder_kind k) (preserve_kind before k' after) ≡ round_total before after k k'
  unfolding preserve_kind
  preserve_kind-count before after k k' =
      elim (Option-cases (find_last (is_reminder_kind k') before)) [
        | inl e ↦
            let absent : FindSpec (is_reminder_kind k') before none =
              rw e at (find_last-FindSpec (is_reminder_kind k') before) in
            ground arith
        | inr (m, e) ↦
            let found : FindSpec (is_reminder_kind k') before (some m) =
              rw e at (find_last-FindSpec (is_reminder_kind k') before) in
            ground (arith, count-insert (is_reminder_kind k) m after, kind_unique k k' m found.1)
      ]

  -- How many messages of a kind the whole loop leaves.
  abbrev pub pinned_total : List (Message V) → List (Message V) → Text → List Text → ℕ
  pinned_total before after k kinds =
      if any (is_reminder_kind k) after
      then count (is_reminder_kind k) after
      else if one_of k kinds && any (is_reminder_kind k) before
      then 1
      else 0

  preserve_kinds-count :
      (kinds : List Text) (before after : List (Message V)) (k : Text)
      → count (is_reminder_kind k) (preserve_kinds kinds before after)
        ≡ pinned_total before after k kinds
  unfolding preserve_kinds one_of
  preserve_kinds-count [] before after k = ground (arith, any-count (is_reminder_kind k) after)
  preserve_kinds-count (k' ∷ kinds) before after k = ground (
    arith,
    preserve_kinds-count kinds before (preserve_kind before k' after) k,
    preserve_kind-count before after k k',
    any-count (is_reminder_kind k) after,
    any-count (is_reminder_kind k) (preserve_kind before k' after),
    text_eq_iff k' k,
    text_eq_iff k k',
    text_eq_refl k,
  )

  -- For every kind: if the rewritten context still has messages of the kind, it keeps just those;
  -- if it has none, it gets one back exactly if the kind is protected and was there before.
  pub preserve_control_pins-count :
      (before after : List (Message V)) (k : Text)
      → count (is_reminder_kind k) (preserve_control_pins before after) ≡ (
          if any (is_reminder_kind k) after
          then count (is_reminder_kind k) after
          else if one_of k protected_kinds && any (is_reminder_kind k) before
          then 1
          else 0)
  unfolding preserve_control_pins
  preserve_control_pins-count before after k = preserve_kinds-count protected_kinds before after k
