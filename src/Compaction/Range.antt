-- ===== src/Compaction/Range.antt =====
-- The range of the cut point, and when there is one.
use pirs.Prelude.{
  ℕ, zero, suc, ◌+◌, ◌≤◌, ◌<◌, min, ◌≡◌, refl, ap, sym, ◌∙◌, ◌≢◌, ◌⊎◌, inl, inr, true, false,
  Option, none, some, List, [], ◌∷◌, arith,
}
use pirs.Prelude.Lists.{length, get_elem?, drop, drop-nil, drop-suc}
use pirs.Message.{Message, is_user, is_tool_result}
use pirs.Compaction.Cut.{
  holds, kind_at, leading_results, advance, settle, cut_of, snap_cut_to_tool_pair_boundary,
  in_range, tokens_at, emergency_scan, last_resort, emergency_token_cut, cut_scan, after_scan,
  retained_turns, find_cut_point_ex,
}
use pirs.Compaction.Boundary.{user-clean, pull_back-clean}

abbrev pub IsInside {ℓ} : {A : Type ℓ} → List A → ℕ → Type 0
IsInside ms c = (0 < c) × (c < length ms)

module _ {V : Type 0} where
  in_range-IsInside : (ms : List (Message V)) (c : ℕ) → in_range ms c ≡ true → IsInside ms c
  in_range-IsInside ms c h = ground arith

  -- A cut that is not on a tool result stays where it is.
  snap_fixed :
      (ms : List (Message V)) (c : ℕ)
      → 0 < c
      → c < length ms
      → kind_at is_user ms c ≡ true
      → snap_cut_to_tool_pair_boundary ms c ≡ c
  unfolding snap_cut_to_tool_pair_boundary settle advance
  snap_fixed [] c p h k = absurd (omega arith)
  snap_fixed (m ∷ ms) c p h k =
      let same : min c (suc (length ms)) ≡ c = omega arith in
      rw same (settled (drop c (m ∷ ms)) refl)
    where
      settled :
          (rest : List (Message V))
          → drop c (m ∷ ms) ≡ rest
          → cut_of (m ∷ ms) (settle (m ∷ ms) c rest) ≡ c
      settled [] e = absurd (ground (arith, k, drop-nil c (m ∷ ms) e))
      settled (x ∷ rest) e =
          let (_, at_c, _) = drop-suc c (m ∷ ms) e in
          let clean = user-clean (get_elem? (m ∷ ms) c) k in
          let no_result : is_tool_result x ≡ false = ap (holds is_tool_result) (sym at_c) ∙ clean in
          rw (no_result, pull_back-clean (m ∷ ms) c (omega arith) (inr clean), e, leading_results)
            (rw no_result (omega arith))

  module _ (estimate : Message V → ℕ) where
    emergency_scan-IsInside :
        (ms : List (Message V)) (keep n acc c : ℕ)
        → emergency_scan estimate ms keep n acc ≡ some c
        → IsInside ms c
    unfolding emergency_scan
    emergency_scan-IsInside ms keep zero acc c e = absurd (cc)
    emergency_scan-IsInside ms keep (suc i) acc c e =
        ground (arith, emergency_scan-IsInside ms keep i (acc + tokens_at estimate ms i) c)

    last_resort-IsInside :
        (ms : List (Message V)) (c : ℕ) → last_resort estimate ms ≡ some c → IsInside ms c
    unfolding last_resort
    last_resort-IsInside ms c e = ground arith

    last_resort-some : (ms : List (Message V)) → 2 ≤ length ms → last_resort estimate ms ≢ none
    unfolding last_resort
    last_resort-some ms h e = ground arith

    emergency-IsInside :
        (ms : List (Message V)) (keep c : ℕ)
        → emergency_token_cut estimate ms keep ≡ some c
        → IsInside ms c
    unfolding emergency_token_cut
    emergency-IsInside ms keep c e =
        ground (arith, emergency_scan-IsInside ms keep (length ms) 0 c, last_resort-IsInside ms c)

    emergency-some :
        (ms : List (Message V)) (keep : ℕ)
        → 3 ≤ length ms
        → emergency_token_cut estimate ms keep ≢ none
    unfolding emergency_token_cut
    emergency-some ms keep h e = ground (arith, last_resort-some ms)

    cut_scan-user :
        (ms : List (Message V)) (keep turns n acc : ℕ) (cut : Option ℕ) (seen c : ℕ)
        → cut_scan estimate ms keep turns n acc cut seen ≡ some c
        → (cut ≡ some c) ⊎ ((c < n) × (kind_at is_user ms c ≡ true))
    unfolding cut_scan
    cut_scan-user ms keep turns zero acc cut seen c e = inl e
    cut_scan-user ms keep turns (suc i) acc cut seen c e = ground (
      arith,
      cut_scan-user ms keep turns i (acc + tokens_at estimate ms i) (some i) (suc seen) c,
      cut_scan-user ms keep turns i (acc + tokens_at estimate ms i) cut seen c,
    )

    after_scan-IsInside :
        (ms : List (Message V)) (keep : ℕ) (o : Option ℕ) (c : ℕ)
        → ((k : ℕ) → o ≡ some k → (k < length ms) × (kind_at is_user ms k ≡ true))
        → after_scan estimate ms keep o ≡ some c
        → IsInside ms c
    unfolding after_scan
    after_scan-IsInside ms keep none c h e = emergency-IsInside ms keep c e
    after_scan-IsInside ms keep (some zero) c h e = emergency-IsInside ms keep c e
    after_scan-IsInside ms keep (some (suc k)) c h e =
        ground (arith, h (suc k) refl, snap_fixed ms (suc k))

    after_scan-some :
        (ms : List (Message V)) (keep : ℕ) (o : Option ℕ)
        → 3 ≤ length ms
        → after_scan estimate ms keep o ≢ none
    unfolding after_scan
    after_scan-some ms keep none h e = emergency-some ms keep h e
    after_scan-some ms keep (some zero) h e = emergency-some ms keep h e
    after_scan-some ms keep (some (suc k)) h e = ground (arith, emergency-some ms keep)

    -- A cut drops at least one message and keeps at least one.
    pub find_cut_point_ex-IsInside :
        (ms : List (Message V)) (keep turns c : ℕ)
        → find_cut_point_ex estimate ms keep turns ≡ some c
        → IsInside ms c
    unfolding find_cut_point_ex
    find_cut_point_ex-IsInside ms keep turns c e =
        let scanned =
          cut_scan estimate ms keep (retained_turns estimate ms turns) (length ms) 0 none 0 in
        ground (
          arith,
          after_scan-IsInside ms keep scanned c (λ k f. ground (
            arith,
            cut_scan-user ms keep (retained_turns estimate ms turns) (length ms) 0 none 0 k f,
          )),
        )

    -- A conversation of three messages or more always has a cut, also with a single user message.
    pub find_cut_point_ex-ne-none :
        (ms : List (Message V)) (keep turns : ℕ)
        → 3 ≤ length ms
        → find_cut_point_ex estimate ms keep turns ≢ none
    unfolding find_cut_point_ex
    find_cut_point_ex-ne-none ms keep turns h e =
        let scanned =
          cut_scan estimate ms keep (retained_turns estimate ms turns) (length ms) 0 none 0 in
        ground (arith, after_scan-some ms keep scanned h)
