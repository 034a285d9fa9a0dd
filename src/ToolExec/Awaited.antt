-- ===== src/ToolExec/Awaited.antt =====
-- While a parallel batch is prepared, every slot is filled, awaits a job or is still to come.
use pirs.Prelude.{
  ℕ, zero, suc, ◌+◌, ◌≤◌, ◌<◌, ◌≡◌, refl, ap, ◌∙◌, ◌⊎◌, inl, inr, Bool, true, false, ◌||◌, Option,
  none, some, List, [], ◌∷◌, ◌++◌, arith, ◌==◌, Bool-cases,
}
use pirs.Prelude.Lists.{length}
use pirs.Json.{JsonLib}
use pirs.Message.{ToolResultMessage}
use pirs.Thrash.Detectors.{Stop}
use pirs.ToolExec.Host.{AgentTool, ToolCallData, Hooks, Host, Run}
use pirs.ToolExec.Prepare.{ReadyCall, Prepared, ready, refused}
use pirs.ToolExec.Execute.{skip_pending}
use pirs.ToolExec.Batch.{set_slot, Pass, put_result, queue, queue_guarded, prepare_one, prepare_all}
use pirs.ToolExec.Named.{index_of, prepare_call-IsPrepared}

-- The slot at a position is filled.
abbrev pub filled_at : {A : Type 0} → ℕ → List (Option A) → Bool
filled_at i [] = false
filled_at zero (none ∷ os) = false
filled_at zero (some a ∷ os) = true
filled_at (suc i) (o ∷ os) = filled_at i os

-- Every slot is filled or awaited.
abbrev pub Awaits : {A : Type 0} → (ℕ → Type 0) → List (Option A) → Type 0
Awaits P os = (i : ℕ) → i < length os → (filled_at i os ≡ true) ⊎ P i

length-set_slot :
    {A : Type 0} (k : ℕ) (a : A) (os : List (Option A)) → length (set_slot k a os) ≡ length os
unfolding set_slot
length-set_slot k a [] = refl
length-set_slot zero a (o ∷ os) = refl
length-set_slot (suc k) a (o ∷ os) = ap suc (length-set_slot k a os)

filled-set_slot :
    {A : Type 0} (i k : ℕ) (a : A) (os : List (Option A))
    → filled_at i os ≡ true
    → filled_at i (set_slot k a os) ≡ true
unfolding set_slot
filled-set_slot i k a [] h = h
filled-set_slot zero zero a (o ∷ os) h = refl
filled-set_slot zero (suc k) a (none ∷ os) h = h
filled-set_slot zero (suc k) a (some b ∷ os) h = refl
filled-set_slot (suc i) zero a (o ∷ os) h = h
filled-set_slot (suc i) (suc k) a (o ∷ os) h = filled-set_slot i k a os h

set_slot-filled :
    {A : Type 0} (i : ℕ) (a : A) (os : List (Option A))
    → i < length os
    → filled_at i (set_slot i a os) ≡ true
unfolding set_slot
set_slot-filled i a [] l = absurd (omega arith)
set_slot-filled zero a (o ∷ os) l = refl
set_slot-filled (suc i) a (o ∷ os) l = set_slot-filled i a os (omega arith)

pub Awaits-map :
    {A : Type 0} (P Q : ℕ → Type 0) (os : List (Option A))
    → ((i : ℕ) → P i → Q i)
    → Awaits P os
    → Awaits Q os
Awaits-map P Q os f h i l = elim (h i l) [ inl e ↦ inl e | inr p ↦ inr (f i p) ]

-- A slot that is set is no longer awaited.
pub set_slot-Awaits :
    {A : Type 0} (P Q : ℕ → Type 0) (k : ℕ) (a : A) (os : List (Option A))
    → ((i : ℕ) → P i → (k ≡ i) ⊎ Q i)
    → Awaits P os
    → Awaits Q (set_slot k a os)
set_slot-Awaits P Q k a os f h i l =
    let l' : i < length os = omega (arith, length-set_slot k a os) in
    elim (h i l') [
      | inl e ↦ inl (filled-set_slot i k a os e)
      | inr p ↦ elim (f i p) [ inl e ↦ inl (rw e (set_slot-filled i a os l')) | inr q ↦ inr q ]
    ]

module _ (J : JsonLib) (W : Type 0) (h : Host J.Value W) (hooks : Hooks J.Value W) where
  open J use {Value}

  -- The position is that of one of the jobs.
  abbrev pub IsOf : List (ReadyCall J W) → ℕ → Type 0
  IsOf [] i = ⊥
  IsOf (job ∷ jobs) i = (job.index ≡ i) ⊎ IsOf jobs i

  IsOf-append-left :
      (jobs : List (ReadyCall J W)) (job : ReadyCall J W) (i : ℕ)
      → IsOf jobs i
      → IsOf (jobs ++ job ∷ []) i
  IsOf-append-left [] job i m = absurd m
  IsOf-append-left (j ∷ jobs) job i (inl e) = inl e
  IsOf-append-left (j ∷ jobs) job i (inr m) = inr (IsOf-append-left jobs job i m)

  IsOf-append-right :
      (jobs : List (ReadyCall J W)) (job : ReadyCall J W) (i : ℕ)
      → job.index ≡ i
      → IsOf (jobs ++ job ∷ []) i
  IsOf-append-right [] job i e = inl e
  IsOf-append-right (j ∷ jobs) job i e = inr (IsOf-append-right jobs job i e)

  -- In the preparation, the slots from `n` on are awaited too.
  abbrev pub AwaitsFrom : ℕ → Pass J W h hooks → Type 0
  AwaitsFrom n p = Awaits (λ i. IsOf p.prepared i ⊎ (n ≤ i)) p.slots

  -- One more position is dealt with.
  later : {P : Type 0} (n i : ℕ) → P ⊎ (n ≤ i) → (n ≡ i) ⊎ (P ⊎ (suc n ≤ i))
  later n i (inl p) = inr (inl p)
  later n i (inr l) = elim (Bool-cases (n == i)) [
    | inl e ↦ inl (ground arith)
    | inr e ↦ inr (inr (ground arith))
  ]

  put_result-AwaitsFrom :
      (n : ℕ) (r : ToolResultMessage Value) (p : Pass J W h hooks)
      → AwaitsFrom n p
      → AwaitsFrom (suc n) (put_result J W h hooks n r p)
  unfolding put_result
  put_result-AwaitsFrom n r p a =
      set_slot-Awaits (λ i. IsOf p.prepared i ⊎ (n ≤ i)) (λ i. IsOf p.prepared i ⊎ (suc n ≤ i)) n r
        p.slots (λ i. later n i) a

  queue-AwaitsFrom :
      (n : ℕ) (p : Pass J W h hooks) (q : W × Prepared J W)
      → index_of J W h hooks q.1 ≡ n
      → AwaitsFrom n p
      → AwaitsFrom (suc n) (queue J W h hooks p q)
  unfolding queue
  queue-AwaitsFrom n p (w, ready job) e a = λ i l. elim (a i l) [
    | inl f ↦ inl f
    | inr m ↦ elim (later n i m) [
      | inl same ↦ inr (inl (IsOf-append-right p.prepared job i (e ∙ same)))
      | inr (inl m') ↦ inr (inl (IsOf-append-left p.prepared job i m'))
      | inr (inr l') ↦ inr (inr l')
    ]
  ]
  queue-AwaitsFrom n p (w, refused i r) e a = rw e (put_result-AwaitsFrom n r _ a)

  queue_guarded-AwaitsFrom :
      (tools : List (AgentTool Value W)) (n : ℕ) (call : ToolCallData Value) (p : Pass J W h hooks)
      (q : Run Value W × Option Stop)
      → AwaitsFrom n p
      → AwaitsFrom (suc n) (queue_guarded J W h hooks tools n call p q)
  unfolding queue_guarded
  queue_guarded-AwaitsFrom tools n call p (s, some stop) a = put_result-AwaitsFrom n _ _ a
  queue_guarded-AwaitsFrom tools n call p (s, none) a =
      queue-AwaitsFrom n _ _ ((prepare_call-IsPrepared J W h hooks n call tools s.world).0) a

  prepare_one-AwaitsFrom :
      (tools : List (AgentTool Value W)) (n : ℕ) (call : ToolCallData Value) (p : Pass J W h hooks)
      → AwaitsFrom n p
      → AwaitsFrom (suc n) (prepare_one J W h hooks tools n call p)
  unfolding prepare_one
  prepare_one-AwaitsFrom tools n call p a =
      let steer = p.steer_skip || skip_pending J W h hooks p.run.world in
      elim (Bool-cases p.thrash_blocked) [
        | inl b ↦ rw (prepare_one, b) (put_result-AwaitsFrom n _ _ a)
        | inr b ↦ elim (Bool-cases steer) [
          | inl c ↦ rw (prepare_one, b, c) (put_result-AwaitsFrom n _ _ a)
          | inr c ↦ rw (prepare_one, b, c) (queue_guarded-AwaitsFrom tools n call _ _ a)
        ]
      ]

  pub prepare_all-AwaitsFrom :
      (tools : List (AgentTool Value W)) (n : ℕ) (calls : List (ToolCallData Value))
      (p : Pass J W h hooks)
      → AwaitsFrom n p
      → AwaitsFrom (n + length calls) (prepare_all J W h hooks tools n calls p)
  unfolding prepare_all
  prepare_all-AwaitsFrom tools n [] p a = let same : n + 0 ≡ n = omega arith in rw same a
  prepare_all-AwaitsFrom tools n (call ∷ calls) p a =
      let same : n + suc (length calls) ≡ suc n + length calls = omega arith in
      rw same
        (prepare_all-AwaitsFrom tools (suc n) calls _ (prepare_one-AwaitsFrom tools n call p a))
