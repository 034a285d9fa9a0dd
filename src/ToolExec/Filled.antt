-- ===== src/ToolExec/Filled.antt =====
-- In the parallel mode every call is refused, skipped or run to its end.
use pirs.Prelude.{
  ℕ, zero, suc, ◌+◌, ◌≤◌, ◌≡◌, refl, ap, ◌⊎◌, inl, inr, false, none, some, List, [], ◌∷◌, map,
  arith, Bool-cases,
}
use pirs.Prelude.Lists.{length}
use pirs.Json.{JsonLib}
use pirs.ToolExec.Host.{AgentTool, ToolCallData, Hooks, Host, Run}
use pirs.ToolExec.Prepare.{ReadyCall}
use pirs.ToolExec.Execute.{skip_pending}
use pirs.ToolExec.Batch.{
  take_nth, Slots, Pass, prepare_all, launch, land, complete, run_prepared, fill_in, filled_slot,
  no_slots, execute_tool_calls,
}
use pirs.ToolExec.Fits.{Fits, Fits-blank}
use pirs.ToolExec.Answered.{run_prepared-Fits, prepare_all-IsPassOf}
use pirs.ToolExec.Awaited.{
  Awaits, Awaits-map, set_slot-Awaits, IsOf, AwaitsFrom, prepare_all-AwaitsFrom,
}

module _ (J : JsonLib) (W : Type 0) (h : Host J.Value W) (hooks : Hooks J.Value W) where
  open J use {Value}

  take_nth-IsOf :
      (job : ReadyCall J W) (jobs : List (ReadyCall J W)) (n i : ℕ)
      → IsOf J W h hooks (job ∷ jobs) i
      → ((take_nth job jobs n).0.index ≡ i) ⊎ IsOf J W h hooks (take_nth job jobs n).1 i
  unfolding take_nth
  take_nth-IsOf job [] n i m = m
  take_nth-IsOf job (k ∷ jobs) zero i m = m
  take_nth-IsOf job (k ∷ jobs) (suc n) i (inl e) = inr (inl e)
  take_nth-IsOf job (k ∷ jobs) (suc n) i (inr m) = elim (take_nth-IsOf k jobs n i m) [
    | inl e ↦ inl e
    | inr m' ↦ inr (inr m')
  ]

  length-take_nth :
      (job : ReadyCall J W) (jobs : List (ReadyCall J W)) (n : ℕ)
      → length (take_nth job jobs n).1 ≡ length jobs
  unfolding take_nth
  length-take_nth job [] n = refl
  length-take_nth job (k ∷ jobs) zero = refl
  length-take_nth job (k ∷ jobs) (suc n) = ap suc (length-take_nth k jobs n)

  first_or : {A P Q : Type 0} → (A ⊎ P) ⊎ Q → A ⊎ (P ⊎ Q)
  first_or (inl (inl a)) = inl a
  first_or (inl (inr p)) = inr (inl p)
  first_or (inr q) = inr (inr q)

  first_out : {A P Q : Type 0} → (A ⊎ P) ⊎ Q → P ⊎ (A ⊎ Q)
  first_out (inl (inl a)) = inr (inl a)
  first_out (inl (inr p)) = inl p
  first_out (inr q) = inr (inr q)

  first_in : {A P Q : Type 0} → P ⊎ (A ⊎ Q) → (A ⊎ P) ⊎ Q
  first_in (inl p) = inl (inr p)
  first_in (inr (inl a)) = inl (inl a)
  first_in (inr (inr q)) = inr q

  launch-Awaits :
      (jobs : List (ReadyCall J W)) (Q : ℕ → Type 0) (s : Run Value W) (slots : Slots J W h hooks)
      → Awaits (λ i. IsOf J W h hooks jobs i ⊎ Q i) slots
      → let (flying, rest) = launch J W h hooks jobs (s, slots) in
        Awaits (λ i. IsOf J W h hooks flying i ⊎ Q i) rest.1
  unfolding launch
  launch-Awaits [] Q s slots a = a
  launch-Awaits (job ∷ jobs) Q s slots a =
      let t = record s { world = h.meanwhile s.world } in
      elim (Bool-cases (skip_pending J W h hooks t.world)) [
        | inl b ↦
            rw (launch, b)
              (launch-Awaits jobs Q _ _ (
                set_slot-Awaits (λ i. IsOf J W h hooks (job ∷ jobs) i ⊎ Q i)
                  (λ i. IsOf J W h hooks jobs i ⊎ Q i) job.index _ slots (λ i. first_or) a))
        | inr b ↦
            rw (launch, b)
              (Awaits-map
                (λ i.
                  IsOf J W h hooks (launch J W h hooks jobs (t, slots)).0 i
                  ⊎ ((job.index ≡ i) ⊎ Q i))
                _ _ (λ i. first_in)
                (launch-Awaits jobs (λ i. (job.index ≡ i) ⊎ Q i) t slots
                  (Awaits-map (λ i. IsOf J W h hooks (job ∷ jobs) i ⊎ Q i) _ slots (λ i. first_out)
                    a)))
      ]

  complete-Awaits :
      (fuel : ℕ) (jobs : List (ReadyCall J W)) (s : Run Value W) (slots : Slots J W h hooks)
      → length jobs ≤ fuel
      → Awaits (IsOf J W h hooks jobs) slots
      → Awaits (λ i. ⊥) (complete J W h hooks fuel jobs (s, slots)).1
  unfolding complete land
  complete-Awaits zero [] s slots l a = a
  complete-Awaits zero (job ∷ jobs) s slots l a = absurd (omega arith)
  complete-Awaits (suc fuel) [] s slots l a = a
  complete-Awaits (suc fuel) (job ∷ jobs) s slots l a =
      let n = h.next_done s.world in
      complete-Awaits fuel (take_nth job jobs n).1 _ _ (omega (arith, length-take_nth job jobs n)) (
        set_slot-Awaits (IsOf J W h hooks (job ∷ jobs)) (IsOf J W h hooks (take_nth job jobs n).1)
          (take_nth job jobs n).0.index _ slots (λ i. take_nth-IsOf job jobs n i) a)

  Fits-length :
      (calls : List (ToolCallData Value)) (slots : Slots J W h hooks)
      → Fits J W h hooks calls slots
      → length slots ≡ length calls
  Fits-length [] [] f = refl
  Fits-length [] (o ∷ os) f = absurd f
  Fits-length (call ∷ calls) [] f = absurd f
  Fits-length (call ∷ calls) (none ∷ os) f = ap suc (Fits-length calls os f)
  Fits-length (call ∷ calls) (some r ∷ os) (g, f) = ap suc (Fits-length calls os f)

  fill_in-filled :
      (calls : List (ToolCallData Value)) (slots : Slots J W h hooks) (w : W)
      → length slots ≡ length calls
      → Awaits (λ i. ⊥) slots
      → slots ≡ map some (fill_in J W h hooks calls slots w)
  unfolding fill_in filled_slot
  fill_in-filled [] [] w e a = refl
  fill_in-filled [] (o ∷ os) w e a = absurd (omega arith)
  fill_in-filled (call ∷ calls) [] w e a = absurd (omega arith)
  fill_in-filled (call ∷ calls) (none ∷ os) w e a = elim (a 0 (omega arith)) [
    | inl f ↦ absurd (ground arith)
    | inr f ↦ absurd f
  ]
  fill_in-filled (call ∷ calls) (some r ∷ os) w e a =
      ap (◌∷◌ (some r)) (fill_in-filled calls os w (omega arith) (λ i l. a (suc i) (omega arith)))

  only_left : {P : Type 0} → P ⊎ ⊥ → P
  only_left (inl p) = p
  only_left (inr e) = absurd e

  -- When all calls are prepared, only jobs are awaited.
  prepared-Awaits :
      (n : ℕ) (p : Pass J W h hooks)
      → length p.slots ≤ n
      → AwaitsFrom J W h hooks n p
      → Awaits (λ i. IsOf J W h hooks p.prepared i ⊎ ⊥) p.slots
  prepared-Awaits n p l a i m = elim (a i m) [
    | inl f ↦ inl f
    | inr (inl g) ↦ inr (inl g)
    | inr (inr k) ↦ absurd (omega arith)
  ]

  run_prepared-Awaits :
      (n : ℕ) (p : Pass J W h hooks)
      → length p.slots ≤ n
      → AwaitsFrom J W h hooks n p
      → Awaits (λ i. ⊥) (run_prepared J W h hooks p).1
  unfolding run_prepared
  run_prepared-Awaits n p l a =
      let start = launch J W h hooks p.prepared (p.run, p.slots) in
      complete-Awaits (length start.0) start.0 start.1.0 start.1.1 (omega arith) (
        Awaits-map (λ i. IsOf J W h hooks start.0 i ⊎ ⊥) _ start.1.1 (λ i. only_left)
          (launch-Awaits p.prepared (λ i. ⊥) p.run p.slots (prepared-Awaits n p l a)))

  -- The state before the calls of a parallel batch are prepared.
  abbrev pub blank_pass : List (ToolCallData Value) → Run Value W → Pass J W h hooks
  blank_pass calls s = record {
    run = s;
    thrash_blocked = false;
    steer_skip = false;
    prepared = [];
    slots = no_slots J W h hooks calls;
  }

  -- In the parallel mode, in whatever order the tools end, every slot is filled when the last task
  -- has ended, and the results of the batch are those in the slots: no call is left to be answered as
  -- incomplete or cancelled afterwards.
  pub execute_tool_calls-filled :
      (tools : List (AgentTool Value W)) (calls : List (ToolCallData Value)) (s : Run Value W)
      → (run_prepared J W h hooks (prepare_all J W h hooks tools 0 calls (blank_pass calls s))).1
        ≡ map some (execute_tool_calls J W h hooks false tools calls s).1
  unfolding execute_tool_calls
  execute_tool_calls-filled tools calls s =
      let p = prepare_all J W h hooks tools 0 calls (blank_pass calls s) in
      let fits =
        prepare_all-IsPassOf J W h hooks tools calls 0 calls (blank_pass calls s) refl
          (Fits-blank J W h hooks calls, tt) in
      fill_in-filled calls (run_prepared J W h hooks p).1 _
        (Fits-length calls _ (run_prepared-Fits J W h hooks calls p fits))
        (run_prepared-Awaits (0 + length calls) p (omega (arith, Fits-length calls p.slots fits.0))
          (prepare_all-AwaitsFrom J W h hooks tools 0 calls (blank_pass calls s)
            (λ i l. inr (inr (omega arith)))))
