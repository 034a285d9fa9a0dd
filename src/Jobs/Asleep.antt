-- ===== src/Jobs/Asleep.antt =====
-- A waiter never sleeps past the end of its job.
use pirs.Prelude.{
  ℕ, suc, ◌+◌, ◌^◌, ◌≤◌, ◌<◌, ◌≡◌, refl, ◌>>=◌, inl, inr, Bool, true, false, Option, none, some,
  List, [], ◌∷◌, ◌++◌, arith, ◌==◌, if◌then◌else◌, Bool-cases, Option-cases,
}
use pirs.Prelude.Lists.{length, any-append}
use pirs.Prelude.Table.{lookup, lookup-put}
use pirs.Jobs.{
  JobStatus, Job, is_running, Registry, set_notifier, notify, register_stop_flag, request_stop,
  update, wake, waiters_of, set_status, set_group, set_progress_handle, set_cancel, set_steer,
  steer, get,
}
use pirs.Jobs.Evict.{IsWellFormed, register-IsWellFormed}
use pirs.Jobs.Wait.{
  Phase, start, checked, registered, sleeping, returned, observed, add_waiter, is_woken, wait_step,
  Call, register_call, status_call, waiter_call, stop_call, stop_flag_call, progress_call,
  cancel_call, set_steer_call, group_call, steer_call, notifier_call, notify_call, called, Step,
  own, other, run,
}
use pirs.Jobs.Waiting.{
  runs, still_running, queued, sound, sound-kept, update-IsWellFormed, update-frame, register-frame,
  add_waiter-frame, called-Keeps,
}

-- The ids stay well-formed, and at most one is given out.
abbrev Advances : Registry → Registry → Type 0
Advances r r' = IsWellFormed r' × (r'.next_id ≤ suc r.next_id)

same-Advances :
    (r r' : Registry) → r'.jobs ≡ r.jobs → r'.next_id ≡ r.next_id → IsWellFormed r → Advances r r'
same-Advances r r' j n (d, b) = (rw (j, n) (d, b), omega arith)

update-Advances :
    (f : Job → Job) (k : ℕ) (r : Registry) → IsWellFormed r → Advances r (update f k r)
update-Advances f k r w =
    let (a, b, n) = update-frame f k r in (update-IsWellFormed f k r w, omega arith)

set_status-Advances :
    (k : ℕ) (status : JobStatus) (r : Registry)
    → IsWellFormed r
    → Advances r (set_status k status r)
unfolding set_status wake
set_status-Advances k status r w = elim (Bool-cases (is_running status)) [
  | inl e ↦ rw e (update-Advances (λ j. record j { status = status }) k r w)
  | inr e ↦ rw e (update-Advances (λ j. record j { status = status }) k r w)
]

called-Advances :
    (call : Call) (r : Registry)
    → r.next_id + 1 < 2 ^ 64
    → IsWellFormed r
    → Advances r (called call r)
unfolding called set_group set_progress_handle set_cancel set_steer steer notify request_stop
    set_notifier register_stop_flag
called-Advances (register_call kind description path pid now) r h w =
    let (a, b, n) = register-frame kind description path pid now r in
    (register-IsWellFormed kind description path pid now r h w, omega arith)
called-Advances (status_call k status) r h w = set_status-Advances k status r w
called-Advances (waiter_call k) r h w =
    let (j, v, n) = add_waiter-frame k r in same-Advances r (add_waiter k r) j n w
called-Advances (stop_call k) r h w =
    same-Advances r (request_stop k r).0 (ground arith) (ground arith) w
called-Advances (stop_flag_call k flag) r h w =
    same-Advances r (register_stop_flag k flag r) refl refl w
called-Advances (progress_call k progress) r h w = update-Advances _ k r w
called-Advances (cancel_call k cancel) r h w = update-Advances _ k r w
called-Advances (set_steer_call k callback) r h w = update-Advances _ k r w
called-Advances (group_call k group) r h w = update-Advances _ k r w
called-Advances (steer_call k message) r h w =
    same-Advances r (steer k message r).0 (ground arith) (ground arith) w
called-Advances (notifier_call callback) r h w =
    same-Advances r (set_notifier callback r) refl refl w
called-Advances (notify_call message) r h w =
    same-Advances r (notify message r) (ground arith) (ground arith) w

-- The waiter's own channel is queued once it is registered.
own-queued : (id : ℕ) (r : Registry) → queued id r.next_channel (add_waiter id r) ≡ true
unfolding add_waiter
own-queued id r = ground (
  arith,
  lookup-put id id (waiters_of id r.waiters ++ r.next_channel ∷ []) r.waiters,
  any-append (λ x. x == r.next_channel) (waiters_of id r.waiters) (r.next_channel ∷ []),
)

observed-sound :
    (id : ℕ) (r : Registry) (next : Phase)
    → (still_running id r ≡ true → sound id r next ≡ true)
    → sound id r (observed id r next) ≡ true
unfolding observed get
observed-sound id r next h = elim (Option-cases (lookup id r.jobs)) [
  | inl e ↦ rw (observed, e) refl
  | inr (j, e) ↦ elim (Bool-cases (is_running j.status)) [
    | inl g ↦ rw (observed, e, g) (h (rw e g))
    | inr g ↦ rw (observed, e, g) refl
  ]
]

wait_step-sound :
    (id : ℕ) (timed_out : Bool) (r : Registry) (p : Phase)
    → IsWellFormed r
    → sound id r p ≡ true
    → let (r', p') = wait_step id timed_out r p in (sound id r' p' ≡ true) × Advances r r'
unfolding wait_step
wait_step-sound id t r start w h = (observed-sound id r checked (λ x. refl), (w, omega arith))
wait_step-sound id t r checked w h =
    let (j, v, n) = add_waiter-frame id r in
    (ground (arith, own-queued id r), same-Advances r (add_waiter id r) j n w)
wait_step-sound id true r (registered c) w h =
    (observed-sound id r (returned none) (λ x. refl), (w, omega arith))
wait_step-sound id false r (registered c) w h =
    (observed-sound id r (sleeping c) (λ x. ground arith), (w, omega arith))
wait_step-sound id t r (sleeping c) w h = elim (Bool-cases (is_woken c r)) [
  | inl e ↦ rw e (observed-sound id r start (λ x. refl), (w, omega arith))
  | inr e ↦ rw e (stays t, (w, omega arith))
]
  where
    stays : (t : Bool) → sound id r (if t then returned none else sleeping c) ≡ true
    stays true = refl
    stays false = h
wait_step-sound id t r (returned s) w h = (refl, (w, omega arith))

run-sound :
    (id : ℕ) (steps : List Step) (r : Registry) (p : Phase)
    → IsWellFormed r
    → r.next_id + length steps < 2 ^ 64
    → sound id r p ≡ true
    → let (r', p') = run id steps (r, p) in sound id r' p' ≡ true
unfolding run
run-sound id [] r p w h s = s
run-sound id (own t ∷ steps) r p w h s =
    let (s', (w', n)) = wait_step-sound id t r p w s in
    run-sound id steps (wait_step id t r p).0 (wait_step id t r p).1 w' (omega arith) s'
run-sound id (other call ∷ steps) r p w h s =
    let (w', n) = called-Advances call r (omega arith) w in
    run-sound id steps (called call r) p w' (omega arith)
      (sound-kept id r (called call r) p (called-Keeps id call r w) s)

-- The status of a job, if it is there.
abbrev pub status_of : ℕ → Registry → Option JobStatus
status_of id r = lookup id r.jobs >>= (λ j. some j.status)

ended_status :
    (o : Option Job)
    → runs o ≡ false
    → elim o as (λ o. Phase) [
      | none ↦ returned none
      | some j ↦ if is_running j.status then start else returned (some j.status)
    ]
      ≡ returned (o >>= (λ j. some j.status))
ended_status none h = refl
ended_status (some j) h = rw h refl

-- From a registry whose ids are distinct and below the next one, with ids left for every step, and
-- whatever other threads call between the steps of a waiter: if it sleeps on its channel and its
-- job no longer runs, then it has been woken, and its next step returns what the registry knows of
-- the job, before any timeout.
pub sleeping_woken :
    (id : ℕ) (steps : List Step) (r r' : Registry) (channel : ℕ)
    → IsWellFormed r
    → r.next_id + length steps < 2 ^ 64
    → run id steps (r, start) ≡ (r', sleeping channel)
    → still_running id r' ≡ false
    → (is_woken channel r' ≡ true)
      × ((wait_step id false r' (sleeping channel)).1 ≡ returned (status_of id r'))
unfolding wait_step observed get
sleeping_woken id steps r r' channel w n e ended =
    let s : sound id r' (sleeping channel) ≡ true = rw e at (run-sound id steps r start w n refl) in
    let woken : is_woken channel r' ≡ true = ground arith in
    (woken, rw woken (ended_status (lookup id r'.jobs) ended))
