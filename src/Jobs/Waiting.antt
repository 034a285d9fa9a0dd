-- ===== src/Jobs/Waiting.antt =====
-- No waiter sleeps through the end of its job.
use pirs.Prelude.{
  ℕ, ◌+◌, ◌%◌, ◌^◌, ◌≡◌, refl, ◌⊎◌, ◌>>=◌, inl, inr, Bool, true, false, ◌&&◌, ◌||◌, Option, none,
  some, [], ◌∷◌, ◌++◌, arith, ◌==◌, if◌then◌else◌, Option-cases, ==_iff,
}
use pirs.Prelude.Lists.{any, any-append}
use pirs.Prelude.Text.{Text}
use pirs.Prelude.Table.{lookup, lookup-put, lookup-remove, put-distinct, put-below, lookup-below}
use pirs.Jobs.{
  JobStatus, JobKind, Job, is_running, Registry, set_notifier, notify, register, register_stop_flag,
  request_stop, update, wake, waiters_of, set_status, set_group, set_progress_handle, set_cancel,
  set_steer, steer, get,
}
use pirs.Jobs.Evict.{IsWellFormed, register-running}
use pirs.Jobs.Wait.{
  Phase, start, checked, registered, sleeping, returned, add_waiter, is_woken, Call, register_call,
  status_call, waiter_call, stop_call, stop_flag_call, progress_call, cancel_call, set_steer_call,
  group_call, steer_call, notifier_call, notify_call, called,
}

abbrev pub runs : Option Job → Bool
runs none = false
runs (some j) = is_running j.status

abbrev pub still_running : ℕ → Registry → Bool
still_running id r = runs (lookup id r.jobs)

runs-mapped :
    (f : Job → Job) (o : Option Job)
    → ((j : Job) → is_running (f j).status ≡ is_running j.status)
    → runs (o >>= (λ j. some (f j))) ≡ runs o
runs-mapped f none same = refl
runs-mapped f (some j) same = same j

abbrev pub queued : ℕ → ℕ → Registry → Bool
queued id channel r = any (λ c. c == channel) (waiters_of id r.waiters)

-- What keeps the waiter safe in each phase.
abbrev pub sound : ℕ → Registry → Phase → Bool
sound id r start = true
sound id r checked = true
sound id r (registered channel) = is_woken channel r || queued id channel r
sound id r (sleeping channel) = is_woken channel r || (queued id channel r && still_running id r)
sound id r (returned status) = true

-- A call keeps the waiters that it does not wake, and the jobs that run if it does not wake their
-- waiters.
abbrev Keeps : ℕ → Registry → Registry → Type 0
Keeps id r r' =
    (channel : ℕ)
    → ((is_woken channel r ≡ true) → (is_woken channel r' ≡ true))
      × ((queued id channel r ≡ true)
          → (is_woken channel r' ≡ true)
            ⊎ ((queued id channel r' ≡ true)
                × ((still_running id r ≡ true) → (still_running id r' ≡ true))))

pub sound-kept :
    (id : ℕ) (r r' : Registry) (p : Phase)
    → Keeps id r r'
    → sound id r p ≡ true
    → sound id r' p ≡ true
sound-kept id r r' start k h = refl
sound-kept id r r' checked k h = refl
sound-kept id r r' (registered c) k h = ground (arith, k c)
sound-kept id r r' (sleeping c) k h = ground (arith, k c)
sound-kept id r r' (returned s) k h = refl

-- What an update leaves under each id.
lookup-update :
    (f : Job → Job) (k id : ℕ) (r : Registry)
    → lookup id (update f k r).jobs
      ≡ (if k == id then (lookup id r.jobs >>= (λ j. some (f j))) else lookup id r.jobs)
unfolding update
lookup-update f k id r = elim (Option-cases (lookup k r.jobs)) [
  | inl e ↦ ground (arith, ==_iff k id)
  | inr (j, e) ↦ ground (arith, ==_iff k id, lookup-put k id (f j) r.jobs)
]

update-still_running :
    (f : Job → Job) (k id : ℕ) (r : Registry)
    → ((j : Job) → is_running (f j).status ≡ is_running j.status)
    → still_running id (update f k r) ≡ still_running id r
update-still_running f k id r same =
    ground (arith, lookup-update f k id r, runs-mapped f (lookup id r.jobs) same)

pub update-IsWellFormed :
    (f : Job → Job) (k : ℕ) (r : Registry) → IsWellFormed r → IsWellFormed (update f k r)
unfolding update
update-IsWellFormed f k r (d, b) = elim (Option-cases (lookup k r.jobs)) [
  | inl e ↦ rw (update, e) (d, b)
  | inr (j, e) ↦
      rw (update, e)
        (
          put-distinct k (f j) r.jobs d,
          put-below k r.next_id (f j) r.jobs (lookup-below k r.next_id j r.jobs b e) b,
        )
]

pub update-frame :
    (f : Job → Job) (k : ℕ) (r : Registry)
    → ((update f k r).waiters ≡ r.waiters)
      × ((update f k r).woken ≡ r.woken)
      × ((update f k r).next_id ≡ r.next_id)
unfolding update
update-frame f k r = ground arith

update-Keeps :
    (f : Job → Job) (k id : ℕ) (r : Registry)
    → ((j : Job) → is_running (f j).status ≡ is_running j.status)
    → Keeps id r (update f k r)
unfolding is_woken
update-Keeps f k id r same c =
    ground (arith, update-frame f k r, update-still_running f k id r same)

runs-set :
    (status : JobStatus) (o : Option Job)
    → is_running status ≡ true
    → runs o ≡ true
    → runs (o >>= (λ j. some (record j { status = status }))) ≡ true
runs-set status none e h = h
runs-set status (some j) e h = e

set_status-Keeps :
    (k id : ℕ) (status : JobStatus) (r : Registry) → Keeps id r (set_status k status r)
unfolding set_status is_woken wake
set_status-Keeps k id status r c =
    let f : Job → Job = λ j. record j { status = status } in
    ground (
      arith,
      update-frame f k r,
      lookup-update f k id r,
      runs-set status (lookup id r.jobs),
      lookup-remove k id r.waiters,
      any-append (λ x. x == c) r.woken (waiters_of k r.waiters),
      ==_iff k id,
    )

pub register-frame :
    (kind : JobKind) (description output_path : Text) (pid : Option ℕ) (now : ℕ) (r : Registry)
    → ((register kind description output_path pid now r).0.waiters ≡ r.waiters)
      × ((register kind description output_path pid now r).0.woken ≡ r.woken)
      × ((register kind description output_path pid now r).0.next_id ≡ (r.next_id + 1) % 2 ^ 64)
unfolding register
register-frame kind description output_path pid now r = (refl, refl, refl)

register-still_running :
    (kind : JobKind) (description output_path : Text) (pid : Option ℕ) (now : ℕ) (r : Registry)
    (id : ℕ)
    → IsWellFormed r
    → still_running id r ≡ true
    → still_running id (register kind description output_path pid now r).0 ≡ true
unfolding get
register-still_running kind description output_path pid now r id w h =
    elim (Option-cases (lookup id r.jobs)) [
      | inl e ↦ absurd (ground arith)
      | inr (j, e) ↦
          let run : is_running j.status ≡ true = rw e at h in
          ground (arith, register-running kind description output_path pid now r id j w e run)
    ]

register-Keeps :
    (kind : JobKind) (description output_path : Text) (pid : Option ℕ) (now : ℕ) (r : Registry)
    (id : ℕ)
    → IsWellFormed r
    → Keeps id r (register kind description output_path pid now r).0
unfolding is_woken
register-Keeps kind description output_path pid now r id w c = ground (
  arith,
  register-frame kind description output_path pid now r,
  register-still_running kind description output_path pid now r id w,
)

add_waiter-queued :
    (k id c : ℕ) (r : Registry) → queued id c r ≡ true → queued id c (add_waiter k r) ≡ true
unfolding add_waiter
add_waiter-queued k id c r h = ground (
  arith,
  lookup-put k id (waiters_of k r.waiters ++ r.next_channel ∷ []) r.waiters,
  any-append (λ x. x == c) (waiters_of k r.waiters) (r.next_channel ∷ []),
  ==_iff k id,
)

pub add_waiter-frame :
    (k : ℕ) (r : Registry)
    → ((add_waiter k r).jobs ≡ r.jobs)
      × ((add_waiter k r).woken ≡ r.woken)
      × ((add_waiter k r).next_id ≡ r.next_id)
unfolding add_waiter
add_waiter-frame k r = (refl, refl, refl)

add_waiter-Keeps : (k id : ℕ) (r : Registry) → Keeps id r (add_waiter k r)
unfolding is_woken
add_waiter-Keeps k id r c = ground (arith, add_waiter-frame k r, add_waiter-queued k id c r)

-- A call that leaves the jobs, the waiters and the woken channels alone.
same-Keeps :
    (id : ℕ) (r r' : Registry)
    → r'.jobs ≡ r.jobs
    → r'.waiters ≡ r.waiters
    → r'.woken ≡ r.woken
    → Keeps id r r'
unfolding is_woken
same-Keeps id r r' j w v c = ground arith

pub called-Keeps :
    (id : ℕ) (call : Call) (r : Registry) → IsWellFormed r → Keeps id r (called call r)
unfolding called set_group set_progress_handle set_cancel set_steer steer notify request_stop
    set_notifier register_stop_flag
called-Keeps id (register_call kind description path pid now) r w =
    register-Keeps kind description path pid now r id w
called-Keeps id (status_call k status) r w = set_status-Keeps k id status r
called-Keeps id (waiter_call k) r w = add_waiter-Keeps k id r
called-Keeps id (stop_call k) r w =
    same-Keeps id r (request_stop k r).0 (ground arith) (ground arith) (ground arith)
called-Keeps id (stop_flag_call k flag) r w =
    same-Keeps id r (register_stop_flag k flag r) refl refl refl
called-Keeps id (progress_call k progress) r w = update-Keeps _ k id r (λ j. refl)
called-Keeps id (cancel_call k cancel) r w = update-Keeps _ k id r (λ j. refl)
called-Keeps id (set_steer_call k callback) r w = update-Keeps _ k id r (λ j. refl)
called-Keeps id (group_call k group) r w = update-Keeps _ k id r (λ j. refl)
called-Keeps id (steer_call k message) r w =
    same-Keeps id r (steer k message r).0 (ground arith) (ground arith) (ground arith)
called-Keeps id (notifier_call callback) r w =
    same-Keeps id r (set_notifier callback r) refl refl refl
called-Keeps id (notify_call message) r w =
    same-Keeps id r (notify message r) (ground arith) (ground arith) (ground arith)
