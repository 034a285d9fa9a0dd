-- ===== src/Jobs.antt =====
-- crates/pirs-agent/src/jobs.rs: the registry of background jobs. Shared objects and closures are
-- numbered handles; what the registry does through them is recorded. Each operation is one step,
-- also `register` and `set_status`, which take several locks in turn: calls that run into each
-- other between those locks are not modelled. Theorems in the children.
pub mod Evict
pub mod Bound
pub mod Wait
pub mod Waiting
pub mod Asleep
mod Samples
use pirs.Prelude.{
  ℕ, suc, ◌+◌, ◌-◌, ◌%◌, ◌^◌, Bool, true, false, not, Option, none, some, List, [], ◌∷◌, ◌++◌, leb,
  if◌then◌else◌,
}
use pirs.Prelude.Lists.{length, take}
use pirs.Prelude.Text.{Text, lit, decimal}
use pirs.Prelude.Table.{lookup, put, remove, remove_all}

pub data I32 : Type 0 where
  pos negsuc : ℕ → I32

pub data JobStatus : Type 0 where
  running : JobStatus
  exited : I32 → JobStatus
  killed : JobStatus

pub data JobKind : Type 0 where
  bash agent : JobKind

pub record Job : Type 0 where
  pub id : ℕ
  pub kind : JobKind
  pub description : Text
  pub group : Option Text
  pub status : JobStatus
  pub output_path : Text
  pub started_at : ℕ
  pub pid : Option ℕ
  pub progress : Option ℕ
  pub steer : Option ℕ
  pub cancel : Option ℕ

abbrev pub is_running : JobStatus → Bool
is_running running = true
is_running (exited code) = false
is_running killed = false

unfoldable pub show_i32 : I32 → Text
unfolding lit decimal
show_i32 (pos n) = decimal n
show_i32 (negsuc n) = lit "-" ++ decimal (suc n)

unfoldable pub status_name : JobStatus → Text
unfolding lit show_i32
status_name running = lit "running"
status_name (exited code) = lit "exited(" ++ (show_i32 code ++ lit ")")
status_name killed = lit "killed"

unfoldable pub kind_name : JobKind → Text
unfolding lit
kind_name bash = lit "bash"
kind_name agent = lit "agent"

unfoldable pub status_line : Job → Text
unfolding lit decimal status_name kind_name
status_line j =
    lit "#"
    ++ (decimal j.id
        ++ (lit " ["
            ++ (status_name j.status
                ++ (lit "] " ++ (kind_name j.kind ++ (lit " — " ++ j.description))))))

-- The registry, then what was done outside it: the channels made, the waiters woken, the flags
-- raised, and the messages handed to a notifier or a steering closure.
pub record Registry : Type 0 where
  pub jobs : List (ℕ × Job)
  pub next_id : ℕ
  pub notifier : Option ℕ
  pub waiters : List (ℕ × List ℕ)
  pub stop_flags : List (ℕ × ℕ)
  pub next_channel : ℕ
  pub woken : List ℕ
  pub raised : List ℕ
  pub sent : List (ℕ × Text)

abbrev pub new_registry : Registry
new_registry = record {
  jobs = [];
  next_id = 1;
  notifier = none;
  waiters = [];
  stop_flags = [];
  next_channel = 0;
  woken = [];
  raised = [];
  sent = [];
}

unfoldable pub set_notifier : ℕ → Registry → Registry
set_notifier callback r = record r { notifier = some callback }

unfoldable pub notify : Text → Registry → Registry
notify message r = elim r.notifier [
  | none ↦ r
  | some callback ↦ record r { sent = r.sent ++ (callback, message) ∷ [] }
]

-- The ids of the jobs that do not run.
unfoldable pub finished : List (ℕ × Job) → List ℕ
finished [] = []
finished ((id, j) ∷ m) = if is_running j.status then finished m else id ∷ finished m

-- `finished.sort()`.
unfoldable pub insert : ℕ → List ℕ → List ℕ
insert k [] = k ∷ []
insert k (j ∷ ks) = if leb k j then k ∷ j ∷ ks else j ∷ insert k ks

unfoldable pub sort : List ℕ → List ℕ
unfolding insert
sort [] = []
sort (k ∷ ks) = insert k (sort ks)

unfoldable pub evict : List (ℕ × Job) → List (ℕ × Job)
unfolding finished sort
evict m = if leb 256 (length m) then remove_all (take (length m - 255) (sort (finished m))) m else m

unfoldable pub register : JobKind → Text → Text → Option ℕ → ℕ → Registry → Registry × ℕ
unfolding evict
register kind description output_path pid now r = (
  record r {
    jobs =
        put r.next_id
          (record {
            id = r.next_id;
            kind = kind;
            description = description;
            group = none;
            status = running;
            output_path = output_path;
            started_at = now;
            pid = pid;
            progress = none;
            steer = none;
            cancel = none;
          })
          (evict r.jobs);
    next_id = (r.next_id + 1) % 2 ^ 64;
  },
  r.next_id,
)

unfoldable pub register_stop_flag : ℕ → ℕ → Registry → Registry
register_stop_flag id flag r = record r { stop_flags = put id flag r.stop_flags }

unfoldable pub request_stop : ℕ → Registry → Registry × Bool
request_stop id r = elim (lookup id r.stop_flags) [
  | none ↦ (r, false)
  | some flag ↦ (record r { raised = r.raised ++ flag ∷ [] }, true)
]

-- `if let Some(job) = jobs.get(&id) { … }`, with what is done to the job.
unfoldable pub update : (Job → Job) → ℕ → Registry → Registry
update f id r = elim (lookup id r.jobs) [
  | none ↦ r
  | some j ↦ record r { jobs = put id (f j) r.jobs }
]

abbrev pub waiters_of : ℕ → List (ℕ × List ℕ) → List ℕ
waiters_of id m = elim (lookup id m) [ none ↦ [] | some list ↦ list ]

-- What the end of a job does: its stop flag is dropped and its waiters are woken.
unfoldable pub wake : ℕ → Registry → Registry
wake id r = record r {
  stop_flags = remove id r.stop_flags;
  waiters = remove id r.waiters;
  woken = r.woken ++ waiters_of id r.waiters;
}

unfoldable pub set_status : ℕ → JobStatus → Registry → Registry
set_status id status r =
    let r' = update (λ j. record j { status = status }) id r in
    if is_running status then r' else wake id r'

unfoldable pub set_group : ℕ → Text → Registry → Registry
set_group id group r = update (λ j. record j { group = some group }) id r

unfoldable pub set_progress_handle : ℕ → ℕ → Registry → Registry
set_progress_handle id progress r = update (λ j. record j { progress = some progress }) id r

unfoldable pub set_cancel : ℕ → ℕ → Registry → Registry
set_cancel id cancel r = update (λ j. record j { cancel = some cancel }) id r

unfoldable pub set_steer : ℕ → ℕ → Registry → Registry
set_steer id steer r = update (λ j. record j { steer = some steer }) id r

-- The error's text, or nothing.
unfoldable pub steer : ℕ → Text → Registry → Registry × Option Text
unfolding lit decimal
steer id message r = elim (lookup id r.jobs) [
  | none ↦ (r, some (lit "no such job: " ++ decimal id))
  | some j ↦ elim j.steer [
    | none ↦ (r, some (lit "job " ++ (decimal id ++ lit " is not steerable")))
    | some callback ↦ (record r { sent = r.sent ++ (callback, message) ∷ [] }, none)
  ]
]

unfoldable pub get : ℕ → Registry → Option Job
get id r = lookup id r.jobs

abbrev listed : Job → Text
listed j = elim j.group [
  | none ↦ status_line j
  | some g ↦ lit "[" ++ (g ++ (lit "] " ++ status_line j))
]

-- The lines, in the order of the table; the source's hash map fixes none.
unfoldable pub lines : List (ℕ × Job) → List Text
lines [] = []
lines ((id, j) ∷ m) = listed j ∷ lines m

unfoldable pub list : Registry → List Text
unfolding lines
list r = lines r.jobs
