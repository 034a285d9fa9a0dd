-- ===== src/Jobs/Evict.antt =====
-- What the registration of a job keeps.
use pirs.Prelude.{
  ℕ, zero, suc, ◌+◌, ◌-◌, ◌%◌, ◌^◌, ◌<◌, ◌≡◌, refl, Bool, true, false, Option, some, List, [], ◌∷◌,
  arith, ◌==◌, is_some,
}
use pirs.Prelude.Lists.{length, take, any}
use pirs.Prelude.Text.{Text}
use pirs.Prelude.Table.{
  lookup, distinct, below, lookup-put, lookup-remove_all, remove_all-distinct, put-distinct,
  remove_all-below, put-below, below-suc, lookup-below,
}
use pirs.Jobs.{JobKind, Job, is_running, Registry, finished, insert, sort, evict, register, get}

pub any-insert : (p : ℕ → Bool) (k : ℕ) (ks : List ℕ) → any p (insert k ks) ≡ any p (k ∷ ks)
unfolding insert
any-insert p k [] = refl
any-insert p k (j ∷ ks) = ground (arith, any-insert p k ks)

pub any-sort : (p : ℕ → Bool) (ks : List ℕ) → any p (sort ks) ≡ any p ks
unfolding sort
any-sort p [] = refl
any-sort p (k ∷ ks) = ground (arith, any-insert p k (sort ks), any-sort p ks)

pub any-take : (p : ℕ → Bool) (n : ℕ) (ks : List ℕ) → any p (take n ks) ≡ true → any p ks ≡ true
any-take p zero ks h = absurd (ground arith)
any-take p (suc n) [] h = h
any-take p (suc n) (k ∷ ks) h = ground (arith, any-take p n ks)

-- A finished id is the key of some entry.
pub finished-key :
    (id : ℕ) (m : List (ℕ × Job))
    → any (λ k. k == id) (finished m) ≡ true
    → is_some (lookup id m) ≡ true
unfolding finished lookup
finished-key id [] h = h
finished-key id ((i, j) ∷ m) h = ground (arith, finished-key id m)

-- The id of a job that runs is not among the finished ones.
running-finished :
    (id : ℕ) (job : Job) (m : List (ℕ × Job))
    → distinct m ≡ true
    → lookup id m ≡ some job
    → is_running job.status ≡ true
    → any (λ k. k == id) (finished m) ≡ false
unfolding finished lookup distinct
running-finished id job [] d e r = refl
running-finished id job ((i, j) ∷ m) d e r =
    ground (arith, running-finished id job m, finished-key id m)

-- An eviction keeps the jobs that run.
evict-running :
    (id : ℕ) (job : Job) (m : List (ℕ × Job))
    → distinct m ≡ true
    → lookup id m ≡ some job
    → is_running job.status ≡ true
    → lookup id (evict m) ≡ some job
unfolding evict
evict-running id job m d e r = ground (
  arith,
  lookup-remove_all (take (length m - 255) (sort (finished m))) id m,
  any-take (λ k. k == id) (length m - 255) (sort (finished m)),
  any-sort (λ k. k == id) (finished m),
  running-finished id job m,
)

-- The ids are distinct and below the next one.
abbrev pub IsWellFormed : Registry → Type 0
IsWellFormed r = (distinct r.jobs ≡ true) × (below r.next_id r.jobs ≡ true)

evict-distinct : (m : List (ℕ × Job)) → distinct m ≡ true → distinct (evict m) ≡ true
unfolding evict
evict-distinct m h =
    ground (arith, remove_all-distinct (take (length m - 255) (sort (finished m))) m)

evict-below : (n : ℕ) (m : List (ℕ × Job)) → below n m ≡ true → below n (evict m) ≡ true
unfolding evict
evict-below n m h = ground (arith, remove_all-below (take (length m - 255) (sort (finished m))) n m)

pub register-IsWellFormed :
    (kind : JobKind) (description output_path : Text) (pid : Option ℕ) (now : ℕ) (r : Registry)
    → r.next_id + 1 < 2 ^ 64
    → IsWellFormed r
    → IsWellFormed (register kind description output_path pid now r).0
unfolding register
register-IsWellFormed kind description output_path pid now r h (d, b) =
    let same : (r.next_id + 1) % 2 ^ 64 ≡ suc r.next_id = omega arith in
    (
      put-distinct r.next_id _ (evict r.jobs) (evict-distinct r.jobs d),
      rw same (
          put-below r.next_id (suc r.next_id) _ (evict r.jobs) (omega arith)
            (below-suc r.next_id (evict r.jobs) (evict-below r.next_id r.jobs b))),
    )

-- In a registry whose ids are distinct and below the next one, the registration of a job makes room
-- only at the expense of finished jobs: a job that runs is found as before, unchanged, under its
-- own id, which is below the new one.
pub register-running :
    (kind : JobKind) (description output_path : Text) (pid : Option ℕ) (now : ℕ) (r : Registry)
    (id : ℕ) (job : Job)
    → IsWellFormed r
    → get id r ≡ some job
    → is_running job.status ≡ true
    → let (r', new_id) = register kind description output_path pid now r in
      (get id r' ≡ some job) × (id < new_id)
unfolding register get
register-running kind description output_path pid now r id job (d, b) e run =
    let less : id < r.next_id = lookup-below id r.next_id job r.jobs b e in
    let other : (r.next_id == id) ≡ false = ground arith in
    (rw (lookup-put, other) (evict-running id job r.jobs d e run), less)
