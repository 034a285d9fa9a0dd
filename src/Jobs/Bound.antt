-- ===== src/Jobs/Bound.antt =====
-- How many jobs the registry holds.
use pirs.Prelude.{
  ℕ, zero, suc, ◌+◌, ◌-◌, ◌≤◌, ◌<◌, max, ◌≡◌, refl, Bool, true, false, not, ◌&&◌, Option, List, [],
  ◌∷◌, arith, ◌==◌, is_some,
}
use pirs.Prelude.Lists.{length, take, any, all, count, length-take}
use pirs.Prelude.Text.{Text}
use pirs.Prelude.Table.{lookup, put, remove, remove_all, distinct, lookup-remove}
use pirs.Jobs.{JobKind, Job, is_running, Registry, finished, insert, sort, evict, register}
use pirs.Jobs.Evict.{IsWellFormed, any-insert, any-sort, any-take, finished-key}

abbrev unique : List ℕ → Bool
unique [] = true
unique (k ∷ ks) = not (any (λ j. j == k) ks) && unique ks

abbrev present : List (ℕ × Job) → ℕ → Bool
present m k = is_some (lookup k m)

length-remove : (k : ℕ) (m : List (ℕ × Job)) → length (remove k m) ≤ length m
unfolding remove
length-remove k [] = omega arith
length-remove k ((i, j) ∷ m) = ground (arith, length-remove k m)

length-remove-present :
    (k : ℕ) (m : List (ℕ × Job)) → present m k ≡ true → length (remove k m) < length m
unfolding remove lookup
length-remove-present k [] h = absurd (ground arith)
length-remove-present k ((i, j) ∷ m) h =
    ground (arith, length-remove-present k m, length-remove k m)

all-remove :
    (k : ℕ) (m : List (ℕ × Job)) (ks : List ℕ)
    → any (λ j. j == k) ks ≡ false
    → all (present m) ks ≡ true
    → all (present (remove k m)) ks ≡ true
all-remove k m [] h e = refl
all-remove k m (j ∷ ks) h e = ground (arith, all-remove k m ks, lookup-remove k j m)

length-remove_all :
    (ks : List ℕ) (m : List (ℕ × Job))
    → unique ks ≡ true
    → all (present m) ks ≡ true
    → length (remove_all ks m) + length ks ≤ length m
unfolding remove_all
length-remove_all [] m u h = omega arith
length-remove_all (k ∷ ks) m u h =
    ground (arith, length-remove_all ks (remove k m), all-remove k m ks, length-remove-present k m)

unique-insert : (k : ℕ) (ks : List ℕ) → unique (insert k ks) ≡ unique (k ∷ ks)
unfolding insert
unique-insert k [] = refl
unique-insert k (j ∷ ks) = ground (arith, unique-insert k ks, any-insert (λ i. i == j) k ks)

unique-sort : (ks : List ℕ) → unique (sort ks) ≡ unique ks
unfolding sort
unique-sort [] = refl
unique-sort (k ∷ ks) =
    ground (arith, unique-insert k (sort ks), unique-sort ks, any-sort (λ j. j == k) ks)

unique-take : (n : ℕ) (ks : List ℕ) → unique ks ≡ true → unique (take n ks) ≡ true
unique-take zero ks h = refl
unique-take (suc n) [] h = refl
unique-take (suc n) (k ∷ ks) h = ground (arith, unique-take n ks, any-take (λ j. j == k) n ks)

unique-finished : (m : List (ℕ × Job)) → distinct m ≡ true → unique (finished m) ≡ true
unfolding finished distinct
unique-finished [] h = refl
unique-finished ((i, j) ∷ m) h = ground (arith, unique-finished m, finished-key i m)

all-insert : (p : ℕ → Bool) (k : ℕ) (ks : List ℕ) → all p (insert k ks) ≡ all p (k ∷ ks)
unfolding insert
all-insert p k [] = refl
all-insert p k (j ∷ ks) = ground (arith, all-insert p k ks)

all-sort : (p : ℕ → Bool) (ks : List ℕ) → all p (sort ks) ≡ all p ks
unfolding sort
all-sort p [] = refl
all-sort p (k ∷ ks) = ground (arith, all-insert p k (sort ks), all-sort p ks)

all-take : (p : ℕ → Bool) (n : ℕ) (ks : List ℕ) → all p ks ≡ true → all p (take n ks) ≡ true
all-take p zero ks h = refl
all-take p (suc n) [] h = refl
all-take p (suc n) (k ∷ ks) h = ground (arith, all-take p n ks)

present-cons :
    (i : ℕ) (j : Job) (m : List (ℕ × Job)) (ks : List ℕ)
    → all (present m) ks ≡ true
    → all (present ((i, j) ∷ m)) ks ≡ true
unfolding lookup
present-cons i j m [] h = refl
present-cons i j m (k ∷ ks) h = ground (arith, present-cons i j m ks)

present_head : (i : ℕ) (j : Job) (m : List (ℕ × Job)) → present ((i, j) ∷ m) i ≡ true
unfolding lookup
present_head i j m = ground arith

all-finished : (m : List (ℕ × Job)) → all (present m) (finished m) ≡ true
unfolding finished
all-finished [] = refl
all-finished ((i, j) ∷ m) =
    ground (arith, all-finished m, present-cons i j m (finished m), present_head i j m)

length-insert : (k : ℕ) (ks : List ℕ) → length (insert k ks) ≡ suc (length ks)
unfolding insert
length-insert k [] = refl
length-insert k (j ∷ ks) = ground (arith, length-insert k ks)

length-sort : (ks : List ℕ) → length (sort ks) ≡ length ks
unfolding sort
length-sort [] = refl
length-sort (k ∷ ks) = ground (arith, length-insert k (sort ks), length-sort ks)

-- How many jobs run.
abbrev pub running_jobs : List (ℕ × Job) → ℕ
running_jobs m = count (λ e. is_running e.1.status) m

length-finished : (m : List (ℕ × Job)) → length (finished m) + running_jobs m ≡ length m
unfolding finished
length-finished [] = omega arith
length-finished ((i, j) ∷ m) = ground (arith, length-finished m)

length-evict :
    (m : List (ℕ × Job)) → distinct m ≡ true → length (evict m) ≤ max 255 (running_jobs m)
unfolding evict
length-evict m d =
    let ids = sort (finished m) in
    let n = length m - 255 in
    ground (
      arith,
      length-remove_all (take n ids) m,
      unique-take n ids,
      unique-sort (finished m),
      unique-finished m d,
      all-take (present m) n ids,
      all-sort (present m) (finished m),
      all-finished m,
      length-take n ids,
      length-sort (finished m),
      length-finished m,
    )

length-put : (k : ℕ) (j : Job) (m : List (ℕ × Job)) → length (put k j m) ≤ suc (length m)
unfolding put
length-put k j [] = omega arith
length-put k j ((i, b) ∷ m) = ground (arith, length-put k j m)

-- After a registration into a registry with distinct ids, it holds at most 256 jobs, or one more
-- than ran before.
pub register-length :
    (kind : JobKind) (description output_path : Text) (pid : Option ℕ) (now : ℕ) (r : Registry)
    → IsWellFormed r
    → length (register kind description output_path pid now r).0.jobs
      ≤ max 256 (suc (running_jobs r.jobs))
unfolding register
register-length kind description output_path pid now r (d, b) =
    omega (arith, length-put r.next_id _ (evict r.jobs), length-evict r.jobs d)
