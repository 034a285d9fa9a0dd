-- ===== src/Prelude/Table.antt =====
-- Maps under numbers as association lists.
use Prim.Native.Nat.{ℕ, suc, ◌<◌}
use mathlib.Core.Path.{◌≡◌, refl}
use mathlib.Core.Bool.{Bool, true, not, ◌&&◌}
use mathlib.Core.List.{List, [], ◌∷◌}
use mathlib.Core.Option.{Option, none, some}
use native.Mathlib.Omega.{arith}
use pirs.Prelude.Tests.{◌==◌, ltb, if◌then◌else◌, is_some}
use pirs.Prelude.Lists.{any}

module _ {ℓ} {A : Type ℓ} where
  -- `HashMap::get`, `HashMap::insert` and `HashMap::remove`.
  unfoldable pub lookup : ℕ → List (ℕ × A) → Option A
  lookup k [] = none
  lookup k ((j, a) ∷ m) = if j == k then some a else lookup k m

  unfoldable pub put : ℕ → A → List (ℕ × A) → List (ℕ × A)
  put k a [] = (k, a) ∷ []
  put k a ((j, b) ∷ m) = if j == k then (k, a) ∷ m else (j, b) ∷ put k a m

  unfoldable pub remove : ℕ → List (ℕ × A) → List (ℕ × A)
  remove k [] = []
  remove k ((j, b) ∷ m) = if j == k then remove k m else (j, b) ∷ remove k m

  unfoldable pub remove_all : List ℕ → List (ℕ × A) → List (ℕ × A)
  remove_all [] m = m
  remove_all (k ∷ ks) m = remove_all ks (remove k m)

  -- No key stands twice; every key is below `n`.
  unfoldable pub distinct : List (ℕ × A) → Bool
  distinct [] = true
  distinct ((k, a) ∷ m) = not (is_some (lookup k m)) && distinct m

  unfoldable pub below : ℕ → List (ℕ × A) → Bool
  below n [] = true
  below n ((k, a) ∷ m) = ltb k n && below n m

  pub lookup-put :
      (k j : ℕ) (a : A) (m : List (ℕ × A))
      → lookup j (put k a m) ≡ (if k == j then some a else lookup j m)
  unfolding lookup put
  lookup-put k j a [] = refl
  lookup-put k j a ((i, b) ∷ m) = ground (arith, lookup-put k j a m)

  pub lookup-remove :
      (k j : ℕ) (m : List (ℕ × A)) → lookup j (remove k m) ≡ (if k == j then none else lookup j m)
  unfolding lookup remove
  lookup-remove k j [] = ground arith
  lookup-remove k j ((i, b) ∷ m) = ground (arith, lookup-remove k j m)

  pub lookup-remove_all :
      (ks : List ℕ) (j : ℕ) (m : List (ℕ × A))
      → lookup j (remove_all ks m) ≡ (if any (λ k. k == j) ks then none else lookup j m)
  unfolding remove_all
  lookup-remove_all [] j m = refl
  lookup-remove_all (k ∷ ks) j m =
      ground (arith, lookup-remove k j m, lookup-remove_all ks j (remove k m))

  remove-distinct : (k : ℕ) (m : List (ℕ × A)) → distinct m ≡ true → distinct (remove k m) ≡ true
  unfolding distinct remove
  remove-distinct k [] h = refl
  remove-distinct k ((i, b) ∷ m) h = ground (arith, remove-distinct k m, lookup-remove k i m)

  pub remove_all-distinct :
      (ks : List ℕ) (m : List (ℕ × A)) → distinct m ≡ true → distinct (remove_all ks m) ≡ true
  unfolding remove_all
  remove_all-distinct [] m h = h
  remove_all-distinct (k ∷ ks) m h = remove_all-distinct ks (remove k m) (remove-distinct k m h)

  pub put-distinct :
      (k : ℕ) (a : A) (m : List (ℕ × A)) → distinct m ≡ true → distinct (put k a m) ≡ true
  unfolding distinct put lookup
  put-distinct k a [] h = refl
  put-distinct k a ((i, b) ∷ m) h = ground (arith, put-distinct k a m, lookup-put k i a m)

  remove-below : (k n : ℕ) (m : List (ℕ × A)) → below n m ≡ true → below n (remove k m) ≡ true
  unfolding below remove
  remove-below k n [] h = refl
  remove-below k n ((i, b) ∷ m) h = ground (arith, remove-below k n m)

  pub remove_all-below :
      (ks : List ℕ) (n : ℕ) (m : List (ℕ × A)) → below n m ≡ true → below n (remove_all ks m) ≡ true
  unfolding remove_all
  remove_all-below [] n m h = h
  remove_all-below (k ∷ ks) n m h = remove_all-below ks n (remove k m) (remove-below k n m h)

  pub put-below :
      (k n : ℕ) (a : A) (m : List (ℕ × A)) → k < n → below n m ≡ true → below n (put k a m) ≡ true
  unfolding below put
  put-below k n a [] l h = ground arith
  put-below k n a ((i, b) ∷ m) l h = ground (arith, put-below k n a m)

  pub below-suc : (n : ℕ) (m : List (ℕ × A)) → below n m ≡ true → below (suc n) m ≡ true
  unfolding below
  below-suc n [] h = refl
  below-suc n ((i, b) ∷ m) h = ground (arith, below-suc n m)

  pub lookup-below :
      (k n : ℕ) (a : A) (m : List (ℕ × A)) → below n m ≡ true → lookup k m ≡ some a → k < n
  unfolding below lookup
  lookup-below k n a [] h e = absurd (cc)
  lookup-below k n a ((i, b) ∷ m) h e = ground (arith, lookup-below k n a m)
