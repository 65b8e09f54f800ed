-- ===== src/Prelude/Table.antt =====
-- A table: rows in insertion order, found by a key. `find` is a query's `.first()` under
-- `filter_by` on the key, `update` writes to the row found, `delete` drops it.
use mathlib.Core.Option
use peerdup.Prelude.{
  ◌≡◌, refl, Bool, true, false, ◌||◌, Option, none, some, List, [], ◌∷◌, ◌++◌, arith, HasEquality,
  ◌==◌, if◌then◌else◌, select,
}

abbrev pub is_some {ℓ} : {A : Type ℓ} → Option A → Bool
is_some none = false
is_some (some a) = true

module _ {ℓ κ} {A : Type ℓ} {K : Type κ} ⦃e : HasEquality K⦄ (key : A → K) where
  unfoldable pub find : K → List A → Option A
  find k [] = none
  find k (x ∷ xs) = let rest = find k xs in if key x == k then some x else rest

  unfoldable pub update : K → (A → A) → List A → List A
  update k f [] = []
  update k f (x ∷ xs) = let rest = update k f xs in if key x == k then f x ∷ xs else x ∷ rest

  unfoldable pub delete : K → List A → List A
  delete k [] = []
  delete k (x ∷ xs) = let rest = delete k xs in if key x == k then xs else x ∷ rest

  -- No key stands in two rows.
  abbrev pub IsUnique : List A → Type ℓ
  IsUnique [] = Unit
  IsUnique (x ∷ xs) = (find (key x) xs ≡ none) × IsUnique xs

  abbrev pub or_row : K → A → Option A → Option A
  or_row j r (some x) = some x
  or_row j r none = if key r == j then some r else none

  pub find-append : (j : K) (xs : List A) (r : A) → find j (xs ++ r ∷ []) ≡ or_row j r (find j xs)
  unfolding find
  find-append j [] r = refl
  find-append j (x ∷ xs) r = ground (arith, find-append j xs r)

  -- Whether a row has the key.
  abbrev pub has : K → List A → Bool
  has k xs = is_some (find k xs)

  pub find-key : (j : K) (xs : List A) (r : A) → find j xs ≡ some r → key r ≡ j
  unfolding find
  find-key j [] r h = ground arith
  find-key j (x ∷ xs) r h = ground (arith, e.same_iff (key x) j, find-key j xs r)

  pub find-update :
      (j k : K) (f : A → A) (xs : List A)
      → ((a : A) → key (f a) ≡ key a)
      → find j (update k f xs) ≡ (if k == j then Option.map f (find j xs) else find j xs)
  unfolding find update
  find-update j k f [] keep = ground arith
  find-update j k f (x ∷ xs) keep = ground (
    arith,
    keep x,
    e.same_iff (key x) j,
    e.same_iff (key x) k,
    e.same_iff k j,
    find-update j k f xs keep,
  )

  pub find-delete :
      (j k : K) (xs : List A)
      → IsUnique xs
      → find j (delete k xs) ≡ (if k == j then none else find j xs)
  unfolding find delete
  find-delete j k [] u = ground arith
  find-delete j k (x ∷ xs) u =
      ground
        (arith, e.same_iff (key x) j, e.same_iff (key x) k, e.same_iff k j, find-delete j k xs u.1)

  pub has-append : (j : K) (xs : List A) (r : A) → has j (xs ++ r ∷ []) ≡ (has j xs || (key r == j))
  has-append j xs r = ground (arith, find-append j xs r)

  pub has-update :
      (j k : K) (f : A → A) (xs : List A)
      → ((a : A) → key (f a) ≡ key a)
      → has j (update k f xs) ≡ has j xs
  has-update j k f xs keep = ground (arith, find-update j k f xs keep)

  pub has-delete :
      (j k : K) (xs : List A)
      → IsUnique xs
      → has j (delete k xs) ≡ (if k == j then false else has j xs)
  has-delete j k xs u = ground (arith, find-delete j k xs u)

  pub append-IsUnique :
      (xs : List A) (r : A) → IsUnique xs → find (key r) xs ≡ none → IsUnique (xs ++ r ∷ [])
  unfolding find
  append-IsUnique [] r u h = (refl, tt)
  append-IsUnique (x ∷ xs) r u h = ground (
    arith,
    find-append (key x) xs r,
    e.same_iff (key x) (key r),
    e.same_iff (key r) (key x),
    append-IsUnique xs r u.1,
  )

  pub update-IsUnique :
      (k : K) (f : A → A) (xs : List A)
      → ((a : A) → key (f a) ≡ key a)
      → IsUnique xs
      → IsUnique (update k f xs)
  unfolding update
  update-IsUnique k f [] keep u = tt
  update-IsUnique k f (x ∷ xs) keep u =
      ground (arith, keep x, find-update (key x) k f xs keep, update-IsUnique k f xs keep u.1)

  pub delete-IsUnique : (k : K) (xs : List A) → IsUnique xs → IsUnique (delete k xs)
  unfolding delete
  delete-IsUnique k [] u = tt
  delete-IsUnique k (x ∷ xs) u =
      ground (arith, find-delete (key x) k xs u.1, delete-IsUnique k xs u.1)

-- Whether a row that was found passes a test.
abbrev pub passes {ℓ} : {A : Type ℓ} → (A → Bool) → Option A → Bool
passes p none = false
passes p (some x) = p x

-- A row that one key finds is there under another key.
pub find-has {ℓ κ} :
    {A : Type ℓ} {K : Type κ} ⦃e : HasEquality K⦄ (key other : A → K) (k : K) (xs : List A) (r : A)
    → find key k xs ≡ some r
    → has other (other r) xs ≡ true
unfolding find
find-has key other k [] r h = ground arith
find-has ⦃e⦄ key other k (x ∷ xs) r h =
    ground (arith, e.same_iff (other x) (other r), find-has key other k xs r)

module _ {ℓ κ} {A : Type ℓ} {K : Type κ} ⦃e : HasEquality K⦄ (key : A → K) where
  -- A selection keeps the row of a key if the row passes.
  pub has-select :
      (p : A → Bool) (k : K) (xs : List A)
      → IsUnique key xs
      → has key k (select p xs) ≡ passes p (find key k xs)
  unfolding find select
  has-select p k [] u = refl
  has-select p k (x ∷ xs) u =
      ground (arith, e.same_iff (key x) k, has-select p k xs u.1, e.same_iff (key x) k)

  -- With unique keys, the row that any other key finds is the one of its key.
  pub find_unique :
      (other : A → K) (j : K) (xs : List A) (r : A)
      → IsUnique key xs
      → find other j xs ≡ some r
      → find key (key r) xs ≡ some r
  unfolding find
  find_unique other j [] r u h = ground arith
  find_unique other j (x ∷ xs) r u h =
      ground (arith, e.same_iff (key x) (key r), find_unique other j xs r u.1)
