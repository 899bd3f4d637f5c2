-- ===== src/Base/Rows.antt =====
-- Tables as lists of rows: SELECT, INSERT with a primary key, and DELETE of the oldest.
use Prim.Native.Nat.{ℕ, ◌+◌, ◌≤◌}
use mathlib.Core.Path.{◌≡◌, refl}
use mathlib.Core.Bool.{Bool, true, false, not}
use mathlib.Core.Logic.{inl, inr}
use mathlib.Core.Option.{Option, none, some}
use mathlib.Core.List.{List, [], ◌∷◌, ◌++◌}
use native.Mathlib.Omega.{arith}
use wp_auto.Base.Tests.{HasEq, ◌==◌, Bool-cases, if◌then◌else◌}
use wp_auto.Base.Lists.{count, filter, take, any, update_where, sort_by, count-filter-le}

module _ {ℓ} {A : Type ℓ} where
  -- `result.rows[0]`
  abbrev pub first : (A → Bool) → List A → Option A
  first p [] = none
  first p (x ∷ xs) = let rest = first p xs in if p x then some x else rest

  pub first-count : (p : A → Bool) (xs : List A) → first p xs ≡ none → count p xs ≡ 0
  first-count p [] h = refl
  first-count p (x ∷ xs) h = ground (arith, first-count p xs)

  pub first-none : (p : A → Bool) (xs : List A) → count p xs ≡ 0 → first p xs ≡ none
  first-none p [] h = refl
  first-none p (x ∷ xs) h = ground (arith, first-none p xs)

  pub first_holds : (p : A → Bool) (xs : List A) {x : A} → first p xs ≡ some x → p x ≡ true
  first_holds p [] h = cc
  first_holds p (y ∷ ys) {x} h = elim (Bool-cases (p y)) [
    | inl e ↦ let same : y ≡ x = ground arith in rw same at e
    | inr e ↦ first_holds p ys (ground arith)
  ]

  pub first-append :
      (p : A → Bool) (xs ys : List A) → count p xs ≡ 0 → first p (xs ++ ys) ≡ first p ys
  first-append p [] ys h = refl
  first-append p (x ∷ xs) ys h = ground (arith, first-append p xs ys)

  pub first-append_left :
      (p : A → Bool) (xs ys : List A) (x : A) → first p xs ≡ some x → first p (xs ++ ys) ≡ some x
  first-append_left p [] ys x h = cc
  first-append_left p (y ∷ xs) ys x h = ground (arith, first-append_left p xs ys x)

  -- The row that an UPDATE leaves, if the test reads nothing that it writes.
  pub first-update_where :
      (p q : A → Bool) (f : A → A) (xs : List A) (x : A)
      → ((r : A) → p (f r) ≡ p r)
      → first p xs ≡ some x
      → first p (update_where q f xs) ≡ some (if q x then f x else x)
  unfolding update_where
  first-update_where p q f [] x k h = cc
  first-update_where p q f (y ∷ ys) x k h = elim (Bool-cases (p y)) [
    | inl e ↦ let same : y ≡ x = ground arith in ground (arith, k y)
    | inr e ↦ ground (arith, k y, first-update_where p q f ys x k)
  ]

  -- An UPDATE that puts no row under a test does not raise its count.
  pub count-update_within :
      (p q : A → Bool) (f : A → A) (rows : List A)
      → ((r : A) → p r ≡ true → q (f r) ≡ true → q r ≡ true)
      → count q (update_where p f rows) ≤ count q rows
  unfolding update_where
  count-update_within p q f [] h = omega arith
  count-update_within p q f (r ∷ rs) h = ground (arith, count-update_within p q f rs h, h r)

  -- An UPDATE puts at most the rows that it changes under a test.
  pub count-update_add :
      (p q : A → Bool) (f : A → A) (rows : List A)
      → count q (update_where p f rows) ≤ count q rows + count p rows
  unfolding update_where
  count-update_add p q f [] = omega arith
  count-update_add p q f (r ∷ rs) = ground (arith, count-update_add p q f rs)

  pub first_counts :
      (p q : A → Bool) (xs : List A) (x : A) → first p xs ≡ some x → q x ≡ true → 1 ≤ count q xs
  first_counts p q [] x e h = cc
  first_counts p q (y ∷ ys) x e h = elim (Bool-cases (p y)) [
    | inl here ↦ let same : y ≡ x = ground arith in let m : q y ≡ true = rw same h in ground arith
    | inr other ↦ ground (arith, first_counts p q ys x (ground arith) h)
  ]

  -- What an UPDATE takes out of a count.
  pub count-update_drop :
      (p q : A → Bool) (f : A → A) (rows : List A)
      → ((r : A) → p r ≡ true → q r ≡ true)
      → ((r : A) → p r ≡ true → q (f r) ≡ false)
      → count q (update_where p f rows) + count p rows ≡ count q rows
  unfolding update_where
  count-update_drop p q f [] within gone = refl
  count-update_drop p q f (r ∷ rs) within gone =
      ground (arith, count-update_drop p q f rs within gone, within r, gone r)

-- `DELETE … WHERE key IN (SELECT key … WHERE old ORDER BY created_at LIMIT 100)`
module _ {ℓ κ} {A : Type ℓ} {K : Type κ} ⦃eq : HasEq K⦄ (key : A → K) (created_at : A → ℕ) where
  unfoldable pub delete_oldest : (A → Bool) → List A → List A
  delete_oldest old rows =
      let gone = take 100 (sort_by created_at (filter old rows)) in
      filter (λ r. not (any (λ g. key g == key r) gone)) rows

  pub count-delete_oldest :
      (p old : A → Bool) (rows : List A) → count p (delete_oldest old rows) ≤ count p rows
  unfolding delete_oldest
  count-delete_oldest p old rows = count-filter-le p _ rows
