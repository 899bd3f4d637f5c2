-- ===== src/Base/Lists.antt =====
-- Lists measured, filtered, counted and sorted with Boolean tests and native numbers.
use Prim.Native.Nat.{ℕ, zero, suc, ◌+◌, ◌≤◌, ◌<◌}
use mathlib.Core.Path.{◌≡◌, refl}
use mathlib.Core.Bool.{Bool, false, true, false, ◌&&◌, ◌||◌}
use mathlib.Core.List.{List, [], ◌∷◌, ◌++◌}
use mathlib.Core.Option.{Option, none, some}
use mathlib.Core.Logic.{inl, inr}
use native.Mathlib.Omega.{arith}
use wp_auto.Base.Tests.{leb, if◌then◌else◌, Bool-cases}

module _ {ℓ} {A : Type ℓ} where
  abbrev pub length : List A → ℕ
  length [] = 0
  length (x ∷ xs) = suc (length xs)

  abbrev pub get_elem? : List A → ℕ → Option A
  get_elem? [] i = none
  get_elem? (x ∷ xs) zero = some x
  get_elem? (x ∷ xs) (suc i) = get_elem? xs i

  abbrev pub take : ℕ → List A → List A
  take zero xs = []
  take (suc n) [] = []
  take (suc n) (x ∷ xs) = x ∷ take n xs

  abbrev pub filter : (A → Bool) → List A → List A
  filter p [] = []
  filter p (x ∷ xs) = let rest = filter p xs in if p x then x ∷ rest else rest

  abbrev pub count : (A → Bool) → List A → ℕ
  count p [] = 0
  count p (x ∷ xs) = (if p x then 1 else 0) + count p xs

  abbrev pub all : (A → Bool) → List A → Bool
  all p [] = true
  all p (x ∷ xs) = p x && all p xs

  abbrev pub any : (A → Bool) → List A → Bool
  any p [] = false
  any p (x ∷ xs) = p x || any p xs

  pub length-append : (xs ys : List A) → length (xs ++ ys) ≡ length xs + length ys
  length-append [] ys = omega arith
  length-append (x ∷ xs) ys = omega (arith, length-append xs ys)

  pub count-append : (p : A → Bool) (xs ys : List A) → count p (xs ++ ys) ≡ count p xs + count p ys
  count-append p [] ys = omega arith
  count-append p (x ∷ xs) ys = omega (arith, count-append p xs ys)

  pub length-filter : (p : A → Bool) (xs : List A) → length (filter p xs) ≡ count p xs
  length-filter p [] = refl
  length-filter p (x ∷ xs) = ground (arith, length-filter p xs)

  pub count-filter :
      (p q : A → Bool) (xs : List A) → count p (filter q xs) ≡ count (λ x. q x && p x) xs
  count-filter p q [] = refl
  count-filter p q (x ∷ xs) = ground (arith, count-filter p q xs)

  pub count_mono :
      (p q : A → Bool) (xs : List A) → ((x : A) → p x ≡ true → q x ≡ true) → count p xs ≤ count q xs
  count_mono p q [] h = omega arith
  count_mono p q (x ∷ xs) h = ground (arith, count_mono p q xs h, h x)

  pub count-false : (xs : List A) → count (λ x. false) xs ≡ 0
  count-false [] = refl
  count-false (x ∷ xs) = ground (arith, count-false xs)

  pub count-or :
      (p q : A → Bool) (xs : List A) → count (λ x. p x || q x) xs ≤ count p xs + count q xs
  count-or p q [] = omega arith
  count-or p q (x ∷ xs) = ground (arith, count-or p q xs)

  pub count-filter-le : (p q : A → Bool) (xs : List A) → count p (filter q xs) ≤ count p xs
  count-filter-le p q [] = omega arith
  count-filter-le p q (x ∷ xs) = ground (arith, count-filter-le p q xs)

  pub count-le-length : (p : A → Bool) (xs : List A) → count p xs ≤ length xs
  count-le-length p [] = omega arith
  count-le-length p (x ∷ xs) = ground (arith, count-le-length p xs)

  pub any-filter : (p q : A → Bool) (xs : List A) → any p xs ≡ false → any p (filter q xs) ≡ false
  any-filter p q [] h = refl
  any-filter p q (x ∷ xs) h = ground (arith, any-filter p q xs)

  pub get_elem?-some : (xs : List A) (i : ℕ) → i < length xs → (x : A) × (get_elem? xs i ≡ some x)
  get_elem?-some [] i h = elim h [ ]
  get_elem?-some (x ∷ xs) zero h = (x, refl)
  get_elem?-some (x ∷ xs) (suc i) h = get_elem?-some xs i (omega arith)

-- UPDATE … WHERE.
module _ {ℓ} {A : Type ℓ} where
  unfoldable pub update_where : (A → Bool) → (A → A) → List A → List A
  update_where p f [] = []
  update_where p f (r ∷ rs) = (if p r then f r else r) ∷ update_where p f rs

  -- An UPDATE that keeps a test keeps its count.
  pub count-update_where :
      (p q : A → Bool) (f : A → A) (rows : List A)
      → ((r : A) → q (f r) ≡ q r)
      → count q (update_where p f rows) ≡ count q rows
  unfolding update_where
  count-update_where p q f [] h = refl
  count-update_where p q f (r ∷ rs) h = ground (arith, count-update_where p q f rs h, h r)

  pub all-update_where :
      (p q : A → Bool) (f : A → A) (rows : List A)
      → ((r : A) → p r ≡ true → q r ≡ true → q (f r) ≡ true)
      → all q rows ≡ true
      → all q (update_where p f rows) ≡ true
  unfolding update_where
  all-update_where p q f [] h a = refl
  all-update_where p q f (r ∷ rs) h a = ground (arith, all-update_where p q f rs h, h r)

  pub all-filter :
      (p q : A → Bool) (rows : List A) → all q rows ≡ true → all q (filter p rows) ≡ true
  all-filter p q [] a = refl
  all-filter p q (r ∷ rs) a = ground (arith, all-filter p q rs)

  pub count-update_le :
      (p q : A → Bool) (f : A → A) (rows : List A)
      → ((r : A) → q (f r) ≡ true → q r ≡ true)
      → count q (update_where p f rows) ≤ count q rows
  unfolding update_where
  count-update_le p q f [] h = omega arith
  count-update_le p q f (r ∷ rs) h = ground (arith, count-update_le p q f rs h, h r)

-- ORDER BY a number: a stable insertion sort.
module _ {ℓ} {A : Type ℓ} (key : A → ℕ) where
  unfoldable pub insert_by : A → List A → List A
  insert_by x [] = x ∷ []
  insert_by x (y ∷ ys) =
      let further = y ∷ insert_by x ys in if leb (key x) (key y) then x ∷ y ∷ ys else further

  unfoldable pub sort_by : List A → List A
  unfolding insert_by
  sort_by [] = []
  sort_by (x ∷ xs) = insert_by x (sort_by xs)

  -- Every key of the list is at least `n`.
  abbrev pub AtLeast : ℕ → List A → Type 0
  AtLeast n [] = Unit
  AtLeast n (x ∷ xs) = (n ≤ key x) × AtLeast n xs

  abbrev pub IsSortedBy : List A → Type 0
  IsSortedBy [] = Unit
  IsSortedBy (x ∷ xs) = AtLeast (key x) xs × IsSortedBy xs

  AtLeast-mono : (m n : ℕ) (xs : List A) → m ≤ n → AtLeast n xs → AtLeast m xs
  AtLeast-mono m n [] h a = tt
  AtLeast-mono m n (x ∷ xs) h (b, a) = (omega arith, AtLeast-mono m n xs h a)

  insert_by-AtLeast :
      (n : ℕ) (x : A) (xs : List A) → n ≤ key x → AtLeast n xs → AtLeast n (insert_by x xs)
  unfolding insert_by
  insert_by-AtLeast n x [] h a = (h, tt)
  insert_by-AtLeast n x (y ∷ ys) h (b, a) = elim (Bool-cases (leb (key x) (key y))) [
    | inl e ↦ rw e (h, (b, a))
    | inr e ↦ rw e (b, insert_by-AtLeast n x ys h a)
  ]

  insert_by-IsSortedBy : (x : A) (xs : List A) → IsSortedBy xs → IsSortedBy (insert_by x xs)
  unfolding insert_by
  insert_by-IsSortedBy x [] s = (tt, tt)
  insert_by-IsSortedBy x (y ∷ ys) (a, s) = elim (Bool-cases (leb (key x) (key y))) [
    | inl e ↦
        let h : key x ≤ key y = ground arith in
        rw e ((h, AtLeast-mono (key x) (key y) ys h a), (a, s))
    | inr e ↦ rw e (insert_by-AtLeast (key y) x ys (ground arith) a, insert_by-IsSortedBy x ys s)
  ]

  pub sort_by-IsSortedBy : (xs : List A) → IsSortedBy (sort_by xs)
  unfolding sort_by
  sort_by-IsSortedBy [] = tt
  sort_by-IsSortedBy (x ∷ xs) = insert_by-IsSortedBy x (sort_by xs) (sort_by-IsSortedBy xs)

  count-insert_by :
      (p : A → Bool) (x : A) (xs : List A) → count p (insert_by x xs) ≡ count p (x ∷ xs)
  unfolding insert_by
  count-insert_by p x [] = refl
  count-insert_by p x (y ∷ ys) = elim (Bool-cases (leb (key x) (key y))) [
    | inl e ↦ rw e refl
    | inr e ↦ rw e (omega (arith, count-insert_by p x ys))
  ]

  pub count-sort_by : (p : A → Bool) (xs : List A) → count p (sort_by xs) ≡ count p xs
  unfolding sort_by
  count-sort_by p [] = refl
  count-sort_by p (x ∷ xs) = omega (arith, count-insert_by p x (sort_by xs), count-sort_by p xs)

  length-insert_by : (x : A) (xs : List A) → length (insert_by x xs) ≡ suc (length xs)
  unfolding insert_by
  length-insert_by x [] = refl
  length-insert_by x (y ∷ ys) = ground (arith, length-insert_by x ys)

  pub length-sort_by : (xs : List A) → length (sort_by xs) ≡ length xs
  unfolding sort_by
  length-sort_by [] = refl
  length-sort_by (x ∷ xs) = omega (arith, length-insert_by x (sort_by xs), length-sort_by xs)

  pub AtLeast-get_elem? :
      (n i : ℕ) (xs : List A) (x : A) → AtLeast n xs → get_elem? xs i ≡ some x → n ≤ key x
  AtLeast-get_elem? n i [] x a e = cc
  AtLeast-get_elem? n zero (y ∷ ys) x a e = ground arith
  AtLeast-get_elem? n (suc i) (y ∷ ys) x (_, a) e = AtLeast-get_elem? n i ys x a e

  filter-AtLeast : (n : ℕ) (q : A → Bool) (xs : List A) → AtLeast n xs → AtLeast n (filter q xs)
  filter-AtLeast n q [] a = tt
  filter-AtLeast n q (x ∷ xs) (b, a) = elim (Bool-cases (q x)) [
    | inl e ↦ rw e (b, filter-AtLeast n q xs a)
    | inr e ↦ rw e (filter-AtLeast n q xs a)
  ]

  pub filter-IsSortedBy : (q : A → Bool) (xs : List A) → IsSortedBy xs → IsSortedBy (filter q xs)
  filter-IsSortedBy q [] s = tt
  filter-IsSortedBy q (x ∷ xs) (a, s) = elim (Bool-cases (q x)) [
    | inl e ↦ rw e (filter-AtLeast (key x) q xs a, filter-IsSortedBy q xs s)
    | inr e ↦ rw e (filter-IsSortedBy q xs s)
  ]
