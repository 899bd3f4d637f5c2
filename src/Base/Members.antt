-- ===== src/Base/Members.antt =====
-- Boolean quantifiers against membership.
use wp_auto.Base.Tests.{ltb, Bool-cases}
use wp_auto.Base.Lists.{count, any, all, filter, take, sort_by, count-sort_by, length}
use Prim.Native.Nat.{ℕ, zero, suc, ◌≤◌}
use mathlib.Core.Path.{◌≡◌, refl, sym, ◌∙◌}
use mathlib.Core.Bool.{Bool, true, ◌&&◌}
use mathlib.Core.Logic.{◌⊎◌, inl, inr}
use mathlib.Core.List.{List, [], ◌∷◌, Memᴰ}
use native.Mathlib.Omega.{arith}

module _ {ℓ} {A : Type ℓ} where
  pub any-count : (p : A → Bool) (xs : List A) → any p xs ≡ ltb 0 (count p xs)
  any-count p [] = refl
  any-count p (x ∷ xs) = ground (arith, any-count p xs)

  pub any-sort_by : (key : A → ℕ) (p : A → Bool) (xs : List A) → any p (sort_by key xs) ≡ any p xs
  any-sort_by key p xs = cc (any-count p (sort_by key xs), any-count p xs, count-sort_by key p xs)

  pub any-take : (p : A → Bool) (n : ℕ) (xs : List A) → any p (take n xs) ≡ true → any p xs ≡ true
  any-take p zero xs h = cc
  any-take p (suc n) [] h = h
  any-take p (suc n) (x ∷ xs) h = ground (arith, any-take p n xs)

  pub any-filter_and :
      (p q : A → Bool) (xs : List A) → any p (filter q xs) ≡ true → any (λ x. p x && q x) xs ≡ true
  any-filter_and p q [] h = h
  any-filter_and p q (x ∷ xs) h = ground (arith, any-filter_and p q xs)

  pub any_mono :
      (p q : A → Bool) (xs : List A)
      → ((x : A) → p x ≡ true → q x ≡ true)
      → any p xs ≡ true
      → any q xs ≡ true
  any_mono p q [] k h = h
  any_mono p q (x ∷ xs) k h = ground (arith, any_mono p q xs k, k x)

  pub any-member :
      (p : A → Bool) (xs : List A) → any p xs ≡ true → (x : A) × Memᴰ x xs × (p x ≡ true)
  any-member p [] h = cc
  any-member p (x ∷ xs) h = elim (Bool-cases (p x)) [
    | inl e ↦ (x, Memᴰ.head refl, e)
    | inr e ↦ let (y, m, q) = any-member p xs (ground arith) in (y, Memᴰ.tail m, q)
  ]

  pub all-members :
      (p : A → Bool) (xs : List A) → ((x : A) → Memᴰ x xs → p x ≡ true) → all p xs ≡ true
  all-members p [] k = refl
  all-members p (x ∷ xs) k =
      ground (arith, k x (Memᴰ.head refl), all-members p xs (λ y m. k y (Memᴰ.tail m)))

  pub length-take-le : (n : ℕ) (xs : List A) → length (take n xs) ≤ n
  length-take-le zero xs = omega arith
  length-take-le (suc n) [] = omega arith
  length-take-le (suc n) (x ∷ xs) = omega (arith, length-take-le n xs)

  Memᴰ-cases : {x y : A} {xs : List A} → Memᴰ x (y ∷ xs) → (x ≡ y) ⊎ Memᴰ x xs
  Memᴰ-cases (Memᴰ.head e) = inl e
  Memᴰ-cases (Memᴰ.tail m) = inr m

  pub count-member : (p : A → Bool) {x : A} {xs : List A} → Memᴰ x xs → p x ≡ true → 1 ≤ count p xs
  count-member p {x} (Memᴰ.head e) h = let g = rw e at h in ground arith
  count-member p (Memᴰ.tail m) h = ground (arith, count-member p m h)

  -- Of the members that pass a test at most one, all that pass it are the same.
  pub same-member :
      (p : A → Bool) {x y : A} (xs : List A)
      → count p xs ≤ 1
      → Memᴰ x xs
      → Memᴰ y xs
      → p x ≡ true
      → p y ≡ true
      → x ≡ y
  same-member p [] u m n h k = elim m [ ]
  same-member p (z ∷ zs) u m n h k = elim (Memᴰ-cases m) [
    | inl e ↦ elim (Memᴰ-cases n) [
      | inl f ↦ e ∙ sym f
      | inr n' ↦ let g = rw e at h in absurd (ground (arith, count-member p n' k))
    ]
    | inr m' ↦ elim (Memᴰ-cases n) [
      | inl f ↦ let g = rw f at k in absurd (ground (arith, count-member p m' h))
      | inr n' ↦ same-member p zs (ground arith) m' n' h k
    ]
  ]
