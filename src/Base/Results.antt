-- ===== src/Base/Results.antt =====
-- What a handler of the source returns: an error that it throws, or a value.
use mathlib.Core.Path.{◌≡◌, refl}
use mathlib.Core.Bool.{Bool, true, false}
use mathlib.Core.Logic.{◌⊎◌, inl, inr}
use mathlib.Core.Option.{Option, none, some}

pub data Result {ℓ κ} (E : Type ℓ) (A : Type κ) : Type (ℓ ⊔ κ) where
  err : E → Result E A
  ok : A → Result E A

module _ {ℓ κ} {E : Type ℓ} {A : Type κ} where
  pub Result-cases : (m : Result E A) → ((x : A) × (m ≡ ok x)) ⊎ ((e : E) × (m ≡ err e))
  Result-cases (err e) = inr (e, refl)
  Result-cases (ok x) = inl (x, refl)

  -- A missing row is an error.
  abbrev pub or_fail : Option A → E → Result E A
  or_fail (some x) _ = ok x
  or_fail none e = err e

  -- A transaction: COMMIT keeps the state that it made, an error thrown inside is a ROLLBACK.
  abbrev pub commit {μ} : {S : Type μ} → S → Result E (A × S) → Result E A × S
  commit before (err e) = (err e, before)
  commit before (ok (x, after)) = (ok x, after)

-- `if (!test) throw e`.
abbrev pub guard {ℓ} : {E : Type ℓ} → Bool → E → Result E (Unit {0})
guard false e = err e
guard true _ = ok tt

module _ {ℓ κ μ} {E : Type ℓ} {A : Type κ} {B : Type μ} where
  infixl 5 ◌>>=◌
  abbrev pub ◌>>=◌ : Result E A → (A → Result E B) → Result E B
  err e >>= _ = err e
  ok x >>= next = next x

  pub >>=-eq-ok :
      (m : Result E A) (next : A → Result E B) {y : B}
      → (m >>= next) ≡ ok y
      → (x : A) × (m ≡ ok x) × (next x ≡ ok y)
  >>=-eq-ok (ok x) next h = (x, refl, h)
  >>=-eq-ok (err e) next h = cc

infixl 5 ◌>>◌
abbrev pub ◌>>◌ {ℓ κ} : {E : Type ℓ} {B : Type κ} → Result E (Unit {0}) → Result E B → Result E B
first >> then_do = first >>= λ _. then_do

module _ {ℓ κ} {E : Type ℓ} {B : Type κ} where
  -- What a chain that succeeds says of its tests and of the rows that it found.
  pub guard-ok :
      (test : Bool) (e : E) (next : Result E B) {y : B}
      → (guard test e >> next) ≡ ok y
      → (test ≡ true) × (next ≡ ok y)
  guard-ok true e next h = (refl, h)
  guard-ok false e next h = cc

  pub or_fail-ok {μ} :
      {A : Type μ} (found : Option A) (e : E) (next : A → Result E B) {y : B}
      → (or_fail found e >>= next) ≡ ok y
      → (x : A) × (found ≡ some x) × (next x ≡ ok y)
  or_fail-ok none e next h = cc
  or_fail-ok (some x) e next h = (x, refl, h)

pub guard-true {ℓ} : {E : Type ℓ} (test : Bool) (e : E) → guard test e ≡ ok tt → test ≡ true
guard-true true e h = refl
guard-true false e h = cc

-- A value and a state that two successes share.
pub ok_pair {ℓ κ μ} :
    {E : Type ℓ} {A : Type κ} {B : Type μ} {x x' : A} {y y' : B}
    → Path (Result E (A × B)) (ok (x, y)) (ok (x', y'))
    → (x' ≡ x) × (y' ≡ y)
ok_pair e = (cc, cc)

pub ok_injective {ℓ κ} :
    {E : Type ℓ} {A : Type κ} {x y : A} → Path (Result E A) (ok x) (ok y) → x ≡ y
ok_injective e = cc
