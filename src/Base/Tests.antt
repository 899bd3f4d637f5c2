-- ===== src/Base/Tests.antt =====
-- Boolean tests on numbers, texts and byte strings, the conditional, and splits on a computed value.
use Prim.Native.Nat.{ℕ, ◌≤◌, ◌<◌, compare, Ordering}
use Prim.Native.String.{String}
use mathlib.Core.Path.{◌≡◌, refl}
use mathlib.Core.Logic.{◌↔◌, ◌⊎◌, inl, inr}
use mathlib.Core.Bool.{Bool, true, false, ◌&&◌}
use mathlib.Core.Option.{Option, none, some}
use mathlib.Core.List.{List, [], ◌∷◌}
use native.Mathlib.Omega.{arith}
use text.Mathlib.Text.{◌==◌ as same_text}
use text.Mathlib.TextEquality.{eq_iff}

abbrev pub ltb : ℕ → ℕ → Bool
ltb a b = elim (compare a b) [ Ordering.lt ↦ true | _ ↦ false ]

abbrev pub leb : ℕ → ℕ → Bool
leb a b = elim (compare a b) [ Ordering.gt ↦ false | _ ↦ true ]

abbrev nat_eqb : ℕ → ℕ → Bool
nat_eqb a b = elim (compare a b) [ Ordering.eq ↦ true | _ ↦ false ]

infix 1 if◌then◌else◌
abbrev pub if◌then◌else◌ {ℓ} : {A : Type ℓ} → Bool → A → A → A
if true then x else y = x
if false then x else y = y

pub ltb→lt : (a b : ℕ) → ltb a b ≡ true → a < b
ltb→lt a b h = ground arith

pub lt→ltb : (a b : ℕ) → a < b → ltb a b ≡ true
lt→ltb a b h = ground arith

pub leb→le : (a b : ℕ) → leb a b ≡ true → a ≤ b
leb→le a b h = ground arith

pub le→leb : (a b : ℕ) → a ≤ b → leb a b ≡ true
le→leb a b h = ground arith

pub ruleset tests = (arith, ltb→lt, lt→ltb, leb→le, le→leb)

pub Bool-cases : (b : Bool) → (b ≡ true) ⊎ (b ≡ false)
Bool-cases true = inl refl
Bool-cases false = inr refl

pub Option-cases {ℓ} : {A : Type ℓ} (o : Option A) → (o ≡ none) ⊎ ((a : A) × (o ≡ some a))
Option-cases none = inl refl
Option-cases (some a) = inr (a, refl)

-- `===` on numbers and texts and the comparison of byte strings, by instance.
pub record HasEq {ℓ} (A : Type ℓ) : Type ℓ where
  pub same : A → A → Bool
  pub same_iff : (x y : A) → (same x y ≡ true) ↔ (x ≡ y)

module _ {ℓ} {A : Type ℓ} ⦃eq : HasEq A⦄ where
  infix 50 ◌==◌
  abbrev pub ◌==◌ : A → A → Bool
  x == y = eq.same x y

  pub ==_iff : (x y : A) → ((x == y) ≡ true) ↔ (x ≡ y)
  ==_iff = eq.same_iff

  pub ==_refl : (x : A) → (x == x) ≡ true
  ==_refl x = (==_iff x x).1 refl

  pub ==_ne : (x y : A) → ¬ (x ≡ y) → (x == y) ≡ false
  ==_ne x y h = elim (Bool-cases (x == y)) [
    | inl agree ↦ absurd (h ((==_iff x y).0 agree))
    | inr differ ↦ differ
  ]

pub nat_eqb_iff : (a b : ℕ) → (nat_eqb a b ≡ true) ↔ (a ≡ b)
nat_eqb_iff a b = ground arith

-- Numbers.
instance abbrev pub nat_eq : HasEq ℕ
nat_eq = record { same = nat_eqb; same_iff = nat_eqb_iff }

-- Texts, as a whole.
instance abbrev pub text_eq : HasEq String
text_eq = record { same = same_text; same_iff = eq_iff }

-- A byte string: a Buffer or Uint8Array of the source.
abbrev pub Bytes : Type 0
Bytes = List ℕ

abbrev pub equal_bytes : Bytes → Bytes → Bool
equal_bytes [] [] = true
equal_bytes [] (_ ∷ _) = false
equal_bytes (_ ∷ _) [] = false
equal_bytes (x ∷ xs) (y ∷ ys) = nat_eqb x y && equal_bytes xs ys

equal_bytes_refl : (xs : Bytes) → equal_bytes xs xs ≡ true
equal_bytes_refl [] = refl
equal_bytes_refl (x ∷ xs) = ground (arith, equal_bytes_refl xs)

equal_bytes_sound : (xs ys : Bytes) → equal_bytes xs ys ≡ true → xs ≡ ys
equal_bytes_sound [] [] h = refl
equal_bytes_sound [] (_ ∷ _) h = cc
equal_bytes_sound (_ ∷ _) [] h = cc
equal_bytes_sound (x ∷ xs) (y ∷ ys) h = ground (arith, equal_bytes_sound xs ys)

equal_bytes_complete : (xs ys : Bytes) → xs ≡ ys → equal_bytes xs ys ≡ true
equal_bytes_complete xs ys e = rw e (equal_bytes_refl ys)

pub equal_bytes_iff : (xs ys : Bytes) → (equal_bytes xs ys ≡ true) ↔ (xs ≡ ys)
equal_bytes_iff xs ys = (equal_bytes_sound xs ys, equal_bytes_complete xs ys)

instance abbrev pub bytes_eq : HasEq Bytes
bytes_eq = record { same = equal_bytes; same_iff = equal_bytes_iff }
