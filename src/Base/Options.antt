-- ===== src/Base/Options.antt =====
-- Optional values as tests: `x === null` and `x === y` on columns that may be missing.
use mathlib.Core.Path.{◌≡◌, refl, ap}
use mathlib.Core.Logic.{◌↔◌}
use mathlib.Core.Bool.{Bool, true, false}
use mathlib.Core.Option.{Option, none, some}
use wp_auto.Base.Tests.{HasEq, ◌==◌, ==_iff}

module _ {ℓ} {A : Type ℓ} where
  abbrev pub is_none : Option A → Bool
  is_none none = true
  is_none (some _) = false

  pub is_none_iff : (o : Option A) → (is_none o ≡ true) ↔ (o ≡ none)
  is_none_iff none = (λ _. refl, λ _. refl)
  is_none_iff (some x) = (λ h. cc, λ h. cc)

  pub some_injective : {x y : A} → Path (Option A) (some x) (some y) → x ≡ y
  some_injective e = cc

module _ {ℓ} {A : Type ℓ} ⦃eq : HasEq A⦄ where
  -- `a === b` where either may be `undefined`.
  abbrev pub same_option : Option A → Option A → Bool
  same_option none none = true
  same_option none (some _) = false
  same_option (some _) none = false
  same_option (some x) (some y) = x == y

  pub same_option_sound : (a b : Option A) → same_option a b ≡ true → a ≡ b
  same_option_sound none none h = refl
  same_option_sound none (some _) h = cc
  same_option_sound (some _) none h = cc
  same_option_sound (some x) (some y) h = ap some ((==_iff x y).0 h)
