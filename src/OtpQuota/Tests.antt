-- ===== src/OtpQuota/Tests.antt =====
-- The mail budget on concrete tables: tests of the model, and the theorems at inputs that they fit.
use wp_auto.Base.{
  update_where, ℕ, ◌≡◌, ◌≢◌, ◌↔◌, refl, String, Bytes, true, false, some, List, [], ◌∷◌, arith, ok,
  err, text_eq,
}
use wp_auto.OtpQuota.{
  Reservation, default_limits, accepted, rejected, allowed, denied, Denial, recipient_hour,
  outcome_not_saved, validate_limits, new_reservation, rule, rules, decide, reserve, remaining,
  claim, finish,
}
use wp_auto.Base.{sort_by}
use wp_auto.OtpQuota.Remaining.{remaining-reserve}
use wp_auto.Base.{suc}
use wp_auto.OtpQuota.Windows.{IsWithin, reserve-IsWithin}
use wp_auto.OtpQuota.Retry.{reserve_after_wait}
use wp_auto.OtpQuota.Early.{reserve_before_wait}
use wp_auto.OtpQuota.Validation.{IsValid, given, validate_limits_iff}
use wp_auto.OtpQuota.Lifecycle.{
  Event, reserves, claims, finishes, step, run, IsConsistent, step-IsConsistent,
}
use wp_auto.OtpQuota.Once.{claim_once, finish_once}

quota : Unit {0}
unfolding rule rules decide reserve remaining claim finish update_where sort_by run
quota = tt

abbrev key : String → Bytes
key email = 1 ∷ []

abbrev row : String → ℕ → Reservation
row id t = new_reservation id (1 ∷ []) t

abbrev busy : List Reservation
busy = row "b" 2000 ∷ row "a" 1000 ∷ row "c" 3000 ∷ []

abbrev refusal : Denial
refusal = record { dimension = recipient_hour; retry_after_seconds = 3597 }

-- The third mail of the hour came at 3 s; the first leaves its hour at 3601 s.
reserve_refused : reserve default_limits key "e" (some 4000) "d" busy ≡ (ok (denied refusal), busy)
unfolding quota
reserve_refused = refl

reserve_allowed : (reserve default_limits key "e" (some 3601000) "d" busy).0 ≡ ok (allowed "d")
unfolding quota
reserve_allowed = refl

remaining_test : remaining default_limits key true 4000 busy ≡ ok 97
unfolding quota
remaining_test = refl

claim_test : (claim "a" 1500 busy).0 ≡ true
unfolding quota
claim_test = refl

empty-IsWithin : IsWithin default_limits []
empty-IsWithin = record {
  hourly = λ c s. omega arith;
  daily = λ c s. omega arith;
  overall = λ s. omega arith;
}

default-IsValid : IsValid default_limits
default-IsValid = record {
  hourly = omega arith;
  daily = omega arith;
  overall = omega arith;
  ordered = omega arith;
}

reserve-IsWithin_example :
    IsWithin default_limits (reserve default_limits key "e" (some 1000) "a" []).1
reserve-IsWithin_example = reserve-IsWithin default_limits key "e" (some 1000) "a" [] empty-IsWithin

reserve_after_wait_example :
    (reserve default_limits key "e" (some 3601000) "d" busy).0 ≡ ok (allowed "d")
reserve_after_wait_example =
    reserve_after_wait default_limits key "e" 4000 3601000 "d" "d" busy busy refusal default-IsValid
      reserve_refused (omega arith) refl

reserve_before_wait_example :
    (reserve default_limits key "e" (some 3600000) "d" busy).0 ≢ ok (allowed "d")
reserve_before_wait_example =
    reserve_before_wait default_limits key "e" 4000 3600000 "d" "d" busy busy refusal
      reserve_refused (omega arith) (omega arith)

validate_limits_iff_example :
    (validate_limits (given default_limits) ≡ ok default_limits)
    ↔ ((given default_limits ≡ given default_limits) × IsValid default_limits)
validate_limits_iff_example = validate_limits_iff (given default_limits) default_limits

single-IsConsistent : IsConsistent (row "a" 1000 ∷ [])
single-IsConsistent = record { unique = λ id. ground arith; rows_ok = refl }

step-IsConsistent_example :
    IsConsistent (step default_limits key (row "a" 1000 ∷ []) (claims "a" 1500))
step-IsConsistent_example =
    step-IsConsistent default_limits key (row "a" 1000 ∷ []) (claims "a" 1500) single-IsConsistent

claim_first : (claim "a" 1500 (row "a" 1000 ∷ [])).0 ≡ true
unfolding quota
claim_first = refl

abbrev afterwards : List Event
afterwards = finishes "a" rejected ∷ reserves "e" (some 2000) "b" ∷ []

claim_once_example :
    (claim "a" 2500 (run default_limits key (claim "a" 1500 (row "a" 1000 ∷ [])).1 afterwards)).0
    ≡ false
claim_once_example =
    claim_once default_limits key "a" 1500 2500 (row "a" 1000 ∷ []) afterwards single-IsConsistent
      claim_first (tt, (refl, tt))

abbrev claimed_row : Reservation
claimed_row = record (row "a" 1000) { attempted_at = some 1500 }

claimed-IsConsistent : IsConsistent (claimed_row ∷ [])
claimed-IsConsistent = record { unique = λ id. ground arith; rows_ok = refl }

finish_first : (finish "a" accepted (claimed_row ∷ [])).0 ≡ ok tt
unfolding quota
finish_first = refl

finish_once_example :
    (finish "a" rejected
      (run default_limits key (finish "a" accepted (claimed_row ∷ [])).1 afterwards)).0
    ≡ err outcome_not_saved
finish_once_example =
    finish_once default_limits key "a" accepted rejected (claimed_row ∷ []) afterwards
      claimed-IsConsistent finish_first (tt, (refl, tt))

abbrev two : List Reservation
two = row "b" 2000 ∷ row "a" 1000 ∷ []

reserve_third :
    reserve default_limits key "e" (some 3000) "c" two
    ≡ (ok (allowed "c"), row "b" 2000 ∷ row "a" 1000 ∷ row "c" 3000 ∷ [])
unfolding quota
reserve_third = refl

remaining-reserve_example :
    (n : ℕ) × (remaining default_limits key true 3000 two ≡ ok (suc n))
    × (remaining default_limits key true 3000 (row "b" 2000 ∷ row "a" 1000 ∷ row "c" 3000 ∷ [])
        ≡ ok n)
remaining-reserve_example =
    remaining-reserve default_limits key "e" 3000 "c" two
      (row "b" 2000 ∷ row "a" 1000 ∷ row "c" 3000 ∷ []) reserve_third
