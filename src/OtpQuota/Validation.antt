-- ===== src/OtpQuota/Validation.antt =====
-- otp-send-quota.ts: `validateOtpSendLimits`.
use wp_auto.Base.{◌≤◌, ◌≡◌, ◌↔◌, ok, arith, ℕ, >>=-eq-ok, guard-ok, not, ltb, ok_injective}
use wp_auto.OtpQuota.{
  Limits, Number, natural, negative, not_integer, GivenLimits, limit_ok, limits_invalid,
  validate_limits,
}

pub record IsValid (l : Limits) : Type 0 where
  pub hourly : (1 ≤ l.recipient_hourly_max) × (l.recipient_hourly_max ≤ 20)
  pub daily : (1 ≤ l.recipient_daily_max) × (l.recipient_daily_max ≤ 100)
  pub overall : (1 ≤ l.global_daily_max) × (l.global_daily_max ≤ 10000)
  pub ordered : l.recipient_hourly_max ≤ l.recipient_daily_max

-- The three limits as a caller gives them, each a natural number.
abbrev pub given : Limits → GivenLimits
given l = record {
  recipient_hourly_max = natural l.recipient_hourly_max;
  recipient_daily_max = natural l.recipient_daily_max;
  global_daily_max = natural l.global_daily_max;
}

limit_ok_sound :
    (x : Number) (most n : ℕ) → limit_ok x most ≡ ok n → (x ≡ natural n) × (1 ≤ n) × (n ≤ most)
unfolding limit_ok
limit_ok_sound (natural v) most n e = (ground arith, ground arith, ground arith)
limit_ok_sound (negative v) most n e = cc
limit_ok_sound not_integer most n e = cc

limit_ok_complete : (most n : ℕ) → 1 ≤ n → n ≤ most → limit_ok (natural n) most ≡ ok n
unfolding limit_ok
limit_ok_complete most n low high = ground arith

validate_sound :
    (g : GivenLimits) (l : Limits) → validate_limits g ≡ ok l → (g ≡ given l) × IsValid l
unfolding validate_limits
validate_sound g l e =
    let (hourly, e1, r1) = >>=-eq-ok (limit_ok g.recipient_hourly_max 20) _ e in
    let (daily, e2, r2) = >>=-eq-ok (limit_ok g.recipient_daily_max 100) _ r1 in
    let (overall, e3, r3) = >>=-eq-ok (limit_ok g.global_daily_max 10000) _ r2 in
    let (ordered, r4) = guard-ok (not (ltb daily hourly)) limits_invalid _ r3 in
    let (is1, low1, high1) = limit_ok_sound g.recipient_hourly_max 20 hourly e1 in
    let (is2, low2, high2) = limit_ok_sound g.recipient_daily_max 100 daily e2 in
    let (is3, low3, high3) = limit_ok_sound g.global_daily_max 10000 overall e3 in
    let same = ok_injective r4 in
    rw (← same) (
      λ i. record {
        recipient_hourly_max = is1 i;
        recipient_daily_max = is2 i;
        global_daily_max = is3 i;
      },
      record {
        hourly = (low1, high1);
        daily = (low2, high2);
        overall = (low3, high3);
        ordered = ground arith;
      },
    )

validate_complete : (l : Limits) → IsValid l → validate_limits (given l) ≡ ok l
unfolding validate_limits
validate_complete l v =
    rw
      (
        limit_ok_complete 20 l.recipient_hourly_max v.hourly.0 v.hourly.1,
        limit_ok_complete 100 l.recipient_daily_max v.daily.0 v.daily.1,
        limit_ok_complete 10000 l.global_daily_max v.overall.0 v.overall.1,
      )
      (ground arith)

-- Limits are accepted exactly when each is given as an integer from 1 to its ceiling and the daily limit
-- of a recipient is not below the hourly one; the accepted limits are the given ones. Negative numbers,
-- fractions, infinities and NaN are refused.
pub validate_limits_iff :
    (g : GivenLimits) (l : Limits) → (validate_limits g ≡ ok l) ↔ ((g ≡ given l) × IsValid l)
validate_limits_iff g l = (validate_sound g l, λ (same, v). rw same (validate_complete l v))
