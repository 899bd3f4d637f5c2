-- ===== src/Limiter.antt =====
-- packages/database/src/index.ts, `RateLimitSubjectCodec` and `PostgresOAuthRateLimiter`, with the
-- function `oauth.consume_rate_limit` of packages/database/migrations/005_token_lifecycle.sql that
-- they call. Times are milliseconds; the keyed hash is a parameter. A limit is a natural number, which
-- `allow` tests with `Number.isInteger`.
pub mod Windows
pub mod Calls
mod Tests
use wp_auto.Base.{
  ℕ, zero, suc, ◌+◌, ◌-◌, ◌*◌, ◌/◌, ◌%◌, ◌^◌, ◌≤◌, ◌<◌, min, max, String, ◌≡◌, refl, sym, ap, ◌∙◌,
  ◌≢◌, ◌↔◌, ◌⊎◌, inl, inr, Bool, true, false, not, ◌&&◌, ◌||◌, Option, none, some, List, [], ◌∷◌,
  ◌++◌, map, arith, ltb, leb, if◌then◌else◌, ltb→lt, lt→ltb, leb→le, le→leb, Bool-cases,
  Option-cases, HasEq, ◌==◌, ==_iff, nat_eq, text_eq, bytes_eq, Bytes, ==_refl, ==_ne, length,
  get_elem?, take, filter, count, all, any, Result, ok, err, ◌>>=◌, ◌>>◌, guard, or_fail, commit,
  >>=-eq-ok, guard-ok, guard-true, or_fail-ok, Result-cases, ok_pair,
}
use wp_auto.Base.{update_where}
use wp_auto.Base.Rows.{first}
use wp_auto.Base.Text.{text_length, is_code}

pub record Bucket : Type 0 where
  pub policy : String
  pub subject_hash : Bytes
  pub window_started_at : ℕ
  pub counter : ℕ

pub data Error : Type 0 where
  invalid_rate_limit_subject : Error

pub record Policy : Type 0 where
  pub name : String
  pub limit : ℕ
  pub window_seconds : ℕ

abbrev pub is_bucket : String → Bytes → ℕ → Bucket → Bool
is_bucket policy h start b =
    b.policy == policy && (b.subject_hash == h && b.window_started_at == start)

abbrev pub counted : Bucket → Bucket
counted b = record b { counter = suc b.counter }

abbrev pub is_limit : String → Bytes → ℕ → ℕ → Bool
is_limit policy h limit seconds =
    is_code policy
    && (length h == 32 && (leb 1 limit && (leb limit 10000 && (leb 1 seconds && leb seconds 3600))))

-- floor(extract(epoch FROM observed_at) / seconds) * seconds
abbrev pub window_start : ℕ → ℕ → ℕ
window_start observed_at seconds = observed_at / (seconds * 1000) * (seconds * 1000)

-- INSERT … ON CONFLICT DO UPDATE … WHERE counter < limit RETURNING counter
abbrev pub bump : String → Bytes → ℕ → ℕ → List Bucket → Option Bucket → Bool × List Bucket
bump policy h start limit rows none = (
  leb 1 limit,
  rows ++ record { policy = policy; subject_hash = h; window_started_at = start; counter = 1 } ∷ [],
)
bump policy h start limit rows (some b) =
    if ltb b.counter limit
    then (leb (suc b.counter) limit, update_where (is_bucket policy h start) counted rows)
    else (false, rows)

unfoldable pub consume_rate_limit : String → Bytes → ℕ → ℕ → ℕ → List Bucket → Bool × List Bucket
consume_rate_limit policy h limit seconds observed_at rows =
    let start = window_start observed_at seconds in
    let bumped = bump policy h start limit rows (first (is_bucket policy h start) rows) in
    if is_limit policy h limit seconds then bumped else (false, rows)

-- The HMAC of the policy, a NUL and the subject.
module _ (hmac : String → String → Bytes) where
  unfoldable pub digest : String → String → Result Error Bytes
  digest policy subject = do
    guard (is_code policy && (leb 1 (text_length subject) && leb (text_length subject) 2048))
        invalid_rate_limit_subject
    ok (hmac policy subject)

  unfoldable pub allow : Policy → String → ℕ → List Bucket → Result Error (Bool × List Bucket)
  unfolding digest
  allow policy subject observed_at rows = do
    h ← digest policy.name subject
    ok (consume_rate_limit policy.name h policy.limit policy.window_seconds observed_at rows)
