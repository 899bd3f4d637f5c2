-- ===== src/OtpQuota.antt =====
-- packages/account-auth/src/otp-send-quota.ts: the budget of one-time-password mails.
-- Times are milliseconds. The HMAC of an address and the new identifiers are parameters; a query
-- that the database does not answer is `none` in place of its clock.
pub mod Windows
pub mod Retry
pub mod Early
pub mod Remaining
pub mod Lifecycle
pub mod Once
pub mod Validation
mod Tests
use wp_auto.Base.{
  update_where, count-update_where, count-update_le, all-update_where, all-filter, ℕ, ◌+◌, ◌-◌, ◌/◌,
  String, Bytes, Bool, true, false, not, ◌&&◌, ◌||◌, Option, none, some, List, [], ◌∷◌, ◌++◌, max,
  length, get_elem?, filter, count, any, sort_by, ltb, ◌==◌, nat_eq, text_eq, bytes_eq,
  if◌then◌else◌, Result, ok, err, ◌>>=◌, ◌>>◌, guard, or_fail, commit,
}

pub data DeliveryOutcome : Type 0 where
  accepted rejected unknown : DeliveryOutcome

pub data Dimension : Type 0 where
  recipient_hour recipient_day global_day : Dimension

pub record Limits : Type 0 where
  pub recipient_hourly_max : ℕ
  pub recipient_daily_max : ℕ
  pub global_daily_max : ℕ

abbrev pub default_limits : Limits
default_limits = record {
  recipient_hourly_max = 3;
  recipient_daily_max = 6;
  global_daily_max = 100;
}

-- The column `outcome`, 'reserved' until the delivery is known.
pub data Outcome : Type 0 where
  reserved : Outcome
  delivery : DeliveryOutcome → Outcome

pub record Reservation : Type 0 where
  pub id : String
  pub recipient_hmac : Bytes
  pub reserved_at : ℕ
  pub attempted_at : Option ℕ
  pub outcome : Outcome

pub record Denial : Type 0 where
  pub dimension : Dimension
  pub retry_after_seconds : ℕ

pub data Decision : Type 0 where
  allowed : String → Decision
  denied : Denial → Decision

pub data Error : Type 0 where
  key_invalid limits_invalid storage_unavailable window_invalid outcome_not_saved : Error

abbrev pub hour : ℕ
hour = 3600000

abbrev pub day : ℕ
day = 86400000

-- A number as a caller can give it: a natural number, a negative integer (`negative n` is -(n + 1)), or
-- one that is no integer, a fraction, an infinity or NaN.
pub data Number : Type 0 where
  natural : ℕ → Number
  negative : ℕ → Number
  not_integer : Number

pub record GivenLimits : Type 0 where
  pub recipient_hourly_max : Number
  pub recipient_daily_max : Number
  pub global_daily_max : Number

-- One entry of the loop: an integer from 1 to its greatest value.
limit_ok : Number → ℕ → Result Error ℕ
limit_ok (natural value) most = do
  guard (not (ltb value 1 || ltb most value)) limits_invalid
  ok value
limit_ok (negative _) most = err limits_invalid
limit_ok not_integer most = err limits_invalid

pub validate_limits : GivenLimits → Result Error Limits
unfolding limit_ok
validate_limits l = do
  hourly ← limit_ok l.recipient_hourly_max 20
  daily ← limit_ok l.recipient_daily_max 100
  overall ← limit_ok l.global_daily_max 10000
  guard (not (ltb daily hourly)) limits_invalid
  ok (record {
    recipient_hourly_max = hourly;
    recipient_daily_max = daily;
    global_daily_max = overall;
  })

-- The constructor: what a quota is opened with.
pub open_quota : Bytes → GivenLimits → Result Error Limits
unfolding validate_limits
open_quota key l = do guard (length key == 32) key_invalid; validate_limits l

-- `reserved_at > now - window`.
abbrev pub within : ℕ → ℕ → Reservation → Bool
within window now r = ltb now (r.reserved_at + window)

abbrev pub sent_to : Bytes → Reservation → Bool
sent_to recipient r = r.recipient_hmac == recipient

-- The rows that a reservation of this recipient reads, oldest first.
abbrev pub global_events : ℕ → List Reservation → List Reservation
global_events now rows = sort_by (λ r. r.reserved_at) (filter (within day now) rows)

abbrev pub day_events : Bytes → ℕ → List Reservation → List Reservation
day_events recipient now rows = filter (sent_to recipient) (global_events now rows)

abbrev pub hour_events : Bytes → ℕ → List Reservation → List Reservation
hour_events recipient now rows = filter (within hour now) (day_events recipient now rows)

-- Math.max(1, Math.ceil((reserved_at + window - now) / 1000)); a negative difference counts as 0,
-- which the maximum with 1 makes the same.
abbrev pub retry_after : ℕ → ℕ → Reservation → ℕ
retry_after window now release = max 1 ((release.reserved_at + window - now + 999) / 1000)

-- The greatest wait so far, the first of equal ones.
abbrev pub later : Option Denial → Denial → Option Denial
later none d = some d
later (some old) d = if ltb old.retry_after_seconds d.retry_after_seconds then some d else some old

-- One round of the loop over the rules.
pub rule : ℕ → Dimension → List Reservation → ℕ → ℕ → Option Denial → Result Error (Option Denial)
rule now dimension events most window found = if ltb (length events) most then ok found else (do
  release ← or_fail (get_elem? events (length events - most)) window_invalid
  ok (
      later found
        (record { dimension = dimension; retry_after_seconds = retry_after window now release })))

pub rules : Limits → Bytes → ℕ → List Reservation → Result Error (Option Denial)
rules limits recipient now rows = do
  a ← rule now recipient_hour (hour_events recipient now rows) limits.recipient_hourly_max hour none
  b ← rule now recipient_day (day_events recipient now rows) limits.recipient_daily_max day a
  rule now global_day (global_events now rows) limits.global_daily_max day b

-- DELETE of the rows of 48 hours ago and before.
abbrev pub purge : ℕ → List Reservation → List Reservation
purge now rows = filter (within (day + day) now) rows

abbrev pub new_reservation : String → Bytes → ℕ → Reservation
new_reservation id recipient now = record {
  id = id;
  recipient_hmac = recipient;
  reserved_at = now;
  attempted_at = none;
  outcome = reserved;
}

abbrev pub has_id : String → Reservation → Bool
has_id id r = r.id == id

-- The body of the transaction; the primary key refuses an identifier that is taken.
pub decide :
    Limits
    → Bytes
    → ℕ
    → String
    → List Reservation
    → Option Denial
    → Result Error (Decision × List Reservation)
decide limits recipient now id rows (some d) = ok (denied d, rows)
decide limits recipient now id rows none =
    if any (has_id id) rows
    then err storage_unavailable
    else ok (allowed id, rows ++ new_reservation id recipient now ∷ [])

-- `catch` rolls back and hides every error behind one.
abbrev pub hide {ℓ} : {A : Type ℓ} → Result Error A → Result Error A
hide (ok a) = ok a
hide (err _) = err storage_unavailable

module _ (limits : Limits) (hmac : String → Bytes) where
  pub reserve :
      String → Option ℕ → String → List Reservation → Result Error Decision × List Reservation
  reserve email none id rows = (err storage_unavailable, rows)
  reserve email (some now) id rows = commit rows (
      hide (do
        found ← rules limits (hmac email) now (purge now rows)
        decide limits (hmac email) now id (purge now rows) found))

  pub remaining : Bool → ℕ → List Reservation → Result Error ℕ
  remaining writable now rows =
      if writable
      then ok (limits.global_daily_max - count (within day now) rows)
      else err storage_unavailable

abbrev pub is_none {ℓ} : {A : Type ℓ} → Option A → Bool
is_none none = true
is_none (some _) = false

abbrev pub is_reserved : Outcome → Bool
is_reserved reserved = true
is_reserved (delivery _) = false

-- The WHERE of `claim`: not attempted, still reserved and less than a minute old.
abbrev pub claimable : String → ℕ → Reservation → Bool
claimable id now r =
    has_id id r && (is_none r.attempted_at && (is_reserved r.outcome && within 60000 now r))

abbrev pub attempt : ℕ → Reservation → Reservation
attempt now r = record r { attempted_at = some (max now r.reserved_at) }

pub claim : String → ℕ → List Reservation → Bool × List Reservation
claim id now rows =
    (count (claimable id now) rows == 1, update_where (claimable id now) (attempt now) rows)

abbrev pub finishable : String → Reservation → Bool
finishable id r = has_id id r && (not (is_none r.attempted_at) && is_reserved r.outcome)

abbrev pub settle : DeliveryOutcome → Reservation → Reservation
settle o r = record r { outcome = delivery o }

-- The UPDATE is a statement of its own, so it stays when the count is wrong.
pub finish :
    String → DeliveryOutcome → List Reservation → Result Error (Unit {0}) × List Reservation
finish id o rows = (
  guard (count (finishable id) rows == 1) outcome_not_saved,
  update_where (finishable id) (settle o) rows,
)
