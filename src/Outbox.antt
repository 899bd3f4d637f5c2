-- ===== src/Outbox.antt =====
-- packages/database/src/index.ts, `PostgresRevocationOutbox`: the events that tell a site of a
-- revocation, until they are delivered. Times are milliseconds of the database's clock.
pub mod Lease
use wp_auto.Base.{
  ℕ, zero, suc, ◌+◌, ◌-◌, ◌*◌, ◌/◌, ◌%◌, ◌^◌, ◌≤◌, ◌<◌, min, max, String, ◌≡◌, refl, sym, ap, ◌∙◌,
  ◌≢◌, ◌↔◌, ◌⊎◌, inl, inr, Bool, true, false, not, ◌&&◌, ◌||◌, Option, none, some, List, [], ◌∷◌,
  ◌++◌, map, arith, ltb, leb, if◌then◌else◌, ltb→lt, lt→ltb, leb→le, le→leb, Bool-cases,
  Option-cases, HasEq, ◌==◌, ==_iff, nat_eq, text_eq, bytes_eq, Bytes, ==_refl, ==_ne, length,
  get_elem?, take, filter, count, all, any, Result, ok, err, ◌>>=◌, ◌>>◌, guard, or_fail, commit,
  >>=-eq-ok, Result-cases,
}
use wp_auto.Base.{sort_by, update_where}
use wp_auto.Base.Text.{is_code}

pub data EventType : Type 0 where
  grant site subject token key : EventType

pub record Row : Type 0 where
  pub id : ℕ
  pub tenant_id : String
  pub site_id : String
  pub resource : String
  pub sequence : ℕ
  pub event_type : EventType
  pub grant_id : Option String
  pub key_id : Option String
  pub reason : String
  pub not_before : ℕ
  pub attempts : ℕ
  pub locked_at : Option ℕ
  pub delivered_at : Option ℕ
  pub last_error_code : Option String

abbrev pub is_none {ℓ} : {A : Type ℓ} → Option A → Bool
is_none none = true
is_none (some _) = false

-- `locked_at IS NULL OR locked_at < now() - interval '2 minutes'`
abbrev pub lock_free : ℕ → Option ℕ → Bool
lock_free now none = true
lock_free now (some t) = ltb (t + 120000) now

-- The rows that a claim may take; `held` are those that another transaction has locked just now.
abbrev pub ready : (Row → Bool) → ℕ → Row → Bool
ready held now r =
    is_none r.delivered_at
    && (leb r.not_before now && (ltb r.attempts 20 && (lock_free now r.locked_at && not (held r))))

-- Math.max(1, Math.min(100, …))
abbrev pub bounded_limit : ℕ → ℕ
bounded_limit limit = max 1 (min 100 limit)

abbrev pub has_id : ℕ → Row → Bool
has_id id r = r.id == id

unfoldable pub candidates : (Row → Bool) → ℕ → ℕ → List Row → List Row
candidates held limit now rows =
    take (bounded_limit limit) (sort_by (λ r. r.id) (filter (ready held now) rows))

-- `FROM candidates WHERE target.id = candidates.id`
abbrev pub chosen : List Row → Row → Bool
chosen cs r = any (has_id r.id) cs

abbrev pub lease : ℕ → Row → Row
lease now r = record r { locked_at = some now; attempts = r.attempts + 1 }

-- The rows as they are returned, and the table.
unfoldable pub claim : (Row → Bool) → ℕ → ℕ → List Row → List Row × List Row
unfolding candidates
claim held limit now rows =
    let cs = candidates held limit now rows in
    (map (lease now) (filter (chosen cs) rows), update_where (chosen cs) (lease now) rows)

abbrev pub open_row : ℕ → Row → Bool
open_row id r = has_id id r && is_none r.delivered_at

abbrev pub deliver : ℕ → Row → Row
deliver now r = record r { delivered_at = some now; locked_at = none; last_error_code = none }

unfoldable pub mark_delivered : ℕ → ℕ → List Row → List Row
mark_delivered id now rows = update_where (open_row id) (deliver now) rows

abbrev pub bounded_delay : ℕ → ℕ
bounded_delay delay_seconds = max 1 (min 3600 delay_seconds)

abbrev pub safe_code : String → String
safe_code error_code = if is_code error_code then error_code else "delivery_failed"

abbrev pub defer : String → ℕ → ℕ → Row → Row
defer error_code delay_seconds now r = record r {
  locked_at = none;
  not_before = now + bounded_delay delay_seconds * 1000;
  last_error_code = some (safe_code error_code);
}

unfoldable pub reschedule : ℕ → String → ℕ → ℕ → List Row → List Row
reschedule id error_code delay_seconds now rows =
    update_where (open_row id) (defer error_code delay_seconds now) rows
