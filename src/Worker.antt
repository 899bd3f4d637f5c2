-- ===== src/Worker.antt =====
-- apps/authorization-service/src/revocation-worker.ts: one round of the delivery of revocations.
-- Signing, sending and the clock are the environment's; the table is that of `Outbox`.
pub mod Round
pub mod Delivery
mod Tests
use wp_auto.Base.{
  ℕ, zero, suc, ◌+◌, ◌-◌, ◌*◌, ◌/◌, ◌%◌, ◌^◌, ◌≤◌, ◌<◌, min, max, String, ◌≡◌, refl, sym, ap, ◌∙◌,
  ◌≢◌, ◌↔◌, ◌⊎◌, inl, inr, Bool, true, false, not, ◌&&◌, ◌||◌, Option, none, some, List, [], ◌∷◌,
  ◌++◌, map, arith, ltb, leb, if◌then◌else◌, ltb→lt, lt→ltb, leb→le, le→leb, Bool-cases,
  Option-cases, HasEq, ◌==◌, ==_iff, nat_eq, text_eq, bytes_eq, Bytes, ==_refl, ==_ne, length,
  get_elem?, take, filter, count, all, any, Result, ok, err, ◌>>=◌, ◌>>◌, guard, or_fail, commit,
  >>=-eq-ok, Result-cases,
}
use wp_auto.Outbox.{Row, claim, mark_delivered, reschedule}

-- What may be thrown while an event is sent: a failure with a code of its own, an Error with a
-- `code` of the platform and a message, or another value.
pub data Thrown : Type 0 where
  delivery_failure : String → Thrown
  error : Option String → String → Thrown
  other : Thrown

-- `tlsErrorCodes`
abbrev pub tls_error_codes : List String
tls_error_codes =
    "CERT_HAS_EXPIRED" ∷ "DEPTH_ZERO_SELF_SIGNED_CERT" ∷ "ERR_TLS_CERT_ALTNAME_INVALID"
    ∷ "SELF_SIGNED_CERT_IN_CHAIN" ∷ "UNABLE_TO_GET_ISSUER_CERT_LOCALLY"
    ∷ "UNABLE_TO_VERIFY_LEAF_SIGNATURE" ∷ []

by_message : String → String
by_message message =
    if message == "unsafe_destination" then "destination.unsafe" else "network.failed"

by_code : String → String → String
unfolding by_message
by_code code message =
    if code == "ENOTFOUND" || code == "EAI_AGAIN"
    then "dns.failed"
    else (if code == "ETIMEDOUT" || code == "UND_ERR_CONNECT_TIMEOUT"
        then "network.timeout"
        else (if any (λ c. c == code) tls_error_codes then "tls.failed" else by_message message))

unfoldable pub revocation_error_code : Thrown → String
unfolding by_code by_message
revocation_error_code (delivery_failure code) = code
revocation_error_code (error none message) = by_message message
revocation_error_code (error (some code) message) = by_code code message
revocation_error_code other = "network.failed"

-- Math.min(3600, 2 ** Math.min(record.attempts, 11))
abbrev pub retry_delay : ℕ → ℕ
retry_delay attempts = min 3600 (2 ^ min attempts 11)

-- The signer; the delivery; an error of `markDelivered` itself; and the time when a row is settled.
pub record Environment : Type 0 where
  pub sign : Row → Option String
  pub send : String → String → Result Thrown (Unit {0})
  pub save : ℕ → Result Thrown (Unit {0})
  pub done_at : ℕ → ℕ

pub record Totals : Type 0 where
  pub delivered : ℕ
  pub deferred : ℕ

abbrev pub count_delivered : Totals → Totals
count_delivered t = record t { delivered = t.delivered + 1 }

abbrev pub count_deferred : Totals → Totals
count_deferred t = record t { deferred = t.deferred + 1 }

module _ (env : Environment) where
  open env use {sign, send, save, done_at}

  -- What a round does with one record: `none` is a signing that failed.
  unfoldable pub attempt : Row → Result String (Unit {0})
  unfolding revocation_error_code
  attempt r = elim (sign r) [
    | none ↦ err "signing.failed"
    | some compact ↦ elim (send r.resource compact) [
      | err e ↦ err (revocation_error_code e)
      | ok _ ↦ elim (save r.id) [ err e ↦ err (revocation_error_code e) | ok _ ↦ ok tt ]
    ]
  ]

  -- How the table and the totals take the result of an attempt.
  unfoldable pub save_result :
      Row → Result String (Unit {0}) → Totals × List Row → Totals × List Row
  save_result r (ok _) (t, rows) = (count_delivered t, mark_delivered r.id (done_at r.id) rows)
  save_result r (err code) (t, rows) =
      (count_deferred t, reschedule r.id code (retry_delay r.attempts) (done_at r.id) rows)

  -- The body of the loop.
  unfoldable pub settle : Row → Totals × List Row → Totals × List Row
  unfolding attempt save_result
  settle r s = save_result r (attempt r) s

  unfoldable pub settle_all : List Row → Totals × List Row → Totals × List Row
  unfolding settle
  settle_all [] s = s
  settle_all (r ∷ rs) s = settle_all rs (settle r s)

  unfoldable pub run_once : (Row → Bool) → ℕ → ℕ → List Row → Totals × List Row
  unfolding settle_all
  run_once held limit now rows =
      let (records, leased) = claim held limit now rows in
      settle_all records (record { delivered = 0; deferred = 0 }, leased)
