-- ===== src/ConsoleAuth.antt =====
-- packages/database/src/index.ts, `PostgresConsoleAuthStore`: the handoff of a login from the
-- authorization service to the console, and the console's sessions. Times are milliseconds.
-- The random values are arguments, the hash and the tables of accounts are parameters.
pub mod Exchange
pub mod Events
pub mod Once
pub mod Revoked
pub mod Resolve
pub mod Bound
mod Tests
mod State
unfoldable pub use State.*
use wp_auto.Base.{
  ℕ, zero, suc, ◌+◌, ◌-◌, ◌*◌, ◌/◌, ◌%◌, ◌^◌, ◌≤◌, ◌<◌, min, max, String, ◌≡◌, refl, sym, ap, ◌∙◌,
  ◌≢◌, ◌↔◌, ◌⊎◌, inl, inr, Bool, true, false, not, ◌&&◌, ◌||◌, Option, none, some, List, [], ◌∷◌,
  ◌++◌, map, arith, ltb, leb, if◌then◌else◌, ltb→lt, lt→ltb, leb→le, le→leb, Bool-cases,
  Option-cases, HasEq, ◌==◌, ==_iff, nat_eq, text_eq, bytes_eq, Bytes, ==_refl, ==_ne, length,
  get_elem?, take, filter, count, all, any, Result, ok, err, ◌>>=◌, ◌>>◌, guard, or_fail, commit,
  >>=-eq-ok, guard-ok, guard-true, or_fail-ok, Result-cases,
}
use wp_auto.Base.{update_where}
use wp_auto.Base.Rows.{first, delete_oldest}
use wp_auto.Base.Text.{is_word, matches, text_length, is_return_path}

module _ (sha256 : String → Bytes) where
  -- `consoleSecretHash`
  unfoldable pub secret_hash : String → Result Error Bytes
  secret_hash secret = do guard (is_secret secret) secret_invalid; ok (sha256 secret)

  unfoldable pub create_login : String → String → String → ℕ → Store → Result Error (Login × Store)
  unfolding secret_hash insert_transaction purge
  create_login path id secret now s = do
    guard (is_return_path path) return_path_invalid
    h ← secret_hash secret
    rows ← insert_transaction (new_login id h path now) (purge now s.transactions)
    ok (
      record {
        request_id = id;
        browser_secret = secret;
        return_path = path;
        expires_at = now + five_minutes;
      },
      record s { transactions = rows },
    )

  unfoldable pub authorize_login :
      String → String → String → ℕ → String → ℕ → Store → Result Error (Handoff × Store)
  unfolding secret_hash
  authorize_login id auth account auth_expires_at code now s = do
    row ← or_fail (first (has_id id) s.transactions) transaction_invalid
    guard (is_login row.purpose) transaction_invalid
    guard (is_none row.consumed_at) transaction_consumed
    guard (ltb now row.expires_at && ltb now auth_expires_at) transaction_expired
    guard (not (differs row.auth_session_id auth || differs row.account_id account))
        binding_mismatch
    h ← secret_hash code
    let expiry = min row.expires_at auth_expires_at in
        ok (
          record { request_id = id; code = code; expires_at = expiry },
          record s {
            transactions = update_where (has_id id) (bound auth account h expiry) s.transactions;
          },
        )

  -- The row of an exchange, after the checks on it.
  unfoldable pub open_handoff : String → String → String → ℕ → List Transaction → Result Error Held
  unfolding secret_hash
  open_handoff id secret code now rows = do
    row ← or_fail (first (has_id id) rows) transaction_invalid
    guard (is_login row.purpose) transaction_invalid
    auth ← or_fail row.auth_session_id transaction_invalid
    account ← or_fail row.account_id transaction_invalid
    handoff ← or_fail row.handoff_code_hash transaction_invalid
    guard (is_none row.consumed_at) transaction_consumed
    guard (ltb now row.expires_at) transaction_expired
    browser ← secret_hash secret
    guard (row.browser_secret_hash == browser) transaction_invalid
    h ← secret_hash code
    guard (handoff == h) transaction_invalid
    ok (record { row = row; auth_session_id = auth; account_id = account })

  abbrev pub console_session : Held → AuthSession → ℕ → Bytes → Session
  console_session held session now h = record {
    session_hash = h;
    account_id = held.account_id;
    auth_session_id = held.auth_session_id;
    authenticated_at = session.created_at;
    created_at = now;
    expires_at = min session.expires_at (now + twelve_hours);
    revoked_at = none;
  }

  abbrev pub session_answer : Held → AuthSession → ℕ → String → ConsoleSession
  session_answer held session now token = record {
    token = token;
    account_id = held.account_id;
    authentication_time = session.created_at / 1000;
    return_path = held.row.return_path;
    expires_at = min session.expires_at (now + twelve_hours);
  }

  unfoldable pub exchange_login :
      Directory
      → String
      → String
      → String
      → String
      → ℕ
      → Store
      → Result Error (ConsoleSession × Store)
  unfolding secret_hash insert_session authority open_handoff
  exchange_login dir id secret code token now s = do
    held ← open_handoff id secret code now s.transactions
    session ← authority dir held.auth_session_id held.account_id now
    t ← secret_hash token
    sessions ← insert_session (console_session held session now t) s.sessions
    guard (count (unconsumed id) s.transactions == 1) transaction_consumed
    ok (
      session_answer held session now token,
      record {
        transactions = update_where (unconsumed id) (consumed now) s.transactions;
        sessions = sessions;
      },
    )

-- The account of the session is active and its authentication session is unexpired.
abbrev pub has_authority : Directory → ℕ → Session → Bool
has_authority dir now s = backed (dir.auth_session s.auth_session_id) (dir.status s.account_id)
  where
    backed : Option AuthSession → Option AccountStatus → Bool
    backed (some auth) (some status) = ltb now auth.expires_at && is_active status
    backed none _ = false
    backed (some _) none = false

unfoldable pub resolve_session : Directory → Bytes → ℕ → Store → Option Identity
resolve_session dir h now s =
    identity (first (λ row. live_session h now row && has_authority dir now row) s.sessions)
  where
    identity : Option Session → Option Identity
    identity none = none
    identity (some row) =
        some (record {
          account_id = row.account_id;
          authentication_time = row.authenticated_at / 1000;
        })

unfoldable pub begin_logout :
    Bytes → String → String → Bytes → ℕ → Store → Result Error (String × Store)
unfolding insert_transaction
begin_logout h path id noise now s = do
  guard (is_return_path path) return_path_invalid
  row ← or_fail (first (live_session h now) s.sessions) session_invalid
  rows ←
      insert_transaction (new_logout id noise path row.auth_session_id row.account_id now)
        s.transactions
  ok (
    id,
    record { transactions = rows; sessions = update_where (has_hash h) (revoked now) s.sessions },
  )

abbrev pub is_logout_of : String → String → Transaction → Bool
is_logout_of id auth r = has_id id r && not (is_login r.purpose) && belongs r.auth_session_id
  where
    belongs : Option String → Bool
    belongs none = false
    belongs (some a) = a == auth

unfoldable pub validate_logout : String → String → Bool → ℕ → Store → Result Error (String × Store)
validate_logout id auth consume now s = do
  row ← or_fail (first (is_logout_of id auth) s.transactions) transaction_invalid
  guard (ltb now row.expires_at) transaction_expired
  guard (is_none row.consumed_at) transaction_consumed
  ok (
    row.return_path,
    (if consume
        then record s { transactions = update_where (has_id id) (consumed now) s.transactions }
        else s),
  )

unfoldable pub revoke_session : Bytes → ℕ → Store → Store
revoke_session h now s = record s {
  sessions = update_where (has_hash h) (still_revoked now) s.sessions;
}
