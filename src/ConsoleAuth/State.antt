-- ===== src/ConsoleAuth/State.antt =====
-- packages/database/src/index.ts, `PostgresConsoleAuthStore`: its tables, and the tests and changes of
-- their rows.
use wp_auto.Base.{
  ℕ, ◌+◌, String, Bool, true, false, not, ◌&&◌, ◌||◌, Option, none, some, List, [], ◌∷◌, ◌++◌, ltb,
  if◌then◌else◌, ◌==◌, nat_eq, text_eq, bytes_eq, Bytes, any, Result, ok, err, ◌>>=◌, ◌>>◌, guard,
  or_fail,
}
use wp_auto.Base.Rows.{delete_oldest}
use wp_auto.Base.Text.{is_word, matches}

pub data Purpose : Type 0 where
  login logout : Purpose

pub record Transaction : Type 0 where
  pub request_id : String
  pub purpose : Purpose
  pub browser_secret_hash : Bytes
  pub return_path : String
  pub auth_session_id : Option String
  pub account_id : Option String
  pub handoff_code_hash : Option Bytes
  pub created_at : ℕ
  pub expires_at : ℕ
  pub consumed_at : Option ℕ

pub record Session : Type 0 where
  pub session_hash : Bytes
  pub account_id : String
  pub auth_session_id : String
  pub authenticated_at : ℕ
  pub created_at : ℕ
  pub expires_at : ℕ
  pub revoked_at : Option ℕ

-- The two tables that the class writes.
pub record Store : Type 0 where
  pub transactions : List Transaction
  pub sessions : List Session

pub data Error : Type 0 where
  return_path_invalid secret_invalid transaction_invalid transaction_consumed : Error
  transaction_expired binding_mismatch authority_invalid session_invalid storage : Error

pub data AccountStatus : Type 0 where
  active suspended deleted : AccountStatus

-- A row of `auth.session`.
pub record AuthSession : Type 0 where
  pub created_at : ℕ
  pub expires_at : ℕ
  pub user_id : String

-- The tables that others write, as they are at the time of a call: the authentication sessions by id,
-- the account linked to a user, and the status of an account.
pub record Directory : Type 0 where
  pub auth_session : String → Option AuthSession
  pub link : String → Option String
  pub status : String → Option AccountStatus

-- `ConsoleLoginTransaction`, `ConsoleLoginHandoff`, `ConsoleSession` and the answer of `resolveSession`.
pub record Login : Type 0 where
  pub request_id : String
  pub browser_secret : String
  pub return_path : String
  pub expires_at : ℕ

pub record Handoff : Type 0 where
  pub request_id : String
  pub code : String
  pub expires_at : ℕ

pub record ConsoleSession : Type 0 where
  pub token : String
  pub account_id : String
  pub authentication_time : ℕ
  pub return_path : String
  pub expires_at : ℕ

pub record Identity : Type 0 where
  pub account_id : String
  pub authentication_time : ℕ

-- The row of an exchange with the columns that must have a value.
pub record Held : Type 0 where
  pub row : Transaction
  pub auth_session_id : String
  pub account_id : String

abbrev pub five_minutes : ℕ
five_minutes = 300000

abbrev pub twelve_hours : ℕ
twelve_hours = 43200000

abbrev pub one_day : ℕ
one_day = 86400000

abbrev pub is_secret : String → Bool
is_secret = matches is_word 43 43

abbrev pub is_none {ℓ} : {A : Type ℓ} → Option A → Bool
is_none none = true
is_none (some _) = false

abbrev pub is_login : Purpose → Bool
is_login login = true
is_login logout = false

abbrev pub is_active : AccountStatus → Bool
is_active active = true
is_active _ = false

-- A column with a value differs from the input: `column !== null && column !== input`.
abbrev pub differs : Option String → String → Bool
differs none x = false
differs (some y) x = not (y == x)

abbrev pub has_id : String → Transaction → Bool
has_id id r = r.request_id == id

abbrev pub has_hash : Bytes → Session → Bool
has_hash h s = s.session_hash == h

-- `consumed_at < now - interval '1 day'`
abbrev pub long_gone : ℕ → Option ℕ → Bool
long_gone now none = false
long_gone now (some t) = ltb (t + one_day) now

abbrev pub is_old : ℕ → Transaction → Bool
is_old now r = ltb (r.expires_at + one_day) now || long_gone now r.consumed_at

-- `#purge`
unfoldable pub purge : ℕ → List Transaction → List Transaction
purge now rows = delete_oldest (λ r. r.request_id) (λ r. r.created_at) (is_old now) rows

-- INSERT into either table: a key that is taken is an error.
unfoldable pub insert_transaction : Transaction → List Transaction → Result Error (List Transaction)
insert_transaction r rows =
    if any (has_id r.request_id) rows then err storage else ok (rows ++ r ∷ [])

unfoldable pub insert_session : Session → List Session → Result Error (List Session)
insert_session s rows =
    if any (has_hash s.session_hash) rows then err storage else ok (rows ++ s ∷ [])

abbrev pub new_login : String → Bytes → String → ℕ → Transaction
new_login id secret path now = record {
  request_id = id;
  purpose = login;
  browser_secret_hash = secret;
  return_path = path;
  auth_session_id = none;
  account_id = none;
  handoff_code_hash = none;
  created_at = now;
  expires_at = now + five_minutes;
  consumed_at = none;
}

abbrev pub new_logout : String → Bytes → String → String → String → ℕ → Transaction
new_logout id noise path auth account now = record {
  request_id = id;
  purpose = logout;
  browser_secret_hash = noise;
  return_path = path;
  auth_session_id = some auth;
  account_id = some account;
  handoff_code_hash = none;
  created_at = now;
  expires_at = now + five_minutes;
  consumed_at = none;
}

abbrev pub bound : String → String → Bytes → ℕ → Transaction → Transaction
bound auth account code expiry r = record r {
  auth_session_id = some auth;
  account_id = some account;
  handoff_code_hash = some code;
  expires_at = expiry;
}

abbrev pub consumed : ℕ → Transaction → Transaction
consumed now r = record r { consumed_at = some now }

abbrev pub unconsumed : String → Transaction → Bool
unconsumed id r = has_id id r && is_none r.consumed_at

abbrev pub revoked : ℕ → Session → Session
revoked now s = record s { revoked_at = some now }

-- `COALESCE(revoked_at, now)`
abbrev pub first_time : ℕ → Option ℕ → Option ℕ
first_time now none = some now
first_time now (some t) = some t

abbrev pub still_revoked : ℕ → Session → Session
still_revoked now s = record s { revoked_at = first_time now s.revoked_at }

abbrev pub live_session : Bytes → ℕ → Session → Bool
live_session h now s = has_hash h s && ltb now s.expires_at && is_none s.revoked_at

-- The authentication session of the query that joins it, its user's link and the account: the account
-- must be active and the session unexpired.
unfoldable pub authority : Directory → String → String → ℕ → Result Error AuthSession
authority dir auth account now = do
  session ← or_fail (dir.auth_session auth) authority_invalid
  linked ← or_fail (dir.link session.user_id) authority_invalid
  guard (linked == account) authority_invalid
  status ← or_fail (dir.status account) authority_invalid
  guard (is_active status && ltb now session.expires_at) authority_invalid
  ok session
