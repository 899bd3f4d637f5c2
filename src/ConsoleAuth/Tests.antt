-- ===== src/ConsoleAuth/Tests.antt =====
-- A console login on concrete inputs, and the theorems at it.
use wp_auto.Base.{
  ◌<◌, String, ◌≡◌, refl, ◌≢◌, Option, none, some, List, [], ◌∷◌, ◌++◌, arith, if◌then◌else◌, ◌==◌,
  nat_eq, text_eq, bytes_eq, Bytes, ok,
}
use wp_auto.Base.{update_where}
use wp_auto.ConsoleAuth.{
  Transaction, Session, Store, Directory, AuthSession, active, Handoff, ConsoleSession, bound,
  new_login, authorize_login, exchange_login, begin_logout, resolve_session, revoke_session,
  insert_session, insert_transaction, authority, secret_hash, open_handoff, revoked, new_logout,
}
use wp_auto.ConsoleAuth.Exchange.{exchange_checks, Exchanges, Backs}
use wp_auto.ConsoleAuth.Once.{exchange_once}
use wp_auto.ConsoleAuth.Resolve.{resolve_after_exchange}
use wp_auto.ConsoleAuth.Bound.{exchange_after_authorize}
use wp_auto.ConsoleAuth.Revoked.{revoked_forever, logout_forever}
use wp_auto.ConsoleAuth.Events.{Event, creates, authorizes, exchanges, run}

abbrev secret : String
secret = "aaaaaaaaaaaaaaaaaaaaaaaaaaaaaaaaaaaaaaaaaaa"

abbrev code : String
code = "bbbbbbbbbbbbbbbbbbbbbbbbbbbbbbbbbbbbbbbbbbb"

abbrev token : String
token = "ccccccccccccccccccccccccccccccccccccccccccc"

-- A hash that tells the three secrets apart.
abbrev sha256 : String → Bytes
sha256 s =
    if s == "aaaaaaaaaaaaaaaaaaaaaaaaaaaaaaaaaaaaaaaaaaa"
    then 1 ∷ []
    else if s == "bbbbbbbbbbbbbbbbbbbbbbbbbbbbbbbbbbbbbbbbbbb"
    then 2 ∷ []
    else 3 ∷ []

abbrev auth_row : AuthSession
auth_row = record { created_at = 1000; expires_at = 9000000; user_id = "user" }

abbrev dir : Directory
dir = record {
  auth_session = λ id. some auth_row;
  link = λ user. some "account";
  status = λ account. some active;
}

abbrev begun : Store
begun = record { transactions = new_login "console_1" (1 ∷ []) "/sites" 2000 ∷ []; sessions = [] }

abbrev authorized : Store
authorized = record {
  transactions =
      bound "auth" "account" (2 ∷ []) 302000 (new_login "console_1" (1 ∷ []) "/sites" 2000) ∷ [];
  sessions = [];
}

abbrev session : Session
session = record {
  session_hash = 3 ∷ [];
  account_id = "account";
  auth_session_id = "auth";
  authenticated_at = 1000;
  created_at = 4000;
  expires_at = 9000000;
  revoked_at = none;
}

abbrev exchanged : Store
exchanged = record {
  transactions =
      record (bound "auth" "account" (2 ∷ []) 302000
        (new_login "console_1" (1 ∷ []) "/sites" 2000)) { consumed_at = some 4000 }
      ∷ [];
  sessions = session ∷ [];
}

abbrev answer : ConsoleSession
answer = record {
  token = token;
  account_id = "account";
  authentication_time = 1;
  return_path = "/sites";
  expires_at = 9000000;
}

abbrev handoff : Handoff
handoff = record { request_id = "console_1"; code = code; expires_at = 302000 }

authorizes_now :
    authorize_login sha256 "console_1" "auth" "account" 9000000 code 3000 begun
    ≡ ok (handoff, authorized)
unfolding authorize_login secret_hash update_where
authorizes_now = refl

exchanges_now :
    exchange_login sha256 dir "console_1" secret code token 4000 authorized ≡ ok (answer, exchanged)
unfolding exchange_login secret_hash update_where open_handoff authority insert_session
exchanges_now = refl

exchange_checks_example :
    Exchanges sha256 dir "console_1" secret code token 4000 authorized answer exchanged
exchange_checks_example =
    exchange_checks sha256 dir "console_1" secret code token 4000 authorized exchanged answer
      exchanges_now

-- Another login begins, and the same exchange is tried again.
abbrev between : List Event
between =
    creates "/" "console_2" secret 5000 ∷ exchanges dir "console_1" secret code secret 6000 ∷ []

exchange_once_example :
    exchange_login sha256 dir "console_1" secret code token 7000 (run sha256 between exchanged)
    ≢ ok (answer, exchanged)
exchange_once_example =
    exchange_once sha256 dir "console_1" secret code token 4000 authorized exchanged answer between
      dir secret code token 7000 (answer, exchanged) exchanges_now (refl, (tt, tt))

-- Another account tries to take the login over.
abbrev takeover : List Event
takeover = authorizes "console_1" "auth_2" "account_2" 9000000 code 3500 ∷ []

exchanges_still :
    exchange_login sha256 dir "console_1" secret code token 4000 (run sha256 takeover authorized)
    ≡ ok (answer, exchanged)
unfolding authorize_login exchange_login secret_hash update_where open_handoff authority
    insert_session
exchanges_still = refl

exchange_after_authorize_example :
    (answer.account_id ≡ "account")
    × (4000 < 9000000)
    × (found : AuthSession) × Backs dir "auth" "account" 4000 found
exchange_after_authorize_example =
    exchange_after_authorize sha256 "console_1" "auth" "account" 9000000 code 3000 begun authorized
      handoff takeover dir secret code token 4000 answer exchanged authorizes_now (tt, tt)
      exchanges_still

abbrev authorized_row : Transaction
authorized_row =
    bound "auth" "account" (2 ∷ []) 302000 (new_login "console_1" (1 ∷ []) "/sites" 2000)

its_auth :
    (r : Transaction)
    → Path (Option Transaction) (some authorized_row) (some r)
    → r.auth_session_id ≡ some "auth"
its_auth r e = let same : authorized_row ≡ r = cc in rw (← same) refl

resolve_after_exchange_example :
    resolve_session dir (sha256 token) 8000 exchanged
    ≡ some (record { account_id = "account"; authentication_time = 1 })
resolve_after_exchange_example =
    resolve_after_exchange sha256 dir "console_1" secret code token 4000 authorized exchanged answer
      dir 8000 "auth" auth_row exchanges_now (omega arith) its_auth refl (omega arith) refl

revoked_forever_example :
    resolve_session dir (3 ∷ []) 9000 (run sha256 between (revoke_session (3 ∷ []) 8500 exchanged))
    ≡ none
revoked_forever_example = revoked_forever sha256 (3 ∷ []) 8500 exchanged between dir 9000 refl

abbrev logged_out : Store
logged_out = record {
  transactions =
      exchanged.transactions ++ new_logout "console_3" (0 ∷ []) "/" "auth" "account" 8000 ∷ [];
  sessions = revoked 8000 session ∷ [];
}

logs_out_now :
    begin_logout (3 ∷ []) "/" "console_3" (0 ∷ []) 8000 exchanged ≡ ok ("console_3", logged_out)
unfolding begin_logout insert_transaction update_where
logs_out_now = refl

logout_forever_example : resolve_session dir (3 ∷ []) 9000 (run sha256 between logged_out) ≡ none
logout_forever_example =
    logout_forever sha256 (3 ∷ []) "/" "console_3" (0 ∷ []) 8000 exchanged logged_out "console_3"
      between dir 9000 logs_out_now
