-- ===== src/ConsoleAuth/Exchange.antt =====
-- `PostgresConsoleAuthStore.exchangeLogin`: what a caller must bring to be given a session.
use wp_auto.Base.{
  ℕ, ◌<◌, ◌+◌, ◌/◌, min, String, ◌≡◌, refl, ap, ◌∙◌, ◌↔◌, inl, inr, true, false, ◌&&◌, Option, none,
  some, List, [], ◌∷◌, ◌++◌, arith, ltb, ltb→lt, Bool-cases, ◌==◌, ==_iff, nat_eq, text_eq,
  bytes_eq, Bytes, count, any, Result, ok, ◌>>=◌, ◌>>◌, guard, >>=-eq-ok, guard-ok, or_fail-ok,
  ok_pair,
}
use wp_auto.Base.{update_where}
use wp_auto.Base.Rows.{first}
use wp_auto.ConsoleAuth.{
  Purpose, login, Transaction, Session, Store, Error, transaction_invalid, transaction_consumed,
  transaction_expired, authority_invalid, AccountStatus, active, AuthSession, Directory,
  ConsoleSession, is_secret, is_none, is_login, is_active, has_id, has_hash, unconsumed, consumed,
  authority, secret_hash, exchange_login, insert_session, secret_invalid, Held, open_handoff,
  console_session, session_answer,
}

pub is_none_iff : {A : Type 0} (o : Option A) → (is_none o ≡ true) ↔ (o ≡ none)
is_none_iff none = (λ _. refl, λ _. refl)
is_none_iff (some x) = (λ h. cc, λ h. cc)

is_login_iff : (p : Purpose) → is_login p ≡ true → p ≡ login
is_login_iff p h = ground arith

-- The authentication session stands behind the account.
pub record Backs (dir : Directory) (auth account : String) (now : ℕ) (session : AuthSession)
    : Type 0 where
  pub session_found : dir.auth_session auth ≡ some session
  pub linked : dir.link session.user_id ≡ some account
  pub account_active : dir.status account ≡ some active
  pub unexpired : now < session.expires_at

is_active_iff : (s : AccountStatus) → is_active s ≡ true → s ≡ active
is_active_iff s h = ground arith

pub authority-Backs :
    (dir : Directory) (auth account : String) (now : ℕ) (session : AuthSession)
    → authority dir auth account now ≡ ok session
    → Backs dir auth account now session
unfolding authority
authority-Backs dir auth account now session e =
    let (found, known, e₁) = or_fail-ok (dir.auth_session auth) authority_invalid _ e in
    let (linked, link, e₂) = or_fail-ok (dir.link found.user_id) authority_invalid _ e₁ in
    let (same, e₃) = guard-ok (linked == account) authority_invalid _ e₂ in
    let (status, stated, e₄) = or_fail-ok (dir.status account) authority_invalid _ e₃ in
    let (tests, e₅) =
      guard-ok (is_active status && ltb now found.expires_at) authority_invalid (ok found) e₄ in
    let is_it : found ≡ session = cc in
    let fresh : now < found.expires_at = ground arith in
    let is_act : is_active status ≡ true = ground arith in
    record {
      session_found = rw is_it at known;
      linked = rw (is_it, (==_iff linked account).0 same) at link;
      account_active = rw (is_active_iff status is_act) at stated;
      unexpired = rw is_it at fresh;
    }

module _ (sha256 : String → Bytes) where
  pub secret_hash-ok :
      (secret : String) (h : Bytes)
      → secret_hash sha256 secret ≡ ok h
      → (is_secret secret ≡ true) × (h ≡ sha256 secret)
  unfolding secret_hash
  secret_hash-ok secret h e =
      let (valid, e') = guard-ok (is_secret secret) secret_invalid (ok (sha256 secret)) e in
      (valid, cc)

  -- The transaction is a login that was authorized, is open, and belongs to the holder of both secrets.
  pub record IsAuthorized (id secret code : String) (now : ℕ) (rows : List Transaction)
      (held : Held) : Type 0 where
    pub found : first (has_id id) rows ≡ some held.row
    pub for_login : held.row.purpose ≡ login
    pub session_bound : held.row.auth_session_id ≡ some held.auth_session_id
    pub account_bound : held.row.account_id ≡ some held.account_id
    pub unused : held.row.consumed_at ≡ none
    pub unexpired : now < held.row.expires_at
    pub browser_matches : held.row.browser_secret_hash ≡ sha256 secret
    pub code_matches : held.row.handoff_code_hash ≡ some (sha256 code)

  ok_same : {A : Type 0} {x y : A} → Path (Result Error A) (ok x) (ok y) → x ≡ y
  ok_same e = cc

  secrets_match :
      (row : Transaction) (handoff : Bytes) (secret code : String) (held result : Held)
      → (do
        browser ← secret_hash sha256 secret
        guard (row.browser_secret_hash == browser) transaction_invalid
        h ← secret_hash sha256 code
        guard (handoff == h) transaction_invalid
        ok held)
        ≡ ok result
      → (row.browser_secret_hash ≡ sha256 secret) × (handoff ≡ sha256 code) × (held ≡ result)
  secrets_match row handoff secret code held result e =
      let (browser, hashed, e₁) = >>=-eq-ok (secret_hash sha256 secret) _ e in
      let (same_browser, e₂) =
        guard-ok (row.browser_secret_hash == browser) transaction_invalid _ e₁ in
      let (h, code_hashed, e₃) = >>=-eq-ok (secret_hash sha256 code) _ e₂ in
      let (same_code, e₄) = guard-ok (handoff == h) transaction_invalid (ok held) e₃ in
      (
        (==_iff row.browser_secret_hash browser).0 same_browser
            ∙ (secret_hash-ok secret browser hashed).1,
        (==_iff handoff h).0 same_code ∙ (secret_hash-ok code h code_hashed).1,
        ok_same e₄,
      )

  open_handoff-IsAuthorized :
      (id secret code : String) (now : ℕ) (rows : List Transaction) (held : Held)
      → open_handoff sha256 id secret code now rows ≡ ok held
      → IsAuthorized id secret code now rows held
  unfolding open_handoff
  open_handoff-IsAuthorized id secret code now rows held e =
      let (row, found, e₁) = or_fail-ok (first (has_id id) rows) transaction_invalid _ e in
      let (purpose, e₂) = guard-ok (is_login row.purpose) transaction_invalid _ e₁ in
      let (auth, auth_bound, e₃) = or_fail-ok row.auth_session_id transaction_invalid _ e₂ in
      let (account, account_bound, e₄) = or_fail-ok row.account_id transaction_invalid _ e₃ in
      let (handoff, authorized, e₅) = or_fail-ok row.handoff_code_hash transaction_invalid _ e₄ in
      let (unused, e₆) = guard-ok (is_none row.consumed_at) transaction_consumed _ e₅ in
      let (fresh, e₇) = guard-ok (ltb now row.expires_at) transaction_expired _ e₆ in
      let (browser, same_code, is_it) = secrets_match row handoff secret code _ held e₇ in
      rw (← is_it) (record {
        found = found;
        for_login = is_login_iff row.purpose purpose;
        session_bound = auth_bound;
        account_bound = account_bound;
        unused = (is_none_iff row.consumed_at).0 unused;
        unexpired = ltb→lt now row.expires_at fresh;
        browser_matches = browser;
        code_matches = rw same_code at authorized;
      })

  -- What an exchange answers and stores.
  pub record Exchanges (dir : Directory) (id secret code token : String) (now : ℕ) (s : Store)
      (answer : ConsoleSession) (s' : Store) : Type 0 where
    pub held : Held
    pub session : AuthSession
    pub authorized : IsAuthorized id secret code now s.transactions held
    pub backed : Backs dir held.auth_session_id held.account_id now session
    pub only : count (unconsumed id) s.transactions ≡ 1
    pub token_given : answer.token ≡ token
    pub of_account : answer.account_id ≡ held.account_id
    pub returns_to : answer.return_path ≡ held.row.return_path
    pub in_seconds : answer.authentication_time ≡ session.created_at / 1000
    pub ends : answer.expires_at ≡ min session.expires_at (now + 43200000)
    pub stored :
        s'.sessions
        ≡ s.sessions
          ++ record {
            session_hash = sha256 token;
            account_id = held.account_id;
            auth_session_id = held.auth_session_id;
            authenticated_at = session.created_at;
            created_at = now;
            expires_at = min session.expires_at (now + 43200000);
            revoked_at = none;
          }
            ∷ []
    pub answers : answer ≡ session_answer sha256 held session now token
    pub consumes : s'.transactions ≡ update_where (unconsumed id) (consumed now) s.transactions
    pub stores :
        s'.sessions ≡ s.sessions ++ console_session sha256 held session now (sha256 token) ∷ []
    pub fresh : any (has_hash (sha256 token)) s.sessions ≡ false

  insert_session-ok :
      (r : Session) (rows rows' : List Session)
      → insert_session r rows ≡ ok rows'
      → (rows' ≡ rows ++ r ∷ []) × (any (has_hash r.session_hash) rows ≡ false)
  unfolding insert_session
  insert_session-ok r rows rows' e = elim (Bool-cases (any (has_hash r.session_hash) rows)) [
    | inl taken ↦ absurd (ground arith)
    | inr free ↦ (ground arith, free)
  ]

  -- A session is given only to the holder of the browser secret and of the handoff code of an
  -- unexpired, unconsumed login that was authorized for the account, while that authentication session
  -- is unexpired and the account is active; it is stored under the hash of the token, for that account and
  -- authentication session, and ends at the end of the latter or twelve hours (43200000 ms) from now,
  -- whichever is earlier; the login is consumed with it.
  pub exchange_checks :
      (dir : Directory) (id secret code token : String) (now : ℕ) (s s' : Store)
      (answer : ConsoleSession)
      → exchange_login sha256 dir id secret code token now s ≡ ok (answer, s')
      → Exchanges dir id secret code token now s answer s'
  unfolding exchange_login
  exchange_checks dir id secret code token now s s' answer e =
      let (held, opened, e₁) =
        >>=-eq-ok (open_handoff sha256 id secret code now s.transactions) _ e in
      let (session, backed, e₂) =
        >>=-eq-ok (authority dir held.auth_session_id held.account_id now) _ e₁ in
      let (t, hashed, e₃) = >>=-eq-ok (secret_hash sha256 token) _ e₂ in
      let (_, t_is) = secret_hash-ok token t hashed in
      let (sessions, inserted, e₄) =
        >>=-eq-ok (insert_session (console_session sha256 held session now t) s.sessions) _ e₃ in
      let (only, e₅) =
        guard-ok (count (unconsumed id) s.transactions == 1) transaction_consumed _ e₄ in
      let (same_answer, same_store) = ok_pair e₅ in
      let (table, free) =
        insert_session-ok (console_session sha256 held session now t) s.sessions sessions
          inserted in
      record {
        held = held;
        session = session;
        authorized = open_handoff-IsAuthorized id secret code now s.transactions held opened;
        backed = authority-Backs dir held.auth_session_id held.account_id now session backed;
        only = (==_iff (count (unconsumed id) s.transactions) 1).0 only;
        token_given = ap (λ z. z.token) same_answer;
        of_account = ap (λ z. z.account_id) same_answer;
        returns_to = ap (λ z. z.return_path) same_answer;
        in_seconds = ap (λ z. z.authentication_time) same_answer;
        ends = ap (λ z. z.expires_at) same_answer;
        stored = ap (λ z. z.sessions) same_store ∙ (rw t_is at table);
        answers = same_answer;
        consumes = ap (λ z. z.transactions) same_store;
        stores = ap (λ z. z.sessions) same_store ∙ (rw t_is at table);
        fresh = rw t_is at free;
      }
