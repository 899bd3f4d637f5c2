-- ===== src/ConsoleAuth/Bound.antt =====
-- `PostgresConsoleAuthStore`: a login that an account has authorized stays bound to that account.
use wp_auto.Base.{
  ℕ, ◌≤◌, ◌<◌, min, String, ◌≡◌, refl, sym, ap, ◌∙◌, inl, inr, Bool, true, false, not, ◌&&◌, ◌||◌,
  Option, none, some, List, [], ◌∷◌, ◌++◌, arith, leb, Bool-cases, ◌==◌, ==_iff, nat_eq, text_eq,
  bytes_eq, Bytes, ==_refl, all, ok,
}
use wp_auto.Base.{update_where, all-update_where, all-filter}
use wp_auto.Base.Rows.{first, delete_oldest}
use wp_auto.ConsoleAuth.{
  Transaction, Store, Directory, AuthSession, Handoff, ConsoleSession, has_id, differs, bound,
  consumed, new_login, new_logout, purge, insert_transaction, authorize_login, exchange_login,
  revoke_session, unconsumed,
}
use wp_auto.ConsoleAuth.Exchange.{exchange_checks, Backs}
use wp_auto.ConsoleAuth.Events.{
  Event, creates, authorizes, exchanges, logs_out, confirms, revokes, step, run, after_keeps,
  create_login-ok, authorize_login-ok, begin_logout-ok, validate_logout-ok,
}
use wp_auto.ConsoleAuth.Once.{Spares, AllSpare}

some_same : {A : Type 0} {x y : A} → Path (Option A) (some x) (some y) → x ≡ y
some_same e = cc

-- A column has this value.
abbrev holds : String → Option String → Bool
holds x none = false
holds x (some y) = y == x

holds-some : (x : String) (o : Option String) → holds x o ≡ true → o ≡ some x
holds-some x none e = cc
holds-some x (some y) e = ap some ((==_iff y x).0 e)

-- The row is of another request, or bound to this authentication session and account until the expiry.
abbrev is_kept : String → String → String → ℕ → Transaction → Bool
is_kept id auth account expiry r =
    not (has_id id r)
    || (holds auth r.auth_session_id && (holds account r.account_id && leb r.expires_at expiry))

abbrev IsBound : String → String → String → ℕ → List Transaction → Type 0
IsBound id auth account expiry rows = all (is_kept id auth account expiry) rows ≡ true

all-append_one :
    (p : Transaction → Bool) (rows : List Transaction) (r : Transaction)
    → all p rows ≡ true
    → p r ≡ true
    → all p (rows ++ r ∷ []) ≡ true
all-append_one p [] r h k = ground arith
all-append_one p (x ∷ xs) r h k = ground (arith, all-append_one p xs r)

first-all :
    (p q : Transaction → Bool) (rows : List Transaction) (row : Transaction)
    → all q rows ≡ true
    → first p rows ≡ some row
    → (p row ≡ true) × (q row ≡ true)
first-all p q [] row h e = cc
first-all p q (r ∷ rs) row h e = elim (Bool-cases (p r)) [
  | inl mine ↦
      let same : r ≡ row = ground arith in
      let both : (p r ≡ true) × (q r ≡ true) = (mine, ground arith) in rw same at both
  | inr other ↦ first-all p q rs row (ground arith) (ground arith)
]

bound_row :
    (id auth account : String) (expiry : ℕ) (r : Transaction)
    → has_id id r ≡ true
    → is_kept id auth account expiry r ≡ true
    → (r.auth_session_id ≡ some auth) × (r.account_id ≡ some account) × (r.expires_at ≤ expiry)
bound_row id auth account expiry r mine good =
    let its_auth : holds auth r.auth_session_id ≡ true = ground arith in
    let its_account : holds account r.account_id ≡ true = ground arith in
    (
      holds-some auth r.auth_session_id its_auth,
      holds-some account r.account_id its_account,
      ground arith,
    )

insert-IsBound :
    (id auth account : String) (expiry : ℕ) (r : Transaction) (rows rows' : List Transaction)
    → (r.request_id == id) ≡ false
    → IsBound id auth account expiry rows
    → insert_transaction r rows ≡ ok rows'
    → IsBound id auth account expiry rows'
unfolding insert_transaction
insert-IsBound id auth account expiry r rows rows' other holds_all e =
    let made : rows' ≡ rows ++ r ∷ [] = ground arith in
    rw made (all-append_one (is_kept id auth account expiry) rows r holds_all (rw other refl))

purge-IsBound :
    (id auth account : String) (expiry now : ℕ) (rows : List Transaction)
    → IsBound id auth account expiry rows
    → IsBound id auth account expiry (purge now rows)
unfolding purge delete_oldest
purge-IsBound id auth account expiry now rows h =
    all-filter _ (is_kept id auth account expiry) rows h

consumed-IsBound :
    (id auth account : String) (expiry : ℕ) (p : Transaction → Bool) (now : ℕ)
    (rows : List Transaction)
    → IsBound id auth account expiry rows
    → IsBound id auth account expiry (update_where p (consumed now) rows)
consumed-IsBound id auth account expiry p now rows h =
    all-update_where p (is_kept id auth account expiry) (consumed now) rows (λ r _ good. good) h

-- An authorization binds every row of its request.
bind_all :
    (id auth account : String) (h : Bytes) (expiry most : ℕ) (rows : List Transaction)
    → expiry ≤ most
    → IsBound id auth account most (update_where (has_id id) (bound auth account h expiry) rows)
unfolding update_where
bind_all id auth account h expiry most [] below = refl
bind_all id auth account h expiry most (r ∷ rs) below =
    ground (arith, bind_all id auth account h expiry most rs below, ==_refl auth, ==_refl account)

-- An authorization that fits a bound row binds it to the same account again.
rebind-IsBound :
    (id auth account other auth' account' : String) (h : Bytes) (most expiry : ℕ)
    (rows : List Transaction) (row : Transaction)
    → IsBound id auth account most rows
    → first (has_id other) rows ≡ some row
    → (differs row.auth_session_id auth' || differs row.account_id account') ≡ false
    → IsBound id auth account most
        (update_where (has_id other) (bound auth' account' h (min row.expires_at expiry)) rows)
rebind-IsBound id auth account other auth' account' h most expiry rows row all_bound found fits =
    let (mine, good) =
      first-all (has_id other) (is_kept id auth account most) rows row all_bound found in
    elim (Bool-cases (other == id)) [
      | inl same ↦
          let it : other ≡ id = (==_iff other id).0 same in
          let its : has_id id row ≡ true = rw it at mine in
          let (of_auth, of_account, within) = bound_row id auth account most row its good in
          let fits' : (differs (some auth) auth' || differs (some account) account') ≡ false =
            rw (of_auth, of_account) at fits in
          let auths : (auth == auth') ≡ true = ground arith in
          let accounts : (account == account') ≡ true = ground arith in
          rw (it, ← (==_iff auth auth').0 auths, ← (==_iff account account').0 accounts)
            (bind_all id auth account h (min row.expires_at expiry) most rows
              (omega (arith, within)))
      | inr distinct ↦
          all-update_where (has_id other) (is_kept id auth account most)
            (bound auth' account' h (min row.expires_at expiry)) rows
            (λ r p q.
              let it : r.request_id ≡ other = (==_iff r.request_id other).0 p in
              rw (it, distinct) refl)
            all_bound
    ]

module _ (sha256 : String → Bytes) where
  step-IsBound :
      (id auth account : String) (expiry : ℕ) (e : Event) (s : Store)
      → Spares id e
      → IsBound id auth account expiry s.transactions
      → IsBound id auth account expiry (step sha256 e s).transactions
  unfolding revoke_session
  step-IsBound id auth account expiry (creates path new_id secret now) s other h =
      after_keeps (λ z. IsBound id auth account expiry z.transactions) s _ h
        λ x s' e.
          let (hash, inserted, _) = create_login-ok sha256 path new_id secret now s s' x e in
          insert-IsBound id auth account expiry (new_login new_id hash path now)
            (purge now s.transactions) s'.transactions other
            (purge-IsBound id auth account expiry now s.transactions h) inserted
  step-IsBound id auth account expiry (authorizes other auth' account' until code now) s _ h =
      after_keeps (λ z. IsBound id auth account expiry z.transactions) s _ h
        λ x s' e.
          let (row, hash, found, fits, table, _) =
            authorize_login-ok sha256 other auth' account' until code now s s' x e in
          rw table (
            rebind-IsBound id auth account other auth' account' hash expiry until s.transactions row
              h found fits)
  step-IsBound id auth account expiry (exchanges dir other secret code token now) s _ h =
      after_keeps (λ z. IsBound id auth account expiry z.transactions) s _ h
        λ x s' e.
          let done = exchange_checks sha256 dir other secret code token now s s' x e in
          rw (done.consumes)
            (consumed-IsBound id auth account expiry (unconsumed other) now s.transactions h)
  step-IsBound id auth account expiry (logs_out hash path new_id noise now) s other h =
      after_keeps (λ z. IsBound id auth account expiry z.transactions) s _ h
        λ x s' e.
          let (row, _, inserted, _) = begin_logout-ok hash path new_id noise now s s' x e in
          insert-IsBound id auth account expiry
            (new_logout new_id noise path row.auth_session_id row.account_id now) s.transactions
            s'.transactions other h inserted
  step-IsBound id auth account expiry (confirms other auth' consume now) s _ h =
      after_keeps (λ z. IsBound id auth account expiry z.transactions) s _ h
        λ x s' e. elim (validate_logout-ok other auth' consume now s s' x e).0 [
          | inl same ↦ rw same h
          | inr same ↦
              rw same (consumed-IsBound id auth account expiry (has_id other) now s.transactions h)
        ]
  step-IsBound id auth account expiry (revokes hash now) s _ h = h

  run-IsBound :
      (id auth account : String) (expiry : ℕ) (es : List Event) (s : Store)
      → AllSpare id es
      → IsBound id auth account expiry s.transactions
      → IsBound id auth account expiry (run sha256 es s).transactions
  run-IsBound id auth account expiry [] s _ h = h
  run-IsBound id auth account expiry (e ∷ es) s (spare, spares) h =
      run-IsBound id auth account expiry es (step sha256 e s) spares
        (step-IsBound id auth account expiry e s spare h)

  -- After a login was authorized for an authentication session and an account, and after any calls since
  -- that do not draw its request id for a new transaction, other authorizations of it among them, it is
  -- exchanged for a session of that account only, on that authentication session, which is unexpired then,
  -- and not after the expiry that the authorization was given.
  pub exchange_after_authorize :
      (id auth account : String) (expiry : ℕ) (code : String) (then_at : ℕ) (s s' : Store)
      (handoff : Handoff) (between : List Event) (dir : Directory) (secret code' token : String)
      (now : ℕ) (answer : ConsoleSession) (s'' : Store)
      → authorize_login sha256 id auth account expiry code then_at s ≡ ok (handoff, s')
      → AllSpare id between
      → exchange_login sha256 dir id secret code' token now (run sha256 between s')
        ≡ ok (answer, s'')
      → (answer.account_id ≡ account)
        × (now < expiry)
        × (session : AuthSession) × Backs dir auth account now session
  exchange_after_authorize id auth account expiry code then_at s s' handoff between dir secret code'
        token now answer s'' e spare e' =
      let (row, h, _, _, table, _) =
        authorize_login-ok sha256 id auth account expiry code then_at s s' handoff e in
      let most = min row.expires_at expiry in
      let bound_now : IsBound id auth account most s'.transactions =
        rw table (bind_all id auth account h most most s.transactions (omega arith)) in
      let bound_still = run-IsBound id auth account most between s' spare bound_now in
      let done =
        exchange_checks sha256 dir id secret code' token now (run sha256 between s') s'' answer
          e' in
      let held = done.authorized in
      let (mine, good) =
        first-all (has_id id) (is_kept id auth account most) (run sha256 between s').transactions
          done.held.row bound_still held.found in
      let (of_auth, of_account, within) = bound_row id auth account most done.held.row mine good in
      let auths : done.held.auth_session_id ≡ auth = some_same (sym held.session_bound ∙ of_auth) in
      let accounts : done.held.account_id ≡ account =
        some_same (sym held.account_bound ∙ of_account) in
      (
        done.of_account ∙ accounts,
        omega (arith, held.unexpired, within),
        done.session,
        rw (auths, accounts) at done.backed,
      )
