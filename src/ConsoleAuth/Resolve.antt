-- ===== src/ConsoleAuth/Resolve.antt =====
-- `PostgresConsoleAuthStore`: the session that an exchange gives is resolved to its account while it lasts.
use wp_auto.Base.{
  ℕ, ◌<◌, String, ◌≡◌, refl, sym, ◌∙◌, Bool, true, false, ◌&&◌, Option, none, some, List, [], ◌∷◌,
  arith, lt→ltb, ==_iff, nat_eq, text_eq, bytes_eq, Bytes, count, any, ok,
}
use wp_auto.Base.Rows.{first, first-append}
use wp_auto.ConsoleAuth.{
  Transaction, Session, Store, Directory, AuthSession, active, ConsoleSession, has_id, has_hash,
  exchange_login, resolve_session, live_session, has_authority, console_session,
}
use wp_auto.ConsoleAuth.Exchange.{exchange_checks}

some_same : {A : Type 0} {x y : A} → Path (Option A) (some x) (some y) → x ≡ y
some_same e = cc

module _ (sha256 : String → Bytes) where
  absent_none :
      (h : Bytes) (p : Session → Bool) (rows : List Session)
      → any (has_hash h) rows ≡ false
      → ((r : Session) → p r ≡ true → has_hash h r ≡ true)
      → count p rows ≡ 0
  absent_none h p [] e within = refl
  absent_none h p (r ∷ rs) e within = ground (arith, absent_none h p rs, within r)

  backs_row :
      (dir : Directory) (now : ℕ) (row : Session) (session : AuthSession)
      → dir.auth_session row.auth_session_id ≡ some session
      → now < session.expires_at
      → dir.status row.account_id ≡ some active
      → has_authority dir now row ≡ true
  backs_row dir now row session known unexpired is_act =
      rw (known, is_act, lt→ltb now session.expires_at unexpired) refl

  live_row :
      (h : Bytes) (now : ℕ) (row : Session)
      → row.session_hash ≡ h
      → now < row.expires_at
      → row.revoked_at ≡ none
      → live_session h now row ≡ true
  live_row h now row mine fresh unrevoked =
      rw ((==_iff row.session_hash h).1 mine, lt→ltb now row.expires_at fresh, unrevoked) refl

  -- The session that an exchange gives is resolved to the account, with the time of its authentication in
  -- seconds, as long as neither it nor the authentication session has expired and the account is active.
  pub resolve_after_exchange :
      (dir : Directory) (id secret code token : String) (now : ℕ) (s s' : Store)
      (answer : ConsoleSession) (later : Directory) (at_time : ℕ) (auth : String)
      (session : AuthSession)
      → exchange_login sha256 dir id secret code token now s ≡ ok (answer, s')
      → at_time < answer.expires_at
      → ((r : Transaction)
          → first (has_id id) s.transactions ≡ some r
          → r.auth_session_id ≡ some auth)
      → later.auth_session auth ≡ some session
      → at_time < session.expires_at
      → later.status answer.account_id ≡ some active
      → resolve_session later (sha256 token) at_time s'
        ≡ some (record {
          account_id = answer.account_id;
          authentication_time = answer.authentication_time;
        })
  unfolding resolve_session
  resolve_after_exchange dir id secret code token now s s' answer later at_time auth session e fresh
        mine known unexpired is_act =
      let done = exchange_checks sha256 dir id secret code token now s s' answer e in
      let row = console_session sha256 done.held done.session now (sha256 token) in
      let held = done.authorized in
      let of_auth : done.held.auth_session_id ≡ auth =
        some_same (sym held.session_bound ∙ mine done.held.row held.found) in
      let answered = done.answers in
      let fresh' : at_time < row.expires_at = rw answered at fresh in
      let act : later.status row.account_id ≡ some active = rw answered at is_act in
      let backed = backs_row later at_time row session (rw of_auth known) unexpired act in
      let live = live_row (sha256 token) at_time row refl fresh' refl in
      let wanted : Session → Bool =
        λ r. live_session (sha256 token) at_time r && has_authority later at_time r in
      let others = absent_none (sha256 token) wanted s.sessions done.fresh λ r w. ground arith in
      let found : first wanted s'.sessions ≡ some row =
        rw (done.stores, first-append wanted s.sessions (row ∷ []) others, live, backed) refl in
      rw (found, answered) refl
