-- ===== src/ConsoleAuth/Once.antt =====
-- `PostgresConsoleAuthStore`: a login is exchanged at most once.
use wp_auto.Base.{
  ℕ, min, String, ◌≡◌, refl, ◌≢◌, inl, inr, Bool, false, List, [], ◌∷◌, ◌++◌, arith, ◌==◌, nat_eq,
  text_eq, bytes_eq, Bytes, count, ok,
}
use wp_auto.Base.{update_where, count-append, count-update_where, count-update_le}
use wp_auto.Base.Rows.{count-delete_oldest}
use wp_auto.ConsoleAuth.{
  Transaction, Store, Directory, ConsoleSession, has_id, is_old, new_login, new_logout, bound,
  consumed, unconsumed, purge, insert_transaction, exchange_login, revoke_session,
}
use wp_auto.ConsoleAuth.Exchange.{exchange_checks}
use wp_auto.ConsoleAuth.Events.{
  Event, creates, authorizes, exchanges, logs_out, confirms, revokes, step, run, after_keeps,
  create_login-ok, authorize_login-ok, begin_logout-ok, validate_logout-ok,
}

-- The call does not draw this request id for a new transaction.
abbrev pub Spares : String → Event → Type 0
Spares id (creates _ new_id _ _) = (new_id == id) ≡ false
Spares id (logs_out _ _ new_id _ _) = (new_id == id) ≡ false
Spares id _ = Unit

abbrev pub AllSpare : String → List Event → Type 0
AllSpare id [] = Unit
AllSpare id (e ∷ es) = Spares id e × AllSpare id es

-- No transaction with this id can still be exchanged.
abbrev IsSpent : String → List Transaction → Type 0
IsSpent id rows = count (unconsumed id) rows ≡ 0

insert-IsSpent :
    (id : String) (r : Transaction) (rows rows' : List Transaction)
    → (r.request_id == id) ≡ false
    → IsSpent id rows
    → insert_transaction r rows ≡ ok rows'
    → IsSpent id rows'
unfolding insert_transaction
insert-IsSpent id r rows rows' other spent e =
    let made : rows' ≡ rows ++ r ∷ [] = ground arith in
    let single : count (unconsumed id) (r ∷ []) ≡ 0 = ground arith in
    rw made (omega (arith, spent, single, count-append (unconsumed id) rows (r ∷ [])))

purge-IsSpent :
    (id : String) (now : ℕ) (rows : List Transaction)
    → IsSpent id rows
    → IsSpent id (purge now rows)
unfolding purge
purge-IsSpent id now rows spent = omega (
  arith,
  spent,
  count-delete_oldest (λ r. r.request_id) (λ r. r.created_at) (unconsumed id) (is_old now) rows,
)

bound-IsSpent :
    (id id' auth account : String) (h : Bytes) (expiry : ℕ) (rows : List Transaction)
    → IsSpent id rows
    → IsSpent id (update_where (has_id id') (bound auth account h expiry) rows)
bound-IsSpent id id' auth account h expiry rows spent = omega (
  arith,
  spent,
  count-update_where (has_id id') (unconsumed id) (bound auth account h expiry) rows λ r. refl,
)

consumed-IsSpent :
    (id : String) (p : Transaction → Bool) (now : ℕ) (rows : List Transaction)
    → IsSpent id rows
    → IsSpent id (update_where p (consumed now) rows)
consumed-IsSpent id p now rows spent =
    omega (arith, spent, count-update_le p (unconsumed id) (consumed now) rows λ r e. ground arith)

consume_all :
    (id : String) (now : ℕ) (rows : List Transaction)
    → IsSpent id (update_where (unconsumed id) (consumed now) rows)
unfolding update_where
consume_all id now [] = refl
consume_all id now (r ∷ rs) = ground (arith, consume_all id now rs)

module _ (sha256 : String → Bytes) where
  step-IsSpent :
      (id : String) (e : Event) (s : Store)
      → Spares id e
      → IsSpent id s.transactions
      → IsSpent id (step sha256 e s).transactions
  unfolding revoke_session
  step-IsSpent id (creates path new_id secret now) s other spent =
      after_keeps (λ z. IsSpent id z.transactions) s _ spent
        λ x s' e.
          let (h, inserted, _) = create_login-ok sha256 path new_id secret now s s' x e in
          insert-IsSpent id (new_login new_id h path now) (purge now s.transactions) s'.transactions
            other (purge-IsSpent id now s.transactions spent) inserted
  step-IsSpent id (authorizes other auth account expiry code now) s _ spent =
      after_keeps (λ z. IsSpent id z.transactions) s _ spent
        λ x s' e.
          let (row, h, _, _, table, _) =
            authorize_login-ok sha256 other auth account expiry code now s s' x e in
          rw table
            (bound-IsSpent id other auth account h (min row.expires_at expiry) s.transactions spent)
  step-IsSpent id (exchanges dir other secret code token now) s _ spent =
      after_keeps (λ z. IsSpent id z.transactions) s _ spent
        λ x s' e.
          let done = exchange_checks sha256 dir other secret code token now s s' x e in
          rw (done.consumes) (consumed-IsSpent id (unconsumed other) now s.transactions spent)
  step-IsSpent id (logs_out hash path new_id noise now) s other spent =
      after_keeps (λ z. IsSpent id z.transactions) s _ spent
        λ x s' e.
          let (row, _, inserted, _) = begin_logout-ok hash path new_id noise now s s' x e in
          insert-IsSpent id (new_logout new_id noise path row.auth_session_id row.account_id now)
            s.transactions s'.transactions other spent inserted
  step-IsSpent id (confirms other auth consume now) s _ spent =
      after_keeps (λ z. IsSpent id z.transactions) s _ spent
        λ x s' e. elim (validate_logout-ok other auth consume now s s' x e).0 [
          | inl same ↦ rw same spent
          | inr same ↦ rw same (consumed-IsSpent id (has_id other) now s.transactions spent)
        ]
  step-IsSpent id (revokes hash now) s _ spent = spent

  run-IsSpent :
      (id : String) (es : List Event) (s : Store)
      → AllSpare id es
      → IsSpent id s.transactions
      → IsSpent id (run sha256 es s).transactions
  run-IsSpent id [] s _ spent = spent
  run-IsSpent id (e ∷ es) s (spare, spares) spent =
      run-IsSpent id es (step sha256 e s) spares (step-IsSpent id e s spare spent)

  -- A login that has been exchanged for a session is never exchanged again, with any secret and code, at
  -- any time and after any calls in between that do not draw its request id for a new transaction.
  pub exchange_once :
      (dir : Directory) (id secret code token : String) (now : ℕ) (s s' : Store)
      (answer : ConsoleSession) (between : List Event) (dir' : Directory)
      (secret' code' token' : String) (later : ℕ) (again : ConsoleSession × Store)
      → exchange_login sha256 dir id secret code token now s ≡ ok (answer, s')
      → AllSpare id between
      → exchange_login sha256 dir' id secret' code' token' later (run sha256 between s') ≢ ok again
  exchange_once dir id secret code token now s s' answer between dir' secret' code' token' later
        (a, t) e spare e' =
      let done = exchange_checks sha256 dir id secret code token now s s' answer e in
      let spent : IsSpent id s'.transactions =
        rw (done.consumes) (consume_all id now s.transactions) in
      let still = run-IsSpent id between s' spare spent in
      let twice =
        exchange_checks sha256 dir' id secret' code' token' later (run sha256 between s') t a e' in
      omega (arith, still, twice.only)
