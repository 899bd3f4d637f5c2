-- ===== src/Login/Once.antt =====
-- `PostgresAccountLoginTransactionStore`: a transaction is used up at most once.
use wp_auto.Base.{
  ℕ, String, ◌≡◌, refl, ◌≢◌, inl, inr, Bool, false, List, [], ◌∷◌, ◌++◌, arith, Bool-cases, ◌==◌,
  nat_eq, text_eq, bytes_eq, Bytes, count, Result, ok, err, >>=-eq-ok, guard-ok,
}
use wp_auto.Base.{
  ok_pair, guard-ok, update_where, count-append, count-update_where, count-update_le,
}
use wp_auto.Base.Rows.{delete_oldest, count-delete_oldest}
use wp_auto.Login.{
  Transaction, Error, Environment, Accounts, Completed, Started, new_transaction, is_old, is_none,
  has_token, create, bind_email, restart, complete, pending, insert, bind, consume, agrees,
  secret_hash, email_binding, open_transaction, email_mismatch, return_invalid,
}
use wp_auto.Login.Laws.{complete_iff}
use wp_auto.Base.Text.{is_return_path}

-- What a browser or a server does with the table. A completion finds the tables of accounts in some state.
pub data Event : Type 0 where
  creates : (path csrf token : String) → (now : ℕ) → Event
  binds : (token csrf email : String) → (now : ℕ) → Event
  restarts : (token csrf new_token : String) → (now : ℕ) → Event
  completes : (token csrf user proposed tenant : String) → (now : ℕ) → (accounts : Accounts) → Event

-- The table after an answer: an error rolls back.
abbrev after {ℓ} :
    {A : Type ℓ} → List Transaction → Result Error (A × List Transaction) → List Transaction
after rows (err e) = rows
after rows (ok (x, rows')) = rows'

module _ (env : Environment) where
  open env use {sha256}

  abbrev pub step : Event → List Transaction → List Transaction
  step (creates path csrf token now) rows = after rows (create env path csrf token now rows)
  step (binds token csrf email now) rows = after rows (bind_email env token csrf email now rows)
  step (restarts token csrf new_token now) rows =
      after rows (restart env token csrf new_token now rows)
  step (completes token csrf user proposed tenant now accounts) rows =
      after rows (complete env token csrf user proposed tenant now accounts rows)

  abbrev pub run : List Event → List Transaction → List Transaction
  run [] rows = rows
  run (e ∷ es) rows = run es (step e rows)

  -- The event makes no transaction whose token has this hash.
  abbrev pub Spares : Bytes → Event → Type 0
  Spares h (creates _ _ token _) = (sha256 token == h) ≡ false
  Spares h (restarts _ _ new_token _) = (sha256 new_token == h) ≡ false
  Spares h _ = Unit

  abbrev pub AllSpare : Bytes → List Event → Type 0
  AllSpare h [] = Unit
  AllSpare h (e ∷ es) = Spares h e × AllSpare h es

  -- No transaction with this hash can still be used.
  abbrev pub IsSpent : Bytes → List Transaction → Type 0
  IsSpent h rows = count (pending env h) rows ≡ 0

  pub secret_hash-ok : (s : String) (h : Bytes) → secret_hash env s ≡ ok h → h ≡ sha256 s
  unfolding secret_hash
  secret_hash-ok s h e = ground arith

  insert-IsSpent :
      (h : Bytes) (r : Transaction) (rows rows' : List Transaction)
      → (r.token_hash == h) ≡ false
      → IsSpent h rows
      → insert r rows ≡ ok rows'
      → IsSpent h rows'
  unfolding insert
  insert-IsSpent h r rows rows' other spent e =
      let made : rows' ≡ rows ++ r ∷ [] = ground arith in
      let single : count (pending env h) (r ∷ []) ≡ 0 = ground arith in
      rw made (omega (arith, count-append (pending env h) rows (r ∷ []), single, spent))

  bind-IsSpent :
      (h h' b : Bytes) (rows : List Transaction)
      → IsSpent h rows
      → IsSpent h (update_where (has_token h') (bind env b) rows)
  bind-IsSpent h h' b rows spent =
      omega (
        arith,
        spent,
        count-update_where (has_token h') (pending env h) (bind env b) rows λ r. refl,
      )

  consume-IsSpent :
      (h : Bytes) (p : Transaction → Bool) (now : ℕ) (rows : List Transaction)
      → IsSpent h rows
      → IsSpent h (update_where p (consume env now) rows)
  consume-IsSpent h p now rows spent =
      omega
        (arith, spent, count-update_le p (pending env h) (consume env now) rows λ r e. ground arith)

  create-IsSpent :
      (h : Bytes) (path csrf token : String) (now : ℕ) (rows rows' : List Transaction) (s : Started)
      → (sha256 token == h) ≡ false
      → IsSpent h rows
      → create env path csrf token now rows ≡ ok (s, rows')
      → IsSpent h rows'
  unfolding create delete_oldest
  create-IsSpent h path csrf token now rows rows' s other spent e =
      let (_, e₁) = guard-ok (is_return_path path) return_invalid _ e in
      let (ht, eh, e₂) = >>=-eq-ok (secret_hash env token) _ e₁ in
      let (hc, ec, e₃) = >>=-eq-ok (secret_hash env csrf) _ e₂ in
      let old = delete_oldest (λ r. r.token_hash) (λ r. r.created_at) (is_old now) rows in
      let (made, ei, e₄) = >>=-eq-ok (insert (new_transaction ht path hc now) old) _ e₃ in
      let (_, same) = ok_pair e₄ in
      let purged : IsSpent h old = omega (
        arith,
        spent,
        count-delete_oldest (λ r. r.token_hash) (λ r. r.created_at) (pending env h) (is_old now)
            rows,
      ) in
      let token_differs : (ht == h) ≡ false = rw (secret_hash-ok token ht eh) other in
      rw same (insert-IsSpent h (new_transaction ht path hc now) old made token_differs purged ei)

  bind_email-IsSpent :
      (h : Bytes) (token csrf email : String) (now : ℕ) (rows rows' : List Transaction)
      → IsSpent h rows
      → bind_email env token csrf email now rows ≡ ok (tt, rows')
      → IsSpent h rows'
  unfolding bind_email
  bind_email-IsSpent h token csrf email now rows rows' spent e =
      let (ht, _, e₁) = >>=-eq-ok (secret_hash env token) _ e in
      let (hc, _, e₂) = >>=-eq-ok (secret_hash env csrf) _ e₁ in
      let (b, _, e₃) = >>=-eq-ok (email_binding env token email) _ e₂ in
      let (row, _, e₄) = >>=-eq-ok (open_transaction env ht hc now rows) _ e₃ in
      let (_, e₅) = guard-ok (agrees env b row.email_binding) email_mismatch _ e₄ in
      let (_, same) = ok_pair e₅ in
      rw same (elim (Bool-cases (is_none row.email_binding)) [
        | inl free ↦ rw free (bind-IsSpent h ht b rows spent)
        | inr bound ↦ rw bound spent
      ])

  restart-IsSpent :
      (h : Bytes) (token csrf new_token : String) (now : ℕ) (rows rows' : List Transaction)
      (s : Started)
      → (sha256 new_token == h) ≡ false
      → IsSpent h rows
      → restart env token csrf new_token now rows ≡ ok (s, rows')
      → IsSpent h rows'
  unfolding restart
  restart-IsSpent h token csrf new_token now rows rows' s other spent e =
      let (ht, _, e₁) = >>=-eq-ok (secret_hash env token) _ e in
      let (hc, _, e₂) = >>=-eq-ok (secret_hash env csrf) _ e₁ in
      let (row, _, e₃) = >>=-eq-ok (open_transaction env ht hc now rows) _ e₂ in
      let (hn, eh, e₄) = >>=-eq-ok (secret_hash env new_token) _ e₃ in
      let consumed = update_where (has_token ht) (consume env now) rows in
      let (made, ei, e₅) =
        >>=-eq-ok (insert (new_transaction hn row.return_path hc now) consumed) _ e₄ in
      let (_, same) = ok_pair e₅ in
      let token_differs : (hn == h) ≡ false = rw (secret_hash-ok new_token hn eh) other in
      rw same (
        insert-IsSpent h (new_transaction hn row.return_path hc now) consumed made token_differs
          (consume-IsSpent h (has_token ht) now rows spent) ei)

  complete-IsSpent :
      (h : Bytes) (token csrf user proposed tenant : String) (now : ℕ) (accounts : Accounts)
      (rows rows' : List Transaction) (result : Completed × Accounts)
      → IsSpent h rows
      → complete env token csrf user proposed tenant now accounts rows ≡ ok (result, rows')
      → IsSpent h rows'
  complete-IsSpent h token csrf user proposed tenant now accounts rows rows' (done, accounts') spent
        e =
      let (_, _, _, _, table) =
        (complete_iff env token csrf user proposed tenant now accounts accounts' rows rows' done).0
          e in
      rw table (consume-IsSpent h (pending env (sha256 token)) now rows spent)

  after-IsSpent {ℓ} :
      {A : Type ℓ} (h : Bytes) (rows : List Transaction) (m : Result Error (A × List Transaction))
      → IsSpent h rows
      → ((x : A) → (rows' : List Transaction) → m ≡ ok (x, rows') → IsSpent h rows')
      → IsSpent h (after rows m)
  after-IsSpent h rows (err e) spent keep = spent
  after-IsSpent h rows (ok (x, rows')) spent keep = keep x rows' refl

  pub step-IsSpent :
      (h : Bytes) (e : Event) (rows : List Transaction)
      → Spares h e
      → IsSpent h rows
      → IsSpent h (step e rows)
  step-IsSpent h (creates path csrf token now) rows other spent =
      after-IsSpent h rows _ spent
        λ s rows'. create-IsSpent h path csrf token now rows rows' s other spent
  step-IsSpent h (binds token csrf email now) rows _ spent =
      after-IsSpent h rows _ spent
        λ _ rows'. bind_email-IsSpent h token csrf email now rows rows' spent
  step-IsSpent h (restarts token csrf new_token now) rows other spent =
      after-IsSpent h rows _ spent
        λ s rows'. restart-IsSpent h token csrf new_token now rows rows' s other spent
  step-IsSpent h (completes token csrf user proposed tenant now accounts) rows _ spent =
      after-IsSpent h rows _ spent λ d rows'.
        complete-IsSpent h token csrf user proposed tenant now accounts rows rows' d spent

  run-IsSpent :
      (h : Bytes) (es : List Event) (rows : List Transaction)
      → AllSpare h es
      → IsSpent h rows
      → IsSpent h (run es rows)
  run-IsSpent h [] rows _ spent = spent
  run-IsSpent h (e ∷ es) rows (s, ss) spent =
      run-IsSpent h es (step e rows) ss (step-IsSpent h e rows s spent)

  consume_all :
      (h : Bytes) (now : ℕ) (rows : List Transaction)
      → IsSpent h (update_where (pending env h) (consume env now) rows)
  unfolding update_where
  consume_all h now [] = refl
  consume_all h now (r ∷ rs) = ground (arith, consume_all h now rs)

  -- A token that has completed a login never completes another one: not with any CSRF secret, for any
  -- user, at any time, with the tables of accounts in any state, after any requests in between, as long
  -- as none of them is given a new token with the hash of this one.
  pub complete_once :
      (token csrf user proposed tenant : String) (now : ℕ) (accounts : Accounts)
      (rows rows' : List Transaction) (done : Completed × Accounts) (between : List Event)
      (csrf' user' proposed' tenant' : String) (later : ℕ) (accounts' : Accounts)
      (result : (Completed × Accounts) × List Transaction)
      → complete env token csrf user proposed tenant now accounts rows ≡ ok (done, rows')
      → AllSpare (sha256 token) between
      → complete env token csrf' user' proposed' tenant' later accounts' (run between rows')
        ≢ ok result
  complete_once token csrf user proposed tenant now accounts rows rows' (done, made) between csrf'
        user' proposed' tenant' later accounts' ((d, others), t) e spare again =
      let (_, _, _, _, table) =
        (complete_iff env token csrf user proposed tenant now accounts made rows rows' done).0 e in
      let spent : IsSpent (sha256 token) rows' = rw table (consume_all (sha256 token) now rows) in
      let still = run-IsSpent (sha256 token) between rows' spare spent in
      let (_, _, may, _, _) =
        (complete_iff env token csrf' user' proposed' tenant' later accounts' others
            (run between rows') t d).0
          again in
      omega (arith, still, may.only)
