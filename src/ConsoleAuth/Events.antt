-- ===== src/ConsoleAuth/Events.antt =====
-- `PostgresConsoleAuthStore`: sequences of its calls, and what each call does to the two tables.
use wp_auto.Base.{
  ℕ, min, String, ◌≡◌, refl, ap, ◌⊎◌, inl, inr, Bool, true, false, not, ◌&&◌, ◌||◌, some, List, [],
  ◌∷◌, ltb, Bool-cases, nat_eq, text_eq, bytes_eq, Bytes, Result, ok, err, >>=-eq-ok, guard-ok,
  or_fail-ok, ok_pair,
}
use wp_auto.Base.{update_where}
use wp_auto.Base.Rows.{first}
use wp_auto.Base.Text.{is_return_path}
use wp_auto.ConsoleAuth.{
  Transaction, Session, Store, Error, return_path_invalid, transaction_invalid,
  transaction_consumed, transaction_expired, binding_mismatch, session_invalid, Directory, Login,
  Handoff, is_none, is_login, has_id, has_hash, differs, new_login, new_logout, bound, consumed,
  revoked, live_session, is_logout_of, purge, insert_transaction, secret_hash, create_login,
  authorize_login, exchange_login, begin_logout, validate_logout, revoke_session,
}

pub data Event : Type 0 where
  creates : (path id secret : String) → (now : ℕ) → Event
  authorizes : (id auth account : String) → (expiry : ℕ) → (code : String) → (now : ℕ) → Event
  exchanges : (dir : Directory) → (id secret code token : String) → (now : ℕ) → Event
  logs_out : (hash : Bytes) → (path id : String) → (noise : Bytes) → (now : ℕ) → Event
  confirms : (id auth : String) → (consume : Bool) → (now : ℕ) → Event
  revokes : (hash : Bytes) → (now : ℕ) → Event

-- The store after an answer: an error rolls back.
abbrev after {ℓ} : {A : Type ℓ} → Store → Result Error (A × Store) → Store
after s (err e) = s
after s (ok (x, s')) = s'

-- What an answer that succeeds keeps, the store after it keeps.
pub after_keeps {ℓ κ} :
    {A : Type ℓ} (P : Store → Type κ) (s : Store) (m : Result Error (A × Store))
    → P s
    → ((x : A) → (s' : Store) → m ≡ ok (x, s') → P s')
    → P (after s m)
after_keeps P s (err e) holds keep = holds
after_keeps P s (ok (x, s')) holds keep = keep x s' refl

module _ (sha256 : String → Bytes) where
  abbrev pub step : Event → Store → Store
  step (creates path id secret now) s = after s (create_login sha256 path id secret now s)
  step (authorizes id auth account expiry code now) s =
      after s (authorize_login sha256 id auth account expiry code now s)
  step (exchanges dir id secret code token now) s =
      after s (exchange_login sha256 dir id secret code token now s)
  step (logs_out hash path id noise now) s = after s (begin_logout hash path id noise now s)
  step (confirms id auth consume now) s = after s (validate_logout id auth consume now s)
  step (revokes hash now) s = revoke_session hash now s

  abbrev pub run : List Event → Store → Store
  run [] s = s
  run (e ∷ es) s = run es (step e s)

  pub create_login-ok :
      (path id secret : String) (now : ℕ) (s s' : Store) (answer : Login)
      → create_login sha256 path id secret now s ≡ ok (answer, s')
      → (h : Bytes) × (insert_transaction (new_login id h path now) (purge now s.transactions)
          ≡ ok s'.transactions)
        × (s'.sessions ≡ s.sessions)
  unfolding create_login
  create_login-ok path id secret now s s' answer e =
      let (_, e₁) = guard-ok (is_return_path path) return_path_invalid _ e in
      let (h, _, e₂) = >>=-eq-ok (secret_hash sha256 secret) _ e₁ in
      let (rows, inserted, e₃) =
        >>=-eq-ok (insert_transaction (new_login id h path now) (purge now s.transactions)) _ e₂ in
      let (_, same) = ok_pair e₃ in
      let table : s'.transactions ≡ rows = ap (λ z. z.transactions) same in
      (h, rw table inserted, ap (λ z. z.sessions) same)

  pub authorize_login-ok :
      (id auth account : String) (expiry : ℕ) (code : String) (now : ℕ) (s s' : Store)
      (answer : Handoff)
      → authorize_login sha256 id auth account expiry code now s ≡ ok (answer, s')
      → (row : Transaction) × (h : Bytes) × (first (has_id id) s.transactions ≡ some row)
        × ((differs row.auth_session_id auth || differs row.account_id account) ≡ false)
        × (s'.transactions
            ≡ update_where
                (has_id id)
                (bound auth account h (min row.expires_at expiry))
                s.transactions)
        × (s'.sessions ≡ s.sessions)
  unfolding authorize_login
  authorize_login-ok id auth account expiry code now s s' answer e =
      let (row, found, e₁) =
        or_fail-ok (first (has_id id) s.transactions) transaction_invalid _ e in
      let (_, e₂) = guard-ok (is_login row.purpose) transaction_invalid _ e₁ in
      let (_, e₃) = guard-ok (is_none row.consumed_at) transaction_consumed _ e₂ in
      let (_, e₄) = guard-ok (ltb now row.expires_at && ltb now expiry) transaction_expired _ e₃ in
      let other = differs row.auth_session_id auth || differs row.account_id account in
      let (fits, e₅) = guard-ok (not other) binding_mismatch _ e₄ in
      let (h, _, e₆) = >>=-eq-ok (secret_hash sha256 code) _ e₅ in
      let (_, same) = ok_pair e₆ in
      (row, h, found, not_true other fits, ap (λ z. z.transactions) same, ap (λ z. z.sessions) same)
    where
      not_true : (b : Bool) → not b ≡ true → b ≡ false
      not_true true h = cc
      not_true false h = refl

pub begin_logout-ok :
    (hash : Bytes) (path id : String) (noise : Bytes) (now : ℕ) (s s' : Store) (answer : String)
    → begin_logout hash path id noise now s ≡ ok (answer, s')
    → (row : Session) × (first (live_session hash now) s.sessions ≡ some row)
      × (insert_transaction
            (new_logout id noise path row.auth_session_id row.account_id now)
            s.transactions
          ≡ ok s'.transactions)
      × (s'.sessions ≡ update_where (has_hash hash) (revoked now) s.sessions)
unfolding begin_logout
begin_logout-ok hash path id noise now s s' answer e =
    let (_, e₁) = guard-ok (is_return_path path) return_path_invalid _ e in
    let (row, found, e₂) =
      or_fail-ok (first (live_session hash now) s.sessions) session_invalid _ e₁ in
    let (rows, inserted, e₃) =
      >>=-eq-ok
        (insert_transaction (new_logout id noise path row.auth_session_id row.account_id now)
          s.transactions)
        _ e₂ in
    let (_, same) = ok_pair e₃ in
    let table : s'.transactions ≡ rows = ap (λ z. z.transactions) same in
    (row, found, rw table inserted, ap (λ z. z.sessions) same)

pub validate_logout-ok :
    (id auth : String) (consume : Bool) (now : ℕ) (s s' : Store) (answer : String)
    → validate_logout id auth consume now s ≡ ok (answer, s')
    → ((s' ≡ s)
        ⊎ (s' ≡ record s { transactions = update_where (has_id id) (consumed now) s.transactions }))
      × (s'.sessions ≡ s.sessions)
unfolding validate_logout
validate_logout-ok id auth consume now s s' answer e =
    let (row, _, e₁) =
      or_fail-ok (first (is_logout_of id auth) s.transactions) transaction_invalid _ e in
    let (_, e₂) = guard-ok (ltb now row.expires_at) transaction_expired _ e₁ in
    let (_, e₃) = guard-ok (is_none row.consumed_at) transaction_consumed _ e₂ in
    let (_, same) = ok_pair e₃ in
    elim (Bool-cases consume) [
      | inl c ↦ let it = rw c at same in (inr it, ap (λ z. z.sessions) it)
      | inr c ↦ let it = rw c at same in (inl it, ap (λ z. z.sessions) it)
    ]
