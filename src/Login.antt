-- ===== src/Login.antt =====
-- packages/database/src/index.ts, `PostgresAccountLoginTransactionStore`: the login that a browser
-- begins, binds to an address and completes once. Times are milliseconds.
-- The hash functions, the random tokens and identifiers and the addresses of the users are parameters.
mod Bootstrap
unfoldable pub use Bootstrap.*
pub mod Linking
pub mod Laws
pub mod Once
mod Tests
use wp_auto.Base.{
  ℕ, zero, suc, ◌+◌, ◌-◌, ◌*◌, ◌/◌, ◌%◌, ◌^◌, ◌≤◌, ◌<◌, min, max, String, ◌≡◌, refl, sym, ap, ◌∙◌,
  ◌≢◌, ◌↔◌, ◌⊎◌, inl, inr, Bool, true, false, not, ◌&&◌, ◌||◌, Option, none, some, List, [], ◌∷◌,
  ◌++◌, map, arith, ltb, leb, if◌then◌else◌, ltb→lt, lt→ltb, leb→le, le→leb, Bool-cases,
  Option-cases, HasEq, ◌==◌, ==_iff, nat_eq, text_eq, bytes_eq, Bytes, ==_refl, ==_ne, length,
  get_elem?, take, filter, count, all, any, Result, ok, err, ◌>>=◌, ◌>>◌, guard, or_fail, commit,
  >>=-eq-ok, Result-cases,
}
use wp_auto.Base.{update_where}
use wp_auto.Base.Rows.{first, delete_oldest}
use wp_auto.Base.Text.{is_word, matches, text_length, is_return_path}

pub record Transaction : Type 0 where
  pub token_hash : Bytes
  pub return_path : String
  pub csrf_hash : Bytes
  pub email_binding : Option Bytes
  pub created_at : ℕ
  pub expires_at : ℕ
  pub consumed_at : Option ℕ

pub record Completed : Type 0 where
  pub link : Link
  pub account_status : AccountStatus
  pub return_path : String

pub record Started : Type 0 where
  pub token : String
  pub return_path : String
  pub expires_at : ℕ

-- SHA-256, the HMAC of an address under a token, and the addresses of `auth.user`.
pub record Environment : Type 0 where
  pub sha256 : String → Bytes
  pub hmac : String → String → Bytes
  pub email_of : String → Option String

abbrev pub lifetime : ℕ
lifetime = 600000

abbrev pub one_day : ℕ
one_day = 86400000

abbrev pub is_secret : String → Bool
is_secret = matches is_word 43 43

abbrev pub is_none {ℓ} : {A : Type ℓ} → Option A → Bool
is_none none = true
is_none (some _) = false

abbrev pub is_active : AccountStatus → Bool
is_active active = true
is_active _ = false

abbrev pub has_token : Bytes → Transaction → Bool
has_token h r = r.token_hash == h

-- `consumed_at < now - interval '1 day'`
abbrev pub long_gone : ℕ → Option ℕ → Bool
long_gone now none = false
long_gone now (some t) = ltb (t + one_day) now

abbrev pub is_old : ℕ → Transaction → Bool
is_old now r = ltb (r.expires_at + one_day) now || long_gone now r.consumed_at

abbrev pub new_transaction : Bytes → String → Bytes → ℕ → Transaction
new_transaction h path csrf_hash now = record {
  token_hash = h;
  return_path = path;
  csrf_hash = csrf_hash;
  email_binding = none;
  created_at = now;
  expires_at = now + lifetime;
  consumed_at = none;
}

-- INSERT; the primary key is the hash of the token.
unfoldable pub insert : Transaction → List Transaction → Result Error (List Transaction)
insert r rows = if any (has_token r.token_hash) rows then err storage else ok (rows ++ r ∷ [])

module _ (env : Environment) where
  open env use {sha256, hmac, email_of}

  -- `loginTransactionTokenHash` and `loginTransactionCsrfHash`.
  unfoldable pub secret_hash : String → Result Error Bytes
  secret_hash secret = do guard (is_secret secret) transaction_invalid; ok (sha256 secret)

  unfoldable pub email_binding : String → String → Result Error Bytes
  email_binding token email = do
    guard (leb 3 (text_length email) && leb (text_length email) 254) transaction_invalid
    ok (hmac token email)

  unfoldable pub create :
      String → String → String → ℕ → List Transaction → Result Error (Started × List Transaction)
  unfolding secret_hash insert delete_oldest
  create path csrf token now rows = do
    guard (is_return_path path) return_invalid
    h ← secret_hash token
    c ← secret_hash csrf
    rows' ←
        insert (new_transaction h path c now)
          (delete_oldest (λ r. r.token_hash) (λ r. r.created_at) (is_old now) rows)
    ok (record { token = token; return_path = path; expires_at = now + lifetime }, rows')

  -- The checks that every use of a transaction begins with.
  unfoldable pub open_transaction : Bytes → Bytes → ℕ → List Transaction → Result Error Transaction
  open_transaction h c now rows = do
    row ← or_fail (first (has_token h) rows) transaction_invalid
    guard (row.csrf_hash == c) transaction_invalid
    guard (ltb now row.expires_at) transaction_expired
    guard (is_none row.consumed_at) transaction_consumed
    ok row

  abbrev pub bind : Bytes → Transaction → Transaction
  bind b r = record r { email_binding = some b }

  abbrev pub agrees : Bytes → Option Bytes → Bool
  agrees b none = true
  agrees b (some old) = old == b

  unfoldable pub bind_email :
      String → String → String → ℕ → List Transaction → Result Error (Unit {0} × List Transaction)
  unfolding secret_hash email_binding open_transaction
  bind_email token csrf email now rows = do
    h ← secret_hash token
    c ← secret_hash csrf
    b ← email_binding token email
    row ← open_transaction h c now rows
    guard (agrees b row.email_binding) email_mismatch
    ok (tt, (if is_none row.email_binding then update_where (has_token h) (bind b) rows else rows))

  abbrev pub consume : ℕ → Transaction → Transaction
  consume now r = record r { consumed_at = some now }

  unfoldable pub restart :
      String → String → String → ℕ → List Transaction → Result Error (Started × List Transaction)
  unfolding secret_hash open_transaction insert
  restart token csrf new_token now rows = do
    h ← secret_hash token
    c ← secret_hash csrf
    row ← open_transaction h c now rows
    h' ← secret_hash new_token
    rows' ←
        insert (new_transaction h' row.return_path c now)
          (update_where (has_token h) (consume now) rows)
    ok (
      record { token = new_token; return_path = row.return_path; expires_at = now + lifetime },
      rows',
    )

  -- The address of the user must be the one that the transaction is bound to, if it is bound.
  unfoldable pub check_email : String → String → Option Bytes → Result Error (Unit {0})
  unfolding email_binding
  check_email token user none = ok tt
  check_email token user (some bound) = do
    email ← or_fail (email_of user) email_mismatch
    b ← email_binding token email
    guard (bound == b) email_mismatch

  -- The account of the user, which is created when the user has none, is active.
  unfoldable pub link_account :
      String → String → String → Accounts → Result Error (Link × AccountStatus × Accounts)
  unfolding ensure_account_auth_link
  link_account user proposed tenant s = do
    made ← ensure_account_auth_link email_of user proposed tenant s
    account ← or_fail (first (λ a. a.id == made.0.account_id) made.1.accounts) bootstrap_failed
    guard (is_active account.status) bootstrap_failed
    ok (made.0, account.status, made.1)

  abbrev pub pending : Bytes → Transaction → Bool
  pending h r = has_token h r && is_none r.consumed_at

  -- With the identifiers that are proposed for a new account and its tenant, and the tables of accounts.
  unfoldable pub complete :
      String
      → String
      → String
      → String
      → String
      → ℕ
      → Accounts
      → List Transaction
      → Result Error ((Completed × Accounts) × List Transaction)
  unfolding secret_hash open_transaction check_email link_account
  complete token csrf user proposed tenant now accounts rows = do
    guard (leb 1 (text_length user) && leb (text_length user) 255) user_id_invalid
    h ← secret_hash token
    c ← secret_hash csrf
    row ← open_transaction h c now rows
    check_email token user row.email_binding
    linked ← link_account user proposed tenant accounts
    guard (count (pending h) rows == 1) transaction_consumed
    ok (
      (
        record { link = linked.0; account_status = linked.1; return_path = row.return_path },
        linked.2,
      ),
      update_where (pending h) (consume now) rows,
    )
