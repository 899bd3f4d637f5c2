-- ===== src/Login/Laws.antt =====
-- `PostgresAccountLoginTransactionStore`: when a login completes, and for whom.
use wp_auto.Base.{
  ℕ, ◌≤◌, ◌<◌, String, ◌≡◌, refl, sym, ap, ◌∙◌, ◌↔◌, true, ◌&&◌, Option, none, some, List, arith,
  ltb, leb, ltb→lt, lt→ltb, ◌==◌, ==_iff, nat_eq, text_eq, bytes_eq, Bytes, ==_refl, count, Result,
  ok, ◌>>=◌, >>=-eq-ok, guard-ok, guard-true, or_fail-ok, ok_pair, ok_injective,
}
use wp_auto.Base.{update_where}
use wp_auto.Base.Text.{text_length}
use wp_auto.Base.Rows.{first}
use wp_auto.Login.Linking.{Links, ensure-Links, Links-ensure}
use wp_auto.Login.{
  Transaction, Error, transaction_invalid, transaction_expired, transaction_consumed,
  user_id_invalid, bootstrap_failed, AccountStatus, active, is_active, Link, Account, Accounts,
  ensure_account_auth_link, Completed, Environment, is_secret, is_none, has_token, secret_hash,
  email_binding, open_transaction, consume, check_email, link_account, pending, complete,
  email_mismatch,
}

module _ (env : Environment) where
  open env use {sha256, hmac, email_of}

  -- The row of a transaction that is open to the holder of the token and of the CSRF secret.
  pub record IsOpen (token csrf : String) (now : ℕ) (rows : List Transaction) (row : Transaction)
      : Type 0 where
    pub token_valid : is_secret token ≡ true
    pub csrf_valid : is_secret csrf ≡ true
    pub found : first (has_token (sha256 token)) rows ≡ some row
    pub csrf_matches : row.csrf_hash ≡ sha256 csrf
    pub unexpired : now < row.expires_at
    pub unconsumed : row.consumed_at ≡ none

  is_none_iff : {A : Type 0} (o : Option A) → (is_none o ≡ true) ↔ (o ≡ none)
  is_none_iff none = (λ _. refl, λ _. refl)
  is_none_iff (some x) = (λ h. cc, λ h. cc)

  -- The three steps with which `bindEmail`, `restart` and `complete` begin.
  abbrev pub begin {ℓ} :
      {A : Type ℓ}
      → String
      → String
      → ℕ
      → List Transaction
      → (Bytes → Bytes → Transaction → Result Error A)
      → Result Error A
  begin token csrf now rows next = do
    h ← secret_hash env token
    c ← secret_hash env csrf
    row ← open_transaction env h c now rows
    next h c row

  secret_hash-ok :
      (secret : String) (h : Bytes)
      → secret_hash env secret ≡ ok h
      → (is_secret secret ≡ true) × (h ≡ sha256 secret)
  unfolding secret_hash
  secret_hash-ok secret h e =
      let (valid, e') = guard-ok (is_secret secret) transaction_invalid (ok (sha256 secret)) e in
      (valid, cc)

  open_transaction-ok :
      (h c : Bytes) (now : ℕ) (rows : List Transaction) (row : Transaction)
      → open_transaction env h c now rows ≡ ok row
      → (first (has_token h) rows ≡ some row)
        × (row.csrf_hash ≡ c)
        × (now < row.expires_at)
        × (row.consumed_at ≡ none)
  unfolding open_transaction
  open_transaction-ok h c now rows row e =
      let (r, found, e₁) = or_fail-ok (first (has_token h) rows) transaction_invalid _ e in
      let (csrf, e₂) = guard-ok (r.csrf_hash == c) transaction_invalid _ e₁ in
      let (fresh, e₃) = guard-ok (ltb now r.expires_at) transaction_expired _ e₂ in
      let (unused, e₄) = guard-ok (is_none r.consumed_at) transaction_consumed (ok r) e₃ in
      let same : r ≡ row = cc in
      rw (← same) (
        found,
        (==_iff r.csrf_hash c).0 csrf,
        ltb→lt now r.expires_at fresh,
        (is_none_iff r.consumed_at).0 unused,
      )

  pub begin-ok {ℓ} :
      {A : Type ℓ} (token csrf : String) (now : ℕ) (rows : List Transaction)
      (next : Bytes → Bytes → Transaction → Result Error A) {y : A}
      → begin token csrf now rows next ≡ ok y
      → (row : Transaction) × IsOpen token csrf now rows row
        × (next (sha256 token) (sha256 csrf) row ≡ ok y)
  begin-ok token csrf now rows next e =
      let (h, eh, e₁) = >>=-eq-ok (secret_hash env token) _ e in
      let (c, ec, e₂) = >>=-eq-ok (secret_hash env csrf) _ e₁ in
      let (row, er, e₃) = >>=-eq-ok (open_transaction env h c now rows) _ e₂ in
      let (token_valid, eh') = secret_hash-ok token h eh in
      let (csrf_valid, ec') = secret_hash-ok csrf c ec in
      let (found, csrf, fresh, unused) = open_transaction-ok h c now rows row er in
      (
        row,
        record {
          token_valid = token_valid;
          csrf_valid = csrf_valid;
          found = rw eh' at found;
          csrf_matches = rw ec' at csrf;
          unexpired = fresh;
          unconsumed = unused;
        },
        rw eh' at (rw ec' at e₃),
      )

  pub begin_IsOpen :
      (token csrf : String) (now : ℕ) (rows : List Transaction) (row : Transaction)
      → IsOpen token csrf now rows row
      → (secret_hash env token ≡ ok (sha256 token))
        × (secret_hash env csrf ≡ ok (sha256 csrf))
        × (open_transaction env (sha256 token) (sha256 csrf) now rows ≡ ok row)
  unfolding secret_hash open_transaction
  begin_IsOpen token csrf now rows row o = (
    rw o.token_valid refl,
    rw o.csrf_valid refl,
    rw
        (
          o.found,
          (==_iff row.csrf_hash (sha256 csrf)).1 o.csrf_matches,
          lt→ltb now row.expires_at o.unexpired,
          o.unconsumed,
        )
        refl,
  )

  -- The address of the user is the one that the transaction is bound to, if it is bound.
  abbrev pub MailAgrees : String → String → Option Bytes → Type 0
  MailAgrees token user none = Unit
  MailAgrees token user (some bound) =
      (email : String) × (email_of user ≡ some email) × (email_binding env token email ≡ ok bound)

  check_email_iff :
      (token user : String) (binding : Option Bytes)
      → (check_email env token user binding ≡ ok tt) ↔ MailAgrees token user binding
  unfolding check_email
  check_email_iff token user none = (λ _. tt, λ _. refl)
  check_email_iff token user (some bound) = (
    λ e.
        let (email, known, e₁) = or_fail-ok (email_of user) email_mismatch _ e in
        let (b, bound_as, e₂) = >>=-eq-ok (email_binding env token email) _ e₁ in
        let same = (==_iff bound b).0 (guard-true (bound == b) email_mismatch e₂) in
        (email, known, rw same bound_as),
    λ (email, known, bound_as). rw (known, bound_as, ==_refl bound) refl,
  )

  -- What the caller must bring for a login to complete.
  pub record MayComplete (token csrf user proposed tenant : String) (now : ℕ) (accounts : Accounts)
      (rows : List Transaction) (row : Transaction) (link : Link) (accounts' : Accounts)
      : Type 0 where
    pub user_valid : (1 ≤ text_length user) × (text_length user ≤ 255)
    pub is_open : IsOpen token csrf now rows row
    pub mail : MailAgrees token user row.email_binding
    pub linked : Links env user proposed tenant accounts link accounts'
    pub active_account :
        (account : Account) × (first (λ a. a.id == link.account_id) accounts'.accounts
          ≡ some account)
        × (account.status ≡ active)
    pub only : count (pending env (sha256 token)) rows ≡ 1

  is_active_iff : (status : AccountStatus) → (is_active status ≡ true) ↔ (status ≡ active)
  is_active_iff status = (λ e. ground arith, λ e. ground arith)

  abbrev completed : Transaction → Link → Completed
  completed row link = record {
    link = link;
    account_status = active;
    return_path = row.return_path;
  }

  user_valid_iff :
      (user : String)
      → ((leb 1 (text_length user) && leb (text_length user) 255) ≡ true)
        ↔ ((1 ≤ text_length user) × (text_length user ≤ 255))
  user_valid_iff user = (λ h. ground arith, λ (a, b). ground arith)

  -- What a caller that may complete gets, and the tables that are left.
  abbrev pub Completes :
      (token csrf user proposed tenant : String)
      → ℕ
      → (accounts accounts' : Accounts) → (rows rows' : List Transaction) → Completed
      → Type 0
  Completes token csrf user proposed tenant now accounts accounts' rows rows' done =
      (row : Transaction) × (link : Link) × MayComplete token csrf user proposed tenant now accounts
        rows row link accounts'
      × (done ≡ completed row link)
      × (rows' ≡ update_where (pending env (sha256 token)) (consume env now) rows)

  may_complete :
      (token csrf user proposed tenant : String) (now : ℕ) (accounts accounts' : Accounts)
      (rows rows' : List Transaction) (done : Completed)
      → complete env token csrf user proposed tenant now accounts rows
        ≡ ok ((done, accounts'), rows')
      → Completes token csrf user proposed tenant now accounts accounts' rows rows' done
  unfolding complete link_account
  may_complete token csrf user proposed tenant now accounts accounts' rows rows' done e =
      let (valid, e₁) =
        guard-ok (leb 1 (text_length user) && leb (text_length user) 255) user_id_invalid _ e in
      let (row, is_open, e₂) = begin-ok token csrf now rows _ e₁ in
      let (_, mail, e₃) = >>=-eq-ok (check_email env token user row.email_binding) _ e₂ in
      let ((link, status, s'), linked, e₄) =
        >>=-eq-ok (link_account env user proposed tenant accounts) _ e₃ in
      let (only, e₅) =
        guard-ok (count (pending env (sha256 token)) rows == 1) transaction_consumed _ e₄ in
      let (result, table) = ok_pair e₅ in
      let ((link', made), ensured, e₆) =
        >>=-eq-ok (ensure_account_auth_link email_of user proposed tenant accounts) _ linked in
      let (account, found, e₇) =
        or_fail-ok (first (λ a. a.id == link'.account_id) made.accounts) bootstrap_failed _ e₆ in
      let (act, e₈) = guard-ok (is_active account.status) bootstrap_failed _ e₇ in
      let all_same : (link ≡ link') × (status ≡ account.status) × (s' ≡ made) = three_same e₈ in
      let is_act = (is_active_iff account.status).0 act in
      let tables : accounts' ≡ made = ap (λ z. z.1) result ∙ all_same.2 in
      (
        row,
        link',
        record {
          user_valid = (user_valid_iff user).0 valid;
          is_open = is_open;
          mail = (check_email_iff token user row.email_binding).0 mail;
          linked = rw tables (ensure-Links env user proposed tenant accounts made link' ensured);
          active_account = rw tables (account, found, is_act);
          only = (==_iff (count (pending env (sha256 token)) rows) 1).0 only;
        },
        ap (λ z. z.0) result ∙ (rw (all_same.0, all_same.1, is_act) refl),
        table,
      )
    where
      three_same :
          {l l' : Link} {a a' : AccountStatus} {s s' : Accounts}
          → Path (Result Error (Link × AccountStatus × Accounts)) (ok (l', a', s')) (ok (l, a, s))
          → (l ≡ l') × (a ≡ a') × (s ≡ s')
      three_same e =
          let same = ok_injective e in
          (ap (λ z. z.0) (sym same), ap (λ z. z.1) (sym same), ap (λ z. z.2) (sym same))

  completes :
      (token csrf user proposed tenant : String) (now : ℕ) (accounts accounts' : Accounts)
      (rows : List Transaction) (row : Transaction) (link : Link)
      → MayComplete token csrf user proposed tenant now accounts rows row link accounts'
      → complete env token csrf user proposed tenant now accounts rows
        ≡ ok (
          (completed row link, accounts'),
          update_where (pending env (sha256 token)) (consume env now) rows,
        )
  unfolding complete link_account
  completes token csrf user proposed tenant now accounts accounts' rows row link may =
      let (h, c, opened) = begin_IsOpen token csrf now rows row may.is_open in
      let mail = (check_email_iff token user row.email_binding).1 may.mail in
      let linked = Links-ensure env user proposed tenant accounts accounts' link may.linked in
      let (account, found, is_act) = may.active_account in
      rw
        (
          (user_valid_iff user).1 may.user_valid,
          h,
          c,
          opened,
          mail,
          linked,
          found,
          is_act,
          may.only,
        )
        refl

  -- A login completes exactly when the caller holds both secrets of an open, unexpired, unconsumed
  -- transaction, the only one of its token that can be used, the user is known by an id of 1 to 255
  -- characters and has the address that the transaction is bound to, if any, the proposed account id is
  -- well formed, and the account of the user is active. That account is the one that is linked to the
  -- user, and the tables of accounts stay as they are; or the user has none, and the proposed account is
  -- created, with the proposed tenant as its home, which it owns, and linked, if none of the keys is
  -- taken. The result is the account, its home and the path that the transaction was created with, and of
  -- the transactions only this one changes, which is consumed.
  pub complete_iff :
      (token csrf user proposed tenant : String) (now : ℕ) (accounts accounts' : Accounts)
      (rows rows' : List Transaction) (done : Completed)
      → (complete env token csrf user proposed tenant now accounts rows
          ≡ ok ((done, accounts'), rows'))
        ↔ Completes token csrf user proposed tenant now accounts accounts' rows rows' done
  complete_iff token csrf user proposed tenant now accounts accounts' rows rows' done = (
    may_complete token csrf user proposed tenant now accounts accounts' rows rows' done,
    λ (row, link, may, same, table).
        rw (same, table)
          (completes token csrf user proposed tenant now accounts accounts' rows row link may),
  )
