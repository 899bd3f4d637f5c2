-- ===== src/Login/Linking.antt =====
-- `ensure_account_auth_link`: the account that a user gets, and the tables after it.
use wp_auto.Base.{
  ◌≤◌, String, ◌≡◌, refl, sym, ap, ◌⊎◌, inl, inr, true, ◌&&◌, Option, none, some, [], ◌∷◌, ◌++◌,
  arith, leb, nat_eq, text_eq, bytes_eq, length, ok, guard-ok, ok_pair,
}
use wp_auto.Base.Text.{codes}
use wp_auto.Login.{
  user_id_invalid, storage, proposed_account_id_invalid, user_not_found, active, Link, Accounts,
  linked_home, is_free, has_user, is_account_id, with_account, link_or_create,
  ensure_account_auth_link, Environment,
}

module _ (env : Environment) where
  open env use {email_of}

  -- The account that a completion is for, and the tables of accounts after it: the account that was linked,
  -- and nothing new, or the proposed account with its tenant, of which no key was taken.
  pub record Links (user proposed tenant : String) (s : Accounts) (link : Link) (s' : Accounts)
      : Type 0 where
    pub user_fits : (1 ≤ length (codes user)) × (length (codes user) ≤ 255)
    pub id_valid : is_account_id proposed ≡ true
    pub user_known : has_user (email_of user) ≡ true
    pub account :
        ((linked_home user s ≡ some link) × (s' ≡ s))
        ⊎ ((linked_home user s ≡ none)
            × (is_free user proposed tenant s ≡ true)
            × (link ≡ record { account_id = proposed; home_tenant_id = tenant })
            × (s' ≡ record {
              accounts = s.accounts ++ record { id = proposed; status = active } ∷ [];
              tenants = s.tenants ++ record { id = tenant; status = "active" } ∷ [];
              memberships =
                  s.memberships
                  ++ record {
                    tenant_id = tenant;
                    account_id = proposed;
                    role = "owner";
                    status = "active";
                  }
                    ∷ [];
              homes = s.homes ++ record { account_id = proposed; tenant_id = tenant } ∷ [];
              links = s.links ++ record { auth_user_id = user; account_id = proposed } ∷ [];
            }))

  link_or_create-ok :
      (user proposed tenant : String) (s s' : Accounts) (old : Option Link) (link : Link)
      → link_or_create user proposed tenant s old ≡ ok (link, s')
      → ((old ≡ some link) × (s' ≡ s))
        ⊎ ((old ≡ none)
            × (is_free user proposed tenant s ≡ true)
            × (link ≡ record { account_id = proposed; home_tenant_id = tenant })
            × (s' ≡ with_account user proposed tenant s))
  link_or_create-ok user proposed tenant s s' (some old) link e =
      let (same, same_s) = ok_pair e in inl (ap some (sym same), same_s)
  link_or_create-ok user proposed tenant s s' none link e =
      let (free, e₁) = guard-ok (is_free user proposed tenant s) storage _ e in
      let (same, same_s) = ok_pair e₁ in inr (refl, free, same, same_s)

  pub ensure-Links :
      (user proposed tenant : String) (s s' : Accounts) (link : Link)
      → ensure_account_auth_link email_of user proposed tenant s ≡ ok (link, s')
      → Links user proposed tenant s link s'
  unfolding ensure_account_auth_link
  ensure-Links user proposed tenant s s' link e =
      let size = length (codes user) in
      let (fits, e₁) = guard-ok (leb 1 size && leb size 255) user_id_invalid _ e in
      let (valid, e₂) = guard-ok (is_account_id proposed) proposed_account_id_invalid _ e₁ in
      let (known, e₃) = guard-ok (has_user (email_of user)) user_not_found _ e₂ in
      record {
        user_fits = (ground arith, ground arith);
        id_valid = valid;
        user_known = known;
        account = link_or_create-ok user proposed tenant s s' (linked_home user s) link e₃;
      }

  pub Links-ensure :
      (user proposed tenant : String) (s s' : Accounts) (link : Link)
      → Links user proposed tenant s link s'
      → ensure_account_auth_link email_of user proposed tenant s ≡ ok (link, s')
  unfolding ensure_account_auth_link
  Links-ensure user proposed tenant s s' link l =
      let size = length (codes user) in
      let fits : (leb 1 size && leb size 255) ≡ true =
        let (low, high) = l.user_fits in ground arith in
      elim (l.account) [
        | inl (known, same) ↦ rw (fits, l.id_valid, l.user_known, known, same) refl
        | inr (unlinked, free, made, same) ↦
            rw (fits, l.id_valid, l.user_known, unlinked, free, made, same) refl
      ]
