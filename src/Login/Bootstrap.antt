-- ===== src/Login/Bootstrap.antt =====
-- packages/database/migrations/011_account_auth_links.sql, `platform.ensure_account_auth_link`: the account
-- that a user of the authentication tables is linked to, which is created with its tenant at the first
-- login. Of the constraints of the tables the keys are modelled.
use wp_auto.Base.{
  ℕ, String, Bool, true, false, not, ◌&&◌, ◌||◌, Option, none, some, List, [], ◌∷◌, ◌++◌, leb,
  if◌then◌else◌, ◌==◌, nat_eq, text_eq, length, all, any, Result, ok, ◌>>◌, guard,
}
use wp_auto.Base.Rows.{first}
use wp_auto.Base.Text.{codes, is_word}

pub data Error : Type 0 where
  return_invalid transaction_invalid transaction_expired transaction_consumed : Error
  email_mismatch user_id_invalid bootstrap_failed storage : Error
  proposed_account_id_invalid user_not_found : Error

pub data AccountStatus : Type 0 where
  active suspended deleted : AccountStatus

pub record Link : Type 0 where
  pub account_id : String
  pub home_tenant_id : String

-- Rows of `platform.accounts`, `tenants`, `tenant_memberships`, `account_home_tenants` and
-- `account_auth_links`.
pub record Account : Type 0 where
  pub id : String
  pub status : AccountStatus

pub record Tenant : Type 0 where
  pub id : String
  pub status : String

pub record Membership : Type 0 where
  pub tenant_id : String
  pub account_id : String
  pub role : String
  pub status : String

pub record Home : Type 0 where
  pub account_id : String
  pub tenant_id : String

pub record AuthLink : Type 0 where
  pub auth_user_id : String
  pub account_id : String

pub record Accounts : Type 0 where
  pub accounts : List Account
  pub tenants : List Tenant
  pub memberships : List Membership
  pub homes : List Home
  pub links : List AuthLink

-- What follows the prefix.
abbrev strip : List ℕ → List ℕ → Option (List ℕ)
strip [] cs = some cs
strip (p ∷ ps) [] = none
strip (p ∷ ps) (c ∷ cs) = let rest = strip ps cs in if p == c then rest else none

abbrev is_tail : Option (List ℕ) → Bool
is_tail none = false
is_tail (some cs) = leb 16 (length cs) && (leb (length cs) 120 && all is_word cs)

-- ^account_[A-Za-z0-9_-]{16,120}$
abbrev pub is_account_id : String → Bool
is_account_id id = is_tail (strip (codes "account_") (codes id))

-- The join of the links with the home tenants; users and accounts are keys of the two.
abbrev with_home : AuthLink → Option Home → Option Link
with_home l none = none
with_home l (some h) = some (record { account_id = l.account_id; home_tenant_id = h.tenant_id })

abbrev home_of : List Home → Option AuthLink → Option Link
home_of homes none = none
home_of homes (some l) = with_home l (first (λ h. h.account_id == l.account_id) homes)

abbrev pub linked_home : String → Accounts → Option Link
linked_home user s = home_of s.homes (first (λ l. l.auth_user_id == user) s.links)

-- No key of the five rows that are inserted is taken.
abbrev pub is_free : String → String → String → Accounts → Bool
is_free user account tenant s = not (
    any (λ a. a.id == account) s.accounts
    || (any (λ t. t.id == tenant) s.tenants
        || (any (λ m. m.tenant_id == tenant && m.account_id == account) s.memberships
            || (any (λ h. h.account_id == account || h.tenant_id == tenant) s.homes
                || any (λ l. l.auth_user_id == user || l.account_id == account) s.links))))

-- The five INSERTs.
abbrev pub with_account : String → String → String → Accounts → Accounts
with_account user account tenant s = record {
  accounts = s.accounts ++ record { id = account; status = active } ∷ [];
  tenants = s.tenants ++ record { id = tenant; status = "active" } ∷ [];
  memberships =
      s.memberships
      ++ record { tenant_id = tenant; account_id = account; role = "owner"; status = "active" }
        ∷ [];
  homes = s.homes ++ record { account_id = account; tenant_id = tenant } ∷ [];
  links = s.links ++ record { auth_user_id = user; account_id = account } ∷ [];
}

abbrev pub link_or_create :
    String → String → String → Accounts → Option Link → Result Error (Link × Accounts)
link_or_create user account tenant s (some link) = ok (link, s)
link_or_create user account tenant s none = do
  guard (is_free user account tenant s) storage
  ok (record { account_id = account; home_tenant_id = tenant }, with_account user account tenant s)

abbrev pub has_user : Option String → Bool
has_user none = false
has_user (some _) = true

-- The users are known by their addresses.
unfoldable pub ensure_account_auth_link :
    (String → Option String) → String → String → String → Accounts → Result Error (Link × Accounts)
ensure_account_auth_link email_of user account tenant s = do
  guard (leb 1 (length (codes user)) && leb (length (codes user)) 255) user_id_invalid
  guard (is_account_id account) proposed_account_id_invalid
  guard (has_user (email_of user)) user_not_found
  link_or_create user account tenant s (linked_home user s)
