-- ===== src/Login/Tests.antt =====
-- Login transactions on concrete inputs.
use wp_auto.Base.{
  String, ◌≡◌, refl, ◌≢◌, ◌↔◌, Option, none, some, List, [], ◌∷◌, if◌then◌else◌, ◌==◌, nat_eq,
  text_eq, bytes_eq, ok,
}
use wp_auto.Base.{update_where}
use wp_auto.Base.Text.{text_length}
use wp_auto.Login.{
  Transaction, Environment, Completed, Link, active, complete, consume, open_transaction,
  secret_hash, email_binding, check_email, link_account, Accounts, with_account,
  ensure_account_auth_link,
}
use wp_auto.Login.Laws.{complete_iff, Completes}
use wp_auto.Login.Once.{complete_once, run, Event, creates, completes}

abbrev token : String
token = "aaaaaaaaaaaaaaaaaaaaaaaaaaaaaaaaaaaaaaaaaaa"

abbrev other_token : String
other_token = "bbbbbbbbbbbbbbbbbbbbbbbbbbbbbbbbbbbbbbbbbbb"

abbrev csrf : String
csrf = "ccccccccccccccccccccccccccccccccccccccccccc"

abbrev alice_link : Link
alice_link = record { account_id = "account_0123456789abcdef"; home_tenant_id = "tenant" }

abbrev alice_only {ℓ} : {A : Type ℓ} → A → String → Option A
alice_only x user = if user == "alice" then some x else none

-- A hash that tells the three secrets apart, and one user.
abbrev env : Environment
env = record {
  sha256 = λ s.
      if s == "aaaaaaaaaaaaaaaaaaaaaaaaaaaaaaaaaaaaaaaaaaa"
      then 1 ∷ []
      else if s == "bbbbbbbbbbbbbbbbbbbbbbbbbbbbbbbbbbbbbbbbbbb"
      then 2 ∷ []
      else 3 ∷ [];
  hmac = λ t e. text_length e ∷ [];
  email_of = alice_only "a@example.com";
}

abbrev row : Transaction
row = record {
  token_hash = 1 ∷ [];
  return_path = "/console";
  csrf_hash = 3 ∷ [];
  email_binding = some (13 ∷ []);
  created_at = 0;
  expires_at = 600000;
  consumed_at = none;
}

abbrev done : Completed
done = record { link = alice_link; account_status = active; return_path = "/console" }

-- Nobody has an account yet.
abbrev nobody : Accounts
nobody = record { accounts = []; tenants = []; memberships = []; homes = []; links = [] }

-- The identifiers that are proposed for Alice's account and tenant.
abbrev proposed : String
proposed = "account_0123456789abcdef"

abbrev alice_in : Accounts
alice_in = with_account "alice" proposed "tenant" nobody

completes_now :
    complete env token csrf "alice" proposed "tenant" 1000 nobody (row ∷ [])
    ≡ ok ((done, alice_in), consume env 1000 row ∷ [])
unfolding complete secret_hash open_transaction email_binding check_email link_account update_where
    ensure_account_auth_link
completes_now = refl

-- The second login of Alice finds her account, whatever is proposed.
completes_again :
    complete env token csrf "alice" "account_fedcba9876543210" "other" 1000 alice_in (row ∷ [])
    ≡ ok ((done, alice_in), consume env 1000 row ∷ [])
unfolding complete secret_hash open_transaction email_binding check_email link_account update_where
    ensure_account_auth_link
completes_again = refl

complete_iff_example :
    (complete env token csrf "alice" proposed "tenant" 1000 nobody (row ∷ [])
      ≡ ok ((done, alice_in), consume env 1000 row ∷ []))
    ↔ Completes env token csrf "alice" proposed "tenant" 1000 nobody alice_in
        (row ∷ [])
        (consume env 1000 row ∷ [])
        done
complete_iff_example =
    complete_iff env token csrf "alice" proposed "tenant" 1000 nobody alice_in (row ∷ [])
      (consume env 1000 row ∷ []) done

-- Someone begins another login, and the completed one is tried again.
abbrev between : List Event
between =
    creates "/console/sites" csrf other_token 1500
    ∷ completes token csrf "alice" proposed "tenant" 2000 alice_in
    ∷ []

complete_once_example :
    complete env token csrf "alice" proposed "tenant" 3000 alice_in
      (run env between (consume env 1000 row ∷ []))
    ≢ ok ((done, alice_in), consume env 1000 row ∷ [])
complete_once_example =
    complete_once env token csrf "alice" proposed "tenant" 1000 nobody (row ∷ [])
      (consume env 1000 row ∷ []) (done, alice_in) between csrf "alice" proposed "tenant" 3000
      alice_in ((done, alice_in), consume env 1000 row ∷ []) completes_now (refl, (tt, tt))
