-- ===== src/Grants/Tests.antt =====
-- Grants on concrete inputs, and the theorems at them.
use wp_auto.Base.{
  ◌≤◌, ◌≡◌, refl, true, false, none, some, [], ◌∷◌, nat_eq, text_eq, bytes_eq, ok, err, count, any,
  arith,
}
use wp_auto.Base.{update_where}
use wp_auto.Base.Rows.{first}
use wp_auto.Contracts.{mcp_read}
use wp_auto.SiteProof.{Claims, Jwk, Library, Verified, consent, approved, denied, verify_site_proof}
use wp_auto.Grants.{
  Store, NewGrant, Created, completion_replay, has_id, has_key, is_open, insert_pending,
  create_pending, find_pending, activate, revoke,
}
use wp_auto.Grants.Service.{Services, CompleteInput, settle, check_consent, complete}
use wp_auto.Grants.Calls.{creates, activates, run}
use wp_auto.Grants.Single.{open_for, one_open_grant}
use wp_auto.Grants.Status.{in_status, closed_forever}
use wp_auto.Grants.Create.{created_once}
use wp_auto.Grants.Once.{decided_once}
use wp_auto.Grants.Complete.{Consents, Stores, complete_binds}
use wp_auto.Grants.Resolve.{
  Binding, GrantClaims, ExactRequest, GrantBinding, resolve, resolve_exact,
}
use wp_auto.Grants.Active.{revoked_unresolved}
use wp_auto.Base.{◌≢◌, sort_by, insert_by}
use wp_auto.Contracts.{scope_eq}

abbrev jwk : Jwk
jwk = record { x = "x"; kid = "site-key" }

abbrev claims : Claims
claims = record {
  kind = consent;
  iss = "site.example";
  platform_issuer = "https://auth";
  tenant_id = "tenant";
  site_id = some "site";
  pairing_attempt_id = none;
  platform_signing_key_sha256 = none;
  platform_signing_kid = none;
  grant_id = some "grant";
  subject_id = some "subject";
  client_id = some "client";
  resource = "https://site.example/mcp";
  aud = some "https://site.example/mcp";
  scope = some (mcp_read ∷ []);
  decision = some approved;
  challenge = "challenge";
  iat = 10;
  exp = 70;
}

abbrev library : Library
library = record {
  byte_length = λ s. 100;
  import_key = λ s. some jwk;
  header_of = λ s. some (record {
    members = "alg" ∷ "typ" ∷ "kid" ∷ [];
    alg = "EdDSA";
    typ = "wepuu-site-proof+jwt";
    kid = "site-key";
  });
  payload_of = λ proof key. some "payload";
  claims_of = λ payload. some claims;
  thumbprint_of = λ key. "thumbprint";
}

abbrev services : Services
services = record {
  issuer = "https://auth";
  urls = record {
    parse = λ s. none;
    set_hostname = λ host u. u;
    set_port = λ port u. u;
    lower_case = λ s. s;
    is_url = λ s. true;
  };
  hostname = λ s. "site.example";
  request_digest = λ i. 7 ∷ [];
  sha256 = λ s. 1 ∷ [];
  challenge_of = λ i. "challenge";
  sign = λ r. some "request";
  completion_digest = λ id thumbprint. 2 ∷ [];
  library = library;
}

abbrev asked : NewGrant
asked = record {
  tenant_id = "tenant";
  id = "grant";
  site_id = "site";
  subject_id = "subject";
  client_id = "client";
  scopes = mcp_read ∷ [];
  resource = "https://site.example/mcp";
  challenge_hash = 1 ∷ [];
  expires_at = 130000;
  consent_version = "1";
  idempotency_key = "create";
  request_digest = 7 ∷ [];
  created_at = 10000;
}

abbrev start : Store
start = record {
  grants = [];
  sites =
      record {
        tenant_id = "tenant";
        id = "site";
        resource = "https://site.example/mcp";
        public_jwk = "jwk";
        is_active = true;
      }
      ∷ [];
  receipts = [];
}

abbrev answer : Created
answer = record { id = "grant"; created_at = 10000; expires_at = 130000 }

abbrev after_create : Store
after_create = run (λ id t. 2 ∷ []) (creates asked ∷ []) start

abbrev verified : Verified
verified = record { claims = claims; public_jwk = jwk; thumbprint = "thumbprint" }

abbrev after_approval : Store
after_approval =
    run (λ id t. 2 ∷ []) (activates "tenant" "grant" "complete" "thumbprint" 20000 ∷ [])
      after_create

abbrev approval : CompleteInput
approval = record {
  tenant_id = "tenant";
  grant_id = "grant";
  proof = "proof";
  challenge = "challenge";
  decision = approved;
  idempotency_key = "complete";
}

created : create_pending asked start ≡ ok (answer, after_create)
unfolding create_pending insert_pending
created = refl

completes : complete services approval 15000 20000 after_create ≡ ok (verified, after_approval)
unfolding complete check_consent find_pending create_pending insert_pending activate update_where
    verify_site_proof
completes = refl

approves :
    settle services approved "tenant" "grant" "complete" "thumbprint" 20000 after_create
    ≡ ok after_approval
unfolding activate create_pending insert_pending update_where
approves = refl

no_receipt : first (has_key "tenant" false "complete") after_create.receipts ≡ none
unfolding create_pending insert_pending
no_receipt = refl

one_grant : count (has_id "tenant" "grant") after_create.grants ≤ 1
unfolding create_pending insert_pending
one_grant = omega arith

unused : first (has_key "tenant" false "other") after_approval.receipts ≡ none
unfolding activate create_pending insert_pending update_where
unused = refl

known : any (has_id "tenant" "grant") after_approval.grants ≡ true
unfolding activate create_pending insert_pending update_where
known = refl

created_once_example :
    create_pending (record asked { id = "another" }) after_create ≡ ok (answer, after_create)
created_once_example =
    created_once asked (record asked { id = "another" }) start after_create answer created refl refl

one_open_grant_example :
    count
      (open_for "tenant" "site" "subject" "client")
      (run
        (λ id t. 2 ∷ [])
        (creates asked ∷ creates (record asked { id = "b"; idempotency_key = "k" }) ∷ [])
        start).grants
    ≤ 1
one_open_grant_example =
    one_open_grant (λ id t. 2 ∷ []) "tenant" "site" "subject" "client"
      (creates asked ∷ creates (record asked { id = "b"; idempotency_key = "k" }) ∷ []) start refl

closed_forever_example :
    count
      (in_status is_open "tenant" "grant")
      (run
        (λ id t. 2 ∷ [])
        (creates asked ∷ activates "tenant" "grant" "late" "thumbprint" 40000 ∷ [])
        (revoke "tenant" "grant" "operator" 30000 after_approval).1).grants
    ≡ 0
closed_forever_example =
    closed_forever (λ id t. 2 ∷ []) "tenant" "grant" "operator" 30000
      (creates asked ∷ activates "tenant" "grant" "late" "thumbprint" 40000 ∷ []) after_approval
      known

decided_once_example :
    (settle services denied "tenant" "grant" "other" "thumbprint" 30000 after_approval
      ≡ err completion_replay)
    × (settle services denied "tenant" "grant" "complete" "thumbprint" 30000 after_approval
        ≡ ok after_approval)
decided_once_example =
    decided_once services approved denied "tenant" "grant" "complete" "other" "thumbprint"
      "thumbprint" 20000 30000 [] after_create after_approval approves no_receipt one_grant unused

complete_binds_example :
    Consents services approval 15000 after_create verified
    × Stores services approval "thumbprint" 20000 after_create after_approval
complete_binds_example =
    complete_binds services approval 15000 20000 after_create after_approval verified completes

abbrev claims_of_grant : GrantClaims
claims_of_grant = record { tenant_id = "tenant"; site_id = "site"; grant_id = "grant" }

abbrev exact : ExactRequest
exact = record {
  subject_id = "subject";
  client_id = "client";
  resource = "https://site.example/mcp";
  scopes = mcp_read ∷ [];
}

abbrev bound : GrantBinding
bound = record {
  tenant_id = "tenant";
  site_id = "site";
  grant_id = "grant";
  subject_id = "subject";
  client_id = "client";
  resource = "https://site.example/mcp";
  scopes = mcp_read ∷ [];
}

abbrev any_binding : Binding
any_binding = record { grant_id = none; client_id = some "client"; resource = none }

resolved : resolve "subject" any_binding after_approval ≡ some claims_of_grant
unfolding resolve activate create_pending insert_pending update_where
resolved = refl

resolved_exactly : resolve_exact exact after_approval ≡ ok (some bound)
unfolding resolve_exact activate create_pending insert_pending update_where sort_by insert_by
resolved_exactly = refl

revoked_unresolved_example :
    (resolve "subject" any_binding (
        run
          (λ id t. 2 ∷ [])
          (creates asked ∷ [])
          (revoke "tenant" "grant" "operator" 30000 after_approval).1)
      ≢ some claims_of_grant)
    × (resolve_exact exact (
          run
            (λ id t. 2 ∷ [])
            (creates asked ∷ [])
            (revoke "tenant" "grant" "operator" 30000 after_approval).1)
        ≢ ok (some bound))
revoked_unresolved_example =
    revoked_unresolved (λ id t. 2 ∷ []) "tenant" "grant" "operator" 30000 (creates asked ∷ [])
      after_approval "subject" any_binding exact claims_of_grant bound known refl refl refl refl
