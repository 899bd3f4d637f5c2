-- ===== src/Grants/Service.antt =====
-- packages/pairing/src/index.ts, `GrantService`: consent is asked for with a signed request, and decided
-- by a proof of the site. The parser of URLs,
-- hashes, the signer and the library that verifies proofs are parameters.
use wp_auto.Base.{
  ℕ, ◌+◌, ◌/◌, String, Bool, not, ◌&&◌, Option, none, some, List, ltb, leb, ◌==◌, nat_eq, text_eq,
  bytes_eq, Bytes, length, all, Result, ok, err, ◌>>=◌, ◌>>◌, guard, or_fail,
}
use wp_auto.Base.Text.{codes, is_word, is_digit, matches}
use wp_auto.Contracts.{McpScope, is_scope_set, is_opaque_id, is_client_id}
use wp_auto.SiteProof.{
  Diagnostic, Decision, approved, denied, Expected, Library, Verified, consent, verify_site_proof,
}
use wp_auto.SiteRequest.Resource.{Urls, Refusal, as_failure, canonicalize_resource}
use wp_auto.Grants.{
  Store, NewGrant, Created, PendingGrant, create_pending, find_pending, activate, deny,
}
use wp_auto.Grants.{Error as StoreError}

pub data Error : Type 0 where
  scopes_invalid input_invalid : Error
  not_a_resource : Refusal → Error
  repository : StoreError → Error
  signing_failed grant_not_pending challenge_invalid : Error
  proof_refused : Diagnostic → Error

-- `begin`'s argument, with the identifier of the new grant.
pub record BeginInput : Type 0 where
  pub tenant_id : String
  pub grant_id : String
  pub site_id : String
  pub subject_id : String
  pub client_id : String
  pub scopes : List McpScope
  pub resource : String
  pub consent_version : String
  pub idempotency_key : String

-- What the digest of a request and its challenge are made from.
pub record ImmutableInput : Type 0 where
  pub tenant_id : String
  pub site_id : String
  pub subject_id : String
  pub client_id : String
  pub scopes : List McpScope
  pub resource : String
  pub consent_version : String
  pub idempotency_key : String

-- The payload of a consent request; times are seconds.
pub record ConsentRequest : Type 0 where
  pub iss : String
  pub tenant_id : String
  pub site_id : String
  pub grant_id : String
  pub subject_id : String
  pub client_id : String
  pub resource : String
  pub scope : List McpScope
  pub challenge : String
  pub iat : ℕ
  pub exp : ℕ

pub record Begun : Type 0 where
  pub grant_id : String
  pub request : String
  pub challenge : String
  pub expires_at : ℕ

pub record CompleteInput : Type 0 where
  pub tenant_id : String
  pub grant_id : String
  pub proof : String
  pub challenge : String
  pub decision : Decision
  pub idempotency_key : String

-- The issuer, the parser of URLs, the host of a URL, the digest of the request, SHA-256, the challenge
-- of a request, the signer, the digest of a completion and the library of proofs.
pub record Services : Type 0 where
  pub issuer : String
  pub urls : Urls
  pub hostname : String → String
  pub request_digest : ImmutableInput → Bytes
  pub sha256 : String → Bytes
  pub challenge_of : ImmutableInput → String
  pub sign : ConsentRequest → Option String
  pub completion_digest : String → String → Bytes
  pub library : Library

abbrev pub immutable : BeginInput → String → ImmutableInput
immutable i resource = record {
  tenant_id = i.tenant_id;
  site_id = i.site_id;
  subject_id = i.subject_id;
  client_id = i.client_id;
  scopes = i.scopes;
  resource = resource;
  consent_version = i.consent_version;
  idempotency_key = i.idempotency_key;
}

abbrev pub two_minutes : ℕ
two_minutes = 120000

-- A failure of the repository is passed on.
abbrev pub lifted {ℓ} : {A : Type ℓ} → Result StoreError A → Result Error A
lifted (ok a) = ok a
lifted (err e) = err (repository e)

abbrev pub checked_proof : Result Diagnostic Verified → Result Error Verified
checked_proof (ok v) = ok v
checked_proof (err d) = err (proof_refused d)

-- /^\d+$/u
abbrev pub is_version : String → Bool
is_version s = ltb 0 (length (codes s)) && all is_digit (codes s)

module _ (services : Services) where
  open services use {
    issuer, urls, hostname, request_digest, sha256, challenge_of, sign, completion_digest, library,
  }

  abbrev pub is_input : BeginInput → Bool
  is_input i =
      is_opaque_id i.grant_id
      && (is_opaque_id i.site_id
          && (is_opaque_id i.subject_id
              && (is_client_id i.client_id
                  && (is_version i.consent_version && matches is_word 16 128 i.idempotency_key))))

  abbrev pub new_grant : BeginInput → String → String → ℕ → NewGrant
  new_grant i resource challenge now = record {
    tenant_id = i.tenant_id;
    id = i.grant_id;
    site_id = i.site_id;
    subject_id = i.subject_id;
    client_id = i.client_id;
    scopes = i.scopes;
    resource = resource;
    challenge_hash = sha256 challenge;
    expires_at = now + two_minutes;
    consent_version = i.consent_version;
    idempotency_key = i.idempotency_key;
    request_digest = request_digest (immutable i resource);
    created_at = now;
  }

  abbrev pub consent_request : BeginInput → String → String → Created → ConsentRequest
  consent_request i resource challenge created = record {
    iss = issuer;
    tenant_id = i.tenant_id;
    site_id = i.site_id;
    grant_id = created.id;
    subject_id = i.subject_id;
    client_id = i.client_id;
    resource = resource;
    scope = i.scopes;
    challenge = challenge;
    iat = created.created_at / 1000;
    exp = created.expires_at / 1000;
  }

  -- The grant that is stored, before the request is signed.
  unfoldable pub prepare : BeginInput → ℕ → Store → Result Error (String × String × Created × Store)
  prepare i now s = do
    guard (is_scope_set i.scopes) scopes_invalid
    resource ← as_failure not_a_resource (canonicalize_resource urls i.resource)
    guard (matches is_word 43 43 (challenge_of (immutable i resource))) input_invalid
    guard (is_input i) input_invalid
    created ←
        lifted (create_pending (new_grant i resource (challenge_of (immutable i resource)) now) s)
    ok (resource, challenge_of (immutable i resource), created.0, created.1)

  abbrev pub signed :
      BeginInput
      → Store
      → Result Error (String × String × Created × Store)
      → Result Error Begun × Store
  signed i s (err e) = (err e, s)
  signed i s (ok (resource, challenge, created, s')) = (
    or_fail (sign (consent_request i resource challenge created)) signing_failed >>= λ request.
        ok (record {
          grant_id = created.id;
          request = request;
          challenge = challenge;
          expires_at = created.expires_at;
        }),
    s',
  )

  -- A grant that was stored stays when the signer fails.
  unfoldable pub begin : BeginInput → ℕ → Store → Result Error Begun × Store
  unfolding prepare
  begin i now s = signed i s (prepare i now s)

  abbrev pub expected_of : PendingGrant → CompleteInput → ℕ → Expected
  expected_of g i now = record {
    kind = consent;
    platform_issuer = issuer;
    tenant_id = g.tenant_id;
    resource = g.resource;
    hostname = hostname g.resource;
    challenge = i.challenge;
    pairing_attempt_id = none;
    site_id = some g.site_id;
    platform_signing_key_sha256 = none;
    platform_signing_kid = none;
    grant_id = some g.id;
    client_id = some g.client_id;
    subject_id = some g.subject_id;
    scopes = some g.scopes;
    decision = some i.decision;
    now = now / 1000;
  }

  abbrev pub settle :
      Decision → String → String → String → String → ℕ → Store → Result StoreError Store
  settle approved tenant id key thumbprint now s =
      activate completion_digest tenant id key thumbprint now s
  settle denied tenant id key thumbprint now s =
      deny completion_digest tenant id key thumbprint now s

  -- The checks of `complete`: the grant that is pending, and the proof of its site.
  unfoldable pub check_consent : CompleteInput → ℕ → Store → Result Error (PendingGrant × Verified)
  check_consent i now s = do
    found ← lifted (find_pending i.tenant_id i.grant_id i.idempotency_key s)
    g ← or_fail found grant_not_pending
    guard (not (not g.completion_replay && leb g.expires_at now)) grant_not_pending
    guard (sha256 i.challenge == g.challenge_hash) challenge_invalid
    v ← checked_proof (verify_site_proof library i.proof g.public_jwk (expected_of g i now))
    ok (g, v)

  unfoldable pub complete : CompleteInput → ℕ → ℕ → Store → Result Error (Verified × Store)
  unfolding check_consent
  complete i now decided_at s = do
    checked ← check_consent i now s
    s' ← lifted (
        settle i.decision checked.0.tenant_id checked.0.id i.idempotency_key checked.1.thumbprint
          decided_at s)
    ok (checked.1, s')
