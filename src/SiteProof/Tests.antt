-- ===== src/SiteProof/Tests.antt =====
-- A site proof on concrete inputs, and the theorem at it.
use wp_auto.Base.{◌≡◌, refl, none, some, [], ◌∷◌, nat_eq, text_eq, bytes_eq, ok, err}
use wp_auto.Contracts.{mcp_read}
use wp_auto.SiteProof.{
  Claims, Expected, Jwk, Library, Verified, claims_invalid, consent, approved, denied,
  verify_site_proof,
}
use wp_auto.SiteProof.Bound.{proof_binds, IsSigned, Answers}

abbrev jwk : Jwk
jwk = record { x = "x"; kid = "site-key" }

abbrev claims : Claims
claims = record {
  kind = consent;
  iss = "site.example";
  platform_issuer = "https://auth";
  tenant_id = "tenant";
  site_id = some "site";
  pairing_attempt_id = none;
  platform_signing_key_sha256 = none;
  platform_signing_kid = none;
  grant_id = some "grant";
  subject_id = some "subject";
  client_id = some "client";
  resource = "https://site.example/mcp";
  aud = some "https://site.example/mcp";
  scope = some (mcp_read ∷ []);
  decision = some approved;
  challenge = "challenge";
  iat = 1000;
  exp = 1060;
}

abbrev lib : Library
lib = record {
  byte_length = λ s. 100;
  import_key = λ s. some jwk;
  header_of = λ s. some (record {
    members = "alg" ∷ "typ" ∷ "kid" ∷ [];
    alg = "EdDSA";
    typ = "wepuu-site-proof+jwt";
    kid = "site-key";
  });
  payload_of = λ proof key. some "payload";
  claims_of = λ payload. some claims;
  thumbprint_of = λ key. "thumbprint";
}

abbrev expected : Expected
expected = record {
  kind = consent;
  platform_issuer = "https://auth";
  tenant_id = "tenant";
  resource = "https://site.example/mcp";
  hostname = "site.example";
  challenge = "challenge";
  pairing_attempt_id = none;
  site_id = some "site";
  platform_signing_key_sha256 = none;
  platform_signing_kid = none;
  grant_id = some "grant";
  client_id = some "client";
  subject_id = some "subject";
  scopes = some (mcp_read ∷ []);
  decision = some approved;
  now = 1030;
}

abbrev verified : Verified
verified = record { claims = claims; public_jwk = jwk; thumbprint = "thumbprint" }

accepted : verify_site_proof lib "proof" "key" expected ≡ ok verified
unfolding verify_site_proof
accepted = refl

other_decision :
    verify_site_proof lib "proof" "key" (record expected { decision = some denied })
    ≡ err claims_invalid
unfolding verify_site_proof
other_decision = refl

proof_binds_example : IsSigned lib "proof" "key" verified × Answers expected claims
proof_binds_example = proof_binds lib "proof" "key" expected verified accepted
